-- ===== src/Quote/Lifecycle.antt =====
-- What a quote may become, and what of it never changes.
use event_pro_backend.Prelude.{
  ℕ, ◌≤◌, ◌<◌, ◌≡◌, ◌⊎◌, inl, inr, refl, ◌∙◌, true, Option, Text, text_eq_sound, arith, Bool-cases,
}
use event_pro_backend.Method.{Error, ok, err, invalid_quote_state, quote_expired}
use event_pro_backend.Clock.{DateTime, aware}
use event_pro_backend.Money.{Money, money_eq}
use event_pro_backend.Financial.Liquidations.{Liquidation}
use event_pro_backend.Quote.{
  Quote, sent, payment_started, expired, is_terminal, start_payment, convert, expire, cancel,
  override_mobility,
}
use event_pro_backend.Quote.Calls.{
  Call, start_call, convert_call, expire_call, cancel_call, override_call, after, ◌⟶◌, pay, close,
  lapse, drop, ◌⟶*◌, here, then, Later, same, called,
}

pub money_eq_sound : (a b : Money) → money_eq a b ≡ true → a ≡ b
money_eq_sound a b h =
    let currency : a.currency ≡ b.currency = text_eq_sound a.currency b.currency (ground arith) in
    ground (arith, currency)

-- A call moves the status along an edge of the life cycle, or leaves it.
pub after-⟶ :
    (c : Call) (q : Quote) → ((after c q).status ≡ q.status) ⊎ (q.status ⟶ (after c q).status)
unfolding after start_payment convert expire cancel override_mobility
after-⟶ (start_call now) q = grind (arith, pay)
after-⟶ convert_call q = grind (arith, close)
after-⟶ (expire_call now) q = grind (arith, lapse)
after-⟶ (cancel_call reason) q = grind (arith, drop)
after-⟶ (override_call liquidation reason) q = ground arith

-- What a call leaves as it is in every quote.
pub record IsFrozen (q r : Quote) : Type 0 where
  pub id : r.id ≡ q.id
  pub client : r.client_id ≡ q.client_id
  pub sent_at : r.sent_at ≡ q.sent_at
  pub expires_at : r.expires_at ≡ q.expires_at
  pub extras : r.extras ≡ q.extras
  pub advance : r.liquidation.advance_amount ≡ q.liquidation.advance_amount

IsFrozen-trans : {p q r : Quote} → IsFrozen p q → IsFrozen q r → IsFrozen p r
IsFrozen-trans h k = record {
  id = k.id ∙ h.id;
  client = k.client ∙ h.client;
  sent_at = k.sent_at ∙ h.sent_at;
  expires_at = k.expires_at ∙ h.expires_at;
  extras = k.extras ∙ h.extras;
  advance = k.advance ∙ h.advance;
}

override_mobility-IsFrozen :
    (l : Liquidation) (reason : Text) (q : Quote) → IsFrozen q (override_mobility l reason q).1
unfolding override_mobility
override_mobility-IsFrozen l reason q =
    elim (Bool-cases (money_eq l.advance_amount q.liquidation.advance_amount)) [
      | inl equal ↦
          ground (arith, money_eq_sound l.advance_amount q.liquidation.advance_amount equal)
      | inr differs ↦ ground arith
    ]

after-IsFrozen : (c : Call) (q : Quote) → IsFrozen q (after c q)
unfolding after start_payment convert expire cancel
after-IsFrozen (start_call instant) q = ground arith
after-IsFrozen convert_call q = ground arith
after-IsFrozen (expire_call instant) q = ground arith
after-IsFrozen (cancel_call reason) q = ground arith
after-IsFrozen (override_call l reason) q = override_mobility-IsFrozen l reason q

after-terminal : (c : Call) (q : Quote) → is_terminal q ≡ true → after c q ≡ q
unfolding after start_payment convert expire cancel override_mobility
after-terminal (start_call instant) q h = ground arith
after-terminal convert_call q h = ground arith
after-terminal (expire_call instant) q h = ground arith
after-terminal (cancel_call reason) q h = ground arith
after-terminal (override_call l reason) q h = ground arith

-- Whatever is called on a quote, with any arguments, calls that raise included, its status moves
-- along the life cycle only (SENT to PAYMENT_STARTED, PAYMENT_STARTED to CONVERTED, either open
-- status to EXPIRED or CANCELLED), and its client, its instants, its extras and the amount of its
-- advance never change.
pub Later-lifecycle : {q r : Quote} → Later q r → (q.status ⟶* r.status) × IsFrozen q r
Later-lifecycle same = (
  here,
  record {
    id = refl;
    client = refl;
    sent_at = refl;
    expires_at = refl;
    extras = refl;
    advance = refl;
  },
)
Later-lifecycle (called {r = r} c l) =
    let (path, frozen) = Later-lifecycle l in
    (
      elim (after-⟶ c r) [ inl stays ↦ rw stays path | inr moves ↦ then path moves ],
      IsFrozen-trans frozen (after-IsFrozen c r),
    )

-- A quote that is CONVERTED, EXPIRED or CANCELLED is never changed again, in any field.
pub Later-terminal : {q r : Quote} → is_terminal q ≡ true → Later q r → r ≡ q
Later-terminal h same = refl
Later-terminal {q} h (called {r = r} c l) =
    let before : r ≡ q = Later-terminal h l in rw before (after-terminal c q h)

-- For a SENT quote at an instant with a time zone, exactly one of `start_payment` and `expire`
-- goes through: the payment before the deadline, the expiry from it on, and each is refused, with
-- the quote unchanged, where the other goes through.
pub payment_or_expiry :
    (q : Quote) (t : ℕ)
    → q.status ≡ sent
    → ((t < q.expires_at)
        × (start_payment (aware t) q ≡ (ok tt, record q { status = payment_started }))
        × (expire (aware t) q ≡ (err invalid_quote_state, q)))
      ⊎ ((q.expires_at ≤ t)
          × (start_payment (aware t) q ≡ (err quote_expired, q))
          × (expire (aware t) q ≡ (ok tt, record q { status = expired })))
unfolding start_payment expire
payment_or_expiry q t h = ground arith

-- Whatever a method of Quote raises, the quote is unchanged.
pub error_changes_no_quote :
    (q : Quote) (instant : DateTime) (reason : Option Text) (l : Liquidation) (motive : Text)
    (e : Error)
    → ((start_payment instant q).0 ≡ err e → (start_payment instant q).1 ≡ q)
      × ((convert q).0 ≡ err e → (convert q).1 ≡ q)
      × ((expire instant q).0 ≡ err e → (expire instant q).1 ≡ q)
      × ((cancel reason q).0 ≡ err e → (cancel reason q).1 ≡ q)
      × ((override_mobility l motive q).0 ≡ err e → (override_mobility l motive q).1 ≡ q)
unfolding start_payment convert expire cancel override_mobility
error_changes_no_quote q instant reason l motive e =
    (ground arith, ground arith, ground arith, ground arith, ground arith)
