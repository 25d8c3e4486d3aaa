-- ===== src/Event/Balance.antt =====
-- What an event owes, from its start to its settlement.
use event_pro_backend.Prelude.{
  ltb_ℤ, ℕ, ◌+◌, ◌≤◌, ◌≡◌, refl, true, false, Bool, ℤ, pos, pos_part, ◌-ℤ◌, arith, inl, inr,
}
use event_pro_backend.Method.{ok}
use event_pro_backend.Clock.{DateTime}
use event_pro_backend.Money.{Money, add, zero_pen}
use event_pro_backend.Money.Laws.{soles, mul_one, add_pos, add-soles}
use event_pro_backend.Financial.Settlement.{soles_of}
use event_pro_backend.Event.{
  Event, EventStatus, event, start, extend, settle, is_refused, is_short, in_progress, extended,
  settled, pending_balance_to_collect,
}
use event_pro_backend.Event.Extension.{validate_extension_amount}
use event_pro_backend.Event.Outcomes.{start-outcome, extend-outcome, settle-outcome}
use event_pro_backend.Event.Calls.{
  Call, start_call, extend_call, settle_call, after, IsAccepted, Later, same, called,
}
use event_pro_backend.Event.Invariant.{Later-IsAccepted}

abbrev pub has_started : EventStatus → Bool
has_started in_progress = true
has_started extended = true
has_started settled = true
has_started _ = false

-- The cents of an amount that is not negative.
abbrev pub cents_of : Money → ℕ
cents_of m = pos_part m.cents

-- What was collected and agreed reaches the final total.
abbrev pub IsCovered : Event → Type 0
IsCovered e =
    cents_of e.final_total_amount
    ≤ cents_of e.advance_paid + cents_of e.pre_show_balance_paid + cents_of e.extra_hours_amount

pub amount-soles : (m : Money) → is_refused m ≡ false → m ≡ soles (pos (cents_of m))
amount-soles m h = soles_of m _ (ground arith) (ground arith)

pub IsAccepted-amounts :
    (e : Event)
    → IsAccepted e
    → (e.final_total_amount ≡ soles (pos (cents_of e.final_total_amount)))
      × (e.advance_paid ≡ soles (pos (cents_of e.advance_paid)))
      × (e.pre_show_balance_paid ≡ soles (pos (cents_of e.pre_show_balance_paid)))
      × (e.extra_hours_amount ≡ soles (pos (cents_of e.extra_hours_amount)))
      × (e.legacy_extra_hours_amount ≡ soles (pos (cents_of e.legacy_extra_hours_amount)))
unfolding event
IsAccepted-amounts e h = (
  amount-soles e.final_total_amount (ground arith),
  amount-soles e.advance_paid (ground arith),
  amount-soles e.pre_show_balance_paid (ground arith),
  amount-soles e.extra_hours_amount (ground arith),
  amount-soles e.legacy_extra_hours_amount (ground arith),
)

nothing_left :
    (f a p x : ℕ) → f ≤ a + p + x → ltb_ℤ (pos 0) (pos f -ℤ pos a -ℤ pos p -ℤ pos x) ≡ false
unfolding ◌-ℤ◌
nothing_left f a p x h = ground arith

pending_of :
    (e : Event) (f a p x : ℕ)
    → e.final_total_amount ≡ soles (pos f)
    → e.advance_paid ≡ soles (pos a)
    → e.pre_show_balance_paid ≡ soles (pos p)
    → e.extra_hours_amount ≡ soles (pos x)
    → f ≤ a + p + x
    → pending_balance_to_collect e ≡ ok zero_pen
unfolding pending_balance_to_collect
pending_of e f a p x hf ha hp hx c =
    rw (hf, ha, hp, hx) (simp mul_one (ground (arith, nothing_left f a p x c)))

pub pending-covered :
    (e : Event) → IsAccepted e → IsCovered e → pending_balance_to_collect e ≡ ok zero_pen
pending-covered e h c =
    let (f, a, p, x, _) = IsAccepted-amounts e h in pending_of e _ _ _ _ f a p x c

short_of :
    (e : Event) (amount : Money) (f a p : ℕ)
    → e.final_total_amount ≡ soles (pos f)
    → e.advance_paid ≡ soles (pos a)
    → amount ≡ soles (pos p)
    → is_short amount e ≡ ok false
    → f ≤ a + p
unfolding is_short
short_of e amount f a p hf ha hp enough =
    ground (arith, hf, ha, hp, add-soles (pos a) (pos p), add_pos a p)

pub is_short-covers :
    (e : Event) (amount : Money)
    → IsAccepted e
    → is_refused amount ≡ false
    → is_short amount e ≡ ok false
    → cents_of e.final_total_amount ≤ cents_of e.advance_paid + cents_of amount
is_short-covers e amount h good enough =
    let (f, a, _, _, _) = IsAccepted-amounts e h in
    short_of e amount _ _ _ f a (amount-soles amount good) enough

-- What holds of every event since its start.
abbrev IsPaid : Event → Type 0
IsPaid e = has_started e.status ≡ true → IsCovered e

-- The part of the final total that no extension added.
abbrev pub IsFixed : Event → Event → Type 0
IsFixed e r =
    cents_of r.final_total_amount + cents_of e.extra_hours_amount
    ≡ cents_of e.final_total_amount + cents_of r.extra_hours_amount

add_of :
    (m n r : Money) (a b : ℕ)
    → m ≡ soles (pos a)
    → n ≡ soles (pos b)
    → add m n ≡ ok r
    → cents_of r ≡ a + b
add_of m n r a b hm hn h = ground (arith, hm, hn, add-soles (pos a) (pos b), add_pos a b)

good_rate : (m : Money) → validate_extension_amount m false ≡ ok tt → m ≡ soles (pos (cents_of m))
unfolding validate_extension_amount
good_rate m h = amount-soles m (ground arith)

module _ (e : Event) (accepted : IsAccepted e) where
  start-IsPaid :
      (amount : Money) (at : DateTime)
      → IsPaid e
      → IsPaid (start amount at e).1 × IsFixed e (start amount at e).1
  start-IsPaid amount at paid = elim (start-outcome e amount at) [
    | inl (_, kept) ↦ rw kept (paid, refl)
    | inr (i, s) ↦
        let covers = is_short-covers e amount accepted s.good_amount s.enough in
        rw s.became (λ _. omega arith, refl)
  ]

  extend-IsPaid :
      (id : ℕ) (minutes : ℤ) (rate : Money) (payment : ℕ) (at : DateTime)
      → IsPaid e
      → IsPaid (extend id minutes rate payment at e).1
        × IsFixed e (extend id minutes rate payment at e).1
  extend-IsPaid id minutes rate payment at paid =
      elim (extend-outcome e id minutes rate payment at) [
        | inl (_, kept) ↦ rw kept (paid, refl)
        | inr (extra, final, _, x) ↦
            let (f, _, _, h, _) = IsAccepted-amounts e accepted in
            let rate_soles = good_rate rate x.good_rate in
            let before : IsCovered e = paid (ground (arith, x.was_operating)) in
            let new_final = add_of e.final_total_amount rate final _ _ f rate_soles x.final_sum in
            let new_extra = add_of e.extra_hours_amount rate extra _ _ h rate_soles x.extra_sum in
            rw x.became (λ _. omega arith, omega arith)
      ]

  settle-IsPaid :
      (amount : Money) (minutes : ℤ)
      → IsPaid e
      → IsPaid (settle amount minutes e).1 × IsFixed e (settle amount minutes e).1
  settle-IsPaid amount minutes paid = elim (settle-outcome e amount minutes) [
    | inl (_, kept) ↦ rw kept (paid, refl)
    | inr s ↦
        let before : IsCovered e = paid (ground (arith, s.was_operating)) in
        rw s.became (λ _. before, refl)
  ]

after-IsPaid :
    (c : Call) (e : Event) → IsAccepted e → IsPaid e → IsPaid (after c e) × IsFixed e (after c e)
unfolding after
after-IsPaid (start_call amount at) e h p = start-IsPaid e h amount at p
after-IsPaid (extend_call id minutes rate payment at) e h p =
    extend-IsPaid e h id minutes rate payment at p
after-IsPaid (settle_call amount minutes) e h p = settle-IsPaid e h amount minutes p

pub Later-IsPaid :
    (e : Event)
    → IsAccepted e
    → has_started e.status ≡ false
    → {r : Event} → Later e r
    → IsPaid r × IsFixed e r
Later-IsPaid e h new same = (λ s. ground (arith, new), refl)
Later-IsPaid e h new (called {r} c l) =
    let (paid, fixed) = Later-IsPaid e h new l in
    let (paid_after, fixed_after) = after-IsPaid c r (Later-IsAccepted e h l) paid in
    (paid_after, omega arith)

-- An accepted event that has not started, under any sequence of calls of start, extend and settle,
-- those that raise included, is always accepted by the constructor; once it has started (in
-- progress, extended or settled) nothing is pending to collect; and the final total without
-- the agreed extra hours never changes.
pub started_owes_nothing :
    (e r : Event)
    → IsAccepted e
    → has_started e.status ≡ false
    → Later e r
    → IsAccepted r
      × (has_started r.status ≡ true → pending_balance_to_collect r ≡ ok zero_pen)
      × (cents_of r.final_total_amount + cents_of e.extra_hours_amount
          ≡ cents_of e.final_total_amount + cents_of r.extra_hours_amount)
started_owes_nothing e r h new l =
    let (paid, fixed) = Later-IsPaid e h new l in
    let kept = Later-IsAccepted e h l in (kept, λ s. pending-covered r kept (paid s), fixed)
