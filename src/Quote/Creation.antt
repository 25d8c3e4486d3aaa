-- ===== src/Quote/Creation.antt =====
-- What holds of a quote when `Quote.create` returns it.
use event_pro_backend.Prelude.{
  ℕ, ◌+◌, ◌*◌, ◌<◌, ◌≡◌, true, false, inl, inr, arith, pos, pos_part, ◌≤ℤ◌, ◌<ℤ◌, ◌*ℤ◌,
}
use event_pro_backend.Method.{ok, Result-cases}
use event_pro_backend.Clock.{aware, add_delta, hours}
use event_pro_backend.Money.{Money, money_eq, greater, zero_pen}
use event_pro_backend.Quote.{Quote, NewQuote, sent, create, add_lines, is_exempt, bool_eq}
use event_pro_backend.Quote.Lifecycle.{money_eq_sound}

-- A deadline of `n` hours after an instant, if the calendar reaches it.
add_hours : (t e n : ℕ) → add_delta t (pos n *ℤ pos (hours 1)) ≡ ok e → e ≡ t + n * hours 1
unfolding add_delta ◌*ℤ◌
add_hours t e n h = ground arith

pub record IsFresh (r : NewQuote) (q : Quote) : Type 0 where
  pub is_sent : q.status ≡ sent
  pub sent_now : r.now ≡ aware q.sent_at
  pub deadline : q.expires_at ≡ q.sent_at + pos_part r.deadline_hours * hours 1
  pub open_for_payment : q.sent_at < q.expires_at
  pub mobility_agrees : q.liquidation.mobility_amount ≡ r.mobility.final_amount
  pub exemption_agrees : q.client_provides_mobility ≡ is_exempt r.mobility.scenario
  pub frozen : q.liquidation ≡ r.liquidation

-- The sum of the extras, which the services cover.
abbrev pub ExtrasFit : Quote → Type 0
ExtrasFit q =
    (total : Money) × (add_lines zero_pen q.extras ≡ ok total)
    × (total.cents ≤ℤ q.liquidation.services_subtotal.cents)

-- The checks that `create` has passed when it returns.
record Passed (r : NewQuote) (q : Quote) (total : Money) : Type 0 where
  instant : r.now ≡ aware q.sent_at
  positive : pos 0 <ℤ r.deadline_hours
  exemption : bool_eq r.client_provides_mobility (is_exempt r.mobility.scenario) ≡ true
  amounts : money_eq r.liquidation.mobility_amount r.mobility.final_amount ≡ true
  fits : greater total r.liquidation.services_subtotal ≡ ok false
  until : add_delta q.sent_at (r.deadline_hours *ℤ pos (hours 1)) ≡ ok q.expires_at
  status : q.status ≡ sent
  extras : q.extras ≡ r.extras
  liquidation : q.liquidation ≡ r.liquidation
  mobility : q.client_provides_mobility ≡ r.client_provides_mobility

create-Passed :
    (id : ℕ) (r : NewQuote) (q : Quote) (total : Money)
    → add_lines zero_pen r.extras ≡ ok total
    → create id r ≡ ok q
    → Passed r q total
unfolding create
create-Passed id r q total sum h = ground arith

Passed-IsFresh : (r : NewQuote) (q : Quote) (total : Money) → Passed r q total → IsFresh r q
Passed-IsFresh r q total p =
    let hours_given : r.deadline_hours ≡ pos (pos_part r.deadline_hours) =
      ground (arith, p.positive) in
    let at : q.expires_at ≡ q.sent_at + pos_part r.deadline_hours * hours 1 =
      add_hours q.sent_at q.expires_at (pos_part r.deadline_hours) (rw hours_given at p.until) in
    record {
      is_sent = p.status;
      sent_now = p.instant;
      deadline = at;
      open_for_payment = ground (arith, at, p.positive);
      mobility_agrees = rw (p.liquidation) (money_eq_sound _ _ p.amounts);
      exemption_agrees = ground (arith, p.exemption, p.mobility);
      frozen = p.liquidation;
    }

-- A quote that `create` returns is SENT, with the instant it was given and a deadline exactly the
-- given hours later, so after it was sent; its liquidation is the one given, charges the mobility
-- that was resolved, and is exempt exactly if the client provides the mobility; and the sum of
-- its extras is not above the services' subtotal.
pub create-IsFresh :
    (id : ℕ) (r : NewQuote) (q : Quote) → create id r ≡ ok q → IsFresh r q × ExtrasFit q
unfolding create greater
create-IsFresh id r q h = elim (Result-cases (add_lines zero_pen r.extras)) [
  | inr (e, fails) ↦ absurd (ground (arith, fails))
  | inl (total, sum) ↦
      let p = create-Passed id r q total sum h in
      (
        Passed-IsFresh r q total p,
        (total, rw (p.extras) sum, rw (p.liquidation) (ground (arith, p.fits))),
      )
]
