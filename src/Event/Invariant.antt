-- ===== src/Event/Invariant.antt =====
-- The checks of `Event.__post_init__` after each method.
use event_pro_backend.Prelude.{ℕ, ◌≡◌, false, some, ℤ, arith, inl, inr}
use event_pro_backend.Method.{ok}
use event_pro_backend.Clock.{DateTime}
use event_pro_backend.Money.{Money}
use event_pro_backend.Event.{
  Event, event, start, extend, settle, is_refused, in_progress, extended, settled,
}
use event_pro_backend.Event.Extension.{validate_extra_minutes, validate_extension_amount}
use event_pro_backend.Event.Outcomes.{start-outcome, extend-outcome, settle-outcome}
use event_pro_backend.Event.Calls.{
  Call, start_call, extend_call, settle_call, after, IsAccepted, Later, same, called,
}

module _ (e : Event) (accepted : IsAccepted e) where
  started :
      (amount : Money) (instant : ℕ)
      → is_refused amount ≡ false
      → IsAccepted (record e {
        pre_show_balance_paid = amount;
        status = in_progress;
        actual_start_time = some instant;
      })
  unfolding event
  started amount instant good = ground arith

  prolonged :
      (minutes : ℤ) (extra final : Money)
      → validate_extra_minutes minutes false ≡ ok tt
      → validate_extension_amount extra false ≡ ok tt
      → validate_extension_amount final false ≡ ok tt
      → IsAccepted (record e {
        extra_minutes_total = minutes;
        extra_hours_amount = extra;
        final_total_amount = final;
        status = extended;
      })
  unfolding event validate_extra_minutes validate_extension_amount
  prolonged minutes extra final a b c = ground arith

  closed : IsAccepted (record e { status = settled })
  unfolding event
  closed = ground arith

  pub start-IsAccepted : (amount : Money) (at : DateTime) → IsAccepted (start amount at e).1
  start-IsAccepted amount at = elim (start-outcome e amount at) [
    | inl (_, kept) ↦ rw kept accepted
    | inr (i, s) ↦ rw s.became (started amount i s.good_amount)
  ]

  pub extend-IsAccepted :
      (id : ℕ) (minutes : ℤ) (rate : Money) (payment : ℕ) (at : DateTime)
      → IsAccepted (extend id minutes rate payment at e).1
  extend-IsAccepted id minutes rate payment at =
      elim (extend-outcome e id minutes rate payment at) [
        | inl (_, kept) ↦ rw kept accepted
        | inr (extra, final, _, x) ↦
            rw x.became (prolonged _ extra final x.good_minutes x.good_extra x.good_final)
      ]

  pub settle-IsAccepted : (amount : Money) (minutes : ℤ) → IsAccepted (settle amount minutes e).1
  settle-IsAccepted amount minutes = elim (settle-outcome e amount minutes) [
    | inl (_, kept) ↦ rw kept accepted
    | inr s ↦ rw s.became closed
  ]

after-IsAccepted : (c : Call) (e : Event) → IsAccepted e → IsAccepted (after c e)
unfolding after
after-IsAccepted (start_call amount at) e h = start-IsAccepted e h amount at
after-IsAccepted (extend_call id minutes rate payment at) e h =
    extend-IsAccepted e h id minutes rate payment at
after-IsAccepted (settle_call amount minutes) e h = settle-IsAccepted e h amount minutes

pub Later-IsAccepted : (e : Event) → IsAccepted e → {r : Event} → Later e r → IsAccepted r
Later-IsAccepted e h same = h
Later-IsAccepted e h (called {r} c l) = after-IsAccepted c r (Later-IsAccepted e h l)
