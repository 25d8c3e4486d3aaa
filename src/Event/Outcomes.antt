-- ===== src/Event/Outcomes.antt =====
-- What a call of a method of Event does to the event, if it does anything.
use mathlib.Core.Logic.{◌⊎◌, inl, inr}
use event_pro_backend.Prelude.{ℕ, ◌≡◌, Bool, true, false, some, ℤ, ◌+ℤ◌, arith}
use event_pro_backend.Method.{Result, ok, err, Result-cases}
use event_pro_backend.Clock.{DateTime, require_aware}
use event_pro_backend.Money.{Money, add}
use event_pro_backend.Schedule.{TimeWindow}
use event_pro_backend.Event.{
  Event, start, extend, settle, is_refused, may_start, is_operating, is_short, in_progress,
  extended, settled, window_with_extra_minutes, is_mismatch, is_uncovered,
}
use event_pro_backend.Event.Extension.{
  EventExtension, event_extension, validate_extra_minutes, validate_extension_amount,
}

abbrev pub is_err {ℓ} : {A : Type ℓ} → Result A → Bool
is_err (ok a) = false
is_err (err e) = true

-- `start` at an instant of UTC
pub record Started (e : Event) (amount : Money) (instant : ℕ) (r : Event) : Type 0 where
  pub could_start : may_start e.status ≡ true
  pub good_amount : is_refused amount ≡ false
  pub enough : is_short amount e ≡ ok false
  pub became : r ≡ record e {
    pre_show_balance_paid = amount;
    status = in_progress;
    actual_start_time = some instant;
  }

-- `extend` to the given sums
pub record Extended (e : Event) (minutes : ℤ) (rate extra final : Money) (window : TimeWindow)
    (r : Event) : Type 0 where
  pub was_operating : is_operating e.status ≡ true
  pub good_rate : validate_extension_amount rate false ≡ ok tt
  pub good_minutes : validate_extra_minutes (e.extra_minutes_total +ℤ minutes) false ≡ ok tt
  pub extra_sum : add e.extra_hours_amount rate ≡ ok extra
  pub final_sum : add e.final_total_amount rate ≡ ok final
  pub good_extra : validate_extension_amount extra false ≡ ok tt
  pub good_final : validate_extension_amount final false ≡ ok tt
  pub good_window : window_with_extra_minutes (e.extra_minutes_total +ℤ minutes) e ≡ ok window
  pub became : r ≡ record e {
    extra_minutes_total = e.extra_minutes_total +ℤ minutes;
    extra_hours_amount = extra;
    final_total_amount = final;
    status = extended;
  }

pub record Settled (e : Event) (amount : Money) (minutes : ℤ) (r : Event) : Type 0 where
  pub was_operating : is_operating e.status ≡ true
  pub good_amount : validate_extension_amount amount true ≡ ok tt
  pub matching : is_mismatch amount minutes e ≡ ok false
  pub covered : is_uncovered amount e ≡ ok false
  pub became : r ≡ record e { status = settled }

start-Started :
    (e : Event) (amount : Money) (at : DateTime) (instant : ℕ)
    → require_aware at ≡ ok instant
    → ((is_err (start amount at e).0 ≡ true) × ((start amount at e).1 ≡ e))
      ⊎ Started e amount instant (start amount at e).1
unfolding start
start-Started e amount at instant made = ground (arith, made)

pub start-outcome :
    (e : Event) (amount : Money) (at : DateTime)
    → ((is_err (start amount at e).0 ≡ true) × ((start amount at e).1 ≡ e))
      ⊎ ((instant : ℕ) × Started e amount instant (start amount at e).1)
unfolding start
start-outcome e amount at = elim (Result-cases (require_aware at)) [
  | inr (x, bad) ↦ inl (ground (arith, bad))
  | inl (instant, made) ↦ elim (start-Started e amount at instant made) [
    | inl kept ↦ inl kept
    | inr begun ↦ inr (instant, begun)
  ]
]

pub settle-outcome :
    (e : Event) (amount : Money) (minutes : ℤ)
    → ((is_err (settle amount minutes e).0 ≡ true) × ((settle amount minutes e).1 ≡ e))
      ⊎ Settled e amount minutes (settle amount minutes e).1
unfolding settle
settle-outcome e amount minutes = ground arith

module _ (e : Event) (id : ℕ) (minutes : ℤ) (rate : Money) (payment : ℕ) (at : DateTime) where
  extend-Extended :
      (x : EventExtension) (extra final : Money) (window : TimeWindow)
      → event_extension id e.id payment minutes rate at ≡ ok x
      → add e.extra_hours_amount rate ≡ ok extra
      → add e.final_total_amount rate ≡ ok final
      → window_with_extra_minutes (e.extra_minutes_total +ℤ minutes) e ≡ ok window
      → ((is_err (extend id minutes rate payment at e).0 ≡ true)
          × ((extend id minutes rate payment at e).1 ≡ e))
        ⊎ Extended e minutes rate extra final window (extend id minutes rate payment at e).1
  unfolding extend event_extension
  extend-Extended x extra final window made a b c = ground (arith, made, a, b, c)

  pub extend-outcome :
      ((is_err (extend id minutes rate payment at e).0 ≡ true)
        × ((extend id minutes rate payment at e).1 ≡ e))
      ⊎ ((extra : Money) × (final : Money) × (window : TimeWindow) × Extended e minutes rate extra
            final window
            (extend id minutes rate payment at e).1)
  unfolding extend
  extend-outcome = elim (Result-cases (event_extension id e.id payment minutes rate at)) [
    | inr (x, bad) ↦ inl (ground (arith, bad))
    | inl (x, made) ↦ elim (Result-cases (add e.extra_hours_amount rate)) [
      | inr (y, bad) ↦ inl (ground (arith, made, bad))
      | inl (extra, a) ↦ elim (Result-cases (add e.final_total_amount rate)) [
        | inr (y, bad) ↦ inl (ground (arith, made, a, bad))
        | inl (final, b) ↦
            elim (Result-cases (window_with_extra_minutes (e.extra_minutes_total +ℤ minutes) e)) [
              | inr (y, bad) ↦ inl (ground (arith, made, a, b, bad))
              | inl (window, c) ↦ elim (extend-Extended x extra final window made a b c) [
                | inl kept ↦ inl kept
                | inr done ↦ inr (extra, final, window, done)
              ]
            ]
      ]
    ]
  ]
