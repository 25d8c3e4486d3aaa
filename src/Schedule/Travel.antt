-- ===== src/Schedule/Travel.antt =====
-- app/domain/services/travel_interval_service.py (RN-05, RF-22).
use event_pro_backend.Prelude.{
  ℕ, ◌+◌, ◌≤◌, ◌≡◌, ◌↔◌, Bool, true, false, Option, none, some, ℤ, pos, ltb_ℤ, leb_ℤ, ◌+ℤ◌,
  if◌then◌else◌, arith,
}
use event_pro_backend.Method.{Result, ok, err, and_then, value_error}
use event_pro_backend.Clock.{minutes}
use event_pro_backend.Schedule.{TimeWindow, gap_minutes_before, overlaps}

pub record TravelIntervalService : Type 0 where
  pub rest_buffer_minutes : ℤ

-- The constructor.
unfoldable pub travel_interval_service : ℤ → Result TravelIntervalService
travel_interval_service rest_buffer_minutes =
    if ltb_ℤ rest_buffer_minutes (pos 0)
    then err value_error
    else ok (record { rest_buffer_minutes = rest_buffer_minutes })

unfoldable pub required_interval_minutes : TravelIntervalService → ℤ → Option ℤ → Result ℤ
required_interval_minutes service transit_minutes none =
    if ltb_ℤ transit_minutes (pos 0)
    then err value_error
    else ok (transit_minutes +ℤ service.rest_buffer_minutes)
required_interval_minutes service transit_minutes (some override_minutes) =
    if ltb_ℤ transit_minutes (pos 0)
    then err value_error
    else if ltb_ℤ override_minutes (pos 0)
    then err value_error
    else ok override_minutes

unfoldable pub is_gap_feasible : TravelIntervalService → ℤ → ℤ → Option ℤ → Result Bool
unfolding required_interval_minutes
is_gap_feasible service gap_minutes transit_minutes override_minutes =
    and_then (required_interval_minutes service transit_minutes override_minutes)
      λ required. ok (leb_ℤ required gap_minutes)

unfoldable pub is_feasible :
    TravelIntervalService → TimeWindow → TimeWindow → ℤ → Option ℤ → Result Bool
unfolding is_gap_feasible gap_minutes_before
is_feasible service previous following transit_minutes override_minutes =
    is_gap_feasible service (gap_minutes_before previous following) transit_minutes override_minutes

-- With a rest buffer of `b` minutes and a transit of `m`, `is_feasible` answers yes exactly if the
-- following show starts at least m + b minutes after the previous one ends, or, where the encargado
-- has set an interval of `o` minutes, at least o minutes after; the two shows do not overlap then.
pub is_feasible_iff :
    (s : TravelIntervalService) (b m o : ℕ) (previous following : TimeWindow)
    → travel_interval_service (pos b) ≡ ok s
    → ((is_feasible s previous following (pos m) none ≡ ok true)
        ↔ (previous.end + minutes (m + b) ≤ following.start))
      × ((is_feasible s previous following (pos m) (some (pos o)) ≡ ok true)
          ↔ (previous.end + minutes o ≤ following.start))
      × (is_feasible s previous following (pos m) none ≡ ok true
          → overlaps previous following ≡ false)
unfolding travel_interval_service is_feasible ◌+ℤ◌ overlaps
is_feasible_iff s b m o previous following h = (
  (λ e. ground arith, λ e. ground arith),
  (λ e. ground arith, λ e. ground arith),
  λ e. ground arith,
)
