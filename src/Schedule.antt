-- ===== src/Schedule.antt =====
-- app/domain/value_objects/time_window.py and the domain services that use it. The two ends of a
-- window are microseconds of one clock: the code compares windows that are all local or all UTC.
pub mod Overlap
pub mod Inventory
pub mod Concurrency
pub mod Travel
pub mod Stock
mod Examples
use event_pro_backend.Prelude.{
  ℕ, ◌+◌, ◌*◌, ◌/◌, ltb, leb, ◌==◌, Bool, ◌&&◌, ◌||◌, ℤ, pos, negsuc, sub_ℕ, leb_ℤ, ◌*ℤ◌,
  if◌then◌else◌,
}
use event_pro_backend.Method.{Result, ok, err, and_then, value_error}
use event_pro_backend.Clock.{add_delta, minutes}

pub record TimeWindow : Type 0 where
  pub start : ℕ
  pub end : ℕ

-- The constructor, with the check of `__post_init__`.
unfoldable pub time_window : ℕ → ℕ → Result TimeWindow
time_window start end =
    if leb end start then err value_error else ok (record { start = start; end = end })

-- One day.
abbrev pub day : ℕ
day = 86400000000

-- `datetime.combine`: of a day counted from `date.min` and a time of day.
abbrev pub combine : ℕ → ℕ → ℕ
combine date time = date * day + time

-- `TimeWindow.from_schedule`
unfoldable pub from_schedule : ℕ → ℕ → ℤ → Result TimeWindow
unfolding time_window
from_schedule event_date start_time duration_minutes =
    if leb_ℤ duration_minutes (pos 0)
    then err value_error
    else and_then (add_delta (combine event_date start_time) (duration_minutes *ℤ pos (minutes 1)))
        λ end. time_window (combine event_date start_time) end

-- `TimeWindow.from_event`
unfoldable pub from_event : ℕ → ℕ → ℕ → Result TimeWindow
unfolding time_window add_delta
from_event event_date start_time end_time =
    let start = combine event_date start_time in
    let end = combine event_date end_time in
    if end == start
    then err value_error
    else and_then (if ltb end start then add_delta end (pos day) else ok end)
        λ last. time_window start last

-- `int(delta.total_seconds() // 60)` of a difference in microseconds: the floor.
unfoldable pub whole_minutes : ℤ → ℤ
whole_minutes (pos n) = pos (n / minutes 1)
whole_minutes (negsuc n) = negsuc (n / minutes 1)

-- `TimeWindow.duration_minutes`
unfoldable pub duration_minutes : TimeWindow → ℤ
unfolding whole_minutes
duration_minutes w = whole_minutes (sub_ℕ w.end w.start)

unfoldable pub overlaps : TimeWindow → TimeWindow → Bool
overlaps w other = ltb w.start other.end && ltb other.start w.end

unfoldable pub is_adjacent : TimeWindow → TimeWindow → Bool
is_adjacent w other = w.end == other.start || other.end == w.start

-- `gap_minutes_before`: negative if `other` starts before this window ends.
unfoldable pub gap_minutes_before : TimeWindow → TimeWindow → ℤ
unfolding whole_minutes
gap_minutes_before w other = whole_minutes (sub_ℕ other.start w.end)
