-- ===== src/Event/Window.antt =====
-- The hours of an event and their extension.
use native.Mathlib.Decide.{dec_lt}
use event_pro_backend.Prelude.{
  ℕ, ◌+◌, ◌≤◌, ◌<◌, ◌≡◌, sym, false, ltb, if◌then◌else◌, ℤ, pos, pos_part, ◌+ℤ◌, ◌*ℤ◌, arith, inl,
  inr,
}
use event_pro_backend.Method.{ok, err, validation}
use event_pro_backend.Clock.{DateTime, add_delta, minutes, end_of_time}
use event_pro_backend.Money.{Money}
use event_pro_backend.Schedule.{TimeWindow, time_window, day, combine}
use event_pro_backend.Event.{
  Event, event, extend, scheduled_time_window, window_with_extra_minutes, operating_window,
}
use event_pro_backend.Event.Extension.{EventExtension, validate_extra_minutes}
use event_pro_backend.Event.Calls.{IsAccepted}
use event_pro_backend.Event.Outcomes.{extend-outcome}

-- The first instant of the hours of an event, and the end of its scheduled hours.
abbrev pub opening : Event → ℕ
opening e = combine e.event_date e.start_time

abbrev pub closing : Event → ℕ
closing e =
    if ltb (combine e.event_date e.end_time) (opening e)
    then combine e.event_date e.end_time + day
    else combine e.event_date e.end_time

-- For an accepted event with its times inside the day and any number of extra minutes in range: the
-- window has the scheduled start and ends that many minutes after the scheduled end, which is
-- after the start by less than a day, if that end is in the range of `datetime`; if it is not, there
-- is a validation error.
pub window_exact :
    (e : Event) (extra : ℕ)
    → IsAccepted e
    → e.start_time < day
    → e.end_time < day
    → extra ≤ 2147483647
    → (closing e + minutes extra < end_of_time
        → window_with_extra_minutes (pos extra) e
          ≡ ok (record { start = opening e; end = closing e + minutes extra }))
      × (end_of_time ≤ closing e + minutes extra
          → window_with_extra_minutes (pos extra) e ≡ err validation)
      × (opening e < closing e)
      × (closing e < opening e + day)
unfolding event window_with_extra_minutes scheduled_time_window time_window add_delta ◌*ℤ◌
    validate_extra_minutes
window_exact e extra h hs he hx = (λ b. ground arith, λ b. ground arith, ground arith, ground arith)

total_of :
    (e : Event) (n : ℕ)
    → IsAccepted e
    → e.extra_minutes_total +ℤ pos n ≡ pos (pos_part e.extra_minutes_total + n)
unfolding event ◌+ℤ◌
total_of e n h = ground arith

in_range : (k : ℕ) → validate_extra_minutes (pos k) false ≡ ok tt → k ≤ 2147483647
unfolding validate_extra_minutes
in_range k h = ground arith

window_found :
    (e : Event) (t : ℤ) (k : ℕ) (w : TimeWindow)
    → IsAccepted e
    → e.start_time < day
    → e.end_time < day
    → t ≡ pos k
    → validate_extra_minutes t false ≡ ok tt
    → window_with_extra_minutes t e ≡ ok w
    → window_with_extra_minutes t e ≡ ok (record { start = opening e; end = closing e + minutes k })
window_found e t k w h hs he total valid found =
    let (inside, outside, _, _) = window_exact e k h hs he (in_range k (rw (sym total) valid)) in
    elim (dec_lt (closing e + minutes k) end_of_time) [
      | yes p ↦ rw total (inside p)
      | no q ↦ ground (arith, total, found, outside (omega arith))
    ]

-- An `extend` that returns, of an accepted event in its operation with its times inside the day,
-- leaves the start of the hours as it was and moves their end to the scheduled end and all the
-- extra minutes, the new ones on top of the earlier ones; so the hours never shrink.
pub extend_lengthens :
    (e : Event) (id n : ℕ) (rate : Money) (payment : ℕ) (at : DateTime) (x : EventExtension)
    → IsAccepted e
    → e.start_time < day
    → e.end_time < day
    → (extend id (pos n) rate payment at e).0 ≡ ok x
    → let r = (extend id (pos n) rate payment at e).1 in
      let total = pos_part e.extra_minutes_total + n in
      (operating_window r ≡ ok (record { start = opening e; end = closing e + minutes total }))
      × (r.extra_minutes_total ≡ pos total)
unfolding operating_window window_with_extra_minutes
extend_lengthens e id n rate payment at x h hs he returned =
    elim (extend-outcome e id (pos n) rate payment at) [
      | inl (raised, _) ↦ ground (arith, raised, returned)
      | inr (extra, final, window, done) ↦
          let total = total_of e n h in
          let at_end = window_found e _ _ window h hs he total done.good_minutes done.good_window in
          rw done.became (at_end, total)
    ]
