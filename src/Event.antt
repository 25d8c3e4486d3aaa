-- ===== src/Event.antt =====
-- app/domain/entities/event.py and event_extension.py: the aggregate Event and its extensions. The
-- proofs are in the modules below.
pub mod Extension
pub mod Calls
pub mod Outcomes
pub mod Balance
pub mod Closing
pub mod Terms
pub mod Window
pub mod Lifecycle
pub mod Invariant
pub mod Examples
use event_pro_backend.Prelude.{
  ℕ, ltb, ◌==◌, Bool, true, false, not, ◌||◌, Option, some, is_some, Text, length, has_text, ℤ, pos,
  ltb_ℤ, eqb_ℤ, ◌+ℤ◌, ◌*ℤ◌, if◌then◌else◌,
}
use event_pro_backend.Method.{
  Error, Result, ok, err, and_then, Method, lift, gets, modify, raise_if, ◌>>=◌, ◌>>◌, validation,
  overflow_error, invalid_event_state, balance_pending, extension_mismatch,
}
use event_pro_backend.Clock.{DateTime, require_aware, add_delta, minutes}
use event_pro_backend.Money.{Money, add, sub, less, zero_pen, money_eq}
use event_pro_backend.Financial.Liquidations.{not_pen, is_negative}
use event_pro_backend.Schedule.{TimeWindow, time_window, day, combine}
use event_pro_backend.Event.Extension.{
  EventExtension, event_extension, validate_extra_minutes, validate_extension_amount,
}

pub data EventStatus : Type 0 where
  awaiting_signature scheduled awaiting_balance in_progress extended settled cancelled : EventStatus

-- A date is its day and a time its microsecond of the day, both local. `created_at`, which no method
-- reads, is left out.
pub record Event : Type 0 where
  pub id : ℕ
  pub event_code : Text
  pub quote_id : ℕ
  pub event_date : ℕ
  pub start_time : ℕ
  pub end_time : ℕ
  pub address : Text
  pub district : Text
  pub total_services_amount : Money
  pub total_mobility_amount : Money
  pub final_total_amount : Money
  pub client_observations : Option Text
  pub status : EventStatus
  pub advance_paid : Money
  pub pre_show_balance_paid : Money
  pub extra_hours_amount : Money
  pub actual_start_time : Option ℕ
  pub extra_minutes_total : ℤ
  pub legacy_extra_hours_amount : Money

abbrev pub is_bad_text : Text → ℕ → Bool
is_bad_text value limit = not (has_text value) || ltb limit (length value)

-- not an amount of PEN, or a negative one
abbrev pub is_refused : Money → Bool
is_refused m = not_pen m || is_negative m

-- The constructor, with the checks of `__post_init__`.
unfoldable pub event : Event → Result Event
unfolding validate_extra_minutes has_text
event e = and_then (validate_extra_minutes e.extra_minutes_total true) λ _.
    if is_bad_text e.event_code 30 || is_bad_text e.address 255 || is_bad_text e.district 80
    then err validation
    else if is_refused e.total_services_amount
        || is_refused e.total_mobility_amount
        || is_refused e.final_total_amount
        || is_refused e.advance_paid
        || is_refused e.pre_show_balance_paid
        || is_refused e.extra_hours_amount
        || is_refused e.legacy_extra_hours_amount
    then err validation
    else if e.start_time == e.end_time
    then err validation
    else ok e

abbrev pub may_start : EventStatus → Bool
may_start scheduled = true
may_start awaiting_balance = true
may_start _ = false

abbrev pub is_operating : EventStatus → Bool
is_operating in_progress = true
is_operating extended = true
is_operating _ = false

unfoldable pub validate_start_state : Method Event (Unit {0})
validate_start_state =
    raise_if (λ e. not (may_start e.status) || is_some e.actual_start_time) invalid_event_state

-- `self.advance_paid + amount < self.final_total_amount`
pub is_short : Money → Event → Result Bool
unfolding add less
is_short amount e = and_then (add e.advance_paid amount) λ paid. less paid e.final_total_amount

-- A test of the source that may itself raise.
abbrev pub raise_when : (Event → Result Bool) → Error → Method Event (Unit {0})
raise_when test error = do e ← gets (λ e. e); found ← lift (test e); raise_if (λ _. found) error

unfoldable pub start : Money → DateTime → Method Event (Unit {0})
unfolding validate_start_state is_short require_aware
start verified_pre_show_amount started_at = do
  validate_start_state
  raise_if (λ _. is_refused verified_pre_show_amount) validation
  raise_when (is_short verified_pre_show_amount) balance_pending
  instant ← lift (require_aware started_at)
  modify (λ e. record e {
    pre_show_balance_paid = verified_pre_show_amount;
    status = in_progress;
    actual_start_time = some instant;
  })

-- `scheduled_time_window`: an end before the start belongs to the next day.
unfoldable pub scheduled_time_window : Event → Result TimeWindow
unfolding time_window add_delta
scheduled_time_window e =
    let start = combine e.event_date e.start_time in
    let end = combine e.event_date e.end_time in
    and_then (if ltb end start then add_delta end (pos day) else ok end)
      λ last. time_window start last

-- `except OverflowError: raise ValidationError`
abbrev pub overflow_is_validation {ℓ} : {A : Type ℓ} → Result A → Result A
overflow_is_validation (ok a) = ok a
overflow_is_validation (err overflow_error) = err validation
overflow_is_validation (err e) = err e

unfoldable pub window_with_extra_minutes : ℤ → Event → Result TimeWindow
unfolding validate_extra_minutes scheduled_time_window
window_with_extra_minutes extra e = and_then (validate_extra_minutes extra true) λ _.
    overflow_is_validation (
      and_then (scheduled_time_window e) λ original.
        and_then (add_delta original.end (extra *ℤ pos (minutes 1)))
          λ last. time_window original.start last)

-- The property `time_window`, and its alias `extended_time_window`.
unfoldable pub operating_window : Event → Result TimeWindow
unfolding window_with_extra_minutes
operating_window e = window_with_extra_minutes e.extra_minutes_total e

unfoldable pub validate_operating_state : Method Event (Unit {0})
validate_operating_state = raise_if (λ e. not (is_operating e.status)) invalid_event_state

-- `id` is the fresh `uuid4()` of the extension.
unfoldable pub extend : ℕ → ℤ → Money → ℕ → DateTime → Method Event EventExtension
unfolding validate_operating_state event_extension validate_extra_minutes validate_extension_amount
    add
extend id extra_minutes agreed_rate payment_id requested_at = do
  validate_operating_state
  event_id ← gets (λ e. e.id)
  extension ← lift (event_extension id event_id payment_id extra_minutes agreed_rate requested_at)
  total ← gets (λ e. e.extra_minutes_total +ℤ extra_minutes)
  lift (validate_extra_minutes total false)
  e ← gets (λ e. e)
  extra_amount ← lift (add e.extra_hours_amount agreed_rate)
  final_amount ← lift (add e.final_total_amount agreed_rate)
  lift (validate_extension_amount extra_amount false)
  lift (validate_extension_amount final_amount false)
  lift (window_with_extra_minutes total e)
  modify (λ e. record e {
    extra_minutes_total = total;
    extra_hours_amount = extra_amount;
    final_total_amount = final_amount;
    status = extended;
  })
  lift (ok extension)

-- `legacy + verified != self.extra_hours_amount or minutes != self.extra_minutes_total`
pub is_mismatch : Money → ℤ → Event → Result Bool
unfolding add
is_mismatch verified_amount verified_minutes e =
    and_then (add e.legacy_extra_hours_amount verified_amount) λ sum. ok (
      not (money_eq sum e.extra_hours_amount) || not (eqb_ℤ verified_minutes e.extra_minutes_total))

-- The sum of what was collected is below the final total.
pub is_uncovered : Money → Event → Result Bool
unfolding add less
is_uncovered verified_amount e = and_then (add e.advance_paid e.pre_show_balance_paid) λ a.
    and_then (add a e.legacy_extra_hours_amount)
      λ b. and_then (add b verified_amount) λ c. less c e.final_total_amount

unfoldable pub settle : Money → ℤ → Method Event (Unit {0})
unfolding validate_operating_state validate_extension_amount validate_extra_minutes is_mismatch
    is_uncovered
settle verified_extension_amount verified_extra_minutes = do
  validate_operating_state
  lift (validate_extension_amount verified_extension_amount true)
  lift (validate_extra_minutes verified_extra_minutes true)
  raise_when (is_mismatch verified_extension_amount verified_extra_minutes) extension_mismatch
  raise_when (is_uncovered verified_extension_amount) balance_pending
  modify (λ e. record e { status = settled })

unfoldable pub pending_balance_to_collect : Event → Result Money
unfolding sub zero_pen
pending_balance_to_collect e = and_then (sub e.final_total_amount e.advance_paid) λ a.
    and_then (sub a e.pre_show_balance_paid) λ b.
      and_then (sub b e.extra_hours_amount)
        λ remaining. ok (if ltb_ℤ (pos 0) remaining.cents then remaining else zero_pen)
