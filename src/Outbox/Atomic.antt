-- ===== src/Outbox/Atomic.antt =====
-- The message beside the exception of a call that raises.
use event_pro_backend.Prelude.{ℕ, ◌+◌, ◌≡◌, ◌≢◌, Bool, Option, Text, List, ℤ, arith}
use event_pro_backend.Method.{Error, ok, err, overflow_error}
use event_pro_backend.Clock.{DateTime}
use event_pro_backend.Outbox.Schedule.{DeliveryStatus, RetrySchedule}
use event_pro_backend.Outbox.{OutboxMessage, mark_sent, register_failure, record_delivery, retry}
use event_pro_backend.Outbox.Schedule.{retry_schedule}
use event_pro_backend.Outbox.Waits.{delay_after-retry_schedule}

-- Whatever a method of OutboxMessage raises, the message is unchanged, with one exception: a
-- `register_failure` whose next attempt would fall outside the range of `datetime` has counted
-- the attempt already, so `OverflowError` is excepted there. The schedule is one that the
-- constructor accepts.
pub error_changes_nothing :
    (m : OutboxMessage) (external text_of_error : Text) (conversation : ℕ) (permanent : Bool)
    (now : DateTime) (status : DeliveryStatus) (error : Option Text) (ds : List ℤ)
    (s : RetrySchedule) (e : Error)
    → retry_schedule ds ≡ ok s
    → ((mark_sent external conversation now m).0 ≡ err e
        → (mark_sent external conversation now m).1 ≡ m)
      × ((register_failure text_of_error permanent now s m).0 ≡ err e
          → e ≢ overflow_error
          → (register_failure text_of_error permanent now s m).1 ≡ m)
      × ((record_delivery status error now m).0 ≡ err e
          → (record_delivery status error now m).1 ≡ m)
      × ((retry now m).0 ≡ err e → (retry now m).1 ≡ m)
unfolding mark_sent register_failure record_delivery retry
error_changes_nothing m external text_of_error conversation permanent now status error ds s e h =
    let (d, found, _, _) = delay_after-retry_schedule ds s (m.attempts + 1) h (omega arith) in
    (ground arith, λ r ne. ground (arith, found), ground arith, ground arith)
