-- ===== src/Outbox/Calls.antt =====
-- The life of a message as a sequence of calls of the methods of OutboxMessage.
use event_pro_backend.Prelude.{ℕ, Bool, Option, Text, ◌≡◌}
use event_pro_backend.Method.{ok}
use event_pro_backend.Clock.{DateTime}
use event_pro_backend.Outbox.Schedule.{DeliveryStatus, RetrySchedule}
use event_pro_backend.Outbox.{
  OutboxMessage, NewMessage, create, mark_sent, register_failure, record_delivery, retry,
}

-- One call, whatever its arguments; a call that raises may be one of them.
pub data Call : Type 0 where
  sent_call : Text → ℕ → DateTime → Call
  failure_call : Text → Bool → DateTime → RetrySchedule → Call
  delivery_call : DeliveryStatus → Option Text → DateTime → Call
  retry_call : DateTime → Call

-- The message after a call, whether the call returned or raised.
unfoldable pub after : Call → OutboxMessage → OutboxMessage
after (sent_call external conversation now) m = (mark_sent external conversation now m).1
after (failure_call error permanent now schedule) m =
    (register_failure error permanent now schedule m).1
after (delivery_call status error at) m = (record_delivery status error at m).1
after (retry_call now) m = (retry now m).1

-- A message that `create` returned, after any calls.
pub data Reachable : OutboxMessage → Type 0 where
  created : {m : OutboxMessage} (id : ℕ) (r : NewMessage) → create id r ≡ ok m → Reachable m
  called : {m : OutboxMessage} (c : Call) → Reachable m → Reachable (after c m)
