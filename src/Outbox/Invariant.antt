-- ===== src/Outbox/Invariant.antt =====
-- What holds of every message of the queue, between two calls of its methods.
use event_pro_backend.Prelude.{
  ℕ, ◌≤◌, ◌<◌, ◌≡◌, Bool, true, false, ◌&&◌, ◌⊎◌, Option, none, is_none, is_some, Text, arith,
}
use event_pro_backend.Method.{ok, err, invalid_outbox_state}
use event_pro_backend.Clock.{DateTime, aware}
use event_pro_backend.Outbox.Schedule.{pending, sent, failed, DeliveryStatus, RetrySchedule}
use event_pro_backend.Outbox.{
  OutboxMessage, NewMessage, is_sent, is_rejected, is_read, is_settled, create, mark_sent,
  register_failure, record_delivery, is_retryable, retry, keep_external_id,
}
use event_pro_backend.Outbox.Calls.{
  Call, sent_call, failure_call, delivery_call, retry_call, after, Reachable, created, called,
}

pub record IsConsistent (m : OutboxMessage) : Type 0 where
  -- at least one attempt is allowed, and a message that waits has one left
  pub some_attempt : 0 < m.max_attempts
  pub open_attempt : m.status ≡ pending → m.attempts < m.max_attempts
  pub attempts_capped : m.attempts ≤ m.max_attempts
  -- the content is gone exactly when it was to be redacted and the message is sent
  pub redacted : is_none m.payload ≡ (m.redact_after_send && is_sent m.status)
  -- the receipt of the gateway is there exactly while the message is sent
  pub sent_stamp : is_some m.sent_at ≡ is_sent m.status
  pub external_id : is_some m.external_message_id ≡ is_sent m.status
  pub conversation : is_some m.conversation_id ≡ is_sent m.status
  -- a notice of delivery belongs to a sent message, and its stamps agree with it
  pub delivery_sent : is_some m.delivery_status ≡ true → m.status ≡ sent
  pub read_stamp : is_some m.read_at ≡ is_read m.delivery_status
  pub delivered_stamp : is_some m.delivered_at ≡ is_settled m.delivery_status
  pub delivery_error : is_some m.delivery_error ≡ true → is_rejected m.delivery_status ≡ true
  -- a failed message says why
  pub failure_reason : m.status ≡ failed → is_some m.last_error ≡ true

pub create-IsConsistent :
    (id : ℕ) (r : NewMessage) (m : OutboxMessage) → create id r ≡ ok m → IsConsistent m
unfolding create
create-IsConsistent id r m h = ground arith

module _ (m : OutboxMessage) where
  pub mark_sent-IsConsistent :
      (external : Text) (conversation : ℕ) (now : DateTime)
      → IsConsistent m
      → IsConsistent (mark_sent external conversation now m).1
  unfolding mark_sent
  mark_sent-IsConsistent external conversation now h = ground arith

  pub register_failure-IsConsistent :
      (error : Text) (permanent : Bool) (now : DateTime) (schedule : RetrySchedule)
      → IsConsistent m
      → IsConsistent (register_failure error permanent now schedule m).1
  unfolding register_failure
  register_failure-IsConsistent error permanent now schedule h = ground arith

  pub record_delivery-IsConsistent :
      (status : DeliveryStatus) (error : Option Text) (at : DateTime)
      → IsConsistent m
      → IsConsistent (record_delivery status error at m).1
  unfolding record_delivery
  record_delivery-IsConsistent status error at h = ground arith

  pub retry-IsConsistent : (now : DateTime) → IsConsistent m → IsConsistent (retry now m).1
  unfolding retry
  retry-IsConsistent now h = ground arith

pub after-IsConsistent : (c : Call) (m : OutboxMessage) → IsConsistent m → IsConsistent (after c m)
unfolding after
after-IsConsistent (sent_call external conversation now) m h =
    mark_sent-IsConsistent m external conversation now h
after-IsConsistent (failure_call error permanent now schedule) m h =
    register_failure-IsConsistent m error permanent now schedule h
after-IsConsistent (delivery_call status error at) m h =
    record_delivery-IsConsistent m status error at h
after-IsConsistent (retry_call now) m h = retry-IsConsistent m now h

-- Every message that `create` returns is consistent, and stays so under any sequence of calls of
-- `mark_sent`, `register_failure`, `record_delivery` and `retry`, with any arguments, those that
-- raise included: the content is `None` exactly if the message is sent and was to be redacted,
-- the receipt of the gateway is there exactly while the message is sent, the stamps of delivery
-- agree with its status, and a message that waits has an attempt left.
pub Reachable-IsConsistent : {m : OutboxMessage} → Reachable m → IsConsistent m
Reachable-IsConsistent (created {m = m} id r e) = create-IsConsistent id r m e
Reachable-IsConsistent (called {m = m} c r) = after-IsConsistent c m (Reachable-IsConsistent r)

-- `retry` at an instant with a time zone, returns exactly if the message
-- is retryable; then the message waits for an attempt, with its content and no receipt, its
-- attempts counted from 0. It raises otherwise, and leaves the message as it is.
pub retry-is_retryable :
    (m : OutboxMessage) (t : ℕ)
    → ((is_retryable m ≡ true)
        × ((retry (aware t) m).0 ≡ ok tt)
        × ((retry (aware t) m).1.status ≡ pending)
        × ((retry (aware t) m).1.attempts ≡ 0)
        × ((retry (aware t) m).1.payload ≡ m.payload)
        × (is_some (retry (aware t) m).1.payload ≡ true)
        × ((retry (aware t) m).1.external_message_id ≡ none)
        × ((retry (aware t) m).1.retried_external_message_id
            ≡ keep_external_id m.external_message_id m.retried_external_message_id))
      ⊎ ((is_retryable m ≡ false) × (retry (aware t) m ≡ (err invalid_outbox_state, m)))
unfolding retry is_retryable
retry-is_retryable m t = ground arith
