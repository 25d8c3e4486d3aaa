-- ===== src/Outbox.antt =====
-- app/domain/entities/outbox_message.py: the aggregate OutboxMessage. The proofs are in the modules
-- below.
pub mod Schedule
pub mod Payload
pub mod Calls
pub mod Invariant
pub mod Waits
pub mod Atomic
pub mod Delivery
pub mod Retries
mod Examples
use event_pro_backend.Prelude.{
  ℕ, ◌+◌, ltb, leb, Bool, true, false, not, ◌&&◌, ◌||◌, Option, none, some, is_none, is_some, take,
  length, Text, codes, strip, truthy, has_text, if◌then◌else◌,
}
use event_pro_backend.Method.{
  Result, ok, err, and_then, Method, lift, gets, modify, raise_if, ◌>>=◌, ◌>>◌, validation,
  invalid_outbox_state,
}
use event_pro_backend.Clock.{DateTime, require_aware, add_delta}
use event_pro_backend.Outbox.Schedule.{
  OutboxStatus, pending, sent, failed, DeliveryStatus, delivered, read, rejected, MessageType,
  RetrySchedule, delay_after,
}
use event_pro_backend.Outbox.Payload.{Value, validate_payload}

abbrev pub error_max_length : ℕ
error_max_length = 500

abbrev pub external_id_max_length : ℕ
external_id_max_length = 64

abbrev pub unknown_error : Text
unknown_error = codes "Error desconocido"

-- An identifier (UUID) is a number: the program only compares it. A `PhoneNumber` is its digits.
pub record OutboxMessage : Type 0 where
  pub id : ℕ
  pub recipient : Text
  pub message_type : MessageType
  pub payload : Option Value
  pub next_attempt_at : ℕ
  pub created_at : ℕ
  pub redact_after_send : Bool
  pub status : OutboxStatus
  pub attempts : ℕ
  pub max_attempts : ℕ
  pub last_error : Option Text
  pub sent_at : Option ℕ
  pub external_message_id : Option Text
  pub conversation_id : Option ℕ
  pub delivery_status : Option DeliveryStatus
  pub delivery_error : Option Text
  pub delivered_at : Option ℕ
  pub read_at : Option ℕ
  pub author_user_id : Option ℕ
  pub retried_external_message_id : Option Text

-- `_clip`: a blank text becomes the unknown error, and `None` stays.
unfoldable pub clip : Option Text → Option Text
clip none = none
clip (some error) =
    let cut = take error_max_length (strip error) in
    if truthy cut then some cut else some unknown_error

-- `_clip(error) or _UNKNOWN_ERROR`
unfoldable pub clip_or_unknown : Option Text → Text
clip_or_unknown none = unknown_error
clip_or_unknown (some cut) = if truthy cut then cut else unknown_error

abbrev pub is_pending : OutboxStatus → Bool
is_pending pending = true
is_pending _ = false

abbrev pub is_sent : OutboxStatus → Bool
is_sent sent = true
is_sent _ = false

abbrev pub is_failed : OutboxStatus → Bool
is_failed failed = true
is_failed _ = false

abbrev pub is_rejected : Option DeliveryStatus → Bool
is_rejected (some rejected) = true
is_rejected _ = false

abbrev pub is_read : Option DeliveryStatus → Bool
is_read (some read) = true
is_read _ = false

-- `current in settled`
abbrev pub is_settled : Option DeliveryStatus → Bool
is_settled (some delivered) = true
is_settled (some read) = true
is_settled _ = false

pub record NewMessage : Type 0 where
  pub recipient : Text
  pub message_type : MessageType
  pub payload : Value
  pub now : DateTime
  pub redact_after_send : Bool
  pub max_attempts : ℕ
  pub author_user_id : Option ℕ

-- `OutboxMessage.create`; `id` is the fresh `uuid4()`.
unfoldable pub create : ℕ → NewMessage → Result OutboxMessage
create id r = and_then (require_aware r.now) λ moment.
    if ltb r.max_attempts 1
    then err validation
    else and_then (validate_payload r.message_type r.payload) λ payload. ok (record {
      id = id;
      recipient = r.recipient;
      message_type = r.message_type;
      payload = some payload;
      next_attempt_at = moment;
      created_at = moment;
      redact_after_send = r.redact_after_send;
      status = pending;
      attempts = 0;
      max_attempts = r.max_attempts;
      last_error = none;
      sent_at = none;
      external_message_id = none;
      conversation_id = none;
      delivery_status = none;
      delivery_error = none;
      delivered_at = none;
      read_at = none;
      author_user_id = r.author_user_id;
      retried_external_message_id = none;
    })

-- `_require_pending`
abbrev pub require_pending : Method OutboxMessage (Unit {0})
require_pending = raise_if (λ m. not (is_pending m.status)) invalid_outbox_state

unfoldable pub mark_sent : Text → ℕ → DateTime → Method OutboxMessage (Unit {0})
unfolding require_aware has_text
mark_sent external_message_id conversation_id now = do
  require_pending
  moment ← lift (require_aware now)
  raise_if
      (λ _.
        not (has_text external_message_id)
        || ltb external_id_max_length (length external_message_id))
      validation
  modify (λ m. record m {
    status = sent;
    sent_at = some moment;
    external_message_id = some external_message_id;
    conversation_id = some conversation_id;
  })
  modify (λ m. if m.redact_after_send then record m { payload = none } else m)

-- The default schedule is an argument here. The new status is also the result.
unfoldable pub register_failure :
    Text → Bool → DateTime → RetrySchedule → Method OutboxMessage OutboxStatus
unfolding require_aware add_delta clip clip_or_unknown
register_failure error permanent now schedule = do
  require_pending
  moment ← lift (require_aware now)
  modify (λ m. record m {
    attempts = m.attempts + 1;
    last_error = some (clip_or_unknown (clip (some error)));
  })
  exhausted ← gets (λ m. permanent || leb m.max_attempts m.attempts)
  if exhausted then (do modify (λ m. record m { status = failed }); gets (λ m. m.status)) else (do
    attempts ← gets (λ m. m.attempts)
    delay ← lift (delay_after schedule attempts)
    next ← lift (add_delta moment delay)
    modify (λ m. record m { next_attempt_at = next })
    gets (λ m. m.status))

-- `self.delivered_at or moment`
abbrev pub or_else : Option ℕ → ℕ → Option ℕ
or_else none moment = some moment
or_else (some t) moment = some t

pub apply_notice : DeliveryStatus → Option Text → ℕ → OutboxMessage → Bool × OutboxMessage
unfolding clip
apply_notice rejected error moment m =
    if is_settled m.delivery_status
    then (false, m)
    else (true, record m { delivery_status = some rejected; delivery_error = clip error })
apply_notice delivered error moment m = if is_settled m.delivery_status then (false, m) else (
  true,
  record m { delivery_status = some delivered; delivery_error = none; delivered_at = some moment },
)
apply_notice read error moment m = if is_read m.delivery_status then (false, m) else (
  true,
  record m {
    delivery_status = some read;
    delivery_error = none;
    delivered_at = or_else m.delivered_at moment;
    read_at = some moment;
  },
)

abbrev pub apply_notice_now : DeliveryStatus → Option Text → ℕ → Method OutboxMessage Bool
apply_notice_now status error moment m =
    let (applied, m') = apply_notice status error moment m in (ok applied, m')

unfoldable pub record_delivery : DeliveryStatus → Option Text → DateTime → Method OutboxMessage Bool
unfolding require_aware apply_notice
record_delivery status error at = do
  raise_if (λ m. not (is_sent m.status)) invalid_outbox_state
  moment ← lift (require_aware at)
  apply_notice_now status error moment

-- `is_retryable`
unfoldable pub is_retryable : OutboxMessage → Bool
is_retryable m = (is_failed m.status || is_rejected m.delivery_status) && is_some m.payload

-- The id of the failed send is kept, unless there is none.
abbrev pub keep_external_id : Option Text → Option Text → Option Text
keep_external_id (some external) previous = some external
keep_external_id none previous = previous

unfoldable pub retry : DateTime → Method OutboxMessage (Unit {0})
unfolding require_aware
retry now = do
  raise_if (λ m. not (is_failed m.status) && not (is_rejected m.delivery_status))
      invalid_outbox_state
  moment ← lift (require_aware now)
  raise_if (λ m. is_none m.payload) invalid_outbox_state
  modify (λ m. record m {
    retried_external_message_id =
        keep_external_id m.external_message_id m.retried_external_message_id;
  })
  modify (λ m. record m {
    status = pending;
    attempts = 0;
    next_attempt_at = moment;
    last_error = none;
    sent_at = none;
    external_message_id = none;
    conversation_id = none;
    delivery_status = none;
    delivery_error = none;
    delivered_at = none;
    read_at = none;
  })
