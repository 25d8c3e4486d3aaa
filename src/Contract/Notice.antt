-- ===== src/Contract/Notice.antt =====
-- The messages that the use cases of a contract enqueue for its client (enqueue_message.py).
use event_pro_backend.Prelude.{ℕ, Bool, none, Text}
use event_pro_backend.Method.{ok, err, Method}
use event_pro_backend.Clock.{aware}
use event_pro_backend.Outbox.{OutboxMessage}
use event_pro_backend.Outbox.Schedule.{MessageType}
use event_pro_backend.Outbox.Payload.{Value, str, object, field}
use event_pro_backend.Dispatch.{enqueue}
use event_pro_backend.Phone.{parse}
use event_pro_backend.Contract.Table.{Store}

-- One more key of a `dict` literal.
abbrev pub entry : Text → Text → Value → Value
entry key value (object fields) = object (field (str key) (str value) fields)
entry key value v = v

-- `EnqueueMessage.execute`, to the phone of the client
unfoldable pub notify : ℕ → ℕ → ℕ → Text → MessageType → Value → Bool → Method Store OutboxMessage
unfolding enqueue
notify max_attempts fresh at phone message_type payload redact s = elim (parse phone) [
  | err e ↦ (err e, s)
  | ok recipient ↦
      let (sent, rows) =
        enqueue fresh
          (record {
            recipient = recipient;
            message_type = message_type;
            payload = payload;
            now = aware at;
            redact_after_send = redact;
            max_attempts = max_attempts;
            author_user_id = none;
          })
          s.outbox in
      (sent, record s { outbox = rows })
]
