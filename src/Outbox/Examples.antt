-- ===== src/Outbox/Examples.antt =====
-- Runs of the outbox, and its theorems at them.
use mathlib.Core.List.Perm
use event_pro_backend.Prelude.{
  ℕ, ◌+◌, ◌≤◌, ◌<◌, ◌≡◌, refl, false, none, some, List, [], ◌∷◌, Text, codes, arith, length,
}
use event_pro_backend.Method.{ok}
use event_pro_backend.Clock.{require_aware, aware}
use event_pro_backend.Outbox.Schedule.{
  pending, sent, failed, text, delivered, read, default_retry_schedule, retry_schedule,
}
use event_pro_backend.Outbox.Payload.{validate_payload, str, object, field, end}
use event_pro_backend.Outbox.{OutboxMessage, NewMessage, create, mark_sent}
use event_pro_backend.Outbox.Calls.{sent_call, after, created, called}
use event_pro_backend.Outbox.Invariant.{IsConsistent, Reachable-IsConsistent}
use event_pro_backend.Outbox.Delivery.{Notice, deliver_all, deliver_all-perm}
use event_pro_backend.Outbox.Retries.{fail_all, fail_all-exhausts}

abbrev request : NewMessage
request = record {
  recipient = codes "+51999999999";
  message_type = text;
  payload = object (field (str (codes "body")) (str (codes "Hola")) end);
  now = aware 1000;
  redact_after_send = false;
  max_attempts = 2;
  author_user_id = none;
}

abbrev fresh : OutboxMessage
fresh = record {
  id = 7;
  recipient = codes "+51999999999";
  message_type = text;
  payload = some (object (field (str (codes "body")) (str (codes "Hola")) end));
  next_attempt_at = 1000;
  created_at = 1000;
  redact_after_send = false;
  status = pending;
  attempts = 0;
  max_attempts = 2;
  last_error = none;
  sent_at = none;
  external_message_id = none;
  conversation_id = none;
  delivery_status = none;
  delivery_error = none;
  delivered_at = none;
  read_at = none;
  author_user_id = none;
  retried_external_message_id = none;
}

fresh-create : create 7 request ≡ ok fresh
unfolding create require_aware validate_payload
fresh-create = refl

abbrev accepted : OutboxMessage
accepted = record fresh {
  status = sent;
  sent_at = some 2000;
  external_message_id = some (codes "m1");
  conversation_id = some 5;
}

accepted-mark_sent : mark_sent (codes "m1") 5 (aware 2000) fresh ≡ (ok tt, accepted)
unfolding mark_sent
accepted-mark_sent = refl

Reachable-IsConsistent_example : IsConsistent (after (sent_call (codes "m1") 5 (aware 2000)) fresh)
Reachable-IsConsistent_example =
    Reachable-IsConsistent
      (called (sent_call (codes "m1") 5 (aware 2000)) (created 7 request fresh-create))

default_accepted : retry_schedule default_retry_schedule.delays ≡ ok default_retry_schedule
unfolding retry_schedule
default_accepted = refl

abbrev two_errors : List (Text × ℕ)
two_errors = (codes "timeout", 2000) ∷ (codes "timeout", 90000000) ∷ []

fail_all-exhausts_example :
    ((fail_all default_retry_schedule two_errors fresh).payload ≡ fresh.payload)
    × (fresh.attempts + length two_errors < fresh.max_attempts
        → ((fail_all default_retry_schedule two_errors fresh).status ≡ pending)
          × ((fail_all default_retry_schedule two_errors fresh).attempts
              ≡ fresh.attempts + length two_errors))
    × (fresh.max_attempts ≤ fresh.attempts + length two_errors
        → ((fail_all default_retry_schedule two_errors fresh).status ≡ failed)
          × ((fail_all default_retry_schedule two_errors fresh).attempts ≡ fresh.max_attempts))
fail_all-exhausts_example =
    fail_all-exhausts default_retry_schedule two_errors fresh refl (omega arith)

abbrev notice_delivered : Notice
notice_delivered = record { status = delivered; error = none; at = 10 }

abbrev notice_read : Notice
notice_read = record { status = read; error = none; at = 11 }

abbrev notices : List Notice
notices = notice_read ∷ notice_delivered ∷ []

deliver_all-perm_example :
    (deliver_all notices accepted).delivery_status
    ≡ (deliver_all (notice_delivered ∷ notice_read ∷ []) accepted).delivery_status
deliver_all-perm_example =
    deliver_all-perm notices (notice_delivered ∷ notice_read ∷ []) accepted refl
      (Perm.swap notice_delivered notice_read [])
