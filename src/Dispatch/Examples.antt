-- ===== src/Dispatch/Examples.antt =====
-- Runs of the worker, and its theorems at them.
use event_pro_backend.Prelude.{
  ℕ, ◌+◌, ◌≤◌, ◌≡◌, ◌⊎◌, refl, Bool, true, false, none, some, [], ◌∷◌, All, Text, codes, arith, pos,
}
use event_pro_backend.Method.{Error, ok}
use event_pro_backend.Clock.{require_aware, aware, add_delta}
use event_pro_backend.Outbox.Schedule.{pending, failed, text, document, default_retry_schedule}
use event_pro_backend.Outbox.Payload.{Value, validate_payload, str, object, field, end}
use event_pro_backend.Outbox.{OutboxMessage, NewMessage, create}
use event_pro_backend.Dispatch.Table.{
  Rows, claim_due, select, insert, order, postpone, has_id, lease_rows,
}
use event_pro_backend.Dispatch.Gateway.{
  GatewayCall, Reading, unreadable, Failure, any_other, Answer, accepted, raised, get_item, send,
  classify,
}
use event_pro_backend.Dispatch.Claims.{claim_due-leases, claim_due-exclusive}
use event_pro_backend.Dispatch.Calls.{recipient_of, send-create}
use event_pro_backend.Dispatch.Summary.{execute_counts}
use event_pro_backend.Dispatch.{World, Worker, DispatchSummary, execute}

abbrev request : NewMessage
request = record {
  recipient = codes "+51987654321";
  message_type = text;
  payload = object (field (str (codes "body")) (str (codes "Su reserva")) end);
  now = aware 1000;
  redact_after_send = true;
  max_attempts = 3;
  author_user_id = none;
}

abbrev queued : OutboxMessage
queued = record {
  id = 7;
  recipient = codes "+51987654321";
  message_type = text;
  payload = some (object (field (str (codes "body")) (str (codes "Su reserva")) end));
  next_attempt_at = 1000;
  created_at = 1000;
  redact_after_send = true;
  status = pending;
  attempts = 0;
  max_attempts = 3;
  last_error = none;
  sent_at = none;
  external_message_id = none;
  conversation_id = none;
  delivery_status = none;
  delivery_error = none;
  delivered_at = none;
  read_at = none;
  author_user_id = none;
  retried_external_message_id = none;
}

queued-create : create 7 request ≡ ok queued
unfolding create require_aware validate_payload
queued-create = refl

abbrev waiting : OutboxMessage
waiting = record queued { id = 8; next_attempt_at = 900; status = failed; attempts = 3 }

abbrev next : OutboxMessage
next = record queued { id = 9; next_attempt_at = 3000 }

abbrev table : Rows
table = queued ∷ waiting ∷ next ∷ []

abbrev class_name : Error → Text
class_name e = codes "Exception"

-- No file can be read.
abbrev documents : Value → Reading
documents path = unreadable any_other (codes "OSError") (codes "")

abbrev free : ℕ → Bool
free id = false

abbrev world : World
world = record {
  documents = documents;
  gateway = λ call. accepted (codes "m1") 5;
  clock = λ m. aware 3000;
  schedule = default_retry_schedule;
  class_name = class_name;
  locked = free;
  others = λ m rows. rows;
}

abbrev settings : Worker
settings = record { batch_size = 10; lease_seconds = 60 }

abbrev leased : OutboxMessage
leased = record queued { next_attempt_at = 60002000 }

abbrev leased_table : Rows
leased_table = leased ∷ waiting ∷ next ∷ []

table-claim_due : claim_due 2000 10 (pos 60000000) free table ≡ (ok (leased ∷ []), leased_table)
unfolding claim_due select order insert lease_rows postpone has_id add_delta
table-claim_due = refl

abbrev next_leased : OutboxMessage
next_leased = record next { next_attempt_at = 60005000 }

second-claim_due :
    claim_due 5000 10 (pos 60000000) free leased_table
    ≡ (ok (next_leased ∷ []), leased ∷ waiting ∷ next_leased ∷ [])
unfolding claim_due select order insert lease_rows postpone has_id add_delta
second-claim_due = refl

claim_due-exclusive_example :
    All (λ (m : OutboxMessage). has_id m.id (leased ∷ []) ≡ false) (next_leased ∷ [])
claim_due-exclusive_example =
    claim_due-exclusive 2000 60000000 5000 10 60000000 free (leased ∷ []) leased_table
      (next_leased ∷ []) (leased ∷ waiting ∷ next_leased ∷ [])
      (claim_due-leases 2000 10 60000000 free table (leased ∷ []) leased_table table-claim_due).2
      second-claim_due (ground arith)

send-create_example :
    ((c : GatewayCall) × (recipient_of c ≡ request.recipient)
      × ((gateway : GatewayCall → Answer)
          → send class_name documents gateway queued ≡ classify (gateway c)))
    ⊎ ((failure : Failure) × (name : Text) × (message : Text) × (queued.message_type ≡ document)
        × (documents (get_item (codes "path") request.payload) ≡ unreadable failure name message)
        × ((gateway : GatewayCall → Answer)
            → send class_name documents gateway queued ≡ classify (raised failure name message)))
send-create_example = send-create 7 request queued class_name documents queued-create

execute_counts_example :
    (s : DispatchSummary) × ((execute settings world 2000 table).0 ≡ ok s)
    × (s.claimed ≡ 1)
    × (s.claimed ≤ 10)
    × (s.claimed
        ≡ s.sent_count + s.rescheduled_count + s.failed_count + s.discarded_count + s.error_count)
execute_counts_example =
    execute_counts settings world 2000 table (leased ∷ []) leased_table table-claim_due
