-- ===== src/Dispatch/Writes.antt =====
-- What the transaction that saves a result writes.
use event_pro_backend.Prelude.{
  ℕ, ◌+◌, ◌<◌, ◌≤◌, ◌≡◌, refl, Bool, true, false, ◌||◌, leb, length, some, [], ◌∷◌, Text, has_text,
  arith, inl, inr, ◌⊎◌, ◌≢◌,
}
use event_pro_backend.Method.{Error, Result, ok, err, Result-cases, and_then}
use event_pro_backend.Clock.{DateTime, naive, aware, require_aware, add_delta}
use event_pro_backend.Outbox.{
  OutboxMessage, mark_sent, register_failure, is_pending, is_failed, is_sent, clip, clip_or_unknown,
  external_id_max_length,
}
use event_pro_backend.Outbox.Schedule.{OutboxStatus, RetrySchedule, delay_after}
use event_pro_backend.Dispatch.Table.{
  Rows, find_row, write_row, save, apply_outbox_to_model, in_transaction,
}
use event_pro_backend.Dispatch.Gateway.{Sending, delivered, rejected}
use event_pro_backend.Dispatch.Contents.{is_ok}
use event_pro_backend.Dispatch.{Outcome, sent, rescheduled, failed, resolve, outcome_of}

-- A row with another id is not written.
pub find_row-write_row :
    (m : OutboxMessage) (id : ℕ) (rows : Rows)
    → id ≢ m.id
    → find_row id (write_row m rows) ≡ find_row id rows
unfolding find_row write_row apply_outbox_to_model
find_row-write_row m id [] ne = refl
find_row-write_row m id (row ∷ rows) ne = ground (arith, find_row-write_row m id rows ne)

-- The row that is written is found, as `apply_outbox_to_model` leaves it.
pub written :
    (m row : OutboxMessage) (rows : Rows)
    → find_row m.id rows ≡ some row
    → find_row m.id (write_row m rows) ≡ some (apply_outbox_to_model row m)
unfolding find_row write_row apply_outbox_to_model
written m row [] h = ground arith
written m row (other ∷ rows) h = ground (arith, written m row rows)

-- What an outcome says of the row before and after, for what the sending gave.
pub Shows : Sending → Outcome → OutboxMessage → OutboxMessage → Type 0
Shows (delivered message_id conversation_id) sent c r =
    (is_sent r.status ≡ true)
    × (r.external_message_id ≡ some message_id)
    × (r.conversation_id ≡ some conversation_id)
    × (r.attempts ≡ c.attempts)
Shows (rejected reason permanent) rescheduled c r =
    (is_pending r.status ≡ true)
    × (r.attempts ≡ c.attempts + 1)
    × (r.payload ≡ c.payload)
    × (r.last_error ≡ some (clip_or_unknown (clip (some reason))))
    × (permanent ≡ false)
    × (c.attempts + 1 < c.max_attempts)
Shows (rejected reason permanent) failed c r =
    (is_failed r.status ≡ true)
    × (r.attempts ≡ c.attempts + 1)
    × (r.payload ≡ c.payload)
    × (r.last_error ≡ some (clip_or_unknown (clip (some reason))))
    × ((permanent ≡ true) ⊎ (c.max_attempts ≤ c.attempts + 1))
Shows _ _ c r = ⊥

abbrev has_zone : DateTime → Bool
has_zone (naive t) = false
has_zone (aware t) = true

-- The next attempt is an instant that there is.
abbrev has_next : DateTime → RetrySchedule → ℕ → Bool
has_next now schedule attempts =
    is_ok (and_then (require_aware now) λ t. and_then (delay_after schedule attempts) (add_delta t))

-- What was sent can be saved: the instant has a time zone; the id of the gateway is neither blank nor too
-- long; and there is a next attempt, if another one is to be made.
pub IsSavable : Sending → DateTime → RetrySchedule → OutboxMessage → Type 0
IsSavable (delivered message_id conversation_id) now schedule c =
    (has_zone now ≡ true)
    × (has_text message_id ≡ true)
    × (length message_id ≤ external_id_max_length)
IsSavable (rejected reason permanent) now schedule c =
    (has_zone now ≡ true)
    × ((permanent || leb c.max_attempts (c.attempts + 1) || has_next now schedule (c.attempts + 1))
        ≡ true)

-- The fields that a row keeps: `apply_outbox_to_model` does not write them.
abbrev pub IsSameRow : OutboxMessage → OutboxMessage → Type 0
IsSameRow c r =
    (r.id ≡ c.id)
    × (r.recipient ≡ c.recipient)
    × (r.message_type ≡ c.message_type)
    × (r.author_user_id ≡ c.author_user_id)
    × (r.created_at ≡ c.created_at)

pub apply-same : (c r : OutboxMessage) → IsSameRow c r → apply_outbox_to_model c r ≡ r
unfolding apply_outbox_to_model
apply-same c r h = ground arith

mark_sent-Shows :
    (message_id : Text) (conversation_id : ℕ) (now : DateTime) (c : OutboxMessage)
    → (mark_sent message_id conversation_id now c).0 ≡ ok tt
    → let r = (mark_sent message_id conversation_id now c).1 in
      Shows (delivered message_id conversation_id) sent c r × IsSameRow c r
unfolding mark_sent Shows
mark_sent-Shows message_id conversation_id now c h = ground arith

mark_sent-raises :
    (message_id : Text) (conversation_id : ℕ) (now : DateTime) (schedule : RetrySchedule)
    (c : OutboxMessage) (e : Error)
    → is_pending c.status ≡ true
    → (mark_sent message_id conversation_id now c).0 ≡ err e
    → ¬ IsSavable (delivered message_id conversation_id) now schedule c
unfolding mark_sent IsSavable require_aware
mark_sent-raises message_id conversation_id (naive t) schedule c e p h s = ground arith
mark_sent-raises message_id conversation_id (aware t) schedule c e p h (a, b, d) =
    ground (arith, p, h, b, d)

register_failure-Shows :
    (reason : Text) (permanent : Bool) (now : DateTime) (schedule : RetrySchedule)
    (c : OutboxMessage) (status : OutboxStatus)
    → (register_failure reason permanent now schedule c).0 ≡ ok status
    → let r = (register_failure reason permanent now schedule c).1 in
      Shows (rejected reason permanent) (outcome_of status) c r × IsSameRow c r
unfolding register_failure Shows clip clip_or_unknown
register_failure-Shows reason permanent now schedule c status h = ground arith

register_failure-raises :
    (reason : Text) (permanent : Bool) (now : DateTime) (schedule : RetrySchedule)
    (c : OutboxMessage) (e : Error)
    → is_pending c.status ≡ true
    → (register_failure reason permanent now schedule c).0 ≡ err e
    → ¬ IsSavable (rejected reason permanent) now schedule c
unfolding register_failure IsSavable require_aware
register_failure-raises reason permanent (naive t) schedule c e p h s = ground arith
register_failure-raises reason permanent (aware t) schedule c e p h (a, b) = ground (arith, p, h, b)

pub find_row-id : (id : ℕ) (rows : Rows) (c : OutboxMessage) → find_row id rows ≡ some c → c.id ≡ id
unfolding find_row
find_row-id id [] c h = ground arith
find_row-id id (row ∷ rows) c h = ground (arith, find_row-id id rows c)

-- The row `c` of the table became `r`, and the outcome `o` says so.
pub record WasResolved (sending : Sending) (rows : Rows) (c : OutboxMessage)
    (result : Result Outcome) (after : Rows) : Type 0 where
  pub outcome : Outcome
  pub row : OutboxMessage
  pub returned : result ≡ ok outcome
  pub wrote : after ≡ write_row row rows
  pub same_row : IsSameRow c row
  pub shown : Shows sending outcome c row

-- The transaction raises what cannot be saved, or it has resolved the row.
abbrev pub Ending :
    Sending → DateTime → RetrySchedule → OutboxMessage → Rows → Result Outcome × Rows → Type 0
Ending sending now schedule c rows (result, after) =
    ((e : Error) × (result ≡ err e) × (after ≡ rows) × ¬ IsSavable sending now schedule c)
    ⊎ WasResolved sending rows c result after

resolve-delivered :
    (message_id : Text) (conversation_id : ℕ) (now : DateTime) (schedule : RetrySchedule)
    (c : OutboxMessage) (rows : Rows)
    → find_row c.id rows ≡ some c
    → is_pending c.status ≡ true
    → let sending = delivered message_id conversation_id in
      Ending sending now schedule c rows (in_transaction (resolve sending now schedule c) rows)
unfolding resolve save
resolve-delivered message_id conversation_id now schedule c rows found p =
    elim (Result-cases (mark_sent message_id conversation_id now c).0) [
      | inr (e, bad) ↦ inl (
        e,
        ground (arith, bad),
        ground (arith, bad),
        mark_sent-raises message_id conversation_id now schedule c e p bad,
      )
      | inl (_, done) ↦
          let (shows, same) = mark_sent-Shows message_id conversation_id now c done in
          inr (record {
            outcome = sent;
            row = (mark_sent message_id conversation_id now c).1;
            returned = ground (arith, done, same.0, found);
            wrote = ground (arith, done, same.0, found);
            same_row = same;
            shown = shows;
          })
    ]

resolve-rejected :
    (reason : Text) (permanent : Bool) (now : DateTime) (schedule : RetrySchedule)
    (c : OutboxMessage) (rows : Rows)
    → find_row c.id rows ≡ some c
    → is_pending c.status ≡ true
    → let sending = rejected reason permanent in
      Ending sending now schedule c rows (in_transaction (resolve sending now schedule c) rows)
unfolding resolve save
resolve-rejected reason permanent now schedule c rows found p =
    elim (Result-cases (register_failure reason permanent now schedule c).0) [
      | inr (e, bad) ↦ inl (
        e,
        ground (arith, bad),
        ground (arith, bad),
        register_failure-raises reason permanent now schedule c e p bad,
      )
      | inl (status, done) ↦
          let (shows, same) = register_failure-Shows reason permanent now schedule c status done in
          inr (record {
            outcome = outcome_of status;
            row = (register_failure reason permanent now schedule c).1;
            returned = ground (arith, done, same.0, found);
            wrote = ground (arith, done, same.0, found);
            same_row = same;
            shown = shows;
          })
    ]

pub resolve-Ending :
    (sending : Sending) (now : DateTime) (schedule : RetrySchedule) (c : OutboxMessage)
    (rows : Rows)
    → find_row c.id rows ≡ some c
    → is_pending c.status ≡ true
    → Ending sending now schedule c rows (in_transaction (resolve sending now schedule c) rows)
resolve-Ending (delivered message_id conversation_id) now schedule c rows found p =
    resolve-delivered message_id conversation_id now schedule c rows found p
resolve-Ending (rejected reason permanent) now schedule c rows found p =
    resolve-rejected reason permanent now schedule c rows found p
