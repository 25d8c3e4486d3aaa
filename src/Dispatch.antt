-- ===== src/Dispatch.antt =====
-- app/application/use_cases/messaging: the worker that delivers the messages of the outbox, and the
-- use cases that enqueue, retry and take notice of a delivery.
pub mod Table
pub mod Gateway
pub mod Claims
pub mod Contents
pub mod Calls
pub mod Requeue
pub mod Writes
pub mod Effects
pub mod Summary
mod Examples
use event_pro_backend.Prelude.{
  ℕ, length, ltb, suc, ◌||◌, Bool, true, false, Option, none, some, List, [], ◌∷◌, Text, pos,
  if◌then◌else◌,
}
use event_pro_backend.Method.{
  Error, Result, ok, err, Method, pure, raise, lift, ◌>>=◌, ◌>>◌, validation, resource_not_found,
}
use event_pro_backend.Clock.{DateTime, seconds}
use event_pro_backend.Outbox.{
  OutboxMessage, NewMessage, create, mark_sent, register_failure, record_delivery, retry,
  is_pending, is_failed,
}
use event_pro_backend.Outbox.Payload.{Value}
use event_pro_backend.Outbox.Schedule.{OutboxStatus, DeliveryStatus, RetrySchedule}
use event_pro_backend.Dispatch.Table.{
  Rows, get_by_id, get_by_external_id, save, add, claim_due, in_transaction,
}
use event_pro_backend.Dispatch.Gateway.{
  Reading, GatewayCall, Answer, Sending, delivered, rejected, send,
}

pub data Outcome : Type 0 where
  sent rescheduled failed discarded error : Outcome

pub record DispatchSummary : Type 0 where
  pub claimed : ℕ
  pub sent_count : ℕ
  pub rescheduled_count : ℕ
  pub failed_count : ℕ
  pub discarded_count : ℕ
  pub error_count : ℕ

-- The settings of a worker, with the checks of `__init__`.
pub record Worker : Type 0 where
  pub batch_size : ℕ
  pub lease_seconds : ℕ

unfoldable pub worker : ℕ → ℕ → Result Worker
worker batch_size lease_seconds =
    if ltb batch_size 1 || ltb lease_seconds 1
    then err validation
    else ok (record { batch_size = batch_size; lease_seconds = lease_seconds })

-- What a cycle meets outside the program: the files, the answers of the gateway, the clock when a result is
-- saved, the default schedule, the names of Python's classes, the rows that other transactions hold
-- while the batch is claimed, and what others commit while a message is being sent.
pub record World : Type 0 where
  pub documents : Value → Reading
  pub gateway : GatewayCall → Answer
  pub clock : OutboxMessage → DateTime
  pub schedule : RetrySchedule
  pub class_name : Error → Text
  pub locked : ℕ → Bool
  pub others : OutboxMessage → Rows → Rows

-- A call of a method of the entity inside a transaction: the result with the entity after the call.
abbrev pub call_entity :
    {A : Type 0} → Method OutboxMessage A → OutboxMessage → Method Rows (A × OutboxMessage)
call_entity method m rows =
    let (r, m') = method m in (elim r [ ok a ↦ ok (a, m') | err e ↦ err e ], rows)

abbrev pub outcome_of : OutboxStatus → Outcome
outcome_of status = if is_failed status then failed else rescheduled

-- The transaction of `_dispatch` once the row is there and pending.
unfoldable pub resolve : Sending → DateTime → RetrySchedule → OutboxMessage → Method Rows Outcome
unfolding mark_sent register_failure save
resolve (delivered message_id conversation_id) now schedule current = do
  done ← call_entity (mark_sent message_id conversation_id now) current
  save (done.1)
  pure sent
resolve (rejected reason permanent) now schedule current = do
  done ← call_entity (register_failure reason permanent now schedule) current
  save (done.1)
  pure (outcome_of (done.0))

unfoldable pub resolve_current :
    Sending → DateTime → RetrySchedule → Option OutboxMessage → Method Rows Outcome
unfolding resolve
resolve_current result now schedule none = pure discarded
resolve_current result now schedule (some current) =
    if is_pending current.status then resolve result now schedule current else pure discarded

-- `_dispatch`: the message is sent outside any transaction, then its result is saved in one.
unfoldable pub dispatch : World → OutboxMessage → Method Rows Outcome
unfolding send get_by_id resolve_current
dispatch w message rows =
    let result = send w.class_name w.documents w.gateway message in
    in_transaction
      (do
        current ← get_by_id message.id
        resolve_current result (w.clock message) w.schedule current)
      (w.others message rows)

-- `except Exception`: the failure of a message does not stop the others.
abbrev pub or_error : Result Outcome → Outcome
or_error (ok outcome) = outcome
or_error (err e) = error

-- The loop of `execute` over the claimed batch.
unfoldable pub dispatch_all : World → List OutboxMessage → Rows → List Outcome × Rows
unfolding dispatch
dispatch_all w [] rows = ([], rows)
dispatch_all w (message ∷ messages) rows =
    let (result, rows') = dispatch w message rows in
    let (outcomes, rows'') = dispatch_all w messages rows' in (or_error result ∷ outcomes, rows'')

abbrev pub is_outcome : Outcome → Outcome → Bool
is_outcome sent sent = true
is_outcome rescheduled rescheduled = true
is_outcome failed failed = true
is_outcome discarded discarded = true
is_outcome error error = true
is_outcome _ _ = false

-- `outcomes.count(outcome)`
unfoldable pub count : Outcome → List Outcome → ℕ
count outcome [] = 0
count outcome (o ∷ os) =
    let rest = count outcome os in if is_outcome o outcome then suc rest else rest

-- `execute`; the time of the claim is an argument.
unfoldable pub execute : Worker → World → ℕ → Method Rows DispatchSummary
unfolding claim_due dispatch_all count
execute settings w now rows =
    let (claim, rows') =
      in_transaction
        (claim_due now settings.batch_size (pos (seconds settings.lease_seconds)) w.locked) rows in
    elim claim [
      | err e ↦ (err e, rows')
      | ok claimed ↦
          let (outcomes, rows'') = dispatch_all w claimed rows' in
          (
            ok (record {
              claimed = length claimed;
              sent_count = count sent outcomes;
              rescheduled_count = count rescheduled outcomes;
              failed_count = count failed outcomes;
              discarded_count = count discarded outcomes;
              error_count = count error outcomes;
            }),
            rows'',
          )
    ]

abbrev pub or_not_found : Option OutboxMessage → Method Rows OutboxMessage
or_not_found none = raise resource_not_found
or_not_found (some m) = pure m

-- `EnqueueMessage.execute`; `id` is the fresh id of the message.
unfoldable pub enqueue : ℕ → NewMessage → Method Rows OutboxMessage
unfolding create add
enqueue id request = do message ← lift (create id request); add message; pure message

-- `RetryMessage.execute`
unfoldable pub retry_message : ℕ → DateTime → Method Rows OutboxMessage
unfolding get_by_id retry save
retry_message message_id now = do
  found ← get_by_id message_id
  message ← or_not_found found
  done ← call_entity (retry now) message
  save (done.1)
  pure (done.1)

unfoldable pub record_found :
    DeliveryStatus → Option Text → DateTime → Option OutboxMessage → Method Rows Bool
unfolding record_delivery save
record_found status reason at none = pure false
record_found status reason at (some message) = do
  done ← call_entity (record_delivery status reason at) message
  if done.0 then (do save (done.1); pure true) else pure false

-- `RecordDeliveryStatus.execute`
unfoldable pub record_delivery_status :
    Text → DeliveryStatus → Option Text → DateTime → Method Rows Bool
unfolding get_by_external_id record_found
record_delivery_status external status reason at = do
  found ← get_by_external_id external
  record_found status reason at found
