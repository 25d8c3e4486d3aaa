-- ===== src/Contract/Messages.antt =====
-- The pending messages with a link or a code of a contract.
use event_pro_backend.Prelude.{ℕ, ◌≡◌, refl, Bool, true, inl, inr, some, [], ◌∷◌, Text, arith}
use event_pro_backend.Method.{ok, Result-cases}
use event_pro_backend.Outbox.{OutboxMessage, create}
use event_pro_backend.Outbox.Schedule.{MessageType, pending}
use event_pro_backend.Outbox.Payload.{Value, validate_payload}
use event_pro_backend.Dispatch.Table.{Rows, select, add}
use event_pro_backend.Dispatch.{enqueue}
use event_pro_backend.Contract.Table.{Store, invalidate, link_is_pending, carries_link}
use event_pro_backend.Contract.Notice.{notify}

-- What the queue still sends about a contract.
abbrev pub about : ℕ → Rows → Rows
about id rows = select (link_is_pending id) rows

pub about-invalidate : (id : ℕ) (rows : Rows) → about id (invalidate id rows) ≡ []
unfolding invalidate select
about-invalidate id [] = refl
about-invalidate id (m ∷ rows) = ground (arith, about-invalidate id rows)

validate_payload-same : (t : MessageType) (v w : Value) → validate_payload t v ≡ ok w → w ≡ v
unfolding validate_payload
validate_payload-same t v w h = ground arith

-- A message that is enqueued is pending, with its content.
pub notify-pending :
    (most fresh at : ℕ) (phone : Text) (t : MessageType) (v : Value) (redact : Bool) (s : Store)
    (m : OutboxMessage)
    → (notify most fresh at phone t v redact s).0 ≡ ok m
    → (m.status ≡ pending)
      × (m.payload ≡ some v)
      × (m.redact_after_send ≡ redact)
      × ((notify most fresh at phone t v redact s).1 ≡ record s { outbox = m ∷ s.outbox })
unfolding notify enqueue add create
notify-pending most fresh at phone t v redact s m h = elim (Result-cases (validate_payload t v)) [
  | inr (e, bad) ↦ ground (arith, h, bad)
  | inl (w, good) ↦
      let same : w ≡ v = validate_payload-same t v w good in ground (arith, h, good, same)
]

-- With the earlier ones taken back, a message about the contract is the only one.
pub about-notify :
    (id most fresh at : ℕ) (phone : Text) (t : MessageType) (v : Value) (redact : Bool) (s : Store)
    (m : OutboxMessage)
    → about id s.outbox ≡ []
    → carries_link id (some v) ≡ true
    → (notify most fresh at phone t v redact s).0 ≡ ok m
    → about id (notify most fresh at phone t v redact s).1.outbox ≡ m ∷ []
unfolding select
about-notify id most fresh at phone t v redact s m none_yet carries h =
    let (waits, content, _, stored) = notify-pending most fresh at phone t v redact s m h in
    let still : link_is_pending id m ≡ true = rw (waits, content) carries in
    rw stored (rw still (rw none_yet refl))
