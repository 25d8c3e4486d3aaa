-- ===== src/Dispatch/Table.antt =====
-- The rows of the outbox: app/infrastructure/.../repositories/sqlalchemy_outbox_repository.py, with
-- what its statements ask of the database, and the short transactions around it.
use event_pro_backend.Prelude.{
  ℕ, ltb, leb, ◌==◌, Bool, false, not, ◌&&◌, ◌||◌, Option, none, some, List, [], ◌∷◌, take, map,
  Text, text_eq, ℤ, if◌then◌else◌,
}
use event_pro_backend.Method.{ok, err, Method, resource_not_found}
use event_pro_backend.Clock.{add_delta}
use event_pro_backend.Outbox.{OutboxMessage, is_pending}

abbrev pub Rows : Type 0
Rows = List OutboxMessage

-- `apply_outbox_to_model`: the recipient, the type, the author, the id and the creation stay.
unfoldable pub apply_outbox_to_model : OutboxMessage → OutboxMessage → OutboxMessage
apply_outbox_to_model row m = record m {
  id = row.id;
  recipient = row.recipient;
  message_type = row.message_type;
  author_user_id = row.author_user_id;
  created_at = row.created_at;
}

unfoldable pub find_row : ℕ → Rows → Option OutboxMessage
find_row id [] = none
find_row id (row ∷ rows) = if row.id == id then some row else find_row id rows

-- `get_by_id`
unfoldable pub get_by_id : ℕ → Method Rows (Option OutboxMessage)
unfolding find_row
get_by_id id rows = (ok (find_row id rows), rows)

abbrev pub has_external_id : Text → Option Text → Bool
has_external_id wanted none = false
has_external_id wanted (some external) = text_eq external wanted

unfoldable pub find_external : Text → Rows → Option OutboxMessage
find_external external [] = none
find_external external (row ∷ rows) =
    if has_external_id external row.external_message_id
    then some row
    else find_external external rows

-- `get_by_external_id`
unfoldable pub get_by_external_id : Text → Method Rows (Option OutboxMessage)
unfolding find_external
get_by_external_id external rows = (ok (find_external external rows), rows)

unfoldable pub write_row : OutboxMessage → Rows → Rows
unfolding apply_outbox_to_model
write_row m [] = []
write_row m (row ∷ rows) =
    let rest = write_row m rows in
    if row.id == m.id then apply_outbox_to_model row m ∷ rows else row ∷ rest

-- `save`
unfoldable pub save : OutboxMessage → Method Rows (Unit {0})
unfolding find_row write_row
save m rows = elim (find_row m.id rows) [
  | none ↦ (err resource_not_found, rows)
  | some row ↦ (ok tt, write_row m rows)
]

-- `add`; the id is a fresh one.
unfoldable pub add : OutboxMessage → Method Rows (Unit {0})
add m rows = (ok tt, m ∷ rows)

-- What `claim_due` selects, less the rows that another transaction has locked.
abbrev pub is_due : ℕ → (ℕ → Bool) → OutboxMessage → Bool
is_due now locked m = is_pending m.status && leb m.next_attempt_at now && not (locked m.id)

unfoldable pub select : (OutboxMessage → Bool) → Rows → Rows
select test [] = []
select test (row ∷ rows) = let rest = select test rows in if test row then row ∷ rest else rest

-- `order_by(next_attempt_at, created_at)`
abbrev pub is_before : OutboxMessage → OutboxMessage → Bool
is_before a b =
    ltb a.next_attempt_at b.next_attempt_at
    || (a.next_attempt_at == b.next_attempt_at && leb a.created_at b.created_at)

unfoldable pub insert : OutboxMessage → Rows → Rows
insert m [] = m ∷ []
insert m (row ∷ rows) =
    let rest = insert m rows in if is_before m row then m ∷ row ∷ rows else row ∷ rest

unfoldable pub order : Rows → Rows
unfolding insert
order [] = []
order (row ∷ rows) = insert row (order rows)

-- Whether one of the messages has the id.
unfoldable pub has_id : ℕ → Rows → Bool
has_id id [] = false
has_id id (m ∷ ms) = m.id == id || has_id id ms

abbrev pub postponed : ℕ → OutboxMessage → OutboxMessage
postponed until m = record m { next_attempt_at = until }

-- The claimed rows, in the table.
unfoldable pub postpone : ℕ → Rows → Rows → Rows
unfolding has_id
postpone until chosen [] = []
postpone until chosen (row ∷ rows) =
    (if has_id row.id chosen then postponed until row else row) ∷ postpone until chosen rows

-- The end of the lease is computed for each row, so not at all if there is none.
unfoldable pub lease_rows : ℕ → ℤ → Rows → Method Rows Rows
unfolding postpone add_delta
lease_rows now lease [] rows = (ok [], rows)
lease_rows now lease (m ∷ ms) rows = elim (add_delta now lease) [
  | ok until ↦ (ok (map (postponed until) (m ∷ ms)), postpone until (m ∷ ms) rows)
  | err e ↦ (err e, rows)
]

-- `claim_due`
unfoldable pub claim_due : ℕ → ℕ → ℤ → (ℕ → Bool) → Method Rows Rows
unfolding select order lease_rows
claim_due now limit lease locked rows =
    lease_rows now lease (take limit (order (select (is_due now locked) rows))) rows

-- A transaction: what it wrote is kept if it ends without an error and is undone if not.
abbrev pub in_transaction : {A : Type 0} → Method Rows A → Method Rows A
in_transaction m rows =
    let (r, rows') = m rows in elim r [ ok a ↦ (ok a, rows') | err e ↦ (err e, rows) ]
