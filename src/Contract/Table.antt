-- ===== src/Contract/Table.antt =====
-- app/infrastructure/.../repositories/sqlalchemy_contract_repository.py: the rows of the contracts, the
-- event of a contract, the pending messages with a link, and the audit.
use event_pro_backend.Prelude.{
  ℕ, zero, suc, ◌==◌, ◌+◌, ◌/◌, ◌%◌, ◌^◌, ltb, Bool, false, not, ◌&&◌, Option, none, some, List, [],
  ◌∷◌, ◌++◌, Text, text_eq, codes, decimal, ℤ, if◌then◌else◌,
}
use event_pro_backend.Method.{Result, ok, err, and_then, Method, resource_not_found}
use event_pro_backend.Event.{EventStatus, scheduled}
use event_pro_backend.Outbox.{OutboxMessage, is_pending}
use event_pro_backend.Outbox.Schedule.{failed}
use event_pro_backend.Outbox.Payload.{Value, str, object, get}
use event_pro_backend.Dispatch.Table.{Rows}
use event_pro_backend.Contract.{Contract, contract, is_voided}

-- `ContractData`, as far as it is read. The amounts are in hundredths, as their columns keep them.
pub record ContractData : Type 0 where
  pub event_id : ℕ
  pub event_status : EventStatus
  pub quote_id : ℕ
  pub is_manual : Bool
  pub phone : Text
  pub services : ℤ
  pub mobility : ℤ
  pub total : ℤ
  pub advance : ℤ
  pub required_advance : ℤ
  pub observations : Option Text
  pub event_started : Bool

-- An entry of the audit, as far as the theorems need it: who did what to which contract.
pub data Action : Type 0 where
  contract_issued contract_link_resent contract_regenerated contract_voided contract_signed : Action

pub record AuditEntry : Type 0 where
  pub action : Action
  pub entity_id : ℕ
  pub user_id : Option ℕ

-- What the transaction of the caller reads and writes. `numbers` is the next value of the sequence.
pub record Store : Type 0 where
  pub contracts : List Contract
  pub events : ℕ → Option ContractData
  pub outbox : Rows
  pub audit : List AuditEntry
  pub numbers : ℕ

unfoldable pub find_contract : (Contract → Bool) → List Contract → Option Contract
find_contract test [] = none
find_contract test (k ∷ ks) = if test k then some k else find_contract test ks

abbrev pub same_text : Text → Option Text → Bool
same_text wanted none = false
same_text wanted (some t) = text_eq t wanted

-- `to_contract(row) if row else None`: the constructor checks the row.
unfoldable pub to_contract : Option Contract → Result (Option Contract)
unfolding contract
to_contract none = ok none
to_contract (some row) = and_then (contract row) λ k. ok (some k)

-- `get`
unfoldable pub get_contract : ℕ → Method Store (Option Contract)
unfolding find_contract to_contract
get_contract id s = (to_contract (find_contract (λ k. k.id == id) s.contracts), s)

-- `find_token`
unfoldable pub find_token : Text → Method Store (Option Contract)
unfolding find_contract to_contract
find_token hash s =
    (to_contract (find_contract (λ k. same_text hash k.signature_token_hash) s.contracts), s)

-- `active_for_event`
unfoldable pub active_for_event : ℕ → Method Store (Option Contract)
unfolding find_contract to_contract
active_for_event event_id s = (
  to_contract (find_contract (λ k. k.event_id == event_id && not (is_voided k.status)) s.contracts),
  s,
)

abbrev pub found {ℓ} : {A : Type ℓ} → Option A → Result A
found none = err resource_not_found
found (some a) = ok a

-- `event_data`
unfoldable pub event_data : ℕ → Method Store ContractData
event_data event_id s = (found (s.events event_id), s)

unfoldable pub write_contract : Contract → List Contract → List Contract
write_contract k [] = k ∷ []
write_contract k (row ∷ rows) =
    let rest = write_contract k rows in if row.id == k.id then k ∷ rows else row ∷ rest

-- `save`
unfoldable pub save : Contract → Method Store (Unit {0})
unfolding write_contract
save k s = (ok tt, record s { contracts = write_contract k s.contracts })

abbrev pub update_event :
    ℕ → (ContractData → ContractData) → (ℕ → Option ContractData) → ℕ → Option ContractData
update_event event_id change events id =
    if id == event_id
    then elim (events id) [ none ↦ none | some d ↦ some (change d) ]
    else events id

-- `schedule_event`
unfoldable pub schedule_event : ℕ → Method Store (Unit {0})
schedule_event event_id s = (
  ok tt,
  record s { events = update_event event_id (λ d. record d { event_status = scheduled }) s.events },
)

-- `set_observations`
unfoldable pub set_observations : ℕ → Option Text → Method Store (Unit {0})
set_observations event_id text s = (
  ok tt,
  record s { events = update_event event_id (λ d. record d { observations = text }) s.events },
)

-- `record_audit`
unfoldable pub record_audit : AuditEntry → Method Store (Unit {0})
record_audit entry s = (ok tt, record s { audit = s.audit ++ (entry ∷ []) })

abbrev pub hex_digit : ℕ → ℕ
hex_digit n = if ltb n 10 then 48 + n else 87 + n

-- The last `width` hexadecimal digits of a number.
unfoldable pub hex : ℕ → ℕ → Text
hex zero n = []
hex (suc width) n = hex_digit (n / 16 ^ width % 16) ∷ hex width n

-- `str(uuid)`
unfoldable pub str_uuid : ℕ → Text
unfolding hex
str_uuid id =
    hex 8 (id / 16 ^ 24)
    ++ (45 ∷ hex 4 (id / 16 ^ 20))
    ++ (45 ∷ hex 4 (id / 16 ^ 16))
    ++ (45 ∷ hex 4 (id / 16 ^ 12))
    ++ (45 ∷ hex 12 id)

abbrev pub is_text : Text → Value → Bool
is_text wanted (str t) = text_eq t wanted
is_text wanted _ = false

-- `payload["contract_id"].astext == str(contract_id)`
abbrev pub carries_link : ℕ → Option Value → Bool
carries_link id (some (object fields)) = is_text (str_uuid id) (get (codes "contract_id") fields)
carries_link id _ = false

abbrev pub link_is_pending : ℕ → OutboxMessage → Bool
link_is_pending id m = is_pending m.status && carries_link id m.payload

unfoldable pub invalidate : ℕ → Rows → Rows
invalidate id [] = []
invalidate id (m ∷ rows) =
    let rest = invalidate id rows in
    if link_is_pending id m
    then record m {
      status = failed;
      payload = none;
      last_error = some (codes "Enlace reemplazado o anulado");
    }
      ∷ rest
    else m ∷ rest

-- `invalidate_pending_links`
unfoldable pub invalidate_pending_links : ℕ → Method Store (Unit {0})
unfolding invalidate
invalidate_pending_links id s = (ok tt, record s { outbox = invalidate id s.outbox })

-- `f"{n:04d}"`
abbrev pub four_digits : ℕ → Text
four_digits n =
    if ltb n 10
    then codes "000" ++ decimal n
    else if ltb n 100
    then codes "00" ++ decimal n
    else if ltb n 1000
    then codes "0" ++ decimal n
    else decimal n

-- `f"CTR-{year}-{int(value):04d}"`
unfoldable pub numbered : ℕ → ℕ → Text
numbered year n = codes "CTR-" ++ decimal year ++ codes "-" ++ four_digits n

-- `next_number`
unfoldable pub next_number : ℕ → Method Store Text
next_number year s = (ok (numbered year s.numbers), record s { numbers = s.numbers + 1 })
