-- ===== src/Issuing/Rules.antt =====
-- The parts of ManageContracts (manage_contracts.py): the checks, the document, the link and the audit.
use event_pro_backend.Prelude.{
  ℕ, ◌==◌, Bool, true, not, ◌&&◌, ◌||◌, Option, none, some, Text, codes, ◌++◌, pos, ◌+ℤ◌, eqb_ℤ,
  ltb_ℤ, leb_ℤ, if◌then◌else◌,
}
use event_pro_backend.Method.{
  Result, ok, err, and_then, Method, pure, raise, lift, raise_if, ◌>>=◌, ◌>>◌, validation,
  invalid_contract_state, resource_not_found,
}
use event_pro_backend.Clock.{aware, later, hours}
use event_pro_backend.Outbox.Schedule.{text}
use event_pro_backend.Outbox.Payload.{Value, object, end}
use event_pro_backend.Contract.{Contract, is_issued, is_signed, filled, issue, replace_link}
use event_pro_backend.Contract.Notice.{entry, notify}
use event_pro_backend.Contract.Table.{
  ContractData, Store, Action, get_contract, event_data, save, record_audit,
  invalidate_pending_links, str_uuid,
}
use event_pro_backend.Signing.Rules.{is_awaiting}

-- The settings: the address of the site, without a slash at its end, and the life of a link.
pub record Settings : Type 0 where
  pub frontend_url : Text
  pub link_ttl_hours : ℕ
  pub outbox_max_attempts : ℕ

-- What a call meets: `hashlib.sha256`, what others commit while it waits for the event, the clock with its
-- year, the fresh ids of a message and of a contract, the random token, the document, and the storage.
pub record Desk : Type 0 where
  pub sha256 : Text → Text
  pub while_waiting : Store → Store
  pub now : ℕ
  pub year : ℕ
  pub fresh : ℕ
  pub fresh_contract : ℕ
  pub token : Text
  pub rendered : Contract → ContractData → Result Text
  pub stored : Text → Result Text
  pub opened : Text → Result Text

abbrev pub wait : Desk → Method Store (Unit {0})
wait w s = (ok tt, w.while_waiting s)

unfoldable pub or_not_found : Option Contract → Method Store Contract
or_not_found none = raise resource_not_found
or_not_found (some k) = pure k

-- `ManageContracts.get`
unfoldable pub get : ℕ → Method Store Contract
unfolding get_contract or_not_found
get id = do row ← get_contract id; or_not_found row

-- `_locked`
unfoldable pub locked : Desk → ℕ → Method Store (Contract × ContractData)
unfolding get event_data
locked w id = do
  previous ← get id
  wait w
  d ← event_data previous.event_id
  k ← get id
  pure (k, d)

-- `_require_paid`
unfoldable pub require_paid : ContractData → Result (Unit {0})
unfolding ◌+ℤ◌
require_paid d =
    if not (eqb_ℤ (d.services +ℤ d.mobility) d.total) || ltb_ℤ d.total d.advance
    then err invalid_contract_state
    else if ltb_ℤ d.advance d.required_advance || leb_ℤ d.advance (pos 0)
    then err invalid_contract_state
    else if not (is_awaiting d.event_status)
    then err invalid_contract_state
    else ok tt

-- `prepare_payment_event`
unfoldable pub prepare_payment_event : Desk → ℕ → ℕ → Method Store (Unit {0})
unfolding event_data
prepare_payment_event w event_id quote_id = do
  wait w
  d ← event_data event_id
  raise_if (λ s. not (d.quote_id == quote_id)) validation
  raise_if (λ s. not (is_awaiting d.event_status)) invalid_contract_state

-- The contract after a method of it; a call that raises ends the use case.
abbrev pub done : Result (Unit {0}) × Contract → Result Contract
done (ok _, k) = ok k
done (err e, k) = err e

-- `_render`
unfoldable pub render : Desk → ContractData → Contract → Result Contract
unfolding issue
render w d k =
    and_then (w.rendered k d) λ content. and_then (w.stored content) λ path. done (issue path k)

-- `prepare_manual_pdf`
unfoldable pub prepare_manual_pdf : Desk → ContractData → Contract → Result Contract
unfolding render
prepare_manual_pdf w d k =
    if not k.is_manual_mode || not (k.event_id == d.event_id) then err validation else render w d k

-- The content of the message with a link.
unfoldable pub link_payload : Settings → Desk → Contract → Value
link_payload cfg w k = entry (codes "contract_id") (str_uuid k.id) (
    entry (codes "body")
      (codes "Revisa tu contrato "
        ++ k.contract_number
        ++ codes ": "
        ++ cfg.frontend_url
        ++ codes "/contracts/sign/"
        ++ w.token)
      (object end))

-- `contract.replace_link` with the hash of a new token
unfoldable pub relink : Settings → Desk → Contract → Result Contract
unfolding later replace_link
relink cfg w k =
    and_then (later w.now (hours cfg.link_ttl_hours))
      λ expires_at. done (replace_link (w.sha256 w.token) (aware expires_at) k)

-- `_link`
unfoldable pub link : Settings → Desk → ContractData → Contract → Method Store Contract
unfolding relink invalidate_pending_links notify
link cfg w d k = do
  fresh ← lift (relink cfg w k)
  invalidate_pending_links fresh.id
  notify cfg.outbox_max_attempts w.fresh w.now d.phone text (link_payload cfg w fresh) true
  pure fresh

-- `save`, and `_audit`
unfoldable pub save_with : Action → Option ℕ → Contract → Method Store Contract
unfolding save record_audit
save_with action user_id k = do
  save k
  record_audit (record { action = action; entity_id = k.id; user_id = user_id })
  pure k

-- Nothing is to be issued: the contract is signed, or issued with a link.
abbrev pub is_ready : Contract → Bool
is_ready k = is_signed k.status || (is_issued k.status && filled k.signature_token_hash)
