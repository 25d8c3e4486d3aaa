-- ===== src/Issuing.antt =====
-- app/application/use_cases/contract/manage_contracts.py: a contract is issued with its link, sent again,
-- written anew with other observations, and annulled.
pub mod Rules
pub mod Links
pub mod Sending
pub mod Outcome
pub mod Offer
pub mod Again
pub mod Voiding
pub mod Examples
use event_pro_backend.Prelude.{
  ℕ, ltb, Bool, true, false, not, ◌||◌, Option, none, some, is_some, Text, text_eq, length,
  if◌then◌else◌,
}
use event_pro_backend.Method.{
  ok, Method, pure, lift, raise_if, ◌>>=◌, ◌>>◌, validation, invalid_contract_state,
  resource_not_found,
}
use event_pro_backend.Contract.{
  Contract, contract, blank_contract, draft, is_draft, is_issued, is_editable, filled, void,
}
use event_pro_backend.Contract.Table.{
  ContractData, Store, contract_issued, contract_link_resent, contract_regenerated, contract_voided,
  found, active_for_event, event_data, next_number, set_observations, invalidate_pending_links,
}
use event_pro_backend.Issuing.Rules.{
  Settings, Desk, wait, get, locked, require_paid, done, render, link, save_with, is_ready,
}

-- The rest of `issue_for_event`
unfoldable pub issue_contract :
    Settings → Desk → ContractData → Option ℕ → Contract → Method Store Contract
unfolding render link save_with
issue_contract cfg w d user_id k = do
  offered ←
      lift
        (if not (is_issued k.status) || not (filled k.pdf_storage_path) then render w d k else ok k)
  linked ← link cfg w d offered
  save_with contract_issued user_id linked

-- `Contract(…)` of `issue_for_event`
unfoldable pub new_contract : Desk → ContractData → ℕ → Method Store Contract
unfolding next_number contract
new_contract w d event_id = do
  number ← next_number w.year
  lift (contract (blank_contract w.fresh_contract number event_id d.is_manual w.now))

-- `issue_for_event`
unfoldable pub issue_for_event : Settings → Desk → ℕ → Option ℕ → Method Store Contract
unfolding event_data require_paid active_for_event issue_contract new_contract
issue_for_event cfg w event_id user_id = do
  wait w
  d ← event_data event_id
  lift (require_paid d)
  row ← active_for_event event_id
  elim row [
    | none ↦ do k ← new_contract w d event_id; issue_contract cfg w d user_id k
    | some k ↦ if is_ready k then pure k else issue_contract cfg w d user_id k
  ]

-- `resend`
unfoldable pub resend : Settings → Desk → ℕ → ℕ → Method Store Contract
unfolding locked require_paid link save_with
resend cfg w id user_id = do
  (k, d) ← locked w id
  lift (require_paid d)
  linked ← link cfg w d k
  save_with contract_link_resent (some user_id) linked

abbrev pub same_observations : Option Text → Option Text → Bool
same_observations none none = true
same_observations (some s) (some t) = text_eq s t
same_observations _ _ = false

abbrev pub is_too_long : Option Text → Bool
is_too_long none = false
is_too_long (some t) = ltb 5000 (length t)

-- A draft stays one; else the document has a new link.
unfoldable pub publish : Settings → Desk → ContractData → Bool → Contract → Method Store Contract
unfolding link
publish cfg w d was_draft k =
    if was_draft then pure (record k { status = draft }) else link cfg w d k

-- `update_observations`
unfoldable pub update_observations : Settings → Desk → ℕ → Option Text → ℕ → Method Store Contract
unfolding locked require_paid render publish set_observations save_with
update_observations cfg w id observations user_id = do
  (k, d) ← locked w id
  raise_if (λ s. not (is_editable k.status)) invalid_contract_state
  lift (require_paid d)
  raise_if (λ s. is_too_long observations) validation
  if same_observations d.observations observations then pure k else (do
    set_observations k.event_id observations
    offered ← lift (render w (record d { observations = observations }) k)
    published ← publish cfg w d (is_draft k.status) offered
    save_with contract_regenerated (some user_id) published)

-- `ManageContracts.void`
unfoldable pub void_contract : Desk → ℕ → Text → ℕ → Method Store Contract
unfolding locked void invalidate_pending_links save_with
void_contract w id reason user_id = do
  (k, d) ← locked w id
  annulled ← lift (done (void d.event_status reason d.event_started k))
  invalidate_pending_links annulled.id
  save_with contract_voided (some user_id) annulled

-- `pdf`
unfoldable pub pdf : Desk → ℕ → Method Store Text
unfolding get
pdf w id = do
  k ← get id
  raise_if (λ s. is_draft k.status) resource_not_found
  let path = if is_some k.signed_at then k.sealed_pdf_storage_path else k.pdf_storage_path
  name ← lift (found path)
  raise_if (λ s. not (filled path)) resource_not_found
  lift (w.opened name)
