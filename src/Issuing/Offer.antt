-- ===== src/Issuing/Offer.antt =====
-- The contract that is issued, once it has its document and its link.
use event_pro_backend.Prelude.{ℕ, ◌≡◌, refl, ap, ◌∙◌, true, inl, inr, some, Text, truthy, arith}
use event_pro_backend.Method.{ok, Result-cases}
use event_pro_backend.Contract.{
  Contract, ContractStatus, draft, signed, voided, contract, issued, is_issued, filled, issue,
  require_editable, number_is_valid,
}
use event_pro_backend.Contract.Table.{ContractData, Store}
use event_pro_backend.Issuing.Rules.{Settings, Desk, render, is_ready}
use event_pro_backend.Issuing.Links.{Linked}
use event_pro_backend.Issuing.Sending.{Offered}
use event_pro_backend.Issuing.Outcome.{is_active}

is_issued_only : (s : ContractStatus) → is_issued s ≡ true → s ≡ issued
is_issued_only draft h = ground arith
is_issued_only issued h = refl
is_issued_only signed h = ground arith
is_issued_only voided h = ground arith

render-issued :
    (w : Desk) (d : ContractData) (k offered : Contract)
    → render w d k ≡ ok offered
    → (path : Text) × (truthy path ≡ true)
      × (offered ≡ record k { pdf_storage_path = some path; status = issued })
unfolding render issue require_editable
render-issued w d k offered h = elim (Result-cases (w.rendered k d)) [
  | inr (e, bad) ↦ ground (arith, h, bad)
  | inl (content, drawn) ↦ elim (Result-cases (w.stored content)) [
    | inr (e, bad) ↦ ground (arith, h, drawn, bad)
    | inl (path, kept) ↦ (path, ground (arith, h, drawn, kept), ground (arith, h, drawn, kept))
  ]
]

contract-number : (k : Contract) → contract k ≡ ok k → number_is_valid k.contract_number ≡ true
unfolding contract
contract-number k h = ground arith

contract-issued :
    (k : Contract)
    → number_is_valid k.contract_number ≡ true
    → k.status ≡ issued
    → filled k.pdf_storage_path ≡ true
    → contract k ≡ ok k
unfolding contract
contract-issued k n s f = ground (arith, n, s, f)

pub record IsOffer (event_id : ℕ) (k : Contract) : Type 0 where
  pub good_number : number_is_valid k.contract_number ≡ true
  pub was_issued : k.status ≡ issued
  pub has_pdf : filled k.pdf_storage_path ≡ true
  pub same_event : k.event_id ≡ event_id

rendered-IsOffer :
    (event_id : ℕ) (k offered : Contract) (path : Text)
    → number_is_valid k.contract_number ≡ true
    → k.event_id ≡ event_id
    → truthy path ≡ true
    → offered ≡ record k { pdf_storage_path = some path; status = issued }
    → IsOffer event_id offered
rendered-IsOffer event_id k offered path n e t same = record {
  good_number = ap (λ r. number_is_valid r.contract_number) same ∙ n;
  was_issued = ap (λ r. r.status) same;
  has_pdf = ap (λ r. filled r.pdf_storage_path) same ∙ t;
  same_event = ap (λ r. r.event_id) same ∙ e;
}

pub Offered-IsOffer :
    (w : Desk) (d : ContractData) (event_id : ℕ) (k offered : Contract)
    → contract k ≡ ok k
    → k.event_id ≡ event_id
    → Offered w d k offered
    → IsOffer event_id offered
Offered-IsOffer w d event_id k offered good e (inl (ready, same)) = record {
  good_number = ap (λ r. number_is_valid r.contract_number) same ∙ contract-number k good;
  was_issued = ap (λ r. r.status) same ∙ is_issued_only k.status (ground (arith, ready));
  has_pdf = ap (λ r. filled r.pdf_storage_path) same ∙ ground (arith, ready);
  same_event = ap (λ r. r.event_id) same ∙ e;
}
Offered-IsOffer w d event_id k offered good e (inr (bare, made)) =
    let (path, t, same) = render-issued w d k offered made in
    rendered-IsOffer event_id k offered path (contract-number k good) e t same

-- The contract that is sent is valid, active and ready.
pub record IsReady (event_id : ℕ) (k : Contract) : Type 0 where
  pub is_valid : contract k ≡ ok k
  pub is_active_now : is_active event_id k ≡ true
  pub has_link : is_ready k ≡ true

pub Linked-IsReady :
    (cfg : Settings) (w : Desk) (event_id : ℕ) (offered final : Contract) (s after : Store)
    → truthy (w.sha256 w.token) ≡ true
    → IsOffer event_id offered
    → Linked cfg w offered final s after
    → IsReady event_id final
Linked-IsReady cfg w event_id offered final s after hashed o l =
    let status : final.status ≡ issued = ap (λ r. r.status) l.is_linked ∙ o.was_issued in
    let number : number_is_valid final.contract_number ≡ true =
      ap (λ r. number_is_valid r.contract_number) l.is_linked ∙ o.good_number in
    let pdf : filled final.pdf_storage_path ≡ true =
      ap (λ r. filled r.pdf_storage_path) l.is_linked ∙ o.has_pdf in
    let event : final.event_id ≡ event_id = ap (λ r. r.event_id) l.is_linked ∙ o.same_event in
    let token : filled final.signature_token_hash ≡ true =
      ap (λ r. filled r.signature_token_hash) l.is_linked ∙ hashed in
    record {
      is_valid = contract-issued final number status pdf;
      is_active_now = ground arith;
      has_link = ground arith;
    }
