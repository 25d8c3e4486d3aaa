-- ===== src/Contract.antt =====
-- app/domain/entities/contract.py: the aggregate Contract. The proofs are in the modules below.
pub mod Table
pub mod Notice
pub mod Messages
use event_pro_backend.Prelude.{
  ℕ, leb, Bool, true, false, not, ◌&&◌, ◌||◌, Option, none, some, is_some, Text, truthy, has_text,
  length, if◌then◌else◌,
}
use event_pro_backend.Method.{
  Result, ok, err, Method, modify, raise_if, ◌>>=◌, ◌>>◌, lift, validation, invalid_contract_state,
}
use event_pro_backend.Clock.{DateTime, naive, aware}
use event_pro_backend.Event.{EventStatus, in_progress, extended, settled, cancelled}

pub data ContractStatus : Type 0 where
  draft issued signed voided : ContractStatus

-- An instant is in microseconds of UTC. The counters start at 0 and only grow, and the table refuses
-- a negative count of attempts.
pub record Contract : Type 0 where
  pub contract_number : Text
  pub event_id : ℕ
  pub id : ℕ
  pub status : ContractStatus
  pub pdf_storage_path : Option Text
  pub is_manual_mode : Bool
  pub custom_clauses : Option Text
  pub signature_token_hash : Option Text
  pub signature_token_expires_at : Option ℕ
  pub otp_hash : Option Text
  pub otp_expires_at : Option ℕ
  pub otp_attempts : ℕ
  pub otp_last_requested_at : Option ℕ
  pub otp_window_started_at : Option ℕ
  pub otp_request_count : ℕ
  pub signature_image_path : Option Text
  pub signer_ip : Option Text
  pub signer_user_agent : Option Text
  pub signed_at : Option ℕ
  pub sealed_pdf_storage_path : Option Text
  pub sealed_pdf_sha256 : Option Text
  pub is_timestamped : Bool
  pub created_at : ℕ

abbrev pub is_draft : ContractStatus → Bool
is_draft draft = true
is_draft _ = false

abbrev pub is_issued : ContractStatus → Bool
is_issued issued = true
is_issued _ = false

abbrev pub is_signed : ContractStatus → Bool
is_signed signed = true
is_signed _ = false

abbrev pub is_voided : ContractStatus → Bool
is_voided voided = true
is_voided _ = false

-- The truth value of an optional text: false if there is none or it is empty.
abbrev pub filled : Option Text → Bool
filled none = false
filled (some t) = truthy t

abbrev pub number_is_valid : Text → Bool
number_is_valid number = has_text number && leb (length number) 30

abbrev pub has_evidence : Contract → Bool
has_evidence k =
    is_some k.signed_at && filled k.sealed_pdf_storage_path && filled k.sealed_pdf_sha256

-- `Contract(…)`, with the checks of `__post_init__`.
unfoldable pub contract : Contract → Result Contract
unfolding has_text
contract k =
    if not (number_is_valid k.contract_number)
    then err validation
    else if (is_issued k.status || is_signed k.status) && not (filled k.pdf_storage_path)
    then err validation
    else if is_signed k.status && not (has_evidence k)
    then err validation
    else ok k

-- `Contract(contract_number=…, event_id=…, is_manual_mode=…, created_at=…)` with a fresh `uuid4()`.
abbrev pub blank_contract : ℕ → Text → ℕ → Bool → ℕ → Contract
blank_contract id number event_id is_manual created_at = record {
  contract_number = number;
  event_id = event_id;
  id = id;
  status = draft;
  pdf_storage_path = none;
  is_manual_mode = is_manual;
  custom_clauses = none;
  signature_token_hash = none;
  signature_token_expires_at = none;
  otp_hash = none;
  otp_expires_at = none;
  otp_attempts = 0;
  otp_last_requested_at = none;
  otp_window_started_at = none;
  otp_request_count = 0;
  signature_image_path = none;
  signer_ip = none;
  signer_user_agent = none;
  signed_at = none;
  sealed_pdf_storage_path = none;
  sealed_pdf_sha256 = none;
  is_timestamped = false;
  created_at = created_at;
}

abbrev pub is_editable : ContractStatus → Bool
is_editable s = is_draft s || is_issued s

unfoldable pub require_editable : Method Contract (Unit {0})
require_editable = raise_if (λ k. not (is_editable k.status)) invalid_contract_state

unfoldable pub issue : Text → Method Contract (Unit {0})
unfolding require_editable
issue path = do
  require_editable
  raise_if (λ k. not (truthy path)) validation
  modify (λ k. record k { pdf_storage_path = some path; status = issued })

-- `expires_at.tzinfo is None` is refused.
abbrev pub zoned : DateTime → Result ℕ
zoned (naive t) = err validation
zoned (aware t) = ok t

unfoldable pub replace_link : Text → DateTime → Method Contract (Unit {0})
replace_link token_hash expires_at = do
  raise_if (λ k. not (is_issued k.status)) invalid_contract_state
  instant ← lift (zoned expires_at)
  modify (λ k. record k {
    signature_token_hash = some token_hash;
    signature_token_expires_at = some instant;
    otp_hash = none;
    otp_expires_at = none;
    otp_attempts = 0;
  })

abbrev pub is_cancelled : EventStatus → Bool
is_cancelled cancelled = true
is_cancelled _ = false

-- `event_status in ("IN_PROGRESS", "EXTENDED", "SETTLED")`
abbrev pub is_under_way : EventStatus → Bool
is_under_way in_progress = true
is_under_way extended = true
is_under_way settled = true
is_under_way _ = false

-- Not a link, nor a code, nor its attempts.
abbrev pub without_link : Contract → Contract
without_link k = record k {
  signature_token_hash = none;
  signature_token_expires_at = none;
  otp_hash = none;
  otp_expires_at = none;
  otp_attempts = 0;
}

unfoldable pub void : EventStatus → Text → Bool → Method Contract (Unit {0})
unfolding has_text
void event_status reason event_started = do
  raise_if (λ k. not (has_text reason)) validation
  raise_if (λ k. is_voided k.status) invalid_contract_state
  raise_if (λ k. is_signed k.status && not (is_cancelled event_status)) invalid_contract_state
  raise_if (λ k. event_started || is_under_way event_status) invalid_contract_state
  modify (λ k. record (without_link k) { status = voided })
