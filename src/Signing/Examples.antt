-- ===== src/Signing/Examples.antt =====
-- A contract on its way to the signature, and the theorems at it.
use event_pro_backend.Prelude.{
  ℕ, ◌≡◌, ◌≢◌, refl, ◌==◌, true, false, none, some, [], ◌∷◌, Text, codes, pos, if◌then◌else◌,
}
use event_pro_backend.Method.{
  Result, ok, err, signature_error, invalid_signature_token, invalid_otp,
}
use event_pro_backend.Clock.{require_aware}
use event_pro_backend.Event.{awaiting_signature, scheduled}
use event_pro_backend.Outbox.Payload.{validate_payload}
use event_pro_backend.Phone.{parse}
use event_pro_backend.Contract.{Contract, blank_contract, issued, signed}
use event_pro_backend.Contract.Table.{Store, ContractData, contract_signed, find_contract, str_uuid}
use event_pro_backend.Signing.Rules.{Settings, Crypto, proof_claims, refused}
use event_pro_backend.Signing.{Around, sign, pdf, request_otp, verify_otp}
use event_pro_backend.Signing.Resolving.{Resolved}
use event_pro_backend.Signing.Once.{sign-stored, sign_once}
use event_pro_backend.Signing.Steps.{Answer, verify_otp-answer}

abbrev pub cfg : Settings
cfg = record { otp_minutes = 10; max_attempts = 5; proof_minutes = 15; outbox_max_attempts = 6 }

abbrev pub token : Text
token = codes "0123456789abcdef0123456789abcdef"

-- The digests and the proofs are readable here.
abbrev pub sha : Text → Text
sha t = 35 ∷ t

-- Issued, with a code that was sent.
abbrev pub waiting : Contract
waiting = record (blank_contract 7 (codes "CTR-2026-0001") 3 false 0) {
  status = issued;
  pdf_storage_path = some (codes "c.pdf");
  signature_token_hash = some (sha token);
  signature_token_expires_at = some 5000;
  otp_hash = some (35 ∷ codes "123456");
  otp_expires_at = some 2000;
  otp_last_requested_at = some 100;
  otp_window_started_at = some 100;
  otp_request_count = 1;
}

abbrev pub crypto : Crypto
crypto = record {
  sha256 = sha;
  otp_digest = λ id link at n code. 35 ∷ code;
  encode = λ claims. codes "proof";
  decode = λ now t. some (proof_claims cfg 900 5000 waiting);
}

abbrev pub paid : ContractData
paid = record {
  event_id = 3;
  event_status = awaiting_signature;
  quote_id = 2;
  is_manual = false;
  phone = codes "999999999";
  services = pos 90000;
  mobility = pos 10000;
  total = pos 100000;
  advance = pos 50000;
  required_advance = pos 50000;
  observations = none;
  event_started = false;
}

abbrev pub store : Store
store = record {
  contracts = waiting ∷ [];
  events = λ id. if id == 3 then some paid else none;
  outbox = [];
  audit = [];
  numbers = 2;
}

abbrev quiet : Around
quiet = record {
  while_waiting = λ s. s;
  resolved_at = 1000;
  now = 1001;
  finished_at = 1002;
  fresh = 20;
  random = 123456;
  opened = λ path. ok (codes "%PDF");
  sealed = λ original image name. ok (codes "%PDF sealed", true);
  image_stored = λ image. ok (codes "s.png");
  pdf_stored = λ sealed. ok (codes "d.pdf");
}

abbrev final : Contract
final = record waiting {
  signature_image_path = some (codes "s.png");
  sealed_pdf_storage_path = some (codes "d.pdf");
  sealed_pdf_sha256 = some (sha (codes "%PDF sealed"));
  signed_at = some 1002;
  is_timestamped = true;
  signer_ip = some (codes "10.0.0.1");
  signer_user_agent = some (codes "test");
  status = signed;
  signature_token_hash = none;
  signature_token_expires_at = none;
  otp_hash = none;
  otp_expires_at = none;
}

abbrev pub proof : Text
proof = codes "proof"

abbrev png : Text
png = codes "png"

abbrev ana : Text
ana = codes "Ana"

abbrev address : Text
address = codes "10.0.0.1"

abbrev browser : Text
browser = codes "test"

abbrev outcome : Result Contract × Store
outcome = sign cfg crypto quiet token proof png ana address browser store

returned : outcome.0 ≡ ok final
unfolding sign str_uuid parse require_aware validate_payload
returned = refl

sign-stored_example :
    (final.status ≡ signed)
    × (final.signature_token_hash ≡ none)
    × (find_contract (λ r. r.id == final.id) outcome.1.contracts ≡ some final)
    × ((id : ℕ)
        → id ≢ final.id
        → find_contract (λ r. r.id == id) outcome.1.contracts
          ≡ find_contract (λ r. r.id == id) store.contracts)
    × ((d : ContractData)
        → store.events final.event_id ≡ some d
        → outcome.1.events final.event_id ≡ some (record d { event_status = scheduled }))
    × ((id : ℕ) → id ≢ final.event_id → outcome.1.events id ≡ store.events id)
    × (outcome.1.audit ≡ record { action = contract_signed; entity_id = 7; user_id = none } ∷ [])
sign-stored_example =
    sign-stored cfg crypto quiet token proof png ana address browser store final returned

sign_once_example :
    let gone = signature_error 404 invalid_signature_token in
    (pdf crypto quiet token outcome.1 ≡ (err gone, outcome.1))
    × (request_otp cfg crypto quiet token outcome.1 ≡ (err gone, outcome.1))
    × (verify_otp cfg crypto quiet token (codes "123456") outcome.1 ≡ (err gone, outcome.1))
    × (sign cfg crypto quiet token proof png ana address browser outcome.1 ≡ (err gone, outcome.1))
sign_once_example =
    sign_once cfg crypto quiet token proof png ana address browser store final returned (tt, tt)
      ((λ h. refl), tt) quiet (codes "123456") proof png ana address browser

-- A wrong code is counted.
wrong_code :
    (verify_otp cfg crypto quiet token (codes "000000") store).0
    ≡ ok (refused (signature_error 422 invalid_otp))
unfolding verify_otp
wrong_code = refl

verify_otp-answer_example :
    (k : Contract) × (d : ContractData) × Resolved crypto quiet token store k d
    × Answer cfg crypto quiet token store k
        (codes "000000")
        (refused (signature_error 422 invalid_otp))
        (verify_otp cfg crypto quiet token (codes "000000") store).1
verify_otp-answer_example =
    verify_otp-answer cfg crypto quiet token store (codes "000000")
      (refused (signature_error 422 invalid_otp)) wrong_code
