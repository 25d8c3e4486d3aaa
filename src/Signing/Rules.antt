-- ===== src/Signing/Rules.antt =====
-- The parts of SignContract (sign_contract.py): the throttle, the codes, the proof and the evidence.
use event_pro_backend.Prelude.{
  ℕ, ◌+◌, ◌/◌, ◌%◌, ◌==◌, ltb, leb, Bool, true, false, not, ◌&&◌, ◌||◌, Option, none, some, is_some,
  [], ◌∷◌, ◌++◌, Text, text_eq, truthy, codes, decimal, pos, ltb_ℤ, leb_ℤ, take, if◌then◌else◌,
}
use event_pro_backend.Method.{
  Error, Result, ok, err, and_then, signature_error, rate_limit_exceeded, signature_conflict,
  invalid_otp, otp_expired, otp_attempts_exceeded, signature_token_expired,
}
use event_pro_backend.Clock.{later, seconds, minutes}
use event_pro_backend.Event.{EventStatus, awaiting_signature}
use event_pro_backend.Outbox.Payload.{Value, null, str, object, end}
use event_pro_backend.Contract.{Contract, signed, is_issued, filled}
use event_pro_backend.Contract.Notice.{entry}
use event_pro_backend.Contract.Table.{ContractData, str_uuid, is_text}

-- The claims of a proof. `claims.get` gives `null` for one that is missing; `jwt.decode` requires `sub`
-- and `iat`.
pub record Claims : Type 0 where
  pub sub : Value
  pub purpose : Value
  pub link : Value
  pub otp : Value
  pub iat : ℕ
  pub exp : ℕ

-- hashlib, hmac and jwt, with the secrets of the signature. `otp_digest` is the HMAC of the text that
-- joins the id, the hash of the token, the last request, the number of requests and the code. `decode`
-- at an instant gives no claims where `jwt.decode` raises.
pub record Crypto : Type 0 where
  pub sha256 : Text → Text
  pub otp_digest : ℕ → Option Text → Option ℕ → ℕ → Text → Text
  pub encode : Claims → Text
  pub decode : ℕ → Text → Option Claims

-- The settings of the use case, and of EnqueueMessage.
pub record Settings : Type 0 where
  pub otp_minutes : ℕ
  pub max_attempts : ℕ
  pub proof_minutes : ℕ
  pub outbox_max_attempts : ℕ

abbrev pub is_awaiting : EventStatus → Bool
is_awaiting awaiting_signature = true
is_awaiting _ = false

-- `value is None or value <= now`
abbrev pub is_past : ℕ → Option ℕ → Bool
is_past now none = true
is_past now (some t) = leb t now

-- The checks at the end of `resolve`.
unfoldable pub check_signable : ℕ → Contract → ContractData → Result (Unit {0})
check_signable now k d =
    if not (is_issued k.status) || not (is_awaiting d.event_status)
    then err (signature_error 409 signature_conflict)
    else if d.event_started
    then err (signature_error 409 signature_conflict)
    else if is_past now k.signature_token_expires_at
    then err (signature_error 410 signature_token_expired)
    else ok tt

-- `_otp_hash`
abbrev pub otp_hash : Crypto → Contract → Text → Text
otp_hash c k code =
    c.otp_digest k.id k.signature_token_hash k.otp_last_requested_at k.otp_request_count code

-- Sixty seconds have not passed since the last request.
unfoldable pub too_soon : ℕ → Option ℕ → Result Bool
unfolding later
too_soon now none = ok false
too_soon now (some last) = and_then (later last (seconds 60)) λ free. ok (ltb now free)

abbrev pub new_window : ℕ → Contract → Contract
new_window now k = record k { otp_window_started_at = some now; otp_request_count = 0 }

-- A window of ten minutes, a new one if the last has ended.
unfoldable pub open_window : ℕ → Contract → Result Contract
unfolding later
open_window now k = elim k.otp_window_started_at [
  | none ↦ ok (new_window now k)
  | some start ↦
      and_then (later start (minutes 10))
        λ finish. ok (if leb finish now then new_window now k else k)
]

-- The refusals of `request_otp`, and the contract with its window.
unfoldable pub throttle : ℕ → Contract → Result Contract
unfolding too_soon open_window
throttle now k = and_then (too_soon now k.otp_last_requested_at) λ soon.
    if soon
    then err (signature_error 429 rate_limit_exceeded)
    else and_then (open_window now k) λ k'.
      if leb 3 k'.otp_request_count then err (signature_error 429 rate_limit_exceeded) else ok k'

-- The contract with a new code.
unfoldable pub new_otp : Settings → Crypto → ℕ → Text → Contract → Result Contract
unfolding later
new_otp cfg c now code k = and_then (later now (minutes cfg.otp_minutes)) λ expires_at.
    let k' = record k {
      otp_expires_at = some expires_at;
      otp_attempts = 0;
      otp_last_requested_at = some now;
      otp_request_count = k.otp_request_count + 1;
    } in
    ok (record k' { otp_hash = some (otp_hash c k' code) })

-- `f"{n:06d}"` of a number below a million
abbrev pub six_digits : ℕ → Text
six_digits n =
    (48 + n / 100000 % 10)
    ∷ (48 + n / 10000 % 10)
    ∷ (48 + n / 1000 % 10)
    ∷ (48 + n / 100 % 10)
    ∷ (48 + n / 10 % 10)
    ∷ (48 + n % 10)
    ∷ []

-- The content of the message with a code.
unfoldable pub code_payload : Settings → Contract → Text → Value
code_payload cfg k code = entry (codes "contract_id") (str_uuid k.id) (
    entry (codes "body")
      (codes "Código para firmar tu contrato: "
        ++ code
        ++ codes ". Vence en "
        ++ decimal cfg.otp_minutes
        ++ codes " minutos.")
      (object end))

pub data Verification : Type 0 where
  verified : Text → ℕ → Verification
  refused : Error → Verification

-- `not hash or not expires_at or expires_at <= now`
abbrev pub otp_is_dead : ℕ → Contract → Bool
otp_is_dead now k = not (filled k.otp_hash) || is_past now k.otp_expires_at

abbrev pub same_hash : Text → Option Text → Bool
same_hash given none = false
same_hash given (some t) = text_eq t given

-- A wrong code is counted; the last one that is allowed removes the code.
unfoldable pub miss : Settings → Contract → Contract
miss cfg k =
    if leb cfg.max_attempts (k.otp_attempts + 1)
    then record k { otp_attempts = k.otp_attempts + 1; otp_hash = none }
    else record k { otp_attempts = k.otp_attempts + 1 }

-- What is said of a wrong code, by the attempts that remain.
abbrev pub miss_error : ℕ → Error
miss_error remaining =
    if remaining == 0
    then signature_error 429 otp_attempts_exceeded
    else signature_error 422 invalid_otp

abbrev pub opt_str : Option Text → Value
opt_str none = null
opt_str (some t) = str t

-- The claims of the proof that the code was given.
abbrev pub proof_claims : Settings → ℕ → ℕ → Contract → Claims
proof_claims cfg now exp k = record {
  sub = str (str_uuid k.id);
  purpose = str (codes "otp-proof");
  link = opt_str k.signature_token_hash;
  otp = opt_str k.otp_hash;
  iat = now;
  exp = exp;
}

-- `value == other`, of a claim and an optional text
abbrev pub is_opt_text : Option Text → Value → Bool
is_opt_text none null = true
is_opt_text none _ = false
is_opt_text (some t) v = is_text t v

-- `valid` in `sign`
unfoldable pub proof_is_valid : Settings → Contract → Claims → Bool
proof_is_valid cfg k claims =
    is_text (codes "otp-proof") claims.purpose
    && is_text (str_uuid k.id) claims.sub
    && is_opt_text k.signature_token_hash claims.link
    && is_some k.otp_hash
    && is_opt_text k.otp_hash claims.otp
    && ltb k.otp_attempts cfg.max_attempts

-- `jwt.decode` and the claims: 401 for both.
unfoldable pub check_proof : Settings → Crypto → ℕ → Text → Contract → Result Claims
unfolding proof_is_valid
check_proof cfg c now proof k = elim (c.decode now proof) [
  | none ↦ err (signature_error 401 invalid_otp)
  | some claims ↦
      if proof_is_valid cfg k claims then ok claims else err (signature_error 401 invalid_otp)
]

-- `if not contract.pdf_storage_path: raise`, and the path
unfoldable pub pdf_path : Contract → Result Text
pdf_path k = elim k.pdf_storage_path [
  | none ↦ err (signature_error 409 signature_conflict)
  | some path ↦ if truthy path then ok path else err (signature_error 409 signature_conflict)
]

-- The checks of `sign` between the proof and the seal, and the path of the document.
unfoldable pub check_terms : ℕ → Contract → ContractData → Result Text
unfolding pdf_path
check_terms now k d =
    if is_past now k.otp_expires_at
    then err (signature_error 410 otp_expired)
    else if ltb_ℤ d.advance d.required_advance || leb_ℤ d.advance (pos 0)
    then err (signature_error 409 signature_conflict)
    else pdf_path k

-- What the seal and the storage give, and the signer.
pub record Evidence : Type 0 where
  pub image_path : Text
  pub sealed_path : Text
  pub sealed : Text
  pub timestamped : Bool
  pub ip : Text
  pub user_agent : Text
  pub signed_at : ℕ

-- The contract that `sign` saves.
unfoldable pub sealed_contract : Crypto → Evidence → Contract → Contract
sealed_contract c e k = record k {
  signature_image_path = some e.image_path;
  sealed_pdf_storage_path = some e.sealed_path;
  sealed_pdf_sha256 = some (c.sha256 e.sealed);
  signed_at = some e.signed_at;
  is_timestamped = e.timestamped;
  signer_ip = some e.ip;
  signer_user_agent = some (take 255 e.user_agent);
  status = signed;
  signature_token_hash = none;
  signature_token_expires_at = none;
  otp_hash = none;
  otp_expires_at = none;
}
