-- ===== src/Signing.antt =====
-- app/application/use_cases/contract/sign_contract.py: the public signature of a contract, by its link,
-- a code sent to the phone of the client, and the proof that the code was given. The contract is read
-- anew under the lock of its event.
pub mod Rules
pub mod Protocol
pub mod Pace
pub mod Spacing
pub mod Phases
pub mod Refinement
pub mod Attempts
pub mod Loading
pub mod Resolving
pub mod Writes
pub mod Sealing
pub mod Once
pub mod Steps
pub mod Journey
pub mod Examples
mod CallExamples
use event_pro_backend.Prelude.{
  ℕ, ◌+◌, ◌-◌, ◌*◌, ltb, leb, Bool, true, false, not, ◌||◌, Option, none, some, Text, codes, length,
  drop, ◌++◌, if◌then◌else◌,
}
use event_pro_backend.Method.{
  Result, ok, Method, pure, raise, lift, raise_if, ◌>>=◌, ◌>>◌, signature_error,
  invalid_signature_token, otp_attempts_exceeded, otp_expired,
}
use event_pro_backend.Clock.{later, minutes}
use event_pro_backend.Outbox.Schedule.{text, document}
use event_pro_backend.Outbox.Payload.{Value, object, end}
use event_pro_backend.Contract.Notice.{entry, notify}
use event_pro_backend.Contract.{Contract}
use event_pro_backend.Contract.Table.{
  ContractData, Store, contract_signed, find_token, event_data, save, schedule_event, record_audit,
  invalidate_pending_links,
}
use event_pro_backend.Signing.Rules.{
  Crypto, Settings, Verification, verified, refused, check_signable, throttle, new_otp, six_digits,
  code_payload, otp_is_dead, same_hash, otp_hash, miss, miss_error, proof_claims, check_proof,
  pdf_path, check_terms, sealed_contract,
}

-- What a call meets: what others commit while it waits for the event, the instants at which it reads the
-- clock, the fresh id of its message, the random number of its code, and the answers of the storage and
-- of the seal.
pub record Around : Type 0 where
  pub while_waiting : Store → Store
  pub resolved_at : ℕ
  pub now : ℕ
  pub finished_at : ℕ
  pub fresh : ℕ
  pub random : ℕ
  pub opened : Text → Result Text
  pub sealed : Text → Text → Text → Result (Text × Bool)
  pub image_stored : Text → Result Text
  pub pdf_stored : Text → Result Text

unfoldable pub or_no_token : Option Contract → Method Store Contract
or_no_token none = raise (signature_error 404 invalid_signature_token)
or_no_token (some k) = pure k

abbrev pub token_is_short : Text → Bool
token_is_short token = ltb (length token) 32 || ltb 128 (length token)

-- The contract of a token
unfoldable pub by_token : Crypto → Text → Method Store Contract
unfolding find_token or_no_token
by_token c token = do row ← find_token (c.sha256 token); or_no_token row

-- The others commit while the lock is awaited.
abbrev pub wait : Around → Method Store (Unit {0})
wait a s = (ok tt, a.while_waiting s)

-- `resolve` without the lock
unfoldable pub resolve : Crypto → Around → Text → Method Store (Contract × ContractData)
unfolding by_token event_data check_signable
resolve c a token = do
  raise_if (λ s. token_is_short token) (signature_error 404 invalid_signature_token)
  k ← by_token c token
  d ← event_data k.event_id
  lift (check_signable a.resolved_at k d)
  pure (k, d)

-- `resolve` with `lock=True`
unfoldable pub resolve_locked : Crypto → Around → Text → Method Store (Contract × ContractData)
unfolding by_token event_data check_signable
resolve_locked c a token = do
  raise_if (λ s. token_is_short token) (signature_error 404 invalid_signature_token)
  previous ← by_token c token
  wait a
  d ← event_data previous.event_id
  k ← by_token c token
  lift (check_signable a.resolved_at k d)
  pure (k, d)

-- `SignContract.pdf`
unfoldable pub pdf : Crypto → Around → Text → Method Store Text
unfolding resolve pdf_path
pdf c a token = do (k, d) ← resolve c a token; path ← lift (pdf_path k); lift (a.opened path)

pub record OtpSent : Type 0 where
  pub expires_in : ℕ
  pub resend_available_in : ℕ
  pub phone_hint : Text

-- The last three characters.
abbrev pub last_three : Text → Text
last_three s = drop (length s - 3) s

-- `SignContract.request_otp`
unfoldable pub request_otp : Settings → Crypto → Around → Text → Method Store OtpSent
unfolding resolve_locked throttle new_otp invalidate_pending_links notify save
request_otp cfg c a token = do
  (k, d) ← resolve_locked c a token
  counted ← lift (throttle a.now k)
  fresh ← lift (new_otp cfg c a.now (six_digits a.random) counted)
  invalidate_pending_links fresh.id
  notify cfg.outbox_max_attempts a.fresh a.finished_at d.phone text
      (code_payload cfg fresh (six_digits a.random)) true
  save fresh
  pure (record {
    expires_in = cfg.otp_minutes * 60;
    resend_available_in = 60;
    phone_hint = codes "*** *** " ++ last_three d.phone;
  })

-- `SignContract.verify_otp`; what it returns as an error is `refused`.
unfoldable pub verify_otp : Settings → Crypto → Around → Text → Text → Method Store Verification
unfolding resolve_locked miss later save
verify_otp cfg c a token code = do
  (k, d) ← resolve_locked c a token
  if leb cfg.max_attempts k.otp_attempts
      then pure (refused (signature_error 429 otp_attempts_exceeded))
      else if otp_is_dead a.now k
      then pure (refused (signature_error 410 otp_expired))
      else if not (same_hash (otp_hash c k code) k.otp_hash)
      then (do
        save (miss cfg k)
        pure (refused (miss_error (cfg.max_attempts - (k.otp_attempts + 1)))))
      else (do
        expires_at ← lift (later a.now (minutes cfg.proof_minutes))
        pure (verified (c.encode (proof_claims cfg a.now expires_at k)) (cfg.proof_minutes * 60)))

abbrev pub signed_name : Contract → Text
signed_name k = k.contract_number ++ codes "-signed.pdf"

-- The content of the message with the signed copy.
abbrev pub copy_payload : Contract → Text → Value
copy_payload k path = entry (codes "path") path (
    entry (codes "filename") (signed_name k) (
      entry (codes "content_type") (codes "application/pdf")
        (entry (codes "caption") (codes "Tu contrato firmado.") (object end))))

-- The writes of `sign`: the contract, the event, the audit and the copy for the client.
unfoldable pub write_signature :
    Settings → Around → Contract → ContractData → Text → Method Store (Unit {0})
unfolding invalidate_pending_links save schedule_event record_audit notify
write_signature cfg a k d path = do
  invalidate_pending_links k.id
  save k
  schedule_event k.event_id
  record_audit (record { action = contract_signed; entity_id = k.id; user_id = none })
  notify cfg.outbox_max_attempts a.fresh a.finished_at d.phone document (copy_payload k path) false
  pure tt

-- `SignContract.sign`
unfoldable pub sign :
    Settings → Crypto → Around → Text → Text → Text → Text → Text → Text → Method Store Contract
unfolding resolve_locked check_proof check_terms sealed_contract write_signature
sign cfg c a token proof image name ip user_agent = do
  (k, d) ← resolve_locked c a token
  lift (check_proof cfg c a.now proof k)
  path ← lift (check_terms a.now k d)
  original ← lift (a.opened path)
  (sealed, timestamped) ← lift (a.sealed original image name)
  image_path ← lift (a.image_stored image)
  sealed_path ← lift (a.pdf_stored sealed)
  let final =
      sealed_contract c
        (record {
          image_path = image_path;
          sealed_path = sealed_path;
          sealed = sealed;
          timestamped = timestamped;
          ip = ip;
          user_agent = user_agent;
          signed_at = a.finished_at;
        })
        k
  write_signature cfg a final d sealed_path
  pure final
