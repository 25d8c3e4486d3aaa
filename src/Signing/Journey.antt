-- ===== src/Signing/Journey.antt =====
-- From a code that is sent to the signature.
use event_pro_backend.Prelude.{
  ℕ, ◌≡◌, refl, ap, sym, text_eq_sound, ◌+◌, ◌<◌, ◌≤◌, true, false, Option, none, some, Text,
  text_eq_refl, truthy, arith,
}
use event_pro_backend.Method.{ok}
use event_pro_backend.Clock.{later, minutes}
use event_pro_backend.Contract.{Contract}
use event_pro_backend.Contract.Table.{str_uuid}
use event_pro_backend.Signing.Rules.{
  Settings, Crypto, Claims, throttle, too_soon, open_window, new_otp, otp_hash, otp_is_dead,
  proof_claims, check_proof, proof_is_valid, opt_str, is_opt_text,
}
use event_pro_backend.Signing.Protocol.{asked, is_missed}

asked-code :
    (cfg : Settings) (c : Crypto) (now : ℕ) (code : Text) (k k' : Contract)
    → asked cfg c now code k ≡ ok k'
    → (k'.otp_hash ≡ some (otp_hash c k' code))
      × (k'.otp_expires_at ≡ some (now + minutes cfg.otp_minutes))
      × (k'.otp_attempts ≡ 0)
unfolding asked throttle too_soon open_window new_otp later
asked-code cfg c now code k k' h = ground arith

same_opt_text : (o : Option Text) → is_opt_text o (opt_str o) ≡ true
same_opt_text none = refl
same_opt_text (some t) = text_eq_refl t

opt_text_sound : (o p : Option Text) → is_opt_text o (opt_str p) ≡ true → o ≡ p
opt_text_sound none none h = refl
opt_text_sound none (some t) h = ground arith
opt_text_sound (some t) none h = ground arith
opt_text_sound (some t) (some u) h = ap some (sym (text_eq_sound u t h))

-- The code of an accepted request, given before it expires: it is not taken as wrong; its proof is accepted
-- for this contract wherever the token still gives back its claims; and a contract for which the proof is
-- accepted has the same link and the same code. No digest is empty, and some attempt is allowed.
pub asked-proof :
    (cfg : Settings) (c : Crypto) (now t u exp : ℕ) (code : Text) (k k' : Contract)
    → ((id : ℕ) (link : Option Text) (at : Option ℕ) (n : ℕ) (code : Text)
        → truthy (c.otp_digest id link at n code) ≡ true)
    → 1 ≤ cfg.max_attempts
    → asked cfg c now code k ≡ ok k'
    → t < now + minutes cfg.otp_minutes
    → let claims = proof_claims cfg t exp k' in
      let proof = c.encode claims in
      c.decode u proof ≡ some claims
      → (is_missed cfg c t code k' ≡ false)
        × (otp_is_dead t k' ≡ false)
        × (check_proof cfg c u proof k' ≡ ok claims)
        × ((other : Contract) (read : Claims)
            → check_proof cfg c u proof other ≡ ok read
            → (other.signature_token_hash ≡ k'.signature_token_hash)
              × (other.otp_hash ≡ k'.otp_hash))
unfolding check_proof proof_is_valid
asked-proof cfg c now t u exp code k k' filled few made early decoded =
    let (hash, expires, unused) = asked-code cfg c now code k k' made in
    let same = text_eq_refl (otp_hash c k' code) in
    let some_digest =
      filled k'.id k'.signature_token_hash k'.otp_last_requested_at k'.otp_request_count code in
    (
      ground (arith, hash, expires, unused, same, some_digest),
      ground (arith, hash, expires, some_digest),
      ground (
        arith,
        decoded,
        hash,
        unused,
        same,
        same_opt_text k'.signature_token_hash,
        same_opt_text k'.otp_hash,
        text_eq_refl (str_uuid k'.id),
      ),
      λ other read h. (
        opt_text_sound other.signature_token_hash k'.signature_token_hash (ground (arith, decoded)),
        opt_text_sound other.otp_hash k'.otp_hash (ground (arith, decoded)),
      ),
    )
