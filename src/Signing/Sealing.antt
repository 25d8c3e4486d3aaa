-- ===== src/Signing/Sealing.antt =====
-- What a signature that succeeds has met, and what it writes (`sign`).
use event_pro_backend.Prelude.{
  ℕ, ◌<◌, ◌≡◌, is_some, codes, refl, Bool, true, false, ◌||◌, inl, inr, some, Text, pos, ltb_ℤ,
  leb_ℤ, arith,
}
use event_pro_backend.Method.{Result, ok, Result-cases}
use event_pro_backend.Contract.{Contract}
use event_pro_backend.Contract.Table.{ContractData, Store, str_uuid, is_text}
use event_pro_backend.Signing.Rules.{
  Settings, Crypto, Claims, Evidence, check_proof, proof_is_valid, check_terms, is_past,
  is_opt_text, sealed_contract,
}
use event_pro_backend.Signing.{Around, resolve_locked, write_signature, sign}
use event_pro_backend.Signing.Resolving.{Resolved, resolve_locked-outcome}

-- The link is live, the proof is one for this contract, its link and its code, the code has not expired
-- and has attempts left, and the advance that is verified is positive and not below the required one.
pub record IsEntitled (cfg : Settings) (c : Crypto) (a : Around) (token proof : Text) (s : Store)
    (k : Contract) (d : ContractData) : Type 0 where
  pub claims : Claims
  pub resolved : Resolved c a token s k d
  pub proven : c.decode a.now proof ≡ some claims
  pub for_signing : is_text (codes "otp-proof") claims.purpose ≡ true
  pub for_contract : is_text (str_uuid k.id) claims.sub ≡ true
  pub for_link : is_opt_text k.signature_token_hash claims.link ≡ true
  pub has_code : is_some k.otp_hash ≡ true
  pub for_code : is_opt_text k.otp_hash claims.otp ≡ true
  pub attempts_left : k.otp_attempts < cfg.max_attempts
  pub code_alive : is_past a.now k.otp_expires_at ≡ false
  pub paid : (ltb_ℤ d.advance d.required_advance || leb_ℤ d.advance (pos 0)) ≡ false

pub IsEntitled-proof :
    (cfg : Settings) (c : Crypto) (a : Around) (token proof : Text) (s : Store) (k : Contract)
    (d : ContractData) (t : IsEntitled cfg c a token proof s k d)
    → proof_is_valid cfg k t.claims ≡ true
unfolding proof_is_valid
IsEntitled-proof cfg c a token proof s k d t =
    ground
      (arith, t.for_signing, t.for_contract, t.for_link, t.has_code, t.for_code, t.attempts_left)

-- The contract that is returned is the one that was read, sealed, and the store is what the writes of the
-- signature make of it.
pub record Sealed (cfg : Settings) (c : Crypto) (a : Around)
    (token proof image name ip agent : Text) (s : Store) (final : Contract) : Type 0 where
  pub contract : Contract
  pub read : ContractData
  pub evidence : Evidence
  pub entitled : IsEntitled cfg c a token proof s contract read
  pub same_signer : (evidence.ip ≡ ip) × (evidence.user_agent ≡ agent)
  pub stamped : evidence.signed_at ≡ a.finished_at
  pub is_sealed : final ≡ sealed_contract c evidence contract
  pub was_written :
      write_signature cfg a final read evidence.sealed_path (a.while_waiting s)
      ≡ (ok tt, (sign cfg c a token proof image name ip agent s).1)

check_proof-claims :
    (cfg : Settings) (c : Crypto) (now : ℕ) (proof : Text) (k : Contract) (claims : Claims)
    → check_proof cfg c now proof k ≡ ok claims
    → (c.decode now proof ≡ some claims) × (proof_is_valid cfg k claims ≡ true)
unfolding check_proof
check_proof-claims cfg c now proof k claims h = (ground arith, ground arith)

proof_is_valid-parts :
    (cfg : Settings) (k : Contract) (claims : Claims)
    → proof_is_valid cfg k claims ≡ true
    → (is_text (codes "otp-proof") claims.purpose ≡ true)
      × (is_text (str_uuid k.id) claims.sub ≡ true)
      × (is_opt_text k.signature_token_hash claims.link ≡ true)
      × (is_some k.otp_hash ≡ true)
      × (is_opt_text k.otp_hash claims.otp ≡ true)
      × (k.otp_attempts < cfg.max_attempts)
unfolding proof_is_valid
proof_is_valid-parts cfg k claims h =
    (ground arith, ground arith, ground arith, ground arith, ground arith, ground arith)

check_terms-holds :
    (now : ℕ) (k : Contract) (d : ContractData) (path : Text)
    → check_terms now k d ≡ ok path
    → (is_past now k.otp_expires_at ≡ false)
      × ((ltb_ℤ d.advance d.required_advance || leb_ℤ d.advance (pos 0)) ≡ false)
unfolding check_terms
check_terms-holds now k d path h = (ground arith, ground arith)

module _ (cfg : Settings) (c : Crypto) (a : Around) (token proof image name ip agent : Text)
    (s : Store) where
  abbrev outcome : Result Contract × Store
  outcome = sign cfg c a token proof image name ip agent s

  sealed-written :
      (k final : Contract) (d : ContractData) (claims : Claims)
      (path original sealed image_path sealed_path : Text) (stamp : Bool)
      → resolve_locked c a token s ≡ (ok (k, d), a.while_waiting s)
      → check_proof cfg c a.now proof k ≡ ok claims
      → check_terms a.now k d ≡ ok path
      → a.opened path ≡ ok original
      → a.sealed original image name ≡ ok (sealed, stamp)
      → a.image_stored image ≡ ok image_path
      → a.pdf_stored sealed ≡ ok sealed_path
      → Resolved c a token s k d
      → outcome.0 ≡ ok final
      → Sealed cfg c a token proof image name ip agent s final
  unfolding sign
  sealed-written k final d claims path original sealed image_path sealed_path stamp r1 r2 r3 r4 r5
        r6 r7 r h =
      let e : Evidence = record {
        image_path = image_path;
        sealed_path = sealed_path;
        sealed = sealed;
        timestamped = stamp;
        ip = ip;
        user_agent = agent;
        signed_at = a.finished_at;
      } in
      let same : final ≡ sealed_contract c e k = ground (arith, r1, r2, r3, r4, r5, r6, r7) in
      let (proven, matching) = check_proof-claims cfg c a.now proof k claims r2 in
      let (purpose, sub, link, has_code, code, left) = proof_is_valid-parts cfg k claims matching in
      record {
        contract = k;
        read = d;
        evidence = e;
        entitled = record {
          claims = claims;
          resolved = r;
          proven = proven;
          for_signing = purpose;
          for_contract = sub;
          for_link = link;
          has_code = has_code;
          for_code = code;
          attempts_left = left;
          code_alive = (check_terms-holds a.now k d path r3).0;
          paid = (check_terms-holds a.now k d path r3).1;
        };
        same_signer = (refl, refl);
        stamped = refl;
        is_sealed = same;
        was_written = rw same (ground (arith, r1, r2, r3, r4, r5, r6, r7));
      }

  pub sign-Sealed :
      (final : Contract)
      → outcome.0 ≡ ok final
      → Sealed cfg c a token proof image name ip agent s final
  unfolding sign
  sign-Sealed final h = elim (resolve_locked-outcome c a token s) [
    | inl (e, inl bad) ↦ ground (arith, h, bad)
    | inl (e, inr bad) ↦ ground (arith, h, bad)
    | inr (k, d, r1, r) ↦ elim (Result-cases (check_proof cfg c a.now proof k)) [
      | inr (e, bad) ↦ ground (arith, h, r1, bad)
      | inl (claims, r2) ↦ elim (Result-cases (check_terms a.now k d)) [
        | inr (e, bad) ↦ ground (arith, h, r1, r2, bad)
        | inl (path, r3) ↦ elim (Result-cases (a.opened path)) [
          | inr (e, bad) ↦ ground (arith, h, r1, r2, r3, bad)
          | inl (original, r4) ↦ elim (Result-cases (a.sealed original image name)) [
            | inr (e, bad) ↦ ground (arith, h, r1, r2, r3, r4, bad)
            | inl ((sealed, stamp), r5) ↦ elim (Result-cases (a.image_stored image)) [
              | inr (e, bad) ↦ ground (arith, h, r1, r2, r3, r4, r5, bad)
              | inl (image_path, r6) ↦ elim (Result-cases (a.pdf_stored sealed)) [
                | inr (e, bad) ↦ ground (arith, h, r1, r2, r3, r4, r5, r6, bad)
                | inl (sealed_path, r7) ↦
                    sealed-written k final d claims path original sealed image_path sealed_path
                      stamp r1 r2 r3 r4 r5 r6 r7 r h
              ]
            ]
          ]
        ]
      ]
    ]
  ]
