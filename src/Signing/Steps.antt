-- ===== src/Signing/Steps.antt =====
-- The calls of the use case as the calls of the protocol: what `request_otp`, `verify_otp` and `sign` save.
use event_pro_backend.Prelude.{
  ℕ, ◌≡◌, true, false, inl, inr, ◌⊎◌, ◌+◌, ◌-◌, ◌*◌, Bool-cases, Text, leb, arith,
}
use event_pro_backend.Method.{ok, Result-cases, signature_error, otp_attempts_exceeded, otp_expired}
use event_pro_backend.Clock.{later, minutes}
use event_pro_backend.Contract.{Contract, is_issued}
use event_pro_backend.Contract.Table.{
  ContractData, Store, write_contract, save, invalidate_pending_links,
}
use event_pro_backend.Signing.Rules.{
  Settings, Crypto, Evidence, Verification, verified, refused, miss_error, otp_is_dead, same_hash,
  otp_hash, proof_claims, six_digits, miss, check_proof,
}
use event_pro_backend.Contract.Notice.{notify}
use event_pro_backend.Signing.{Around, OtpSent, resolve_locked, request_otp, verify_otp, sign}
use event_pro_backend.Signing.Protocol.{ask, guess, seal, asked, is_missed, after}
use event_pro_backend.Signing.Resolving.{Resolved, resolve_locked-outcome}
use event_pro_backend.Signing.Sealing.{IsEntitled-proof, sign-Sealed}

module _ (cfg : Settings) (c : Crypto) (a : Around) (token : Text) (s : Store) where
  asked-saved :
      (k : Contract) (d : ContractData) (sent : OtpSent)
      → resolve_locked c a token s ≡ (ok (k, d), a.while_waiting s)
      → is_issued k.status ≡ true
      → (request_otp cfg c a token s).0 ≡ ok sent
      → (request_otp cfg c a token s).1.contracts
        ≡ write_contract
            (after cfg c (ask a.now (six_digits a.random)) k)
            (a.while_waiting s).contracts
  unfolding request_otp after asked save invalidate_pending_links notify
  asked-saved k d sent r i h = ground (arith, r, i)

  -- The answer to a code, by the contract that the link resolves to.
  abbrev pub Answer : Contract → Text → Verification → Store → Type 0
  Answer k code v s' =
      let s0 = a.while_waiting s in
      ((v ≡ refused (signature_error 429 otp_attempts_exceeded))
        × (s' ≡ s0)
        × (leb cfg.max_attempts k.otp_attempts ≡ true))
      ⊎ ((v ≡ refused (signature_error 410 otp_expired))
          × (s' ≡ s0)
          × (leb cfg.max_attempts k.otp_attempts ≡ false)
          × (otp_is_dead a.now k ≡ true))
      ⊎ ((v ≡ refused (miss_error (cfg.max_attempts - (k.otp_attempts + 1))))
          × (s'.contracts ≡ write_contract (after cfg c (guess a.now code) k) s0.contracts)
          × (is_missed cfg c a.now code k ≡ true))
      ⊎ ((expires_at : ℕ) × (later a.now (minutes cfg.proof_minutes) ≡ ok expires_at)
          × (v ≡ verified (c.encode (proof_claims cfg a.now expires_at k)) (cfg.proof_minutes * 60))
          × (s' ≡ s0)
          × (leb cfg.max_attempts k.otp_attempts ≡ false)
          × (otp_is_dead a.now k ≡ false)
          × (same_hash (otp_hash c k code) k.otp_hash ≡ true))

  answered :
      (k : Contract) (d : ContractData) (code : Text) (v : Verification)
      → resolve_locked c a token s ≡ (ok (k, d), a.while_waiting s)
      → is_issued k.status ≡ true
      → (verify_otp cfg c a token code s).0 ≡ ok v
      → Answer k code v (verify_otp cfg c a token code s).1
  unfolding verify_otp after save miss
  answered k d code v r i h = elim (Bool-cases (leb cfg.max_attempts k.otp_attempts)) [
    | inl used ↦ inl (ground (arith, r, i, used, h), ground (arith, r, i, used, h), used)
    | inr left ↦ elim (Bool-cases (otp_is_dead a.now k)) [
      | inl dead ↦ inr (
          inl
            (ground (arith, r, i, left, dead, h), ground (arith, r, i, left, dead, h), left, dead))
      | inr alive ↦ elim (Bool-cases (same_hash (otp_hash c k code) k.otp_hash)) [
        | inr wrong ↦ inr (
            inr (
              inl (
                ground (arith, r, i, left, alive, wrong, h),
                ground (arith, r, i, left, alive, wrong, h),
                ground (arith, left, alive, wrong),
              )))
        | inl right ↦ elim (Result-cases (later a.now (minutes cfg.proof_minutes))) [
          | inr (e, bad) ↦ ground (arith, r, i, left, alive, right, h, bad)
          | inl (expires_at, good) ↦ inr (
              inr (
                inr (
                  expires_at,
                  good,
                  ground (arith, r, i, left, alive, right, h, good),
                  ground (arith, r, i, left, alive, right, h, good),
                  left,
                  alive,
                  right,
                )))
        ]
      ]
    ]
  ]

  -- A code that is sent is one for a contract that the link resolves to, and what is saved is that contract
  -- after the request.
  pub request_otp-after :
      (sent : OtpSent)
      → (request_otp cfg c a token s).0 ≡ ok sent
      → (k : Contract) × (d : ContractData) × Resolved c a token s k d
        × ((request_otp cfg c a token s).1.contracts
            ≡ write_contract
                (after cfg c (ask a.now (six_digits a.random)) k)
                (a.while_waiting s).contracts)
  unfolding request_otp
  request_otp-after sent h = elim (resolve_locked-outcome c a token s) [
    | inl (e, inl bad) ↦ ground (arith, h, bad)
    | inl (e, inr bad) ↦ ground (arith, h, bad)
    | inr (k, d, r, found) ↦ (k, d, found, asked-saved k d sent r found.was_issued h)
  ]

  -- Of every answer of verify_otp that is returned: the link resolves to a contract, and in this order:
  -- if no attempts are left, the answer is 429 and nothing changes; if the code that was sent is gone or
  -- has expired, it is 410 and nothing changes; if the code is wrong, it is 422, or 429 for the last attempt,
  -- and the contract is saved after the guess; else it is a proof for the contract, its link and its code,
  -- that is valid for the minutes of a proof, and nothing changes.
  pub verify_otp-answer :
      (code : Text) (v : Verification)
      → (verify_otp cfg c a token code s).0 ≡ ok v
      → (k : Contract) × (d : ContractData) × Resolved c a token s k d
        × Answer k code v (verify_otp cfg c a token code s).1
  unfolding verify_otp
  verify_otp-answer code v h = elim (resolve_locked-outcome c a token s) [
    | inl (e, inl bad) ↦ ground (arith, h, bad)
    | inl (e, inr bad) ↦ ground (arith, h, bad)
    | inr (k, d, r, found) ↦ (k, d, found, answered k d code v r found.was_issued h)
  ]

  -- A contract that `sign` returns is the one that the link resolves to, after the seal.
  pub sign-after :
      (proof image name ip agent : Text) (final : Contract)
      → (sign cfg c a token proof image name ip agent s).0 ≡ ok final
      → (k : Contract) × (d : ContractData) × (e : Evidence) × Resolved c a token s k d
        × (final ≡ after cfg c (seal a.now proof e) k)
  unfolding after check_proof
  sign-after proof image name ip agent final h =
      let g = sign-Sealed cfg c a token proof image name ip agent s final h in
      let t = g.entitled in
      let matching = IsEntitled-proof cfg c a token proof s g.contract g.read t in
      (
        g.contract,
        g.read,
        g.evidence,
        t.resolved,
        ground (arith, g.is_sealed, t.resolved.was_issued, t.code_alive, t.proven, matching),
      )
