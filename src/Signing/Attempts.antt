-- ===== src/Signing/Attempts.antt =====
-- How many wrong codes `verify_otp` takes for one code that was sent.
use event_pro_backend.Prelude.{
  ℕ, ◌≡◌, refl, ◌+◌, ◌≤◌, inl, inr, Bool, true, false, ◌&&◌, is_some, Bool-cases, none, List, [],
  ◌∷◌, Text, arith, if◌then◌else◌,
}
use event_pro_backend.Method.{ok, err, Result-cases}
use event_pro_backend.Clock.{later}
use event_pro_backend.Contract.{Contract, is_issued, require_editable, issue, replace_link, void}
use event_pro_backend.Signing.Rules.{
  Settings, Crypto, throttle, too_soon, open_window, new_otp, miss, check_proof, sealed_contract,
}
use event_pro_backend.Signing.Protocol.{
  Call, render, render_draft, link, ask, guess, seal, annul, asked, is_missed, after, run,
}

-- The wrong codes that were taken since a code was sent last.
unfoldable pub misses : Settings → Crypto → List Call → Contract → ℕ
unfolding run asked
misses cfg c [] k = 0
misses cfg c (ask now code ∷ calls) k =
    let rest = misses cfg c calls k in
    let before = run cfg c calls k in
    if is_issued before.status
    then elim (asked cfg c now code before) [ err e ↦ rest | ok k' ↦ 0 ]
    else rest
misses cfg c (guess now code ∷ calls) k =
    let rest = misses cfg c calls k in
    let before = run cfg c calls k in
    if is_issued before.status && is_missed cfg c now code before then rest + 1 else rest
misses cfg c (_ ∷ calls) k = misses cfg c calls k

-- While there is a code, the attempts of the contract are the wrong codes, and they are below the bound.
record IsCounted (most n : ℕ) (k : Contract) : Type 0 where
  bounded : n ≤ most
  counted : is_some k.otp_hash ≡ true → n ≡ k.otp_attempts

abbrev counts : Call → Bool
counts (ask now code) = true
counts (guess now code) = true
counts _ = false

module _ (cfg : Settings) (c : Crypto) where
  -- No other call sends a code or changes the attempts of one.
  after-code :
      (call : Call) (k : Contract)
      → counts call ≡ false
      → is_some (after cfg c call k).otp_hash ≡ true
      → (is_some k.otp_hash ≡ true) × ((after cfg c call k).otp_attempts ≡ k.otp_attempts)
  unfolding after issue require_editable replace_link void check_proof sealed_contract
  after-code (render path) k o h = ground arith
  after-code (render_draft path) k o h = ground arith
  after-code (link hash at) k o h = ground arith
  after-code (ask now code) k o h = ground arith
  after-code (guess now code) k o h = ground arith
  after-code (seal now proof e) k o h = ground arith
  after-code (annul event_status reason started) k o h = ground arith

  other-IsCounted :
      (call : Call) (n : ℕ) (k : Contract)
      → counts call ≡ false
      → IsCounted cfg.max_attempts n k
      → IsCounted cfg.max_attempts n (after cfg c call k)
  other-IsCounted call n k o i = record {
    bounded = i.bounded;
    counted = λ alive. let (was, same) = after-code call k o alive in ground (arith, i.counted was);
  }

  asked-IsCounted :
      (now : ℕ) (code : Text) (k k' : Contract)
      → asked cfg c now code k ≡ ok k'
      → IsCounted cfg.max_attempts 0 k'
  unfolding asked throttle too_soon open_window new_otp later
  asked-IsCounted now code k k' made = record {
    bounded = ground arith;
    counted = λ alive. ground arith;
  }

  missed-IsCounted :
      (now n : ℕ) (code : Text) (k : Contract)
      → is_missed cfg c now code k ≡ true
      → IsCounted cfg.max_attempts n k
      → IsCounted cfg.max_attempts (n + 1) (miss cfg k)
  unfolding miss
  missed-IsCounted now n code k m i =
      let same : n ≡ k.otp_attempts = ground (arith, i.counted) in
      record { bounded = ground arith; counted = λ alive. ground arith }

  run-IsCounted :
      (calls : List Call) (k : Contract)
      → k.otp_hash ≡ none
      → IsCounted cfg.max_attempts (misses cfg c calls k) (run cfg c calls k)
  unfolding misses run after
  run-IsCounted [] k h = record { bounded = ground arith; counted = λ alive. ground arith }
  run-IsCounted (ask now code ∷ calls) k h =
      let before = run cfg c calls k in
      elim (Bool-cases (is_issued before.status)) [
        | inr off ↦ rw off (run-IsCounted calls k h)
        | inl on ↦ elim (Result-cases (asked cfg c now code before)) [
          | inr (e, bad) ↦ rw (on, bad) (run-IsCounted calls k h)
          | inl (k', made) ↦ rw (on, made) (asked-IsCounted now code before k' made)
        ]
      ]
  run-IsCounted (guess now code ∷ calls) k h =
      let before = run cfg c calls k in
      elim (Bool-cases (is_issued before.status)) [
        | inr off ↦ rw off (run-IsCounted calls k h)
        | inl on ↦ elim (Bool-cases (is_missed cfg c now code before)) [
          | inr fine ↦ rw (on, fine) (run-IsCounted calls k h)
          | inl bad ↦
              rw (on, bad)
                (missed-IsCounted now (misses cfg c calls k) code before bad
                  (run-IsCounted calls k h))
        ]
      ]
  run-IsCounted (render path ∷ calls) k h =
      other-IsCounted (render path) (misses cfg c calls k) (run cfg c calls k) refl
        (run-IsCounted calls k h)
  run-IsCounted (render_draft path ∷ calls) k h =
      other-IsCounted (render_draft path) (misses cfg c calls k) (run cfg c calls k) refl
        (run-IsCounted calls k h)
  run-IsCounted (link hash at ∷ calls) k h =
      other-IsCounted (link hash at) (misses cfg c calls k) (run cfg c calls k) refl
        (run-IsCounted calls k h)
  run-IsCounted (seal now proof e ∷ calls) k h =
      other-IsCounted (seal now proof e) (misses cfg c calls k) (run cfg c calls k) refl
        (run-IsCounted calls k h)
  run-IsCounted (annul status reason started ∷ calls) k h =
      other-IsCounted (annul status reason started) (misses cfg c calls k) (run cfg c calls k) refl
        (run-IsCounted calls k h)

-- Of a contract without a code, and whatever is called then: since a code was sent last, at most
-- `max_attempts` wrong codes were taken, a new link in between included.
pub misses_bounded :
    (cfg : Settings) (c : Crypto) (calls : List Call) (k : Contract)
    → k.otp_hash ≡ none
    → misses cfg c calls k ≤ cfg.max_attempts
misses_bounded cfg c calls k h = (run-IsCounted cfg c calls k h).bounded
