-- ===== src/Signing/Protocol.antt =====
-- What the calls of sign_contract.py and manage_contracts.py make of one contract, one after the other.
use event_pro_backend.Prelude.{ℕ, leb, Bool, false, not, ◌||◌, List, [], ◌∷◌, Text, if◌then◌else◌}
use event_pro_backend.Method.{Result, ok, err, and_then}
use event_pro_backend.Clock.{DateTime}
use event_pro_backend.Event.{EventStatus}
use event_pro_backend.Contract.{Contract, draft, is_draft, is_issued, issue, replace_link, void}
use event_pro_backend.Signing.Rules.{
  Settings, Crypto, Evidence, throttle, new_otp, otp_is_dead, same_hash, otp_hash, miss,
  check_proof, is_past, sealed_contract,
}

pub data Call : Type 0 where
  render : Text → Call
  render_draft : Text → Call
  link : Text → DateTime → Call
  ask : ℕ → Text → Call
  guess : ℕ → Text → Call
  seal : ℕ → Text → Evidence → Call
  annul : EventStatus → Text → Bool → Call

abbrev pub kept_or : Contract → Result Contract → Contract
kept_or k (err e) = k
kept_or k (ok k') = k'

-- The contract of `request_otp`
unfoldable pub asked : Settings → Crypto → ℕ → Text → Contract → Result Contract
unfolding throttle new_otp
asked cfg c now code k = and_then (throttle now k) (new_otp cfg c now code)

-- `verify_otp` counts the code: it is wrong, the code sent is alive, and attempts remain.
abbrev pub is_missed : Settings → Crypto → ℕ → Text → Contract → Bool
is_missed cfg c now code k =
    if leb cfg.max_attempts k.otp_attempts || otp_is_dead now k
    then false
    else not (same_hash (otp_hash c k code) k.otp_hash)

-- The contract after a call; one that is refused leaves it as it is.
unfoldable pub after : Settings → Crypto → Call → Contract → Contract
unfolding issue replace_link void asked miss check_proof sealed_contract
after cfg c (render path) k = (issue path k).1
after cfg c (render_draft path) k =
    if is_draft k.status then record (issue path k).1 { status = draft } else k
after cfg c (link hash at) k = (replace_link hash at k).1
after cfg c (ask now code) k = if is_issued k.status then kept_or k (asked cfg c now code k) else k
after cfg c (guess now code) k =
    if not (is_issued k.status) then k else if is_missed cfg c now code k then miss cfg k else k
after cfg c (seal now proof e) k =
    if not (is_issued k.status) || is_past now k.otp_expires_at
    then k
    else elim (check_proof cfg c now proof k) [ err x ↦ k | ok claims ↦ sealed_contract c e k ]
after cfg c (annul event_status reason started) k = (void event_status reason started k).1

-- A list of calls, the newest first.
unfoldable pub run : Settings → Crypto → List Call → Contract → Contract
unfolding after
run cfg c [] k = k
run cfg c (call ∷ calls) k = after cfg c call (run cfg c calls k)
