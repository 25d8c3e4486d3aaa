-- ===== src/Signing/Spacing.antt =====
-- How often a code is sent (`request_otp`).
use event_pro_backend.Prelude.{
  ℕ, ◌≡◌, refl, ◌+◌, ◌≤◌, ◌<◌, Bool, true, false, inl, inr, ◌⊎◌, Bool-cases, Option-cases, none,
  some, List, [], ◌∷◌, Text, arith, if◌then◌else◌,
}
use event_pro_backend.Method.{ok, err, Result-cases}
use event_pro_backend.Clock.{minutes, later}
use event_pro_backend.Contract.{Contract, is_issued, require_editable, issue, replace_link, void}
use event_pro_backend.Signing.Rules.{
  Settings, Crypto, throttle, too_soon, open_window, new_otp, miss, check_proof, sealed_contract,
}
use event_pro_backend.Signing.Protocol.{
  Call, render, render_draft, link, ask, guess, seal, annul, asked, after, run,
}
use event_pro_backend.Signing.Pace.{
  Pace, Spaced, no_request, IsRare, IsPaced, Next, Rested, IsPaced-Next,
}

abbrev pub pace : Contract → Pace
pace k = record {
  last = k.otp_last_requested_at;
  window = k.otp_window_started_at;
  count = k.otp_request_count;
}

asked-counted :
    (cfg : Settings) (c : Crypto) (now start : ℕ) (code : Text) (k k' : Contract)
    → k.otp_window_started_at ≡ some start
    → asked cfg c now code k ≡ ok k'
    → ((start + minutes 10 ≤ now)
        × (pace k' ≡ record { last = some now; window = some now; count = 1 }))
      ⊎ ((k.otp_request_count < 3)
          × (pace k'
              ≡ record { last = some now; window = some start; count = k.otp_request_count + 1 }))
unfolding asked throttle too_soon open_window new_otp later
asked-counted cfg c now start code k k' w h = ground arith

asked-Rested :
    (cfg : Settings) (c : Crypto) (now : ℕ) (code : Text) (k k' : Contract)
    → asked cfg c now code k ≡ ok k'
    → Rested now k.otp_last_requested_at
unfolding asked throttle too_soon open_window new_otp later
asked-Rested cfg c now code k k' h = ground arith

asked-first :
    (cfg : Settings) (c : Crypto) (now : ℕ) (code : Text) (k k' : Contract)
    → k.otp_window_started_at ≡ none
    → asked cfg c now code k ≡ ok k'
    → pace k' ≡ record { last = some now; window = some now; count = 1 }
unfolding asked throttle too_soon open_window new_otp later
asked-first cfg c now code k k' w h = ground arith

asked-Next :
    (cfg : Settings) (c : Crypto) (now : ℕ) (code : Text) (k k' : Contract)
    → asked cfg c now code k ≡ ok k'
    → Next now (pace k) (pace k')
asked-Next cfg c now code k k' h = (
  asked-Rested cfg c now code k k' h,
  elim (Option-cases k.otp_window_started_at) [
    | inl w ↦ inl (rw w tt, asked-first cfg c now code k k' w h)
    | inr (start, w) ↦ elim (asked-counted cfg c now start code k k' w h) [
      | inl (late, new) ↦ inl (rw w late, new)
      | inr (few, more) ↦ inr (start, w, few, more)
    ]
  ],
)

-- The instants of the requests that were accepted, the newest first.
unfoldable pub accepted : Settings → Crypto → List Call → Contract → List ℕ
unfolding run asked
accepted cfg c [] k = []
accepted cfg c (ask now code ∷ calls) k =
    let rest = accepted cfg c calls k in
    let before = run cfg c calls k in
    if is_issued before.status
    then elim (asked cfg c now code before) [ err e ↦ rest | ok k' ↦ now ∷ rest ]
    else rest
accepted cfg c (_ ∷ calls) k = accepted cfg c calls k

abbrev is_ask : Call → Bool
is_ask (ask now code) = true
is_ask _ = false

-- No other call touches the pace.
after-pace :
    (cfg : Settings) (c : Crypto) (call : Call) (k : Contract)
    → is_ask call ≡ false
    → pace (after cfg c call k) ≡ pace k
unfolding after issue require_editable replace_link void miss check_proof sealed_contract
after-pace cfg c (render path) k h = ground arith
after-pace cfg c (render_draft path) k h = ground arith
after-pace cfg c (link hash at) k h = ground arith
after-pace cfg c (ask now code) k h = ground arith
after-pace cfg c (guess now code) k h = ground arith
after-pace cfg c (seal now proof e) k h = ground arith
after-pace cfg c (annul event_status reason started) k h = ground arith

kept-IsPaced :
    (cfg : Settings) (c : Crypto) (call : Call) (k : Contract) (ts : List ℕ)
    → is_ask call ≡ false
    → IsPaced (pace k) ts
    → IsPaced (pace (after cfg c call k)) ts
kept-IsPaced cfg c call k ts h paced = rw (after-pace cfg c call k h) paced

run-IsPaced :
    (cfg : Settings) (c : Crypto) (calls : List Call) (k : Contract)
    → k.otp_last_requested_at ≡ none
    → k.otp_window_started_at ≡ none
    → IsPaced (pace (run cfg c calls k)) (accepted cfg c calls k)
unfolding run accepted after
run-IsPaced cfg c [] k l w = (l, w)
run-IsPaced cfg c (ask now code ∷ calls) k l w =
    let before = run cfg c calls k in
    let paced = run-IsPaced cfg c calls k l w in
    elim (Bool-cases (is_issued before.status)) [
      | inr off ↦ rw off paced
      | inl on ↦ elim (Result-cases (asked cfg c now code before)) [
        | inr (e, bad) ↦ rw (on, bad) paced
        | inl (k', made) ↦
            rw (on, made)
              (IsPaced-Next (pace before) (pace k') now (accepted cfg c calls k) paced
                (asked-Next cfg c now code before k' made))
      ]
    ]
run-IsPaced cfg c (render path ∷ calls) k l w =
    kept-IsPaced cfg c (render path) (run cfg c calls k) (accepted cfg c calls k) refl
      (run-IsPaced cfg c calls k l w)
run-IsPaced cfg c (render_draft path ∷ calls) k l w =
    kept-IsPaced cfg c (render_draft path) (run cfg c calls k) (accepted cfg c calls k) refl
      (run-IsPaced cfg c calls k l w)
run-IsPaced cfg c (link hash at ∷ calls) k l w =
    kept-IsPaced cfg c (link hash at) (run cfg c calls k) (accepted cfg c calls k) refl
      (run-IsPaced cfg c calls k l w)
run-IsPaced cfg c (guess now code ∷ calls) k l w =
    kept-IsPaced cfg c (guess now code) (run cfg c calls k) (accepted cfg c calls k) refl
      (run-IsPaced cfg c calls k l w)
run-IsPaced cfg c (seal now proof e ∷ calls) k l w =
    kept-IsPaced cfg c (seal now proof e) (run cfg c calls k) (accepted cfg c calls k) refl
      (run-IsPaced cfg c calls k l w)
run-IsPaced cfg c (annul status reason started ∷ calls) k l w =
    kept-IsPaced cfg c (annul status reason started) (run cfg c calls k) (accepted cfg c calls k)
      refl (run-IsPaced cfg c calls k l w)

IsPaced-Spaced : (p : Pace) (ts : List ℕ) → IsPaced p ts → Spaced ts × IsRare ts
IsPaced-Spaced p [] paced = (no_request, λ i t u h g. ground arith)
IsPaced-Spaced p (t ∷ ts) (b, s, r) = (s, r)

-- Of a contract for which no code was asked yet, and whatever is called then: the requests of a code
-- that are accepted are at least sixty seconds apart, and of any six in a row the first and the last are
-- at least ten minutes apart, so that at most five codes are sent in less than ten minutes.
pub accepted-Spaced :
    (cfg : Settings) (c : Crypto) (calls : List Call) (k : Contract)
    → k.otp_last_requested_at ≡ none
    → k.otp_window_started_at ≡ none
    → Spaced (accepted cfg c calls k) × IsRare (accepted cfg c calls k)
accepted-Spaced cfg c calls k l w =
    IsPaced-Spaced (pace (run cfg c calls k)) (accepted cfg c calls k)
      (run-IsPaced cfg c calls k l w)
