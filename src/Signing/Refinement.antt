-- ===== src/Signing/Refinement.antt =====
-- The calls on a contract as moves of the protocol.
use event_pro_backend.Prelude.{
  ℕ, ◌≡◌, refl, ◌+◌, ◌<◌, inl, inr, ◌⊎◌, Bool, true, is_some, none, some, List, [], ◌∷◌, Text,
  arith, leb, if◌then◌else◌,
}
use event_pro_backend.Clock.{DateTime, later}
use event_pro_backend.Event.{EventStatus}
use event_pro_backend.Contract.{
  Contract, blank_contract, issued, signed, voided, is_issued, is_editable, require_editable, issue,
  replace_link, void,
}
use event_pro_backend.Signing.Rules.{
  Settings, Crypto, Evidence, throttle, too_soon, open_window, new_otp, miss, check_proof,
  proof_is_valid, sealed_contract,
}
use event_pro_backend.Signing.Phases.{
  drafted, Kind, rendering, drafting, linking, asking, guessing, sealing, annulling, Move, stay,
  view, IsSound, Becomes, became, kept, rendered, relinked, sent, withdrawing, missed, signing,
}
use event_pro_backend.Signing.Protocol.{
  Call, render, render_draft, link, ask, guess, seal, annul, asked, after, run,
}

module _ (cfg : Settings) (c : Crypto) (k : Contract) where
  render-Move :
      (path : Text)
      → IsSound k
      → Move cfg.max_attempts rendering (view k) (view (after cfg c (render path) k))
  unfolding after issue require_editable
  render-Move path s =
      let r = after cfg c (render path) k in
      let o : (r ≡ k)
          ⊎ ((is_editable k.status ≡ true) × Becomes r issued k.otp_hash k.otp_attempts) =
        ground arith in
      elim o [
        | inl e ↦ kept cfg.max_attempts rendering k r e
        | inr (h, b) ↦
            became cfg.max_attempts rendering k r issued k.otp_hash k.otp_attempts b
              (rendered cfg.max_attempts k.status k.otp_hash k.otp_attempts h s.no_code)
      ]

  render_draft-Move :
      (path : Text)
      → IsSound k
      → Move cfg.max_attempts drafting (view k) (view (after cfg c (render_draft path) k))
  unfolding after issue require_editable
  render_draft-Move path s =
      let r = after cfg c (render_draft path) k in
      let same : view r ≡ view k = ground arith in rw same stay

  link-Move :
      (hash : Text) (at : DateTime)
      → Move cfg.max_attempts linking (view k) (view (after cfg c (link hash at) k))
  unfolding after replace_link
  link-Move hash at =
      let r = after cfg c (link hash at) k in
      let o : (r ≡ k) ⊎ ((is_issued k.status ≡ true) × Becomes r issued none 0) = ground arith in
      elim o [
        | inl e ↦ kept cfg.max_attempts linking k r e
        | inr (h, b) ↦
            became cfg.max_attempts linking k r issued none 0 b
              (relinked cfg.max_attempts k.status k.otp_hash k.otp_attempts h)
      ]

  ask-Move :
      (now : ℕ) (code : Text)
      → Move cfg.max_attempts asking (view k) (view (after cfg c (ask now code) k))
  unfolding after asked throttle too_soon open_window new_otp later
  ask-Move now code =
      let r = after cfg c (ask now code) k in
      let o : (r ≡ k)
          ⊎ ((hash : Text) × (is_issued k.status ≡ true) × Becomes r issued (some hash) 0) =
        ground arith in
      elim o [
        | inl e ↦ kept cfg.max_attempts asking k r e
        | inr (hash, h, b) ↦
            became cfg.max_attempts asking k r issued (some hash) 0 b
              (sent cfg.max_attempts k.status k.otp_hash k.otp_attempts h)
      ]

  annul-Move :
      (event_status : EventStatus) (reason : Text) (started : Bool)
      → Move cfg.max_attempts annulling
          (view k)
          (view (after cfg c (annul event_status reason started) k))
  unfolding after void
  annul-Move event_status reason started =
      let r = after cfg c (annul event_status reason started) k in
      let o : (r ≡ k) ⊎ Becomes r voided none 0 = ground arith in
      elim o [
        | inl e ↦ kept cfg.max_attempts annulling k r e
        | inr b ↦
            became cfg.max_attempts annulling k r voided none 0 b
              (withdrawing cfg.max_attempts k.status k.otp_hash k.otp_attempts)
      ]

  guess-Move :
      (now : ℕ) (code : Text)
      → Move cfg.max_attempts guessing (view k) (view (after cfg c (guess now code) k))
  unfolding after miss
  guess-Move now code =
      let r = after cfg c (guess now code) k in
      let o : (r ≡ k)
          ⊎ ((k.status ≡ issued)
              × (is_some k.otp_hash ≡ true)
              × (k.otp_attempts < cfg.max_attempts)
              × Becomes r issued
                  (if leb cfg.max_attempts (k.otp_attempts + 1) then none else k.otp_hash)
                  (k.otp_attempts + 1)) =
        ground arith in
      elim o [
        | inl e ↦ kept cfg.max_attempts guessing k r e
        | inr (i, h, lt, (a, b, d)) ↦
            rw (a, b, d, i) (missed cfg.max_attempts k.otp_attempts k.otp_hash lt h)
      ]

  seal-Move :
      (now : ℕ) (proof : Text) (e : Evidence)
      → Move cfg.max_attempts sealing (view k) (view (after cfg c (seal now proof e) k))
  unfolding after check_proof proof_is_valid sealed_contract
  seal-Move now proof e =
      let r = after cfg c (seal now proof e) k in
      let o : (r ≡ k)
          ⊎ ((is_issued k.status ≡ true)
              × (is_some k.otp_hash ≡ true)
              × (k.otp_attempts < cfg.max_attempts)
              × Becomes r signed none k.otp_attempts) =
        ground arith in
      elim o [
        | inl same ↦ kept cfg.max_attempts sealing k r same
        | inr (i, h, lt, b) ↦
            became cfg.max_attempts sealing k r signed none k.otp_attempts b
              (signing cfg.max_attempts k.otp_attempts k.status k.otp_hash i h lt)
      ]

abbrev pub kind_of : Call → Kind
kind_of (render _) = rendering
kind_of (render_draft _) = drafting
kind_of (link _ _) = linking
kind_of (ask _ _) = asking
kind_of (guess _ _) = guessing
kind_of (seal _ _ _) = sealing
kind_of (annul _ _ _) = annulling

-- A call keeps a sound contract sound.
after-IsSound :
    (cfg : Settings) (c : Crypto) (call : Call) (k : Contract)
    → IsSound k
    → IsSound (after cfg c call k)
unfolding after issue require_editable replace_link asked throttle too_soon open_window new_otp
    later miss check_proof proof_is_valid sealed_contract void
after-IsSound cfg c (render path) k s = record {
  no_link = ground (arith, s.no_link);
  no_code = ground (arith, s.no_code);
}
after-IsSound cfg c (render_draft path) k s = record {
  no_link = ground (arith, s.no_link);
  no_code = ground (arith, s.no_code);
}
after-IsSound cfg c (link hash at) k s = record {
  no_link = ground (arith, s.no_link);
  no_code = ground (arith, s.no_code);
}
after-IsSound cfg c (ask now code) k s = record {
  no_link = ground (arith, s.no_link);
  no_code = ground (arith, s.no_code);
}
after-IsSound cfg c (guess now code) k s = record {
  no_link = ground (arith, s.no_link);
  no_code = ground (arith, s.no_code);
}
after-IsSound cfg c (seal now proof e) k s = record {
  no_link = ground (arith, s.no_link);
  no_code = ground (arith, s.no_code);
}
after-IsSound cfg c (annul event_status reason started) k s = record {
  no_link = ground (arith, s.no_link);
  no_code = ground (arith, s.no_code);
}

after-Move :
    (cfg : Settings) (c : Crypto) (call : Call) (k : Contract)
    → IsSound k
    → Move cfg.max_attempts (kind_of call) (view k) (view (after cfg c call k))
after-Move cfg c (render path) k s = render-Move cfg c k path s
after-Move cfg c (render_draft path) k s = render_draft-Move cfg c k path s
after-Move cfg c (link hash at) k s = link-Move cfg c k hash at
after-Move cfg c (ask now code) k s = ask-Move cfg c k now code
after-Move cfg c (guess now code) k s = guess-Move cfg c k now code
after-Move cfg c (seal now proof e) k s = seal-Move cfg c k now proof e
after-Move cfg c (annul event_status reason started) k s =
    annul-Move cfg c k event_status reason started

run-IsSound :
    (cfg : Settings) (c : Crypto) (calls : List Call) (k : Contract)
    → IsSound k
    → IsSound (run cfg c calls k)
unfolding run
run-IsSound cfg c [] k s = s
run-IsSound cfg c (call ∷ calls) k s =
    after-IsSound cfg c call (run cfg c calls k) (run-IsSound cfg c calls k s)

-- A new contract is a draft of the protocol; and whatever was called on it, whatever is called next makes a
-- move of the protocol that its kind allows, or none. To be rendered makes a draft an offer. A new link takes
-- the code of an offer away. A request sends a code for an offer, or a new one, without wrong answers. An
-- answer counts one wrong answer more below the bound, and the one that reaches it takes the code away. Only
-- a contract with a code and fewer wrong answers than the bound is sealed. Annulling withdraws what is not
-- withdrawn yet. No other move is made; so a draft is not sealed, and what is withdrawn stays so.
pub run-Move :
    (cfg : Settings) (c : Crypto) (calls : List Call) (call : Call) (id event_id at : ℕ)
    (number : Text) (manual : Bool)
    → let new = blank_contract id number event_id manual at in
      (view new ≡ drafted)
      × Move cfg.max_attempts
          (kind_of call)
          (view (run cfg c calls new))
          (view (run cfg c (call ∷ calls) new))
unfolding run
run-Move cfg c calls call id event_id at number manual =
    let new = blank_contract id number event_id manual at in
    (
      refl,
      after-Move cfg c call (run cfg c calls new)
          (run-IsSound cfg c calls new (record { no_link = λ h. refl; no_code = λ h. refl })),
    )
