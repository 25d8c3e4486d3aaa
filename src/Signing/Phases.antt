-- ===== src/Signing/Phases.antt =====
-- The protocol of a signature, apart from texts and instants, and what the calls make of it.
use event_pro_backend.Prelude.{
  ℕ, ◌≡◌, ◌≢◌, refl, ◌+◌, ◌<◌, inl, inr, true, false, is_some, Bool-cases, Option, none, some, Text,
  arith, leb, if◌then◌else◌,
}
use event_pro_backend.Contract.{
  Contract, ContractStatus, draft, issued, signed, voided, is_issued, is_editable,
}

-- Nobody can sign a draft or an offer; a code that was sent has its wrong answers.
pub data Phase : Type 0 where
  drafted offered : Phase
  coded : ℕ → Phase
  sealed withdrawn : Phase

abbrev pub phase : ContractStatus → Option Text → ℕ → Phase
phase draft code attempts = drafted
phase issued none attempts = offered
phase issued (some code) attempts = coded attempts
phase signed code attempts = sealed
phase voided code attempts = withdrawn

abbrev pub view : Contract → Phase
view k = phase k.status k.otp_hash k.otp_attempts

-- The kinds of call that the protocol tells apart.
pub data Kind : Type 0 where
  rendering drafting linking asking guessing sealing annulling : Kind

-- The moves that a call of a kind can make, with a bound on the wrong answers. Any call may be refused.
pub data Move (most : ℕ) : Kind → Phase → Phase → Type 0 where
  stay : {l : Kind} {p : Phase} → Move most l p p
  offer : Move most rendering drafted offered
  relink : {n : ℕ} → Move most linking (coded n) offered
  send : Move most asking offered (coded 0)
  resend : {n : ℕ} → Move most asking (coded n) (coded 0)
  wrong : {n : ℕ} → n + 1 < most → Move most guessing (coded n) (coded (n + 1))
  burn : {n : ℕ} → n + 1 ≡ most → Move most guessing (coded n) offered
  sign : {n : ℕ} → n < most → Move most sealing (coded n) sealed
  withdraw : {p : Phase} → p ≢ withdrawn → Move most annulling p withdrawn

-- Only an issued contract has a link or a code.
pub record IsSound (k : Contract) : Type 0 where
  pub no_link : is_issued k.status ≡ false → k.signature_token_hash ≡ none
  pub no_code : is_issued k.status ≡ false → k.otp_hash ≡ none

-- The status, the code and the wrong answers after a call.
abbrev pub Becomes : Contract → ContractStatus → Option Text → ℕ → Type 0
Becomes r status code n = (r.status ≡ status) × (r.otp_hash ≡ code) × (r.otp_attempts ≡ n)

pub became :
    (most : ℕ) (l : Kind) (k r : Contract) (status : ContractStatus) (code : Option Text) (n : ℕ)
    → Becomes r status code n
    → Move most l (view k) (phase status code n)
    → Move most l (view k) (view r)
became most l k r status code n (a, b, d) m = rw (a, b, d) m

pub kept : (most : ℕ) (l : Kind) (k r : Contract) → r ≡ k → Move most l (view k) (view r)
kept most l k r e = rw e stay

pub rendered :
    (most : ℕ) (status : ContractStatus) (code : Option Text) (n : ℕ)
    → is_editable status ≡ true
    → (is_issued status ≡ false → code ≡ none)
    → Move most rendering (phase status code n) (phase issued code n)
rendered most draft code n h s = rw (s refl) offer
rendered most issued code n h s = stay
rendered most signed code n h s = ground arith
rendered most voided code n h s = ground arith

pub relinked :
    (most : ℕ) (status : ContractStatus) (code : Option Text) (n : ℕ)
    → is_issued status ≡ true
    → Move most linking (phase status code n) offered
relinked most issued none n h = stay
relinked most issued (some code) n h = relink
relinked most draft code n h = ground arith
relinked most signed code n h = ground arith
relinked most voided code n h = ground arith

pub sent :
    (most : ℕ) (status : ContractStatus) (code : Option Text) (n : ℕ)
    → is_issued status ≡ true
    → Move most asking (phase status code n) (coded 0)
sent most issued none n h = send
sent most issued (some code) n h = resend
sent most draft code n h = ground arith
sent most signed code n h = ground arith
sent most voided code n h = ground arith

pub withdrawing :
    (most : ℕ) (status : ContractStatus) (code : Option Text) (n : ℕ)
    → Move most annulling (phase status code n) withdrawn
withdrawing most draft code n = withdraw (λ e. ground arith)
withdrawing most issued none n = withdraw (λ e. ground arith)
withdrawing most issued (some code) n = withdraw (λ e. ground arith)
withdrawing most signed code n = withdraw (λ e. ground arith)
withdrawing most voided code n = stay

-- A wrong code was counted: the last that is allowed burns the code.
pub missed :
    (most n : ℕ) (code : Option Text)
    → n < most
    → is_some code ≡ true
    → Move most guessing
        (phase issued code n)
        (phase issued (if leb most (n + 1) then none else code) (n + 1))
missed most n none lt h = ground arith
missed most n (some code) lt h = elim (Bool-cases (leb most (n + 1))) [
  | inl last ↦ rw last (burn (ground arith))
  | inr more ↦ rw more (wrong (ground arith))
]

pub signing :
    (most n : ℕ) (status : ContractStatus) (code : Option Text)
    → is_issued status ≡ true
    → is_some code ≡ true
    → n < most
    → Move most sealing (phase status code n) sealed
signing most n issued (some code) i h lt = sign lt
signing most n issued none i h lt = ground arith
signing most n draft code i h lt = ground arith
signing most n signed code i h lt = ground arith
signing most n voided code i h lt = ground arith
