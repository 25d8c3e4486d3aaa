-- ===== src/Method.antt =====
-- What a call of the program may raise, and methods that change an object.
use mathlib.Core.Logic.{◌⊎◌, inl, inr}
use event_pro_backend.Prelude.{ℕ, ◌≡◌, refl, Bool, List, if◌then◌else◌}

-- The codes of a `SignatureError`.
pub data SignatureCode : Type 0 where
  invalid_signature_token signature_token_expired signature_conflict : SignatureCode
  rate_limit_exceeded otp_attempts_exceeded otp_expired invalid_otp : SignatureCode

-- The exception classes of app/domain/exceptions that the modelled code raises, and Python's own.
-- The message of an exception is not kept; a `SignatureError` has its
-- status and its code, and an availability error its alternatives, each a date and a time.
pub data Error : Type 0 where
  validation invalid_outbox_state invalid_quote_state quote_expired : Error
  invalid_payment_state invalid_event_state event_resource_conflict balance_pending
        extension_mismatch :
      Error
  invalid_contract_state resource_not_found conversation_taken_by_other : Error
  conversation_not_taken : Error
  value_error type_error overflow_error key_error : Error
  signature_error : ℕ → SignatureCode → Error
  payment_under_review : Error
  availability_conflict threshold_exceeded : List (ℕ × ℕ) → Error

pub data Result {ℓ} (A : Type ℓ) : Type ℓ where
  ok : A → Result A
  err : Error → Result A

pub Result-cases {ℓ} :
    {A : Type ℓ} (r : Result A) → ((a : A) × (r ≡ ok a)) ⊎ ((e : Error) × (r ≡ err e))
Result-cases (ok a) = inl (a, refl)
Result-cases (err e) = inr (e, refl)

-- A function that may raise.
module _ {ℓ κ} {A : Type ℓ} {B : Type κ} where
  abbrev pub and_then : Result A → (A → Result B) → Result B
  and_then (ok a) f = f a
  and_then (err e) f = err e

-- A method takes the object as it is and leaves it as the call has changed it. What was written
-- before an exception stays written, so the object comes back beside an error too.
abbrev pub Method : Type 0 → Type 0 → Type 0
Method S A = S → Result A × S

module _ {S A : Type 0} where
  abbrev pub pure : A → Method S A
  pure a s = (ok a, s)

  abbrev pub raise : Error → Method S A
  raise e s = (err e, s)

  -- a call of a function that does not see the object
  abbrev pub lift : Result A → Method S A
  lift r s = (r, s)

  abbrev pub gets : (S → A) → Method S A
  gets f s = (ok (f s), s)

module _ {S : Type 0} where
  abbrev pub modify : (S → S) → Method S (Unit {0})
  modify f s = (ok tt, f s)

  -- `if test: raise error`
  abbrev pub raise_if : (S → Bool) → Error → Method S (Unit {0})
  raise_if test e s = (if test s then err e else ok tt, s)

infixl 5 ◌>>=◌ ◌>>◌
abbrev pub ◌>>=◌ : {S A B : Type 0} → Method S A → (A → Method S B) → Method S B
◌>>=◌ m f s = let (r, s') = m s in elim r [ ok a ↦ f a s' | err e ↦ (err e, s') ]

abbrev pub ◌>>◌ : {S A B : Type 0} → Method S A → Method S B → Method S B
m >> k = m >>= λ _. k
