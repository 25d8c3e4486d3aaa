-- ===== src/Signing/Loading.antt =====
-- What the calls save can be read again: the constructor of Contract accepts it.
use event_pro_backend.Prelude.{ℕ, ◌≡◌, Bool, true, ◌&&◌, ◌||◌, List, [], ◌∷◌, Text, truthy, arith}
use event_pro_backend.Method.{ok}
use event_pro_backend.Clock.{later}
use event_pro_backend.Contract.{
  Contract, blank_contract, contract, number_is_valid, require_editable, issue, replace_link, void,
  has_evidence, filled, is_issued, is_signed,
}
use event_pro_backend.Signing.Rules.{
  Settings, Crypto, throttle, too_soon, open_window, new_otp, miss, check_proof, sealed_contract,
}
use event_pro_backend.Signing.Protocol.{
  Call, render, render_draft, link, ask, guess, seal, annul, asked, after, run,
}

-- The storage gave the sealed document a path.
abbrev pub is_stored : Call → Bool
is_stored (seal now proof e) = truthy e.sealed_path
is_stored _ = true

abbrev pub all_stored : List Call → Bool
all_stored [] = true
all_stored (call ∷ calls) = is_stored call && all_stored calls

-- The checks of the constructor.
record IsValid (k : Contract) : Type 0 where
  good_number : number_is_valid k.contract_number ≡ true
  has_pdf : (is_issued k.status || is_signed k.status) ≡ true → filled k.pdf_storage_path ≡ true
  has_seal : is_signed k.status ≡ true → has_evidence k ≡ true

contract-IsValid : (k : Contract) → IsValid k → contract k ≡ ok k
unfolding contract
contract-IsValid k v = ground (arith, v.good_number, v.has_pdf, v.has_seal)

module _ (cfg : Settings) (c : Crypto) (hashed : (t : Text) → truthy (c.sha256 t) ≡ true) where
  after-IsValid :
      (call : Call) (k : Contract)
      → is_stored call ≡ true
      → IsValid k
      → IsValid (after cfg c call k)
  unfolding after issue require_editable replace_link asked throttle too_soon open_window new_otp
      later miss check_proof sealed_contract void
  after-IsValid (render path) k s v = record {
    good_number = ground (arith, v.good_number);
    has_pdf = ground (arith, v.has_pdf);
    has_seal = ground (arith, v.has_seal);
  }
  after-IsValid (render_draft path) k s v = record {
    good_number = ground (arith, v.good_number);
    has_pdf = ground (arith, v.has_pdf);
    has_seal = ground (arith, v.has_seal);
  }
  after-IsValid (link hash at) k s v = record {
    good_number = ground (arith, v.good_number);
    has_pdf = ground (arith, v.has_pdf);
    has_seal = ground (arith, v.has_seal);
  }
  after-IsValid (ask now code) k s v = record {
    good_number = ground (arith, v.good_number);
    has_pdf = ground (arith, v.has_pdf);
    has_seal = ground (arith, v.has_seal);
  }
  after-IsValid (guess now code) k s v = record {
    good_number = ground (arith, v.good_number);
    has_pdf = ground (arith, v.has_pdf);
    has_seal = ground (arith, v.has_seal);
  }
  after-IsValid (seal now proof e) k s v = record {
    good_number = ground (arith, v.good_number);
    has_pdf = ground (arith, v.has_pdf);
    has_seal = ground (arith, v.has_seal, hashed e.sealed);
  }
  after-IsValid (annul status reason started) k s v = record {
    good_number = ground (arith, v.good_number);
    has_pdf = ground (arith, v.has_pdf);
    has_seal = ground (arith, v.has_seal);
  }

  run-IsValid :
      (calls : List Call) (k : Contract)
      → all_stored calls ≡ true
      → IsValid k
      → IsValid (run cfg c calls k)
  unfolding run
  run-IsValid [] k s v = v
  run-IsValid (call ∷ calls) k s v =
      after-IsValid call (run cfg c calls k) (ground arith) (run-IsValid calls k (ground arith) v)

  -- Whatever is called on a new contract with a number that is not blank and has at most thirty
  -- characters, if no digest is empty and the storage gives every sealed document a path that is not
  -- empty: the constructor accepts what is saved, so it can be read again.
  pub run-contract :
      (calls : List Call) (id event_id at : ℕ) (number : Text) (manual : Bool)
      → all_stored calls ≡ true
      → number_is_valid number ≡ true
      → let k = run cfg c calls (blank_contract id number event_id manual at) in contract k ≡ ok k
  run-contract calls id event_id at number manual s n =
      contract-IsValid (run cfg c calls (blank_contract id number event_id manual at)) (
        run-IsValid calls (blank_contract id number event_id manual at) s
          (record { good_number = n; has_pdf = λ h. ground arith; has_seal = λ h. ground arith }))
