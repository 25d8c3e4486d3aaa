-- ===== src/Issuing/Voiding.antt =====
-- Annulling a contract (`void`), and sending its link again (`resend`).
use event_pro_backend.Prelude.{
  ℕ, ◌≡◌, ◌==◌, true, false, ◌||◌, inl, inr, ◌⊎◌, Option-cases, Option, none, some, Text, has_text,
  arith,
}
use event_pro_backend.Method.{Error, Result, ok, err, resource_not_found}
use event_pro_backend.Contract.{
  Contract, contract, voided, is_signed, is_voided, is_cancelled, is_under_way,
}
use event_pro_backend.Contract.Table.{
  ContractData, Store, find_contract, event_data, get_contract, to_contract,
}
use event_pro_backend.Signing.Rules as Sign
use event_pro_backend.Signing.Resolving.{contract-cases}
use event_pro_backend.Issuing.Rules.{Desk, get, locked, or_not_found}
use event_pro_backend.Issuing.{void_contract}

abbrev pub row : ℕ → Store → Option Contract
row id s = find_contract (λ k. k.id == id) s.contracts

get-row :
    (id : ℕ) (s : Store)
    → ((e : Error) × (get id s ≡ (err e, s)))
      ⊎ ((k : Contract) × (get id s ≡ (ok k, s)) × (row id s ≡ some k) × (contract k ≡ ok k))
unfolding get get_contract or_not_found to_contract
get-row id s = elim (Option-cases (row id s)) [
  | inl h ↦ inl (resource_not_found, ground (arith, h))
  | inr (k, h) ↦ elim (contract-cases k) [
    | inl good ↦ inr (k, ground (arith, h, good), h, good)
    | inr (e, bad) ↦ inl (e, ground (arith, h, bad))
  ]
]

-- The contract and its event, as they are once the lock is held.
pub record Locked (w : Desk) (id : ℕ) (s : Store) (k : Contract) (d : ContractData) : Type 0 where
  pub event_id : ℕ
  pub is_data : (w.while_waiting s).events event_id ≡ some d
  pub is_row : row id (w.while_waiting s) ≡ some k
  pub is_valid : contract k ≡ ok k

pub locked-outcome :
    (w : Desk) (id : ℕ) (s : Store)
    → ((e : Error) × ((locked w id s).0 ≡ err e))
      ⊎ ((k : Contract) × (d : ContractData) × (locked w id s ≡ (ok (k, d), w.while_waiting s))
          × Locked w id s k d)
unfolding locked event_data
locked-outcome w id s = elim (get-row id s) [
  | inl (e, bad) ↦ inl (e, ground (arith, bad))
  | inr (previous, first, _, _) ↦
      let s0 = w.while_waiting s in
      elim (Option-cases (s0.events previous.event_id)) [
        | inl gone ↦ inl (resource_not_found, ground (arith, first, gone))
        | inr (d, here) ↦ elim (get-row id s0) [
          | inl (e, bad) ↦ inl (e, ground (arith, first, here, bad))
          | inr (k, again, found, good) ↦ inr (
            k,
            d,
            ground (arith, first, here, again),
            record {
              event_id = previous.event_id;
              is_data = here;
              is_row = found;
              is_valid = good;
            },
          )
        ]
      ]
]

-- What annulling a contract asks for and leaves.
pub record Voided (w : Desk) (reason : Text) (k : Contract) (d : ContractData) (final : Contract)
    : Type 0 where
  pub has_reason : has_text reason ≡ true
  pub not_voided : is_voided k.status ≡ false
  pub cancelled_if_signed : is_signed k.status ≡ true → is_cancelled d.event_status ≡ true
  pub not_begun : (d.event_started || is_under_way d.event_status) ≡ false
  pub is_void : final ≡ record k {
    status = voided;
    signature_token_hash = none;
    signature_token_expires_at = none;
    otp_hash = none;
    otp_expires_at = none;
    otp_attempts = 0;
  }

module _ (w : Desk) (id : ℕ) (reason : Text) (user_id : ℕ) (s : Store) where
  abbrev annulled : Result Contract × Store
  annulled = void_contract w id reason user_id s
