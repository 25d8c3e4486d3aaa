-- ===== src/Signing/Resolving.antt =====
-- What a link resolves to, under the lock of the event.
use event_pro_backend.Prelude.{
  ℕ, Bool-cases, ◌≡◌, true, false, inl, inr, ◌⊎◌, Option, some, List, Text, arith, Option-cases,
}
use event_pro_backend.Method.{
  Error, Result, ok, err, signature_error, invalid_signature_token, resource_not_found,
}
use event_pro_backend.Contract.{Contract, contract, is_issued}
use event_pro_backend.Contract.Table.{
  ContractData, Store, find_contract, find_token, to_contract, event_data, same_text,
}
use event_pro_backend.Signing.Rules.{Crypto, check_signable, is_awaiting, is_past}
use event_pro_backend.Signing.{Around, by_token, or_no_token, resolve_locked, token_is_short}

abbrev pub row_of : Crypto → Text → List Contract → Option Contract
row_of c token rows = find_contract (λ k. same_text (c.sha256 token) k.signature_token_hash) rows

-- The link is that of an issued contract, whose event waits for the signature and has not begun, and it
-- has not expired; all as they are once the lock is held.
pub record Resolved (c : Crypto) (a : Around) (token : Text) (s : Store) (k : Contract)
    (d : ContractData) : Type 0 where
  pub event_id : ℕ
  pub good_length : token_is_short token ≡ false
  pub is_row : row_of c token (a.while_waiting s).contracts ≡ some k
  pub is_valid : contract k ≡ ok k
  pub is_data : (a.while_waiting s).events event_id ≡ some d
  pub was_issued : is_issued k.status ≡ true
  pub was_awaiting : is_awaiting d.event_status ≡ true
  pub not_begun : d.event_started ≡ false
  pub not_expired : is_past a.resolved_at k.signature_token_expires_at ≡ false

pub contract-cases : (k : Contract) → (contract k ≡ ok k) ⊎ ((e : Error) × (contract k ≡ err e))
unfolding contract
contract-cases k = ground arith

by_token-row :
    (c : Crypto) (token : Text) (s : Store)
    → ((e : Error) × (by_token c token s ≡ (err e, s)))
      ⊎ ((k : Contract) × (by_token c token s ≡ (ok k, s))
          × (row_of c token s.contracts ≡ some k)
          × (contract k ≡ ok k))
unfolding by_token find_token or_no_token to_contract
by_token-row c token s = elim (Option-cases (row_of c token s.contracts)) [
  | inl h ↦ inl (signature_error 404 invalid_signature_token, ground (arith, h))
  | inr (k, h) ↦ elim (contract-cases k) [
    | inl good ↦ inr (k, ground (arith, h, good), h, good)
    | inr (e, bad) ↦ inl (e, ground (arith, h, bad))
  ]
]

check_signable-holds :
    (now : ℕ) (k : Contract) (d : ContractData)
    → ((e : Error) × (check_signable now k d ≡ err e))
      ⊎ ((check_signable now k d ≡ ok tt)
          × (is_issued k.status ≡ true)
          × (is_awaiting d.event_status ≡ true)
          × (d.event_started ≡ false)
          × (is_past now k.signature_token_expires_at ≡ false))
unfolding check_signable
check_signable-holds now k d = ground arith

found_data :
    (event_id : ℕ) (s : Store)
    → (event_data event_id s ≡ (err resource_not_found, s))
      ⊎ ((d : ContractData) × (event_data event_id s ≡ (ok d, s)) × (s.events event_id ≡ some d))
unfolding event_data
found_data event_id s = elim (Option-cases (s.events event_id)) [
  | inl h ↦ inl (ground (arith, h))
  | inr (d, h) ↦ inr (d, ground (arith, h), h)
]

-- What was there, and which error: nothing is written in either case.
abbrev pub Refused : {A : Type 0} → Around → Store → Result A × Store → Type 0
Refused a s r = (e : Error) × ((r ≡ (err e, s)) ⊎ (r ≡ (err e, a.while_waiting s)))

pub resolve_locked-outcome :
    (c : Crypto) (a : Around) (token : Text) (s : Store)
    → Refused a s (resolve_locked c a token s)
      ⊎ ((k : Contract) × (d : ContractData) × (resolve_locked c a token s
            ≡ (ok (k, d), a.while_waiting s))
          × Resolved c a token s k d)
unfolding resolve_locked
resolve_locked-outcome c a token s = elim (Bool-cases (token_is_short token)) [
  | inl short ↦ inl (signature_error 404 invalid_signature_token, inl (ground (arith, short)))
  | inr long ↦ elim (by_token-row c token s) [
    | inl (e, no_row) ↦ inl (e, inl (ground (arith, long, no_row)))
    | inr (previous, first, _, _) ↦
        let s' = a.while_waiting s in
        elim (found_data previous.event_id s') [
          | inl gone ↦ inl (resource_not_found, inr (ground (arith, long, first, gone)))
          | inr (d, read, is_data) ↦ elim (by_token-row c token s') [
            | inl (e, no_row) ↦ inl (e, inr (ground (arith, long, first, read, no_row)))
            | inr (k, again, row, good) ↦ elim (check_signable-holds a.resolved_at k d) [
              | inl (e, bad) ↦ inl (e, inr (ground (arith, long, first, read, again, bad)))
              | inr (fine, i, w, b, x) ↦ inr (
                k,
                d,
                ground (arith, long, first, read, again, fine),
                record {
                  event_id = previous.event_id;
                  good_length = long;
                  is_row = row;
                  is_valid = good;
                  is_data = is_data;
                  was_issued = i;
                  was_awaiting = w;
                  not_begun = b;
                  not_expired = x;
                },
              )
            ]
          ]
        ]
  ]
]
