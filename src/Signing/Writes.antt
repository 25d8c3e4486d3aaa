-- ===== src/Signing/Writes.antt =====
-- The writes of a signature, row by row.
use event_pro_backend.Prelude.{
  ℕ, ◌≡◌, ◌≢◌, refl, sym, true, inl, inr, Bool-cases, none, some, List, [], ◌∷◌, ◌++◌, All, Text,
  ◌==◌, arith,
}
use event_pro_backend.Contract.{Contract}
use event_pro_backend.Event.{scheduled}
use event_pro_backend.Contract.Table.{
  ContractData, Store, contract_signed, find_contract, write_contract, same_text, save,
  schedule_event, record_audit, invalidate_pending_links, update_event,
}
use event_pro_backend.Signing.Rules.{Settings}
use event_pro_backend.Contract.Notice.{notify}
use event_pro_backend.Signing.{Around, write_signature}

-- The keys of the table: no two rows have an id in common.
abbrev pub HasKeys : List Contract → Type 0
HasKeys [] = Unit
HasKeys (row ∷ rows) = All (λ r. r.id ≢ row.id) rows × HasKeys rows

-- Only the contract of that id has the token.
abbrev pub OnlyWith : Text → ℕ → List Contract → Type 0
OnlyWith hash id = All (λ r. same_text hash r.signature_token_hash ≡ true → r.id ≡ id)

-- The rows of a signature, whatever becomes of the copy for the client.
pub write_signature-rows :
    (cfg : Settings) (a : Around) (k : Contract) (d : ContractData) (path : Text) (s : Store)
    → let s' = (write_signature cfg a k d path s).1 in
      (s'.contracts ≡ write_contract k s.contracts)
      × (s'.events ≡ update_event k.event_id (λ d. record d { event_status = scheduled }) s.events)
      × (s'.audit
          ≡ s.audit ++ (record { action = contract_signed; entity_id = k.id; user_id = none } ∷ []))
unfolding write_signature save schedule_event record_audit invalidate_pending_links notify
write_signature-rows cfg a k d path s = ground arith

not_others :
    (hash : Text) (id : ℕ) (rows : List Contract)
    → All (λ r. r.id ≢ id) rows
    → OnlyWith hash id rows
    → find_contract (λ r. same_text hash r.signature_token_hash) rows ≡ none
unfolding find_contract
not_others hash id [] apart only = refl
not_others hash id (row ∷ rows) (other, apart) (mine, only) =
    elim (Bool-cases (same_text hash row.signature_token_hash)) [
      | inl matches ↦ ground (arith, other (mine matches))
      | inr differs ↦ rw differs (not_others hash id rows apart only)
    ]

same_id :
    (i j : ℕ) (rows : List Contract) → i ≡ j → All (λ r. r.id ≢ i) rows → All (λ r. r.id ≢ j) rows
same_id i j rows e h = rw (sym e) h

-- A token that is taken from its contract is in no row.
pub token_gone :
    (hash : Text) (k : Contract) (rows : List Contract)
    → k.signature_token_hash ≡ none
    → HasKeys rows
    → OnlyWith hash k.id rows
    → find_contract (λ r. same_text hash r.signature_token_hash) (write_contract k rows) ≡ none
unfolding find_contract write_contract
token_gone hash k [] gone keys only = ground arith
token_gone hash k (row ∷ rows) gone (apart, keys) (mine, only) =
    elim (Bool-cases (row.id == k.id)) [
      | inl same ↦
          let rest =
            not_others hash k.id rows (same_id row.id k.id rows (ground arith) apart) only in
          rw same (ground (arith, rest, gone))
      | inr other ↦ elim (Bool-cases (same_text hash row.signature_token_hash)) [
        | inl matches ↦ ground (arith, mine matches)
        | inr differs ↦ rw (other, differs) (token_gone hash k rows gone keys only)
      ]
    ]

pub found_again :
    (k : Contract) (rows : List Contract)
    → find_contract (λ r. r.id == k.id) (write_contract k rows) ≡ some k
unfolding find_contract write_contract
found_again k [] = ground arith
found_again k (row ∷ rows) = elim (Bool-cases (row.id == k.id)) [
  | inl same ↦ rw same (ground arith)
  | inr other ↦ rw (other, other) (found_again k rows)
]

pub others_kept :
    (k : Contract) (id : ℕ) (rows : List Contract)
    → id ≢ k.id
    → find_contract (λ r. r.id == id) (write_contract k rows) ≡ find_contract (λ r. r.id == id) rows
unfolding find_contract write_contract
others_kept k id [] ne = ground arith
others_kept k id (row ∷ rows) ne = ground (arith, others_kept k id rows ne)
