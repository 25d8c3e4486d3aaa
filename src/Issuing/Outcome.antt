-- ===== src/Issuing/Outcome.antt =====
-- What issuing the contract of an event has met, and does.
use event_pro_backend.Prelude.{
  ℕ, ◌≡◌, ◌+◌, Bool, true, not, ◌&&◌, inl, inr, ◌⊎◌, Bool-cases, Option-cases, Option, none, some,
  ◌==◌, Text, arith,
}
use event_pro_backend.Method.{Error, ok, err, Result-cases, resource_not_found}
use event_pro_backend.Contract.{Contract, contract, blank_contract, is_voided}
use event_pro_backend.Contract.Table.{
  ContractData, Store, contract_issued, find_contract, event_data, active_for_event, to_contract,
  next_number, numbered,
}
use event_pro_backend.Issuing.Rules.{Settings, Desk, require_paid, is_ready}
use event_pro_backend.Issuing.{issue_contract, issue_for_event, new_contract}
use event_pro_backend.Issuing.Sending.{Sent, Offered, issue_contract-Sent}
use event_pro_backend.Signing.Resolving.{contract-cases}

-- The active contract of an event: not annulled.
abbrev pub is_active : ℕ → Contract → Bool
is_active event_id k = k.event_id == event_id && not (is_voided k.status)

abbrev pub active : ℕ → Store → Option Contract
active event_id s = find_contract (is_active event_id) s.contracts

-- The contract to be issued: the active one, or a new one.
pub data IsSource (w : Desk) (d : ContractData) (event_id : ℕ) (s : Store)
    : Contract → Store → Type 0 where
  found_active : (k : Contract) → active event_id s ≡ some k → IsSource w d event_id s k s
  made_new :
      (number : Text)
      → active event_id s ≡ none
      → IsSource w d event_id s
          (blank_contract w.fresh_contract number event_id d.is_manual w.now)
          (record s { numbers = s.numbers + 1 })

-- What an issue that returns has met, and has done.
pub record Issued (cfg : Settings) (w : Desk) (event_id : ℕ) (user_id : Option ℕ) (s after : Store)
    (final : Contract) : Type 0 where
  pub read : ContractData
  pub is_data : (w.while_waiting s).events event_id ≡ some read
  pub was_paid : require_paid read ≡ ok tt
  pub came :
      ((active event_id (w.while_waiting s) ≡ some final)
        × (contract final ≡ ok final)
        × (is_ready final ≡ true)
        × (after ≡ w.while_waiting s))
      ⊎ ((k : Contract) × (start : Store) × (offered : Contract) × IsSource w read event_id
            (w.while_waiting s)
            k
            start
          × (contract k ≡ ok k)
          × Offered w read k offered
          × Sent cfg w contract_issued user_id offered final start after)

new_contract-made :
    (w : Desk) (d : ContractData) (event_id : ℕ) (s : Store)
    → ((e : Error) × ((new_contract w d event_id s).0 ≡ err e))
      ⊎ ((number : Text) × (let k =
              blank_contract w.fresh_contract number event_id d.is_manual w.now in
            (new_contract w d event_id s ≡ (ok k, record s { numbers = s.numbers + 1 }))
            × (contract k ≡ ok k)))
unfolding new_contract next_number
new_contract-made w d event_id s =
    elim (contract-cases
      (blank_contract w.fresh_contract (numbered w.year s.numbers) event_id d.is_manual w.now)) [
        | inl good ↦ inr (numbered w.year s.numbers, (ground (arith, good), good))
        | inr (e, bad) ↦ inl (e, ground (arith, bad))
      ]

active_for_event-row :
    (event_id : ℕ) (s : Store)
    → ((e : Error) × (active_for_event event_id s ≡ (err e, s)))
      ⊎ ((active_for_event event_id s ≡ (ok none, s)) × (active event_id s ≡ none))
      ⊎ ((k : Contract) × (active_for_event event_id s ≡ (ok (some k), s))
          × (active event_id s ≡ some k)
          × (contract k ≡ ok k))
unfolding active_for_event to_contract
active_for_event-row event_id s = elim (Option-cases (active event_id s)) [
  | inl h ↦ inr (inl (ground (arith, h), h))
  | inr (k, h) ↦ elim (contract-cases k) [
    | inl good ↦ inr (inr (k, ground (arith, h, good), h, good))
    | inr (e, bad) ↦ inl (e, ground (arith, h, bad))
  ]
]

found_data :
    (event_id : ℕ) (s : Store)
    → ((e : Error) × (event_data event_id s ≡ (err e, s)))
      ⊎ ((d : ContractData) × (event_data event_id s ≡ (ok d, s)) × (s.events event_id ≡ some d))
unfolding event_data
found_data event_id s = elim (Option-cases (s.events event_id)) [
  | inl h ↦ inl (resource_not_found, ground (arith, h))
  | inr (d, h) ↦ inr (d, ground (arith, h), h)
]

-- A contract that is issued from a source.
began :
    (cfg : Settings) (w : Desk) (event_id : ℕ) (user_id : Option ℕ) (s after : Store)
    (final : Contract) (d : ContractData) (k : Contract) (start : Store)
    → (w.while_waiting s).events event_id ≡ some d
    → require_paid d ≡ ok tt
    → contract k ≡ ok k
    → IsSource w d event_id (w.while_waiting s) k start
    → (issue_contract cfg w d user_id k start).0 ≡ ok final
    → after ≡ (issue_contract cfg w d user_id k start).1
    → Issued cfg w event_id user_id s after final
began cfg w event_id user_id s after final d k start is_data paid good source h same =
    let (offered, off, sent) = issue_contract-Sent cfg w d user_id k final start h in
    record {
      read = d;
      is_data = is_data;
      was_paid = paid;
      came = inr (k, start, offered, source, good, off, rw same sent);
    }

pub issue_for_event-Issued :
    (cfg : Settings) (w : Desk) (event_id : ℕ) (user_id : Option ℕ) (s : Store) (final : Contract)
    → (issue_for_event cfg w event_id user_id s).0 ≡ ok final
    → Issued cfg w event_id user_id s (issue_for_event cfg w event_id user_id s).1 final
unfolding issue_for_event
issue_for_event-Issued cfg w event_id user_id s final h =
    let s0 = w.while_waiting s in
    elim (found_data event_id s0) [
      | inl (e, bad) ↦ ground (arith, h, bad)
      | inr (d, read, is_data) ↦ elim (Result-cases (require_paid d)) [
        | inr (e, bad) ↦ ground (arith, h, read, bad)
        | inl (_, paid) ↦ elim (active_for_event-row event_id s0) [
          | inl (e, bad) ↦ ground (arith, h, read, paid, bad)
          | inr (inl (row, none_yet)) ↦ elim (new_contract-made w d event_id s0) [
            | inl (e, bad) ↦ ground (arith, h, read, paid, row, bad)
            | inr (number, (made, good)) ↦
                let k = blank_contract w.fresh_contract number event_id d.is_manual w.now in
                let start : Store = record s0 { numbers = s0.numbers + 1 } in
                began cfg w event_id user_id s _ final d k start is_data paid good
                  (made_new number none_yet) (ground (arith, h, read, paid, row, made))
                  (ground (arith, h, read, paid, row, made))
          ]
          | inr (inr (k, row, here, good)) ↦ elim (Bool-cases (is_ready k)) [
            | inl ready ↦ record {
              read = d;
              is_data = is_data;
              was_paid = paid;
              came = inl (
                ground (arith, h, read, paid, row, ready, here),
                ground (arith, h, read, paid, row, ready, good),
                ground (arith, h, read, paid, row, ready),
                ground (arith, h, read, paid, row, ready),
              );
            }
            | inr not_ready ↦
                began cfg w event_id user_id s _ final d k s0 is_data paid good
                  (found_active k here) (ground (arith, h, read, paid, row, not_ready))
                  (ground (arith, h, read, paid, row, not_ready))
          ]
        ]
      ]
    ]
