-- ===== src/Issuing/Again.antt =====
-- Issuing the contract of an event a second time.
use event_pro_backend.Prelude.{
  ℕ, ◌≡◌, refl, ap, ◌∙◌, ◌==◌, true, inl, inr, Bool-cases, Option, some, List, [], ◌∷◌, All, truthy,
  arith,
}
use event_pro_backend.Method.{ok}
use event_pro_backend.Contract.{Contract, contract}
use event_pro_backend.Contract.Table.{
  ContractData, Store, find_contract, write_contract, event_data, active_for_event, to_contract,
}
use event_pro_backend.Issuing.Rules.{Settings, Desk, require_paid, is_ready}
use event_pro_backend.Issuing.{issue_for_event}
use event_pro_backend.Issuing.Offer.{Offered-IsOffer, Linked-IsReady}
use event_pro_backend.Issuing.Outcome.{
  is_active, active, IsSource, found_active, made_new, issue_for_event-Issued,
}

-- No other contract of the event is active.
abbrev pub OnlyActive : ℕ → ℕ → List Contract → Type 0
OnlyActive event_id id = All (λ r. is_active event_id r ≡ true → r.id ≡ id)

active-write :
    (event_id : ℕ) (k : Contract) (rows : List Contract)
    → is_active event_id k ≡ true
    → OnlyActive event_id k.id rows
    → find_contract (is_active event_id) (write_contract k rows) ≡ some k
unfolding find_contract write_contract
active-write event_id k [] h only = rw h refl
active-write event_id k (row ∷ rows) h (mine, only) = elim (Bool-cases (row.id == k.id)) [
  | inl same ↦ rw (same, h) refl
  | inr other ↦ elim (Bool-cases (is_active event_id row)) [
    | inl here ↦ ground (arith, mine here)
    | inr gone ↦ rw (other, gone) (active-write event_id k rows h only)
  ]
]

-- An active contract that is ready is returned, and nothing is written.
ready-again :
    (cfg : Settings) (w : Desk) (event_id : ℕ) (user_id : Option ℕ) (s : Store) (d : ContractData)
    (k : Contract)
    → w.while_waiting s ≡ s
    → s.events event_id ≡ some d
    → require_paid d ≡ ok tt
    → active event_id s ≡ some k
    → contract k ≡ ok k
    → is_ready k ≡ true
    → issue_for_event cfg w event_id user_id s ≡ (ok k, s)
unfolding issue_for_event event_data active_for_event to_contract
ready-again cfg w event_id user_id s d k quiet is_data paid here good ready =
    rw (quiet) (ground (arith, is_data, paid, here, good, ready))

source-kept :
    (w : Desk) (d : ContractData) (event_id : ℕ) (s start : Store) (k : Contract)
    → IsSource w d event_id s k start
    → (start.contracts ≡ s.contracts) × (start.events ≡ s.events)
source-kept w d event_id s start k (found_active _ _) = (refl, refl)
source-kept w d event_id s start k (made_new _ _) = (refl, refl)

active-event :
    (event_id : ℕ) (rows : List Contract) (k : Contract)
    → find_contract (is_active event_id) rows ≡ some k
    → k.event_id ≡ event_id
unfolding find_contract
active-event event_id [] k h = ground arith
active-event event_id (row ∷ rows) k h = elim (Bool-cases (is_active event_id row)) [
  | inl here ↦ ground (arith, here)
  | inr gone ↦ active-event event_id rows k (ground (arith, gone))
]

source-event :
    (w : Desk) (d : ContractData) (event_id : ℕ) (s start : Store) (k : Contract)
    → IsSource w d event_id s k start
    → k.event_id ≡ event_id
source-event w d event_id s start k (found_active _ here) = active-event event_id s.contracts k here
source-event w d event_id s start k (made_new _ _) = refl

-- An issue of the contract of an event that returned, and another one after it, which nothing else comes
-- between: if the digest of the token is not empty and no other contract of the event was active, the second
-- issue returns the same contract and writes nothing.
pub issue_again :
    (cfg cfg2 : Settings) (w w2 : Desk) (event_id : ℕ) (user_id user2 : Option ℕ) (s : Store)
    (final : Contract)
    → (issue_for_event cfg w event_id user_id s).0 ≡ ok final
    → truthy (w.sha256 w.token) ≡ true
    → OnlyActive event_id final.id (w.while_waiting s).contracts
    → let after = (issue_for_event cfg w event_id user_id s).1 in
      w2.while_waiting after ≡ after
      → issue_for_event cfg2 w2 event_id user2 after ≡ (ok final, after)
issue_again cfg cfg2 w w2 event_id user_id user2 s final h hashed only quiet =
    let after = (issue_for_event cfg w event_id user_id s).1 in
    let i = issue_for_event-Issued cfg w event_id user_id s final h in
    elim i.came [
      | inl (here, good, ready, kept) ↦
          ready-again cfg2 w2 event_id user2 after i.read final quiet (rw kept i.is_data) i.was_paid
            (rw kept here) good ready
      | inr (k, start, offered, source, good, off, sent) ↦
          let (rows, events) = source-kept w i.read event_id (w.while_waiting s) start k source in
          let event = source-event w i.read event_id (w.while_waiting s) start k source in
          let o = Offered-IsOffer w i.read event_id k offered good event off in
          let r =
            Linked-IsReady cfg w event_id offered final start sent.queued hashed o sent.linked in
          ready-again cfg2 w2 event_id user2 after i.read final quiet
            (ap (λ r. r.events event_id) sent.saved
              ∙ (ap (λ f. f event_id) (sent.linked.same_events ∙ events) ∙ i.is_data))
            i.was_paid
            (ap (λ r. active event_id r) sent.saved
              ∙ (ap (λ ks. find_contract (is_active event_id) (write_contract final ks)) rows
                  ∙ active-write event_id final (w.while_waiting s).contracts r.is_active_now only))
            r.is_valid r.has_link
    ]
