-- ===== src/Dispatch/Claims.antt =====
-- The claims of `claim_due` and their leases.
use event_pro_backend.Prelude.{
  ℕ, zero, suc, ◌+◌, ◌≤◌, ◌<◌, ◌≡◌, refl, sym, ap, ◌∙◌, Bool, true, false, [], ◌∷◌, take, map,
  length, length-take, All, pos, arith, Bool-cases, inl, inr,
}
use event_pro_backend.Method.{ok}
use event_pro_backend.Clock.{add_delta}
use event_pro_backend.Outbox.{OutboxMessage, is_pending}
use event_pro_backend.Dispatch.Table.{
  Rows, select, insert, order, is_before, is_due, has_id, postpone, postponed, lease_rows,
  claim_due,
}

module _ (P : OutboxMessage → Type 0) where
  insert-All : (m : OutboxMessage) (rows : Rows) → P m → All P rows → All P (insert m rows)
  unfolding insert
  insert-All m [] p h = (p, tt)
  insert-All m (row ∷ rows) p h = elim (Bool-cases (is_before m row)) [
    | inl b ↦ rw b (p, h)
    | inr b ↦ rw b (h.0, insert-All m rows p h.1)
  ]

  order-All : (rows : Rows) → All P rows → All P (order rows)
  unfolding order
  order-All [] h = tt
  order-All (row ∷ rows) h = insert-All row (order rows) h.0 (order-All rows h.1)

  take-All : (n : ℕ) (rows : Rows) → All P rows → All P (take n rows)
  take-All zero rows h = tt
  take-All (suc n) [] h = tt
  take-All (suc n) (row ∷ rows) h = (h.0, take-All n rows h.1)

  select-All :
      (test : OutboxMessage → Bool) (rows : Rows)
      → All P rows
      → All (λ m. P m × (test m ≡ true)) (select test rows)
  unfolding select
  select-All test [] h = tt
  select-All test (row ∷ rows) h = elim (Bool-cases (test row)) [
    | inl b ↦ rw b ((h.0, b), select-All test rows h.1)
    | inr b ↦ rw b (select-All test rows h.1)
  ]

All-map :
    (Q P : OutboxMessage → Type 0) (f : OutboxMessage → OutboxMessage) (rows : Rows)
    → ((m : OutboxMessage) → P m → Q (f m))
    → All P rows
    → All Q (map f rows)
All-map Q P f [] g h = tt
All-map Q P f (row ∷ rows) g h = (g row h.0, All-map Q P f rows g h.1)

All-weaken :
    (Q P : OutboxMessage → Type 0) (rows : Rows)
    → ((m : OutboxMessage) → P m → Q m)
    → All P rows
    → All Q rows
All-weaken Q P [] g h = tt
All-weaken Q P (row ∷ rows) g h = (g row h.0, All-weaken Q P rows g h.1)

has_id-map : (id until : ℕ) (rows : Rows) → has_id id (map (postponed until) rows) ≡ has_id id rows
unfolding has_id
has_id-map id until [] = refl
has_id-map id until (row ∷ rows) = rw (has_id-map id until rows) refl

-- The rows of a claim carry its lease.
pub IsLeased : ℕ → Rows → OutboxMessage → Type 0
IsLeased until claimed m = has_id m.id claimed ≡ true → m.next_attempt_at ≡ until

postpone-IsLeased :
    (until : ℕ) (chosen rows : Rows) → All (IsLeased until chosen) (postpone until chosen rows)
unfolding postpone IsLeased
postpone-IsLeased until chosen [] = tt
postpone-IsLeased until chosen (row ∷ rows) = elim (Bool-cases (has_id row.id chosen)) [
  | inl b ↦ rw b (λ _. refl, postpone-IsLeased until chosen rows)
  | inr b ↦ rw b (λ found. ground (arith, b, found), postpone-IsLeased until chosen rows)
]

postpone_nil : (until : ℕ) (rows : Rows) → postpone until [] rows ≡ rows
unfolding postpone has_id
postpone_nil until [] = refl
postpone_nil until (row ∷ rows) = ap (λ r. row ∷ r) (postpone_nil until rows)

lease_rows-postpone :
    (now l : ℕ) (chosen rows first after : Rows)
    → lease_rows now (pos l) chosen rows ≡ (ok first, after)
    → (first ≡ map (postponed (now + l)) chosen) × (after ≡ postpone (now + l) chosen rows)
unfolding lease_rows add_delta
lease_rows-postpone now l [] rows first after h =
    (ground arith, rw (postpone_nil (now + l) rows) (ground arith))
lease_rows-postpone now l (m ∷ ms) rows first after h = (ground arith, ground arith)

-- What a worker may claim.
abbrev pub MayClaim : ℕ → (ℕ → Bool) → OutboxMessage → Type 0
MayClaim now locked m =
    (is_pending m.status ≡ true) × (m.next_attempt_at ≤ now) × (locked m.id ≡ false)

abbrev chosen_of : ℕ → ℕ → (ℕ → Bool) → Rows → Rows
chosen_of now limit locked rows = take limit (order (select (is_due now locked) rows))

chosen_of-All :
    (P : OutboxMessage → Type 0) (now limit : ℕ) (locked : ℕ → Bool) (rows : Rows)
    → All P rows
    → All (λ m. P m × MayClaim now locked m) (chosen_of now limit locked rows)
chosen_of-All P now limit locked rows h =
    let Both : OutboxMessage → Type 0 = λ m. P m × MayClaim now locked m in
    let due = select-All P (is_due now locked) rows h in
    let found = All-weaken Both _ _ (λ m d. (d.0, ground (arith, d.1))) due in
    take-All Both limit _ (order-All Both _ found)

All-true : (rows : Rows) → All (λ _. Unit {0}) rows
All-true [] = tt
All-true (row ∷ rows) = (tt, All-true rows)

length-map : (f : OutboxMessage → OutboxMessage) (rows : Rows) → length (map f rows) ≡ length rows
length-map f [] = refl
length-map f (row ∷ rows) = ap suc (length-map f rows)

-- Every message that `claim_due` returns is pending, is not held by another transaction, and carries
-- the lease, until the given instants after the claim; there are no more of them than the limit;
-- and the table has the lease in every row of their ids.
pub claim_due-leases :
    (now limit l : ℕ) (locked : ℕ → Bool) (rows first after : Rows)
    → claim_due now limit (pos l) locked rows ≡ (ok first, after)
    → All
        (λ m. (is_pending m.status ≡ true) × (locked m.id ≡ false) × (m.next_attempt_at ≡ now + l))
        first
      × (length first ≤ limit)
      × All (IsLeased (now + l) first) after
unfolding claim_due IsLeased
claim_due-leases now limit l locked rows first after h =
    let chosen = chosen_of now limit locked rows in
    let (f, a) = lease_rows-postpone now l chosen rows first after h in
    rw (f, a)
      (
        All-map _ _ (postponed (now + l)) chosen (λ m c. (c.1.0, c.1.2, refl))
            (chosen_of-All _ now limit locked rows (All-true rows)),
        omega (
          arith,
          length-map (postponed (now + l)) chosen,
          length-take limit (order (select (is_due now locked) rows)),
        ),
        All-weaken _ _ _ (λ m leased found. leased (sym (has_id-map m.id (now + l) chosen) ∙ found))
            (postpone-IsLeased (now + l) chosen rows),
      )

-- While a claim made at `now` for `l` microseconds is leased, no other claim returns one of its
-- messages: whatever has happened to the table since, as long as the rows of the claimed ids carry
-- the lease, as they do right after the claim, a claim at an instant before `now + l`, with any limit,
-- lease and locks, returns none of them.
pub claim_due-exclusive :
    (now l later limit k : ℕ) (locked : ℕ → Bool) (first between second last : Rows)
    → All (IsLeased (now + l) first) between
    → claim_due later limit (pos k) locked between ≡ (ok second, last)
    → later < now + l
    → All (λ m. has_id m.id first ≡ false) second
unfolding claim_due IsLeased
claim_due-exclusive now l later limit k locked first between second last leased h t =
    let chosen = chosen_of later limit locked between in
    let (f, _) = lease_rows-postpone later k chosen between second last h in
    rw f (
      All-map _ _ (postponed (later + k)) chosen
        (λ m c. elim (Bool-cases (has_id m.id first)) [
          | inl found ↦
              let still : m.next_attempt_at ≡ now + l = c.0 found in
              let due : m.next_attempt_at ≤ later = c.1.1 in ground (arith, still, due)
          | inr other ↦ other
        ])
        (chosen_of-All (IsLeased (now + l) first) later limit locked between leased))
