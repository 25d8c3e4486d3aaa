-- ===== src/Advance/Rows.antt =====
-- The table of quotes by id.
use event_pro_backend.Prelude.{
  ℕ, ◌==◌, ◌≡◌, ◌≢◌, refl, inl, inr, Bool-cases, some, List, [], ◌∷◌, All, arith,
}
use event_pro_backend.Quote.{Quote}
use event_pro_backend.Advance.{find_quote, write_quote}

-- No two rows have an id in common.
abbrev pub HasKeys : List Quote → Type 0
HasKeys [] = Unit
HasKeys (row ∷ rows) = All (λ r. r.id ≢ row.id) rows × HasKeys rows

pub find_quote-id :
    (id : ℕ) (rows : List Quote) (q : Quote) → find_quote id rows ≡ some q → q.id ≡ id
unfolding find_quote
find_quote-id id [] q h = ground arith
find_quote-id id (row ∷ rows) q h = elim (Bool-cases (row.id == id)) [
  | inl same ↦ ground (arith, same)
  | inr other ↦ find_quote-id id rows q (ground (arith, other))
]

pub written :
    (q p : Quote) (rows : List Quote)
    → find_quote q.id rows ≡ some p
    → find_quote q.id (write_quote q rows) ≡ some q
unfolding find_quote write_quote
written q p [] h = ground arith
written q p (row ∷ rows) h = elim (Bool-cases (row.id == q.id)) [
  | inl same ↦ rw same (ground arith)
  | inr other ↦ rw (other, other) (written q p rows (ground (arith, other)))
]

pub others_kept :
    (q : Quote) (id : ℕ) (rows : List Quote)
    → id ≢ q.id
    → find_quote id (write_quote q rows) ≡ find_quote id rows
unfolding find_quote write_quote
others_kept q id [] ne = refl
others_kept q id (row ∷ rows) ne = ground (arith, others_kept q id rows ne)
