-- ===== src/Advance/Sweep.antt =====
-- The loop of the sweep (ExpireDueQuotesUseCase), row by row.
use event_pro_backend.Prelude.{
  ℕ, ◌+◌, ◌==◌, ◌≡◌, ◌≢◌, refl, ap, sym, ◌∙◌, true, false, inl, inr, Bool-cases, Option, none, some,
  List, [], ◌∷◌, All, leb, arith, if◌then◌else◌,
}
use event_pro_backend.Method.{Result, ok}
use event_pro_backend.Clock.{aware, require_aware}
use event_pro_backend.Payment.{Payment}
use event_pro_backend.Quote.{Quote, expired, is_open, expire}
use event_pro_backend.Advance.{
  Ledger, find_quote, write_quote, save, has_payment_in_review, expire_all, call_entity,
}
use event_pro_backend.Advance.Rows.{HasKeys, written, others_kept}

abbrev pub lapsed : Quote → Quote
lapsed q = record q { status = expired }

-- A row of the table that may lapse.
pub record MayLapse (now : ℕ) (rows : List Quote) (q : Quote) : Type 0 where
  pub opened : is_open q.status ≡ true
  pub late : leb q.expires_at now ≡ true
  pub is_row : find_quote q.id rows ≡ some q

expire-late :
    (now : ℕ) (rows : List Quote) (q : Quote)
    → MayLapse now rows q
    → call_entity (expire (aware now) q) ≡ ok (lapsed q)
unfolding expire require_aware
expire-late now rows q m = ground (arith, m.opened, m.late)

save-row :
    (q p : Quote) (s : Ledger)
    → find_quote q.id s.quotes ≡ some p
    → save q s ≡ (ok tt, record s { quotes = write_quote q s.quotes })
unfolding save
save-row q p s h = ground (arith, h)

-- What the loop makes of the row of an id.
abbrev pub swept : List Payment → List Quote → ℕ → Option Quote → Option Quote
swept seen due id row = elim (find_quote id due) [
  | none ↦ row
  | some q ↦ if has_payment_in_review q.id seen then row else some (lapsed q)
]

pub absent : (id : ℕ) (rows : List Quote) → All (λ r. r.id ≢ id) rows → find_quote id rows ≡ none
unfolding find_quote
absent id [] h = refl
absent id (row ∷ rows) (ne, h) = ground (arith, ne, absent id rows h)

still :
    (now : ℕ) (q : Quote) (rows due : List Quote)
    → All (λ r. r.id ≢ q.id) due
    → All (MayLapse now rows) due
    → All (MayLapse now (write_quote q rows)) due
still now q rows [] apart m = tt
still now q rows (p ∷ due) (ne, apart) (m, ms) = (
  record { opened = m.opened; late = m.late; is_row = others_kept q p.id rows ne ∙ m.is_row },
  still now q rows due apart ms,
)

swept-reviewed :
    (seen : List Payment) (q : Quote) (due : List Quote) (id : ℕ) (row : Option Quote)
    → has_payment_in_review q.id seen ≡ true
    → All (λ r. r.id ≢ q.id) due
    → swept seen (q ∷ due) id row ≡ swept seen due id row
unfolding find_quote
swept-reviewed seen q due id row reviewed apart = elim (Bool-cases (q.id == id)) [
  | inl same ↦
      let number : q.id ≡ id = ground arith in
      let gone : find_quote id due ≡ none = absent id due (rw (sym number) apart) in
      ground (arith, same, reviewed, gone)
  | inr other ↦ ground (arith, other)
]

swept-free :
    (seen : List Payment) (q : Quote) (due : List Quote) (id : ℕ) (row row' : Option Quote)
    → has_payment_in_review q.id seen ≡ false
    → All (λ r. r.id ≢ q.id) due
    → (q.id ≡ id → row' ≡ some (lapsed q))
    → (q.id ≢ id → row' ≡ row)
    → swept seen due id row' ≡ swept seen (q ∷ due) id row
unfolding find_quote
swept-free seen q due id row row' free apart here there = elim (Bool-cases (q.id == id)) [
  | inl same ↦
      let number : q.id ≡ id = ground arith in
      let gone : find_quote id due ≡ none = absent id due (rw (sym number) apart) in
      let new : row' ≡ some (lapsed q) = here number in ground (arith, same, free, gone, new)
  | inr other ↦ let kept : row' ≡ row = there (ground arith) in ground (arith, other, kept)
]

pub record Swept (seen : List Payment) (due : List Quote) (s : Ledger) (r : Result ℕ × Ledger)
    : Type 0 where
  pub count : ℕ
  pub returned : r.0 ≡ ok count
  pub same_payments : r.1.payments ≡ s.payments
  pub rows : (id : ℕ) → find_quote id r.1.quotes ≡ swept seen due id (find_quote id s.quotes)

pub expire_all-Swept :
    (now : ℕ) (seen : List Payment) (due : List Quote) (s : Ledger)
    → HasKeys due
    → All (MayLapse now s.quotes) due
    → Swept seen due s (expire_all now seen due s)
unfolding expire_all
expire_all-Swept now seen [] s keys m = record {
  count = 0;
  returned = refl;
  same_payments = refl;
  rows = λ id. ground arith;
}
expire_all-Swept now seen (q ∷ due) s (apart, keys) (m, ms) =
    elim (Bool-cases (has_payment_in_review q.id seen)) [
      | inl reviewed ↦
          let r = expire_all-Swept now seen due s keys ms in
          let skipped : expire_all now seen (q ∷ due) s ≡ expire_all now seen due s =
            ground (arith, reviewed) in
          record {
            count = r.count;
            returned = ap (λ x. x.0) skipped ∙ r.returned;
            same_payments = ap (λ x. x.1.payments) skipped ∙ r.same_payments;
            rows = λ id.
                ap (λ x. find_quote id x.1.quotes) skipped
                ∙ (r.rows id
                    ∙ sym (swept-reviewed seen q due id (find_quote id s.quotes) reviewed apart));
          }
      | inr free ↦
          let s' : Ledger = record s { quotes = write_quote (lapsed q) s.quotes } in
          let r =
            expire_all-Swept now seen due s' keys (still now (lapsed q) s.quotes due apart ms) in
          let lapses = expire-late now s.quotes q m in
          let saves = save-row (lapsed q) q s m.is_row in
          let tail : (expire_all now seen (q ∷ due) s).1 ≡ (expire_all now seen due s').1 =
            ground (arith, free, lapses, saves, r.returned) in
          record {
            count = r.count + 1;
            returned = ground (arith, free, lapses, saves, r.returned);
            same_payments = ap (λ x. x.payments) tail ∙ r.same_payments;
            rows = λ id.
                ap (λ x. find_quote id x.quotes) tail
                ∙ (r.rows id
                    ∙ swept-free seen q due id (find_quote id s.quotes) (find_quote id s'.quotes)
                        free apart (λ e. rw (sym e) (written (lapsed q) q s.quotes m.is_row))
                        (λ ne. others_kept (lapsed q) id s.quotes (λ e. ne (sym e))));
          }
    ]
