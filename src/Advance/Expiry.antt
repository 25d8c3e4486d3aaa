-- ===== src/Advance/Expiry.antt =====
-- The quotes that lapse at the sweep (ExpireDueQuotesUseCase), and those under review.
use event_pro_backend.Prelude.{
  ℕ, ◌==◌, ◌≡◌, ◌≢◌, refl, ap, sym, ◌∙◌, Bool, true, false, not, ◌&&◌, inl, inr, Bool-cases, Option,
  none, some, List, [], ◌∷◌, All, Text, arith, if◌then◌else◌,
}
use event_pro_backend.Method.{ok, err, invalid_quote_state}
use event_pro_backend.Payment.{Payment}
use event_pro_backend.Quote.{Quote, expired}
use event_pro_backend.Advance.{
  Ledger, find_quote, has_payment_in_review, is_due, find_due, expire_due_quotes, cancel_quote,
  get_for_update,
}
use event_pro_backend.Advance.Rows.{HasKeys}
use event_pro_backend.Advance.Sweep.{lapsed, MayLapse, absent, swept, expire_all-Swept}

-- The rows that are selected.
All-found :
    (id : ℕ) (test : Quote → Bool) (rows : List Quote)
    → All (λ r. r.id ≢ id) rows
    → All (λ r. r.id ≢ id) (find_due test rows)
unfolding find_due
All-found id test [] h = tt
All-found id test (q ∷ rows) (ne, h) = elim (Bool-cases (test q)) [
  | inl yes_due ↦ rw yes_due (ne, All-found id test rows h)
  | inr not_due ↦ rw not_due (All-found id test rows h)
]

HasKeys-found :
    (test : Quote → Bool) (rows : List Quote) → HasKeys rows → HasKeys (find_due test rows)
unfolding find_due
HasKeys-found test [] k = tt
HasKeys-found test (q ∷ rows) (apart, k) = elim (Bool-cases (test q)) [
  | inl yes_due ↦ rw yes_due (All-found q.id test rows apart, HasKeys-found test rows k)
  | inr not_due ↦ rw not_due (HasKeys-found test rows k)
]

find_quote-found :
    (id : ℕ) (test : Quote → Bool) (rows : List Quote) (q : Quote)
    → HasKeys rows
    → find_quote id rows ≡ some q
    → find_quote id (find_due test rows) ≡ (if test q then some q else none)
unfolding find_quote find_due
find_quote-found id test [] q k h = ground arith
find_quote-found id test (p ∷ rows) q (apart, k) h = elim (Bool-cases (p.id == id)) [
  | inl same ↦
      let number : p.id ≡ id = ground arith in
      let here : p ≡ q = ground (arith, same) in
      let gone : find_quote id (find_due test rows) ≡ none =
        absent id (find_due test rows) (All-found id test rows (rw (sym number) apart)) in
      elim (Bool-cases (test p)) [
        | inl yes_due ↦ rw (sym here) (rw yes_due (rw same refl))
        | inr not_due ↦ rw (sym here) (rw not_due gone)
      ]
  | inr other ↦
      let rest = find_quote-found id test rows q k (ground (arith, other)) in
      elim (Bool-cases (test p)) [
        | inl yes_due ↦ rw yes_due (rw other rest)
        | inr not_due ↦ rw not_due rest
      ]
]

behind :
    (p : Quote) (rows some_rows : List Quote)
    → All (λ r. r.id ≢ p.id) some_rows
    → All (λ q. find_quote q.id rows ≡ some q) some_rows
    → All (λ q. find_quote q.id (p ∷ rows) ≡ some q) some_rows
unfolding find_quote
behind p rows [] apart h = tt
behind p rows (q ∷ qs) (ne, apart) (here, h) = (ground (arith, here), behind p rows qs apart h)

self-rows : (rows : List Quote) → HasKeys rows → All (λ q. find_quote q.id rows ≡ some q) rows
unfolding find_quote
self-rows [] k = tt
self-rows (p ∷ rows) (apart, k) = (ground arith, behind p rows rows apart (self-rows rows k))

due-MayLapse :
    (now : ℕ) (locked : ℕ → Bool) (payments : List Payment) (all rows : List Quote)
    → All (λ q. find_quote q.id all ≡ some q) rows
    → All (MayLapse now all) (find_due (is_due now locked payments) rows)
unfolding find_due
due-MayLapse now locked payments all [] h = tt
due-MayLapse now locked payments all (q ∷ rows) (here, h) =
    elim (Bool-cases (is_due now locked payments q)) [
      | inl yes_due ↦ rw yes_due (
        record { opened = ground arith; late = ground arith; is_row = here },
        due-MayLapse now locked payments all rows h,
      )
      | inr not_due ↦ rw not_due (due-MayLapse now locked payments all rows h)
    ]

find_quote-none :
    (id : ℕ) (test : Quote → Bool) (rows : List Quote)
    → find_quote id rows ≡ none
    → find_quote id (find_due test rows) ≡ none
unfolding find_quote find_due
find_quote-none id test [] h = refl
find_quote-none id test (p ∷ rows) h = elim (Bool-cases (p.id == id)) [
  | inl same ↦ ground (arith, same)
  | inr other ↦
      let rest = find_quote-none id test rows (ground (arith, other)) in
      elim (Bool-cases (test p)) [
        | inl yes_due ↦ rw yes_due (rw other rest)
        | inr not_due ↦ rw not_due rest
      ]
]

swept-none :
    (seen : List Payment) (due : List Quote) (id : ℕ)
    → find_quote id due ≡ none
    → swept seen due id none ≡ none
swept-none seen due id h = ground (arith, h)

swept-row :
    (seen : List Payment) (due : List Quote) (id : ℕ) (q : Quote) (is_selected : Bool)
    → find_quote id due ≡ (if is_selected then some q else none)
    → swept seen due id (some q)
      ≡ some (if is_selected && not (has_payment_in_review q.id seen) then lapsed q else q)
swept-row seen due id q true h = ground (arith, h)
swept-row seen due id q false h = ground (arith, h)

-- A sweep of a table of quotes without two of one id always returns; and it writes as follows. The row of
-- an id with no quote stays so. A quote becomes EXPIRED, and is else as before, exactly if it was open, its
-- deadline had come, no other transaction held it, and no payment of it was in review, neither when the
-- quotes were selected nor at the second look; any other quote is as before.
pub expire_due_quotes-rows :
    (now : ℕ) (locked : ℕ → Bool) (seen : List Payment) (s : Ledger)
    → HasKeys s.quotes
    → let r = expire_due_quotes now locked seen s in
      ((n : ℕ) × (r.0 ≡ ok n))
      × (r.1.payments ≡ s.payments)
      × ((id : ℕ) → find_quote id s.quotes ≡ none → find_quote id r.1.quotes ≡ none)
      × ((id : ℕ) (q : Quote)
          → find_quote id s.quotes ≡ some q
          → find_quote id r.1.quotes
            ≡ some (
                if is_due now locked s.payments q && not (has_payment_in_review q.id seen)
                then record q { status = expired }
                else q))
unfolding expire_due_quotes
expire_due_quotes-rows now locked seen s keys =
    let test = is_due now locked s.payments in
    let due = find_due test s.quotes in
    let r =
      expire_all-Swept now seen due s (HasKeys-found test s.quotes keys)
        (due-MayLapse now locked s.payments s.quotes s.quotes (self-rows s.quotes keys)) in
    (
      (r.count, r.returned),
      r.same_payments,
      λ id gone.
          r.rows id
          ∙ (ap (swept seen due id) gone
              ∙ swept-none seen due id (find_quote-none id test s.quotes gone)),
      λ id q here.
          let found = find_quote-found id test s.quotes q keys here in
          r.rows id ∙ (ap (swept seen due id) here ∙ swept-row seen due id q (test q) found),
    )

-- A quote with a payment in review is neither swept nor cancelled: the sweep leaves its row, and a
-- cancellation is refused and writes nothing.
pub under_review-kept :
    (now : ℕ) (locked : ℕ → Bool) (seen : List Payment) (reason : Option Text) (s : Ledger)
    (q : Quote)
    → HasKeys s.quotes
    → find_quote q.id s.quotes ≡ some q
    → has_payment_in_review q.id s.payments ≡ true
    → (find_quote q.id (expire_due_quotes now locked seen s).1.quotes ≡ some q)
      × (cancel_quote q.id reason s ≡ (err invalid_quote_state, s))
unfolding cancel_quote get_for_update
under_review-kept now locked seen reason s q keys here review =
    let (_, _, _, rows) = expire_due_quotes-rows now locked seen s keys in
    (rows q.id q here ∙ ground (arith, review), ground (arith, here, review))
