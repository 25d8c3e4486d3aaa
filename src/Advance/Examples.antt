-- ===== src/Advance/Examples.antt =====
-- Two quotes, one with a payment in review, and the theorems at them.
use event_pro_backend.Prelude.{
  ℕ, ◌≡◌, refl, Bool, true, false, not, ◌&&◌, none, some, [], ◌∷◌, arith, if◌then◌else◌,
}
use event_pro_backend.Method.{ok, err, invalid_quote_state}
use event_pro_backend.Payment.Examples.{captured}
use event_pro_backend.Quote.{Quote, expired, payment_started}
use event_pro_backend.Quote.Examples.{offer}
use event_pro_backend.Advance.{
  Ledger, Around, available, PayAdvanceResult, pay_result, pay_advance, cancel_quote,
  expire_due_quotes, find_quote, is_due, has_payment_in_review,
}
use event_pro_backend.Advance.Paying.{Paid, pay_advance-Paid, pay_advance_twice}
use event_pro_backend.Advance.Expiry.{expire_due_quotes-rows, under_review-kept}

-- The payment is one of the quote 12.
abbrev reviewed : Quote
reviewed = record offer { id = 12; status = payment_started }

abbrev ledger : Ledger
ledger = record {
  quotes = offer ∷ reviewed ∷ [];
  payments = record captured { quote_id = 12 } ∷ [];
}

-- Two hours after the quotes were sent: the availability is asked again.
abbrev later_on : Around
later_on = record {
  now = 7200000000;
  recheck_minutes = 60;
  get_package = λ id. some (record { duration_minutes = 60; is_active = true });
  check_availability = λ date time duration id. ok available;
}

abbrev answer : PayAdvanceResult
answer = pay_result (record offer { status = payment_started }) available true

answered : (pay_advance later_on 9 ledger).0 ≡ ok answer
unfolding pay_advance
answered = refl

pay_advance-Paid_example : Paid later_on 9 ledger (pay_advance later_on 9 ledger).1 answer
pay_advance-Paid_example = pay_advance-Paid later_on 9 ledger answer answered

pay_advance_twice_example :
    pay_advance later_on 9 (pay_advance later_on 9 ledger).1
    ≡ (ok (record answer { rechecked = false }), (pay_advance later_on 9 ledger).1)
pay_advance_twice_example =
    pay_advance_twice later_on later_on 9 ledger answer answered (omega arith)

-- After the deadline of both.
abbrev late : ℕ
late = 90000000000

abbrev unlocked : ℕ → Bool
unlocked id = false

expire_due_quotes-rows_example :
    let r = expire_due_quotes late unlocked ledger.payments ledger in
    ((n : ℕ) × (r.0 ≡ ok n))
    × (r.1.payments ≡ ledger.payments)
    × ((id : ℕ) → find_quote id ledger.quotes ≡ none → find_quote id r.1.quotes ≡ none)
    × ((id : ℕ) (q : Quote)
        → find_quote id ledger.quotes ≡ some q
        → find_quote id r.1.quotes
          ≡ some (
              if is_due late unlocked ledger.payments q
                && not (has_payment_in_review q.id ledger.payments)
              then record q { status = expired }
              else q))
expire_due_quotes-rows_example =
    expire_due_quotes-rows late unlocked ledger.payments ledger
      (((λ e. ground arith), tt), (tt, tt))

one_expires : (expire_due_quotes late unlocked ledger.payments ledger).0 ≡ ok 1
unfolding expire_due_quotes
one_expires = refl

reviewed_here : find_quote 12 ledger.quotes ≡ some reviewed
unfolding find_quote
reviewed_here = refl

has_review : has_payment_in_review 12 ledger.payments ≡ true
unfolding has_payment_in_review
has_review = refl

under_review-kept_example :
    (find_quote 12 (expire_due_quotes late unlocked [] ledger).1.quotes ≡ some reviewed)
    × (cancel_quote 12 none ledger ≡ (err invalid_quote_state, ledger))
under_review-kept_example =
    under_review-kept late unlocked [] none ledger reviewed (((λ e. ground arith), tt), (tt, tt))
      reviewed_here has_review
