-- ===== src/Advance/Paying.antt =====
-- Paying the advance of a quote, once and again.
use event_pro_backend.Prelude.{
  ℕ, ◌≡◌, ◌<◌, refl, ap, sym, ◌∙◌, true, false, inl, inr, ◌⊎◌, Bool-cases, Option-cases, some, List,
  arith, if◌then◌else◌,
}
use event_pro_backend.Method.{Result, ok, Result-cases}
use event_pro_backend.Clock.{aware}
use event_pro_backend.Quote.{
  Quote, QuoteStatus, sent, payment_started, converted, expired, cancelled, start_payment,
}
use event_pro_backend.Payment.{Payment}
use event_pro_backend.Advance.{
  AvailabilityStatus, PackageRead, Around, Ledger, available, PayAdvanceResult, pay_result,
  pay_advance, find_quote, get_for_update, write_quote, save, check_status, check_deadline,
  is_stale, revalidate, reject, alternatives_from,
}
use event_pro_backend.Quote.Lifecycle.{payment_or_expiry}
use event_pro_backend.Advance.Rows.{find_quote-id, written}

-- Started, unless it was already; asked for again if it is stale.
pub record Paid (a : Around) (id : ℕ) (s after : Ledger) (r : PayAdvanceResult) : Type 0 where
  pub quote : Quote
  pub is_row : find_quote id s.quotes ≡ some quote
  pub in_time : a.now < quote.expires_at
  pub came :
      ((quote.status ≡ payment_started) × (after ≡ s) × (r ≡ pay_result quote available false))
      ⊎ ((quote.status ≡ sent)
          × (after ≡ record s {
            quotes = write_quote (record quote { status = payment_started }) s.quotes;
          })
          × (r
              ≡ pay_result (record quote { status = payment_started }) available (is_stale a quote))
          × (is_stale a quote ≡ true
              → (p : PackageRead) × (a.get_package quote.package_id ≡ some p)
                × (p.is_active ≡ true)
                × (a.check_availability quote.event_date quote.event_time p.duration_minutes
                      quote.package_id
                    ≡ ok available)))

check_status-open : (s : QuoteStatus) → check_status s ≡ ok tt → (s ≡ payment_started) ⊎ (s ≡ sent)
unfolding check_status
check_status-open sent h = inr refl
check_status-open payment_started h = inl refl
check_status-open converted h = ground arith
check_status-open expired h = ground arith
check_status-open cancelled h = ground arith

check_deadline-time :
    (now : ℕ) (q : Quote) (payments : List Payment)
    → check_deadline now q payments ≡ ok tt
    → now < q.expires_at
unfolding check_deadline
check_deadline-time now q payments h = ground arith

reject-available :
    (a : Around) (q : Quote) (duration : ℕ) (status verdict : AvailabilityStatus)
    → reject a q duration status ≡ ok verdict
    → (status ≡ available) × (verdict ≡ available)
unfolding reject
reject-available a q duration status verdict h = (
  ground (arith, Result-cases (alternatives_from a q duration 1 3)),
  ground (arith, Result-cases (alternatives_from a q duration 1 3)),
)

revalidate-available :
    (a : Around) (q : Quote) (verdict : AvailabilityStatus)
    → revalidate a q ≡ ok verdict
    → (verdict ≡ available)
      × ((p : PackageRead) × (a.get_package q.package_id ≡ some p)
          × (p.is_active ≡ true)
          × (a.check_availability q.event_date q.event_time p.duration_minutes q.package_id
              ≡ ok available))
unfolding revalidate
revalidate-available a q verdict h = elim (Option-cases (a.get_package q.package_id)) [
  | inl gone ↦ ground (arith, h, gone)
  | inr (p, here) ↦ elim (Bool-cases p.is_active) [
    | inr inactive ↦ ground (arith, h, here, inactive)
    | inl active ↦
        let duration = p.duration_minutes in
        elim (Result-cases (a.check_availability q.event_date q.event_time duration q.package_id)) [
          | inr (e, bad) ↦ ground (arith, h, here, active, bad)
          | inl (status, answer) ↦
              let (good, same) =
                reject-available a q duration status verdict
                  (ground (arith, h, here, active, answer)) in
              (same, (p, here, active, answer ∙ ap ok good))
        ]
  ]
]

start_payment-sent :
    (now : ℕ) (q : Quote)
    → q.status ≡ sent
    → now < q.expires_at
    → start_payment (aware now) q ≡ (ok tt, record q { status = payment_started })
start_payment-sent now q h lt = elim (payment_or_expiry q now h) [
  | inl (_, goes, _) ↦ goes
  | inr (late, _, _) ↦ ground arith
]

-- The answer of the availability, where it is asked.
asked-available :
    (a : Around) (q : Quote) (verdict : AvailabilityStatus)
    → (if is_stale a q then revalidate a q else ok available) ≡ ok verdict
    → (verdict ≡ available)
      × (is_stale a q ≡ true
          → (p : PackageRead) × (a.get_package q.package_id ≡ some p)
            × (p.is_active ≡ true)
            × (a.check_availability q.event_date q.event_time p.duration_minutes q.package_id
                ≡ ok available))
asked-available a q verdict h = elim (Bool-cases (is_stale a q)) [
  | inr fresh ↦ (ground (arith, h, fresh), λ stale. ground (arith, fresh, stale))
  | inl stale ↦
      let (same, asked) = revalidate-available a q verdict (ground (arith, h, stale)) in
      (same, λ _. asked)
]

-- The advance of a quote is paid only in time: a call that returns found the quote SENT or PAYMENT_STARTED
-- and before its deadline. If it was started already, nothing is written; else it is saved started and
-- otherwise as it was, and if the recheck time had passed since it was sent, its package is active and its
-- date was available for it.
pub pay_advance-Paid :
    (a : Around) (id : ℕ) (s : Ledger) (r : PayAdvanceResult)
    → (pay_advance a id s).0 ≡ ok r
    → Paid a id s (pay_advance a id s).1 r
unfolding pay_advance get_for_update save
pay_advance-Paid a id s r h = elim (Option-cases (find_quote id s.quotes)) [
  | inl gone ↦ ground (arith, h, gone)
  | inr (q, here) ↦ elim (Result-cases (check_status q.status)) [
    | inr (e, bad) ↦ ground (arith, h, here, bad)
    | inl (_, fine) ↦ elim (Result-cases (check_deadline a.now q s.payments)) [
      | inr (e, bad) ↦ ground (arith, h, here, fine, bad)
      | inl (_, time) ↦
          let early = check_deadline-time a.now q s.payments time in
          elim (check_status-open q.status fine) [
            | inl started ↦ record {
              quote = q;
              is_row = here;
              in_time = early;
              came = inl (
                started,
                ground (arith, h, here, fine, time, started),
                ground (arith, h, here, fine, time, started),
              );
            }
            | inr is_sent ↦
                elim (Result-cases (if is_stale a q then revalidate a q else ok available)) [
                  | inr (e, bad) ↦ ground (arith, h, here, fine, time, is_sent, bad)
                  | inl (verdict, asked) ↦
                      let (good, checked) = asked-available a q verdict asked in
                      let began = start_payment-sent a.now q is_sent early in
                      let found : find_quote q.id s.quotes ≡ some q =
                        ap (λ i. find_quote i s.quotes) (find_quote-id id s.quotes q here) ∙ here in
                      record {
                        quote = q;
                        is_row = here;
                        in_time = early;
                        came = inr (
                          is_sent,
                          ground (arith, h, here, fine, time, is_sent, asked, began, found),
                          ground (arith, h, here, fine, time, is_sent, asked, began, found, good),
                          checked,
                        );
                      }
                ]
          ]
    ]
  ]
]

-- A started quote in time gives its instructions again.
pay_advance-again :
    (b : Around) (id : ℕ) (s : Ledger) (q : Quote)
    → find_quote id s.quotes ≡ some q
    → q.status ≡ payment_started
    → b.now < q.expires_at
    → pay_advance b id s ≡ (ok (pay_result q available false), s)
unfolding pay_advance get_for_update check_status check_deadline
pay_advance-again b id s q here started lt = ground (arith, here, started)

same_answer :
    {r x : PayAdvanceResult} {s t : Ledger}
    → s ≡ t
    → r ≡ x
    → ◌≡◌ {A = Result PayAdvanceResult × Ledger}
        (ok (record x { rechecked = false }), t)
        (ok (record r { rechecked = false }), s)
same_answer kept same = rw (kept, same) refl

-- After a call that returned, a second one before the deadline, whatever the availability is then and with
-- nothing else in between, gives the same answer but that it asks for no availability, and writes nothing.
pub pay_advance_twice :
    (a b : Around) (id : ℕ) (s : Ledger) (r : PayAdvanceResult)
    → (pay_advance a id s).0 ≡ ok r
    → b.now < r.payment_deadline
    → pay_advance b id (pay_advance a id s).1
      ≡ (ok (record r { rechecked = false }), (pay_advance a id s).1)
pay_advance_twice a b id s r h lt =
    let p = pay_advance-Paid a id s r h in
    let q = p.quote in
    elim p.came [
      | inl (started, kept, same) ↦
          let deadline : r.payment_deadline ≡ q.expires_at = ap (λ x. x.payment_deadline) same in
          let early : b.now < q.expires_at = ground arith in
          ap (pay_advance b id) kept
          ∙ (pay_advance-again b id s q p.is_row started early ∙ same_answer kept same)
      | inr (_, kept, same, _) ↦
          let deadline : r.payment_deadline ≡ q.expires_at = ap (λ x. x.payment_deadline) same in
          let early : b.now < q.expires_at = ground arith in
          let begun : Quote = record q { status = payment_started } in
          let after : Ledger = record s { quotes = write_quote begun s.quotes } in
          let number : q.id ≡ id = find_quote-id id s.quotes q p.is_row in
          let row : find_quote id after.quotes ≡ some begun =
            ap (λ i. find_quote i after.quotes) (sym number)
            ∙ written begun q s.quotes (ap (λ i. find_quote i s.quotes) number ∙ p.is_row) in
          ap (pay_advance b id) kept
          ∙ (pay_advance-again b id after begun row refl early ∙ same_answer kept same)
    ]
