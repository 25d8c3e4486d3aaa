-- ===== src/Advance.antt =====
-- The deadline of a quote: app/application/use_cases/quote/pay_advance.py, cancel_quote.py and
-- expire_due_quotes.py over the tables of quotes and payments. A row is taken to hold a quote that its load
-- accepts.
pub mod Rows
pub mod Paying
pub mod Sweep
pub mod Expiry
mod Examples
use event_pro_backend.Prelude.{
  ℕ, zero, suc, ◌+◌, ◌==◌, ltb, leb, Bool, true, false, not, ◌&&◌, ◌||◌, Option, none, some, List,
  [], ◌∷◌, Text, if◌then◌else◌,
}
use event_pro_backend.Method.{
  Result, ok, err, and_then, Method, pure, lift, ◌>>=◌, ◌>>◌, resource_not_found, quote_expired,
  invalid_quote_state, payment_under_review, availability_conflict, threshold_exceeded,
  overflow_error,
}
use event_pro_backend.Clock.{aware, minutes}
use event_pro_backend.Money.{Money}
use event_pro_backend.Quote.{
  Quote, QuoteStatus, expired, converted, cancelled, is_open, is_payment_started, start_payment,
  cancel, expire,
}
use event_pro_backend.Payment.{
  Payment, PaymentValidationStatus, pending_verification, requires_manual_approval,
}

pub data AvailabilityStatus : Type 0 where
  available conflict manual_approval : AvailabilityStatus

-- The tables, in the transaction of the caller.
pub record Ledger : Type 0 where
  pub quotes : List Quote
  pub payments : List Payment

-- A package of the catalogue, as far as it is read.
pub record PackageRead : Type 0 where
  pub duration_minutes : ℕ
  pub is_active : Bool

-- What a call asks of the catalogue, which gives inactive packages too, and of the availability of a date, a
-- time, a duration and a package.
pub record Around : Type 0 where
  pub now : ℕ
  pub recheck_minutes : ℕ
  pub get_package : ℕ → Option PackageRead
  pub check_availability : ℕ → ℕ → ℕ → ℕ → Result AvailabilityStatus

unfoldable pub find_quote : ℕ → List Quote → Option Quote
find_quote id [] = none
find_quote id (q ∷ qs) = if q.id == id then some q else find_quote id qs

abbrev pub or_not_found : Option Quote → Result Quote
or_not_found none = err resource_not_found
or_not_found (some q) = ok q

-- `get_by_id_for_update`, and the refusal
unfoldable pub get_for_update : ℕ → Method Ledger Quote
unfolding find_quote
get_for_update id s = (or_not_found (find_quote id s.quotes), s)

unfoldable pub write_quote : Quote → List Quote → List Quote
write_quote q [] = []
write_quote q (row ∷ rows) =
    let rest = write_quote q rows in if row.id == q.id then q ∷ rows else row ∷ rest

-- `save`
unfoldable pub save : Quote → Method Ledger (Unit {0})
unfolding find_quote write_quote
save q s = elim (find_quote q.id s.quotes) [
  | none ↦ (err resource_not_found, s)
  | some row ↦ (ok tt, record s { quotes = write_quote q s.quotes })
]

abbrev pub in_review : PaymentValidationStatus → Bool
in_review pending_verification = true
in_review requires_manual_approval = true
in_review _ = false

-- `has_payment_in_review`
unfoldable pub has_payment_in_review : ℕ → List Payment → Bool
has_payment_in_review id [] = false
has_payment_in_review id (p ∷ ps) =
    (p.quote_id == id && in_review p.validation_status) || has_payment_in_review id ps

-- A method of the entity inside a use case: the entity after the call, or the exception.
abbrev pub call_entity : Result (Unit {0}) × Quote → Result Quote
call_entity (ok _, q) = ok q
call_entity (err e, q) = err e

-- A day after `date.max` is an error.
unfoldable pub add_days : ℕ → ℕ → Result ℕ
add_days date n = if ltb (date + n) 3652059 then ok (date + n) else err overflow_error

-- The days from `days` on, as many as `count`: those that are available.
unfoldable pub alternatives_from : Around → Quote → ℕ → ℕ → ℕ → Result (List (ℕ × ℕ))
unfolding add_days
alternatives_from a q duration days zero = ok []
alternatives_from a q duration days (suc count) =
    let rest = alternatives_from a q duration (days + 1) count in
    and_then (add_days q.event_date days) λ date.
      and_then (a.check_availability date q.event_time duration q.package_id) λ status.
        and_then rest
          λ others. ok (elim status [ available ↦ (date, q.event_time) ∷ others | _ ↦ others ])

-- `_suggest_alternatives`: the three days that follow.
abbrev pub suggest_alternatives : Around → Quote → ℕ → Result (List (ℕ × ℕ))
suggest_alternatives a q duration = alternatives_from a q duration 1 3

-- The end of `_revalidate` where the date is not available.
unfoldable pub reject : Around → Quote → ℕ → AvailabilityStatus → Result AvailabilityStatus
unfolding alternatives_from
reject a q duration available = ok available
reject a q duration conflict =
    and_then (suggest_alternatives a q duration)
      λ alternatives. err (availability_conflict alternatives)
reject a q duration manual_approval =
    and_then (suggest_alternatives a q duration)
      λ alternatives. err (threshold_exceeded alternatives)

-- `_revalidate`
unfoldable pub revalidate : Around → Quote → Result AvailabilityStatus
unfolding reject
revalidate a q = elim (a.get_package q.package_id) [
  | none ↦ err resource_not_found
  | some package_read ↦
      if not package_read.is_active
      then err resource_not_found
      else and_then
          (a.check_availability q.event_date q.event_time package_read.duration_minutes
            q.package_id)
          λ status. reject a q package_read.duration_minutes status
]

pub record PayAdvanceResult : Type 0 where
  pub quote_id : ℕ
  pub status : QuoteStatus
  pub availability : AvailabilityStatus
  pub rechecked : Bool
  pub advance_amount : Money
  pub payment_deadline : ℕ

-- `_result`; the instructions are the same for every quote and are left out.
abbrev pub pay_result : Quote → AvailabilityStatus → Bool → PayAdvanceResult
pay_result q availability rechecked = record {
  quote_id = q.id;
  status = q.status;
  availability = availability;
  rechecked = rechecked;
  advance_amount = q.liquidation.advance_amount;
  payment_deadline = q.expires_at;
}

-- The refusals before the deadline is looked at.
unfoldable pub check_status : QuoteStatus → Result (Unit {0})
check_status expired = err quote_expired
check_status converted = err invalid_quote_state
check_status cancelled = err invalid_quote_state
check_status _ = ok tt

-- The refusals from the deadline on.
unfoldable pub check_deadline : ℕ → Quote → List Payment → Result (Unit {0})
unfolding has_payment_in_review
check_deadline now q payments =
    if ltb now q.expires_at
    then ok tt
    else if is_payment_started q.status && has_payment_in_review q.id payments
    then err payment_under_review
    else err quote_expired

-- `timedelta(minutes=self._recheck_minutes)` has passed since the quote was sent.
abbrev pub is_stale : Around → Quote → Bool
is_stale a q = ltb (q.sent_at + minutes a.recheck_minutes) a.now

-- `PayAdvanceUseCase.execute`
unfoldable pub pay_advance : Around → ℕ → Method Ledger PayAdvanceResult
unfolding get_for_update check_status check_deadline revalidate start_payment save
pay_advance a id s = elim (get_for_update id s).0 [
  | err e ↦ (err e, s)
  | ok q ↦
      (do
        lift (check_status q.status)
        lift (check_deadline a.now q s.payments)
        if is_payment_started q.status then pure (pay_result q available false) else (do
          availability ← lift (if is_stale a q then revalidate a q else ok available)
          started ← lift (call_entity (start_payment (aware a.now) q))
          save started
          pure (pay_result started availability (is_stale a q))))
        s
]

-- `CancelQuoteUseCase.execute`
unfoldable pub cancel_quote : ℕ → Option Text → Method Ledger QuoteStatus
unfolding get_for_update has_payment_in_review cancel save
cancel_quote id reason s = elim (get_for_update id s).0 [
  | err e ↦ (err e, s)
  | ok q ↦
      if not (is_open q.status)
      then (err invalid_quote_state, s)
      else if has_payment_in_review q.id s.payments
      then (err invalid_quote_state, s)
      else (do dropped ← lift (call_entity (cancel reason q)); save dropped; pure dropped.status) s
]

-- What `find_due` selects, less the rows that another transaction has locked.
abbrev pub is_due : ℕ → (ℕ → Bool) → List Payment → Quote → Bool
is_due now locked payments q =
    is_open q.status
    && leb q.expires_at now
    && not (has_payment_in_review q.id payments)
    && not (locked q.id)

-- `find_due`; the order does not matter to what is read.
unfoldable pub find_due : (Quote → Bool) → List Quote → List Quote
find_due test [] = []
find_due test (q ∷ qs) = let rest = find_due test qs in if test q then q ∷ rest else rest

-- The loop of ExpireDueQuotesUseCase; `seen` are the payments that the second look finds.
unfoldable pub expire_all : ℕ → List Payment → List Quote → Method Ledger ℕ
unfolding expire save has_payment_in_review
expire_all now seen [] s = (ok 0, s)
expire_all now seen (q ∷ qs) s = elim (has_payment_in_review q.id seen) [
  | true ↦ expire_all now seen qs s
  | false ↦ elim (call_entity (expire (aware now) q)) [
    | err e ↦ (err e, s)
    | ok lapsed ↦
        let (saved, s') = save lapsed s in
        let (rest, s'') = expire_all now seen qs s' in
        elim saved [ err e ↦ (err e, s') | ok _ ↦ (and_then rest λ count. ok (count + 1), s'') ]
  ]
]

-- `ExpireDueQuotesUseCase.execute`
unfoldable pub expire_due_quotes : ℕ → (ℕ → Bool) → List Payment → Method Ledger ℕ
unfolding find_due expire_all
expire_due_quotes now locked seen s =
    expire_all now seen (find_due (is_due now locked s.payments) s.quotes) s
