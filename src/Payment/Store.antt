-- ===== src/Payment/Store.antt =====
-- The payments that are stored, and the use case of app/application/use_cases/payment/refund_payment.py.
-- A row is loaded by the constructor, as payment_mapper.py does, so its checks are made again.
use event_pro_backend.Prelude.{ℕ, ◌==◌, Option, none, some, if◌then◌else◌}
use event_pro_backend.Method.{
  Result, ok, err, and_then, Method, pure, raise, lift, ◌>>=◌, ◌>>◌, resource_not_found,
}
use event_pro_backend.Payment.{Payment, PaymentValidationStatus, payment, confirm_refund}

-- The table of payments, by identifier.
abbrev pub Rows : Type 0
Rows = ℕ → Option Payment

-- `payment_to_domain(row) if row is not None else None`
abbrev pub to_domain : Option Payment → Result (Option Payment)
to_domain none = ok none
to_domain (some row) = and_then (payment row) λ p. ok (some p)

-- `SqlAlchemyPaymentRepository.get_by_id`
unfoldable pub get_by_id : ℕ → Method Rows (Option Payment)
get_by_id id rows = (to_domain (rows id), rows)

-- `SqlAlchemyPaymentRepository.save`
unfoldable pub save : Payment → Method Rows (Unit {0})
save p rows = (ok tt, λ id. if id == p.id then some p else rows id)

abbrev pub or_not_found : Option Payment → Method Rows Payment
or_not_found none = raise resource_not_found
or_not_found (some p) = pure p

-- A method of the entity inside a use case: the entity after the call, or the exception.
abbrev pub call_entity {ℓ} : {A : Type ℓ} → Result A × Payment → Result Payment
call_entity (ok _, p) = ok p
call_entity (err e, p) = err e

-- `RefundPaymentUseCase.execute`
unfoldable pub refund_payment : ℕ → Method Rows PaymentValidationStatus
unfolding get_by_id save
refund_payment payment_id = do
  found ← get_by_id payment_id
  p ← or_not_found found
  refunded_payment ← lift (call_entity (confirm_refund p))
  save refunded_payment
  pure refunded_payment.validation_status
