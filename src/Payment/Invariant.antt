-- ===== src/Payment/Invariant.antt =====
-- The checks of `Payment.__post_init__` after each method.
use event_pro_backend.Prelude.{ℕ, ◌≡◌, true, false, Option, is_some, Text, arith}
use event_pro_backend.Method.{ok, err, validation}
use event_pro_backend.Clock.{DateTime}
use event_pro_backend.Payment.{
  Payment, PaymentAuditStatus, payment, verify, require_manual_approval, approve_overbooked, reject,
  mark_refund_pending, confirm_refund, audit, refund_pending, refunded,
}

-- What `__post_init__` accepts.
abbrev pub IsAccepted : Payment → Type 0
IsAccepted p = payment p ≡ ok p

module _ (p : Payment) (accepted : IsAccepted p) where
  verify-IsAccepted :
      (user : ℕ) (event : Option ℕ) (at : DateTime) → IsAccepted (verify user event at p).1
  unfolding payment verify
  verify-IsAccepted user event at = ground arith

  require_manual_approval-IsAccepted : IsAccepted (require_manual_approval p).1
  unfolding payment require_manual_approval
  require_manual_approval-IsAccepted = ground arith

  approve_overbooked-IsAccepted :
      (user : ℕ) (event : Option ℕ) (at : DateTime)
      → IsAccepted (approve_overbooked user event at p).1
  unfolding payment approve_overbooked
  approve_overbooked-IsAccepted user event at = ground arith

  reject-IsAccepted :
      (local_time : ℕ → ℕ) (reason : Text) (at : DateTime)
      → IsAccepted (reject local_time reason at p).1
  unfolding payment reject
  reject-IsAccepted local_time reason at = ground arith

  mark_refund_pending-IsAccepted : IsAccepted (mark_refund_pending p).1
  unfolding payment mark_refund_pending
  mark_refund_pending-IsAccepted = ground arith

  audit-IsAccepted :
      (now user : ℕ) (status : PaymentAuditStatus) (notes : Option Text)
      → IsAccepted (audit now user status notes p).1
  unfolding payment audit
  audit-IsAccepted now user status notes = ground arith

-- Every method but `confirm_refund` keeps what `Payment.__post_init__` checks, whether it returns
-- or raises, so that a payment that was loaded can be loaded again after the method and a save.
pub methods_keep-IsAccepted :
    (p : Payment) (user now : ℕ) (event : Option ℕ) (at : DateTime) (local_time : ℕ → ℕ)
    (reason : Text) (status : PaymentAuditStatus) (notes : Option Text)
    → IsAccepted p
    → IsAccepted (verify user event at p).1
      × IsAccepted (require_manual_approval p).1
      × IsAccepted (approve_overbooked user event at p).1
      × IsAccepted (reject local_time reason at p).1
      × IsAccepted (mark_refund_pending p).1
      × IsAccepted (audit now user status notes p).1
methods_keep-IsAccepted p user now event at local_time reason status notes h = (
  verify-IsAccepted p h user event at,
  require_manual_approval-IsAccepted p h,
  approve_overbooked-IsAccepted p h user event at,
  reject-IsAccepted p h local_time reason at,
  mark_refund_pending-IsAccepted p h,
  audit-IsAccepted p h now user status notes,
)

-- `confirm_refund` of an accepted payment whose refund is pending always returns, with the status
-- REFUNDED; the result is accepted by `__post_init__` if a user is recorded as its verifier, and
-- is refused with a validation error if none is.
pub confirm_refund-IsAccepted :
    (p : Payment)
    → IsAccepted p
    → p.validation_status ≡ refund_pending
    → ((confirm_refund p).0 ≡ ok tt)
      × ((confirm_refund p).1.validation_status ≡ refunded)
      × (is_some p.verified_by_user_id ≡ true → IsAccepted (confirm_refund p).1)
      × (is_some p.verified_by_user_id ≡ false → payment (confirm_refund p).1 ≡ err validation)
unfolding payment confirm_refund
confirm_refund-IsAccepted p h s = (ground arith, ground arith, λ v. ground arith, λ v. ground arith)
