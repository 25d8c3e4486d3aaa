-- ===== src/Payment/Calls.antt =====
-- The life of a payment as a sequence of calls of the methods of Payment.
use event_pro_backend.Prelude.{ℕ, Option, Text}
use event_pro_backend.Clock.{DateTime}
use event_pro_backend.Payment.{
  Payment, PaymentValidationStatus, PaymentAuditStatus, pending_verification,
  requires_manual_approval, verified, rejected, refund_pending, refunded, verify,
  require_manual_approval, approve_overbooked, reject, mark_refund_pending, confirm_refund, audit,
}

pub data Call : Type 0 where
  verify_call : ℕ → Option ℕ → DateTime → Call
  manual_call : Call
  approve_call : ℕ → Option ℕ → DateTime → Call
  reject_call : (ℕ → ℕ) → Text → DateTime → Call
  refund_call : Call
  confirm_call : Call
  audit_call : ℕ → ℕ → PaymentAuditStatus → Option Text → Call

-- The payment after a call, whether the call returned or raised.
unfoldable pub after : Call → Payment → Payment
after (verify_call user event at) p = (verify user event at p).1
after manual_call p = (require_manual_approval p).1
after (approve_call user event at) p = (approve_overbooked user event at p).1
after (reject_call local_time reason at) p = (reject local_time reason at p).1
after refund_call p = (mark_refund_pending p).1
after confirm_call p = (confirm_refund p).1
after (audit_call now user status notes) p = (audit now user status notes p).1

-- The transitions of the verification of an advance (RN-04, RF-20).
infix 40 ◌⟶◌ ◌⟶*◌
pub data ◌⟶◌ : PaymentValidationStatus → PaymentValidationStatus → Type 0 where
  accept : pending_verification ⟶ verified
  overbook : pending_verification ⟶ requires_manual_approval
  approve : requires_manual_approval ⟶ verified
  refuse : pending_verification ⟶ rejected
  refuse_overbooked : requires_manual_approval ⟶ rejected
  give_back : requires_manual_approval ⟶ refund_pending
  given_back : refund_pending ⟶ refunded

pub data ◌⟶*◌ : PaymentValidationStatus → PaymentValidationStatus → Type 0 where
  here : {s : PaymentValidationStatus} → s ⟶* s
  then : {s t u : PaymentValidationStatus} → s ⟶* t → t ⟶ u → s ⟶* u

-- `p` after any calls.
pub data Later (p : Payment) : Payment → Type 0 where
  same : Later p p
  called : {r : Payment} (c : Call) → Later p r → Later p (after c r)
