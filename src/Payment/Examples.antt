-- ===== src/Payment/Examples.antt =====
-- Runs of a payment, and its theorems at them.
use event_pro_backend.Prelude.{ℕ, ◌==◌, ◌≡◌, refl, none, some, codes, pos, if◌then◌else◌}
use event_pro_backend.Method.{ok, err, validation}
use event_pro_backend.Clock.{aware}
use event_pro_backend.Money.Laws.{soles}
use event_pro_backend.Payment.{
  Payment, payment, advance, yape, pending_verification, verified, refund_pending, refunded,
  require_manual_approval, mark_refund_pending,
}
use event_pro_backend.Payment.Calls.{verify_call, reject_call, after, same, called}
use event_pro_backend.Payment.Invariant.{IsAccepted}
use event_pro_backend.Payment.Store.{Rows, get_by_id, refund_payment}
use event_pro_backend.Payment.Refunds.{refund_without_verifier}
use event_pro_backend.Payment.Resolution.{Later-resolved}

abbrev pub captured : Payment
captured = record {
  id = 4;
  quote_id = 9;
  concept = advance;
  payment_method = yape;
  amount = soles (pos 30000);
  evidence_path = codes "evidence/4.png";
  validation_status = pending_verification;
  audit_status = none;
  event_id = none;
  transaction_reference = none;
  rejection_reason = none;
  verified_by_user_id = none;
  verified_at = none;
  registered_by_user_id = none;
  audited_by_user_id = none;
  audited_at = none;
  audit_notes = none;
}

captured-IsAccepted : IsAccepted captured
unfolding payment
captured-IsAccepted = refl

-- The machine's time zone is UTC.
abbrev pub utc : ℕ → ℕ
utc t = t

abbrev to_refund : Payment
to_refund = record captured { validation_status = refund_pending }

to_refund-IsAccepted : IsAccepted to_refund
unfolding payment
to_refund-IsAccepted = refl

to_refund-reached : (mark_refund_pending (require_manual_approval captured).1).1 ≡ to_refund
unfolding mark_refund_pending require_manual_approval
to_refund-reached = refl

abbrev table : Rows
table id = if id == 4 then some to_refund else none

refund_without_verifier_example :
    ((refund_payment 4 table).0 ≡ ok refunded)
    × ((get_by_id 4 (refund_payment 4 table).1).0 ≡ err validation)
refund_without_verifier_example =
    refund_without_verifier table to_refund to_refund-IsAccepted refl refl refl

abbrev confirmed : Payment
confirmed = after (verify_call 1 (some 8) (aware 5)) captured

abbrev settled_payment : Payment
settled_payment = record captured {
  validation_status = verified;
  verified_by_user_id = some 1;
  event_id = some 8;
}

abbrev after_refusal : Payment
after_refusal = after (reject_call utc (codes "no") (aware 6)) settled_payment

Later-resolved_example :
    (after_refusal.validation_status ≡ settled_payment.validation_status)
    × (after_refusal.verified_by_user_id ≡ settled_payment.verified_by_user_id)
    × (after_refusal.event_id ≡ settled_payment.event_id)
Later-resolved_example =
    Later-resolved {p = settled_payment} refl (called (reject_call utc (codes "no") (aware 6)) same)
