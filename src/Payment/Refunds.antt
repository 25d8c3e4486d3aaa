-- ===== src/Payment/Refunds.antt =====
-- A refund that is confirmed, and the payment that is stored after it.
use event_pro_backend.Prelude.{◌≡◌, none, some, arith}
use event_pro_backend.Method.{ok, err, validation}
use event_pro_backend.Payment.{Payment, refund_pending, refunded, confirm_refund}
use event_pro_backend.Payment.Invariant.{IsAccepted, confirm_refund-IsAccepted}
use event_pro_backend.Payment.Store.{Rows, get_by_id, refund_payment}

-- Confirming the refund of a stored payment that no user is recorded to have verified
-- returns REFUNDED and saves it; from then on the repository cannot load the
-- payment, since `__post_init__` refuses the saved row.
pub refund_without_verifier :
    (rows : Rows) (p : Payment)
    → IsAccepted p
    → rows p.id ≡ some p
    → p.validation_status ≡ refund_pending
    → p.verified_by_user_id ≡ none
    → ((refund_payment p.id rows).0 ≡ ok refunded)
      × ((get_by_id p.id (refund_payment p.id rows).1).0 ≡ err validation)
unfolding refund_payment confirm_refund
refund_without_verifier rows p accepted stored pending nobody =
    let (returns, status, _, refused) = confirm_refund-IsAccepted p accepted pending in
    (ground (arith, accepted), ground (arith, accepted, refused))
