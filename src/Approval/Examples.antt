-- ===== src/Approval/Examples.antt =====
-- An advance that is verified and one that is approved, each with its contract, and the theorems at them.
use event_pro_backend.Prelude.{
  ◌==◌, ◌≡◌, refl, pos, Bool, true, false, Option, none, some, [], decimal, if◌then◌else◌,
}
use event_pro_backend.Method.{ok}
use event_pro_backend.Clock.{require_aware}
use event_pro_backend.Outbox.Payload.{validate_payload}
use event_pro_backend.Phone.{parse}
use event_pro_backend.Contract.Table.{Store, str_uuid, numbered}
use event_pro_backend.Signing.Examples.{paid}
use event_pro_backend.Issuing.Rules.{link_payload}
use event_pro_backend.Issuing.Examples.{cfg, desk, empty}
use event_pro_backend.Payment.{
  payment, Payment, is_pending, is_overbooked, verified, requires_manual_approval,
}
use event_pro_backend.Payment.Store.{Rows}
use event_pro_backend.Payment.Examples.{captured, utc}
use event_pro_backend.Approval.{
  Around, Booking, VerifyInput, verified_action, verify_payment, OverbookedInput,
  resolve_overbooked,
}
use event_pro_backend.Approval.Issues.{paid_by}
use event_pro_backend.Approval.Accepting.{
  Accepted, verify_payment-Accepted, resolve_overbooked-Accepted,
}

abbrev is_paid : Option Payment → Bool
is_paid none = false
is_paid (some p) = elim p.validation_status [ verified ↦ true | _ ↦ false ]

-- The advance of the event is the payment 4, once it is verified.
abbrev sums : Rows → Store → Store
sums rows s = record s {
  events = λ id.
      if id == 3
      then some
          (record paid { quote_id = 9; advance = if is_paid (rows 4) then pos 50000 else pos 0 })
      else none;
}

abbrev around : Around
around = record { contracts = some (cfg, desk); now = 500; local_time = utc; sums = sums }

abbrev with_row : Payment → Booking
with_row p = record { payments = λ id. if id == 4 then some p else none; store = empty; log = [] }

abbrev to_verify : VerifyInput
to_verify = record {
  payment_id = 4;
  action = verified_action;
  event_id = some 3;
  verified_by_user_id = 1;
  rejection_reason = none;
}

verified_here :
    (verify_payment around to_verify (with_row captured)).0 ≡ ok (paid_by 1 3 500 captured)
unfolding verify_payment str_uuid parse require_aware validate_payload numbered decimal link_payload
    payment
verified_here = refl

verify_payment-Accepted_example :
    Accepted cfg desk around 1 4
      (some 3)
      is_pending
      (paid_by 1 3 500 captured)
      (with_row captured)
      (verify_payment around to_verify (with_row captured)).1
verify_payment-Accepted_example =
    verify_payment-Accepted cfg desk around to_verify (paid_by 1 3 500 captured) (with_row captured)
      refl refl verified_here

abbrev overbooked : Payment
overbooked = record captured { validation_status = requires_manual_approval }

abbrev to_approve : OverbookedInput
to_approve = record { payment_id = 4; approves = true; event_id = some 3; decided_by_user_id = 1 }

approved_here :
    (resolve_overbooked around to_approve (with_row overbooked)).0 ≡ ok (paid_by 1 3 500 overbooked)
unfolding resolve_overbooked str_uuid parse require_aware validate_payload numbered decimal
    link_payload payment
approved_here = refl

resolve_overbooked-Accepted_example :
    Accepted cfg desk around 1 4
      (some 3)
      is_overbooked
      (paid_by 1 3 500 overbooked)
      (with_row overbooked)
      (resolve_overbooked around to_approve (with_row overbooked)).1
resolve_overbooked-Accepted_example =
    resolve_overbooked-Accepted cfg desk around to_approve (paid_by 1 3 500 overbooked)
      (with_row overbooked) refl refl approved_here
