-- ===== src/Approval/Accepting.antt =====
-- The calls that accept an advance: verify_payment.py and approve_overbooked_payment.py, from the row of the
-- payment on.
use event_pro_backend.Prelude.{
  ℕ, ◌≡◌, ap, sym, ◌∙◌, Bool, true, inl, inr, Option-cases, Option, some, arith,
}
use event_pro_backend.Method.{ok, Result-cases}
use event_pro_backend.Issuing.Rules.{Settings, Desk}
use event_pro_backend.Payment.{Payment, PaymentValidationStatus, is_pending, is_overbooked}
use event_pro_backend.Payment.Store.{get_by_id}
use event_pro_backend.Approval.{
  Around, Booking, get_payment, VerifyInput, verified_action, verify_for_event, verify_advance,
  verify_payment, OverbookedInput, approve_for_event, resolve_overbooked,
}
use event_pro_backend.Approval.Issues.{Backed, verify_for_event-Backed, approve_for_event-Backed}

-- A call that accepts the advance was given the event, and the payment that it read waited for the call.
pub record Accepted (cfg : Settings) (w : Desk) (a : Around) (user payment_id : ℕ)
    (event : Option ℕ) (waits : PaymentValidationStatus → Bool) (final : Payment)
    (before after : Booking) : Type 0 where
  pub event_id : ℕ
  pub is_given : event ≡ some event_id
  pub p : Payment
  pub is_read : (get_by_id payment_id before.payments).0 ≡ ok (some p)
  pub waited : waits p.validation_status ≡ true
  pub is_backed : Backed cfg w a user event_id p final after

read-cases :
    (id : ℕ) (b : Booking) (final : Payment)
    → (get_payment id b).0 ≡ ok final
    → ((get_by_id id b.payments).0 ≡ ok (some final)) × ((get_payment id b).1 ≡ b)
unfolding get_payment get_by_id
read-cases id b final h = elim (Result-cases (get_by_id id b.payments).0) [
  | inr (e, bad) ↦ ground (arith, h, bad)
  | inl (found, good) ↦ elim (Option-cases found) [
    | inl n ↦ ground (arith, h, good, n)
    | inr (p, is_p) ↦ ground (arith, h, good, is_p)
  ]
]

-- With an issuer of contracts, a call of VERIFIED that returns was given the event, for a payment of the
-- advance that was to be verified. It saves the payment VERIFIED by the user at the instant of the call, for
-- the event, with no reason of a refusal; and the contract of that event has been issued in the same
-- transaction, from an event that met the conditions of an issue with that payment already saved.
pub verify_payment-Accepted :
    (cfg : Settings) (w : Desk) (a : Around) (i : VerifyInput) (final : Payment) (b : Booking)
    → a.contracts ≡ some (cfg, w)
    → i.action ≡ verified_action
    → (verify_payment a i b).0 ≡ ok final
    → Accepted cfg w a i.verified_by_user_id i.payment_id i.event_id is_pending final b
        (verify_payment a i b).1
unfolding verify_payment verify_advance
verify_payment-Accepted cfg w a i final b c act h =
    elim (Result-cases (get_payment i.payment_id b).0) [
      | inr (e, bad) ↦ ground (arith, h, bad)
      | inl (p, found) ↦
          let (row, unchanged) = read-cases i.payment_id b p found in
          elim (Option-cases i.event_id) [
            | inl no_event ↦ ground (arith, h, act, c, found, no_event)
            | inr (event_id, given) ↦
                let runs : verify_payment a i b ≡ verify_for_event a i event_id p b =
                  ground (arith, act, found, unchanged, given) in
                let (backed, waited) =
                  verify_for_event-Backed cfg w a i event_id p final b c
                    (ap (λ x. x.0) (sym runs) ∙ h) in
                record {
                  event_id = event_id;
                  is_given = given;
                  p = p;
                  is_read = row;
                  waited = waited;
                  is_backed = rw runs backed;
                }
          ]
    ]

-- With an issuer of contracts, an approval of an overbooked payment that returns was given an event that
-- there is, for a payment of the advance that needed it. It saves the payment VERIFIED by the user at the
-- instant of the call, for the event; and the contract of that event has been issued in the same
-- transaction, from an event that met the conditions of an issue with that payment already saved.
pub resolve_overbooked-Accepted :
    (cfg : Settings) (w : Desk) (a : Around) (i : OverbookedInput) (final : Payment) (b : Booking)
    → a.contracts ≡ some (cfg, w)
    → i.approves ≡ true
    → (resolve_overbooked a i b).0 ≡ ok final
    → Accepted cfg w a i.decided_by_user_id i.payment_id i.event_id is_overbooked final b
        (resolve_overbooked a i b).1
unfolding resolve_overbooked
resolve_overbooked-Accepted cfg w a i final b c act h =
    elim (Result-cases (get_payment i.payment_id b).0) [
      | inr (e, bad) ↦ ground (arith, h, bad)
      | inl (p, found) ↦
          let (row, unchanged) = read-cases i.payment_id b p found in
          elim (Option-cases i.event_id) [
            | inl no_event ↦ ground (arith, h, act, found, no_event)
            | inr (event_id, given) ↦
                let runs : resolve_overbooked a i b ≡ approve_for_event a i event_id p b =
                  ground (arith, act, found, unchanged, given) in
                let (backed, waited, there) =
                  approve_for_event-Backed cfg w a i event_id p final b c
                    (ap (λ x. x.0) (sym runs) ∙ h) in
                record {
                  event_id = event_id;
                  is_given = given;
                  p = p;
                  is_read = row;
                  waited = waited;
                  is_backed = rw runs backed;
                }
          ]
    ]
