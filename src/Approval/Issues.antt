-- ===== src/Approval/Issues.antt =====
-- An advance that is verified, and the contract that is issued for it.
use event_pro_backend.Prelude.{
  ℕ, ◌==◌, ◌≡◌, ap, sym, ◌∙◌, true, false, inl, inr, Bool-cases, Option-cases, Option, none, some,
  arith, if◌then◌else◌,
}
use event_pro_backend.Method.{ok, Result-cases}
use event_pro_backend.Clock.{aware, require_aware}
use event_pro_backend.Contract.{Contract}
use event_pro_backend.Issuing.Rules.{Settings, Desk}
use event_pro_backend.Issuing.{issue_for_event}
use event_pro_backend.Issuing.Outcome.{Issued, issue_for_event-Issued}
use event_pro_backend.Payment.{
  Payment, verified, verify, approve_overbooked, is_advance, is_pending, is_overbooked, stamp,
}
use event_pro_backend.Payment.Store.{call_entity, save}
use event_pro_backend.Approval.{
  Around, Booking, prepare, issue, VerifyInput, verify_for_event, OverbookedInput,
  approve_for_event, event_missing, record_log,
}

abbrev pub paid_by : ℕ → ℕ → ℕ → Payment → Payment
paid_by user event_id now p = record p {
  validation_status = verified;
  verified_by_user_id = some user;
  verified_at = stamp now;
  event_id = some event_id;
  rejection_reason = none;
}

-- The payment of the advance is saved verified, for the event, and the contract of the event was issued by
-- the transaction, from what its queries see then.
pub record Backed (cfg : Settings) (w : Desk) (a : Around) (user event_id : ℕ) (p final : Payment)
    (after : Booking) : Type 0 where
  pub was_advance : is_advance p.concept ≡ true
  pub is_verified : final ≡ paid_by user event_id a.now p
  pub before_issue : Booking
  pub contract : Contract
  pub issued :
      Issued cfg w event_id
        (some user)
        (a.sums before_issue.payments before_issue.store)
        after.store
        contract
  pub is_saved : before_issue.payments p.id ≡ some final
  pub same_payments : after.payments ≡ before_issue.payments

issue-Issued :
    (cfg : Settings) (w : Desk) (a : Around) (event_id user : ℕ) (b : Booking) (r : Option Contract)
    → a.contracts ≡ some (cfg, w)
    → (issue a event_id user b).0 ≡ ok r
    → (k : Contract) × Issued cfg w event_id
        (some user)
        (a.sums b.payments b.store)
        (issue a event_id user b).1.store
        k
      × ((issue a event_id user b).1.payments ≡ b.payments)
unfolding issue
issue-Issued cfg w a event_id user b r c h =
    let s = a.sums b.payments b.store in
    elim (Result-cases (issue_for_event cfg w event_id (some user) s).0) [
      | inr (e, bad) ↦ ground (arith, h, c, bad)
      | inl (k, good) ↦
          let stored : (issue a event_id user b).1.store
              ≡ (issue_for_event cfg w event_id (some user) s).1 =
            ground (arith, c, good) in
          (
            k,
            rw stored (issue_for_event-Issued cfg w event_id (some user) s k good),
            ground (arith, c, good),
          )
    ]

verify-paid :
    (user event_id now : ℕ) (p final : Payment)
    → call_entity (verify user (some event_id) (aware now) p) ≡ ok final
    → (is_advance p.concept ≡ true)
      × (is_pending p.validation_status ≡ true)
      × (final ≡ paid_by user event_id now p)
unfolding verify require_aware
verify-paid user event_id now p final h = ground arith

approve-paid :
    (user event_id now : ℕ) (p final : Payment)
    → call_entity (approve_overbooked user (some event_id) (aware now) p) ≡ ok final
    → (is_advance p.concept ≡ true)
      × (is_overbooked p.validation_status ≡ true)
      × (final ≡ paid_by user event_id now p)
unfolding approve_overbooked require_aware
approve-paid user event_id now p final h = ground arith

prepare-payments :
    (a : Around) (event_id quote_id : ℕ) (b : Booking)
    → (prepare a event_id quote_id b).1.payments ≡ b.payments
unfolding prepare
prepare-payments a event_id quote_id b = elim (Option-cases a.contracts) [
  | inl n ↦ ground (arith, n)
  | inr ((cfg, w), c) ↦ ground (arith, c)
]

pub verify_for_event-Backed :
    (cfg : Settings) (w : Desk) (a : Around) (i : VerifyInput) (event_id : ℕ) (p final : Payment)
    (b : Booking)
    → a.contracts ≡ some (cfg, w)
    → (verify_for_event a i event_id p b).0 ≡ ok final
    → Backed cfg w a i.verified_by_user_id event_id p final (verify_for_event a i event_id p b).1
      × (is_pending p.validation_status ≡ true)
unfolding verify_for_event save
verify_for_event-Backed cfg w a i event_id p final b c h =
    let user = i.verified_by_user_id in
    let b1 = (prepare a event_id p.quote_id b).1 in
    elim (Result-cases (prepare a event_id p.quote_id b).0) [
      | inr (e, bad) ↦ ground (arith, h, bad)
      | inl (_, ready) ↦
          elim (Result-cases (call_entity (verify user (some event_id) (aware a.now) p))) [
            | inr (e, bad) ↦ ground (arith, h, ready, bad)
            | inl (paid, good) ↦
                let b2 : Booking = record b1 {
                  payments = λ id. if id == paid.id then some paid else b1.payments id;
                } in
                elim (Result-cases (issue a event_id user b2).0) [
                  | inr (e, bad) ↦ ground (arith, h, ready, good, bad)
                  | inl (r, done) ↦
                      let (adv, pend, is_paid) = verify-paid user event_id a.now p paid good in
                      let (k, issued, kept) = issue-Issued cfg w a event_id user b2 r c done in
                      let same : final ≡ paid = ground (arith, h, ready, good, done) in
                      let after : (verify_for_event a i event_id p b).1
                          ≡ (issue a event_id user b2).1 =
                        ground (arith, ready, good, done) in
                      let number : p.id ≡ paid.id = sym (ap (λ x. x.id) is_paid) in
                      let found : (p.id == paid.id) ≡ true = ground (arith, number) in
                      (
                        record {
                          was_advance = adv;
                          is_verified = same ∙ is_paid;
                          before_issue = b2;
                          contract = k;
                          issued = rw after issued;
                          is_saved = ground (arith, found, same);
                          same_payments = ap (λ x. x.payments) after ∙ kept;
                        },
                        pend,
                      )
                ]
          ]
    ]

pub approve_for_event-Backed :
    (cfg : Settings) (w : Desk) (a : Around) (i : OverbookedInput) (event_id : ℕ)
    (p final : Payment) (b : Booking)
    → a.contracts ≡ some (cfg, w)
    → (approve_for_event a i event_id p b).0 ≡ ok final
    → Backed cfg w a i.decided_by_user_id event_id p final (approve_for_event a i event_id p b).1
      × (is_overbooked p.validation_status ≡ true)
      × (event_missing a event_id b ≡ false)
unfolding approve_for_event save record_log
approve_for_event-Backed cfg w a i event_id p final b c h =
    let user = i.decided_by_user_id in
    let b1 = (prepare a event_id p.quote_id b).1 in
    elim (Bool-cases (event_missing a event_id b)) [
      | inl gone ↦ ground (arith, h, gone)
      | inr there ↦ elim (Result-cases (prepare a event_id p.quote_id b).0) [
        | inr (e, bad) ↦ ground (arith, h, there, bad)
        | inl (_, ready) ↦
            elim (Result-cases
              (call_entity (approve_overbooked user (some event_id) (aware a.now) p))) [
                | inr (e, bad) ↦ ground (arith, h, there, ready, bad)
                | inl (paid, good) ↦
                    let b2 : Booking = record b1 {
                      payments = λ id. if id == paid.id then some paid else b1.payments id;
                    } in
                    elim (Result-cases (issue a event_id user b2).0) [
                      | inr (e, bad) ↦ ground (arith, h, there, ready, good, bad)
                      | inl (r, done) ↦
                          let (adv, over, is_paid) = approve-paid user event_id a.now p paid good in
                          let (k, issued, kept) = issue-Issued cfg w a event_id user b2 r c done in
                          let same : final ≡ paid = ground (arith, h, there, ready, good, done) in
                          let store : (approve_for_event a i event_id p b).1.store
                              ≡ (issue a event_id user b2).1.store =
                            ground (arith, there, ready, good, done) in
                          let payments : (approve_for_event a i event_id p b).1.payments
                              ≡ (issue a event_id user b2).1.payments =
                            ground (arith, there, ready, good, done) in
                          let number : p.id ≡ paid.id = sym (ap (λ x. x.id) is_paid) in
                          let found : (p.id == paid.id) ≡ true = ground (arith, number) in
                          (
                            record {
                              was_advance = adv;
                              is_verified = same ∙ is_paid;
                              before_issue = b2;
                              contract = k;
                              issued = rw store issued;
                              is_saved = ground (arith, found, same);
                              same_payments = payments ∙ kept;
                            },
                            over,
                            there,
                          )
                    ]
              ]
      ]
    ]
