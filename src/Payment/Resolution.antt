-- ===== src/Payment/Resolution.antt =====
-- How the verification of a payment ends.
use event_pro_backend.Prelude.{
  ℕ, ◌≡◌, ◌⊎◌, inl, inr, refl, ◌∙◌, Bool, true, false, Option, Text, arith,
}
use event_pro_backend.Method.{Error, err}
use event_pro_backend.Clock.{DateTime}
use event_pro_backend.Payment.{
  Payment, PaymentValidationStatus, PaymentAuditStatus, verified, rejected, refunded, verify,
  require_manual_approval, approve_overbooked, reject, mark_refund_pending, confirm_refund, audit,
}
use event_pro_backend.Payment.Calls.{
  Call, verify_call, manual_call, approve_call, reject_call, refund_call, confirm_call, audit_call,
  after, ◌⟶◌, accept, overbook, approve, refuse, refuse_overbooked, give_back, given_back, ◌⟶*◌,
  here, then, Later, same, called,
}

ruleset edges = (accept, overbook, approve, refuse, refuse_overbooked, give_back, given_back)

after-⟶ :
    (c : Call) (p : Payment)
    → ((after c p).validation_status ≡ p.validation_status)
      ⊎ (p.validation_status ⟶ (after c p).validation_status)
unfolding after verify require_manual_approval approve_overbooked reject mark_refund_pending
    confirm_refund audit
after-⟶ (verify_call user event at) p = grind (arith, edges)
after-⟶ manual_call p = grind (arith, edges)
after-⟶ (approve_call user event at) p = grind (arith, edges)
after-⟶ (reject_call local_time reason at) p = grind (arith, edges)
after-⟶ refund_call p = grind (arith, edges)
after-⟶ confirm_call p = grind (arith, edges)
after-⟶ (audit_call now user status notes) p = ground arith

-- What no method of Payment changes.
pub record IsFrozen (p r : Payment) : Type 0 where
  pub id : r.id ≡ p.id
  pub quote : r.quote_id ≡ p.quote_id
  pub concept : r.concept ≡ p.concept
  pub amount : r.amount ≡ p.amount
  pub evidence : r.evidence_path ≡ p.evidence_path

after-IsFrozen : (c : Call) (p : Payment) → IsFrozen p (after c p)
unfolding after verify require_manual_approval approve_overbooked reject mark_refund_pending
    confirm_refund audit
after-IsFrozen (verify_call user event at) p = ground arith
after-IsFrozen manual_call p = ground arith
after-IsFrozen (approve_call user event at) p = ground arith
after-IsFrozen (reject_call local_time reason at) p = ground arith
after-IsFrozen refund_call p = ground arith
after-IsFrozen confirm_call p = ground arith
after-IsFrozen (audit_call now user status notes) p = ground arith

-- Whatever is called on a payment, with any arguments, calls that raise included, its validation
-- status moves along the transitions of the verification only, and its quote, its concept, its
-- amount and its evidence never change.
pub Later-validation :
    {p r : Payment} → Later p r → (p.validation_status ⟶* r.validation_status) × IsFrozen p r
Later-validation same =
    (here, record { id = refl; quote = refl; concept = refl; amount = refl; evidence = refl })
Later-validation (called {r = r} c l) =
    let (path, f) = Later-validation l in
    let g = after-IsFrozen c r in
    (
      elim (after-⟶ c r) [ inl stays ↦ rw stays path | inr moves ↦ then path moves ],
      record {
        id = g.id ∙ f.id;
        quote = g.quote ∙ f.quote;
        concept = g.concept ∙ f.concept;
        amount = g.amount ∙ f.amount;
        evidence = g.evidence ∙ f.evidence;
      },
    )

abbrev pub is_resolved : PaymentValidationStatus → Bool
is_resolved verified = true
is_resolved rejected = true
is_resolved refunded = true
is_resolved _ = false

after-resolved :
    (c : Call) (p : Payment)
    → is_resolved p.validation_status ≡ true
    → ((after c p).validation_status ≡ p.validation_status)
      × ((after c p).verified_by_user_id ≡ p.verified_by_user_id)
      × ((after c p).event_id ≡ p.event_id)
unfolding after verify require_manual_approval approve_overbooked reject mark_refund_pending
    confirm_refund audit
after-resolved (verify_call user event at) p h = ground arith
after-resolved manual_call p h = ground arith
after-resolved (approve_call user event at) p h = ground arith
after-resolved (reject_call local_time reason at) p h = ground arith
after-resolved refund_call p h = ground arith
after-resolved confirm_call p h = ground arith
after-resolved (audit_call now user status notes) p h = ground arith

-- A payment that is VERIFIED, REJECTED or REFUNDED keeps that status, the user who verified it and
-- its event, whatever is called on it: it is resolved once.
pub Later-resolved :
    {p r : Payment}
    → is_resolved p.validation_status ≡ true
    → Later p r
    → (r.validation_status ≡ p.validation_status)
      × (r.verified_by_user_id ≡ p.verified_by_user_id)
      × (r.event_id ≡ p.event_id)
Later-resolved h same = (refl, refl, refl)
Later-resolved {p} h (called {r = r} c l) =
    let (status, user, event) = Later-resolved h l in
    let (status', user', event') = after-resolved c r (rw status h) in
    (status' ∙ status, user' ∙ user, event' ∙ event)

-- Whatever a method of Payment raises, the payment is unchanged.
pub error_changes_no_payment :
    (p : Payment) (user now : ℕ) (event : Option ℕ) (at : DateTime) (local_time : ℕ → ℕ)
    (reason : Text) (status : PaymentAuditStatus) (notes : Option Text) (e : Error)
    → ((verify user event at p).0 ≡ err e → (verify user event at p).1 ≡ p)
      × ((require_manual_approval p).0 ≡ err e → (require_manual_approval p).1 ≡ p)
      × ((approve_overbooked user event at p).0 ≡ err e
          → (approve_overbooked user event at p).1 ≡ p)
      × ((reject local_time reason at p).0 ≡ err e → (reject local_time reason at p).1 ≡ p)
      × ((mark_refund_pending p).0 ≡ err e → (mark_refund_pending p).1 ≡ p)
      × ((confirm_refund p).0 ≡ err e → (confirm_refund p).1 ≡ p)
      × ((audit now user status notes p).0 ≡ err e → (audit now user status notes p).1 ≡ p)
unfolding verify require_manual_approval approve_overbooked reject mark_refund_pending
    confirm_refund audit
error_changes_no_payment p user now event at local_time reason status notes e = (
  ground arith,
  ground arith,
  ground arith,
  ground arith,
  ground arith,
  ground arith,
  ground arith,
)
