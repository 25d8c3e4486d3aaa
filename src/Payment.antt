-- ===== src/Payment.antt =====
-- app/domain/entities/payment.py: the aggregate Payment. The proofs are in the modules below.
pub mod Calls
pub mod Invariant
pub mod Store
pub mod Refunds
pub mod Resolution
pub mod Examples
use event_pro_backend.Prelude.{
  ℕ, Bool, true, false, not, ◌&&◌, ◌||◌, Option, none, some, is_none, is_some, Text, strip, truthy,
  has_text, text_eq, pos, leb_ℤ, if◌then◌else◌,
}
use event_pro_backend.Method.{
  Result, ok, err, Method, lift, modify, raise_if, ◌>>=◌, ◌>>◌, validation, invalid_payment_state,
}
use event_pro_backend.Clock.{DateTime, naive, aware, require_aware}
use event_pro_backend.Money.{Money, pen}

pub data PaymentConcept : Type 0 where
  advance balance extension : PaymentConcept

pub data PaymentMethod : Type 0 where
  yape plin bank_transfer cash : PaymentMethod

pub data PaymentValidationStatus : Type 0 where
  pending_verification requires_manual_approval verified : PaymentValidationStatus
  rejected refund_pending refunded : PaymentValidationStatus

pub data PaymentAuditStatus : Type 0 where
  unreviewed reviewed flagged : PaymentAuditStatus

-- `created_at`, which no method reads, is left out.
pub record Payment : Type 0 where
  pub id : ℕ
  pub quote_id : ℕ
  pub concept : PaymentConcept
  pub payment_method : PaymentMethod
  pub amount : Money
  pub evidence_path : Text
  pub validation_status : PaymentValidationStatus
  pub audit_status : Option PaymentAuditStatus
  pub event_id : Option ℕ
  pub transaction_reference : Option Text
  pub rejection_reason : Option Text
  pub verified_by_user_id : Option ℕ
  pub verified_at : Option DateTime
  pub registered_by_user_id : Option ℕ
  pub audited_by_user_id : Option ℕ
  pub audited_at : Option DateTime
  pub audit_notes : Option Text

abbrev pub is_advance : PaymentConcept → Bool
is_advance advance = true
is_advance _ = false

abbrev pub is_verified : PaymentValidationStatus → Bool
is_verified verified = true
is_verified _ = false

abbrev pub is_pending : PaymentValidationStatus → Bool
is_pending pending_verification = true
is_pending _ = false

abbrev pub is_overbooked : PaymentValidationStatus → Bool
is_overbooked requires_manual_approval = true
is_overbooked _ = false

abbrev pub is_refund_pending : PaymentValidationStatus → Bool
is_refund_pending refund_pending = true
is_refund_pending _ = false

abbrev pub is_refunded : PaymentValidationStatus → Bool
is_refunded refunded = true
is_refunded _ = false

abbrev pub is_reviewed : PaymentAuditStatus → Bool
is_reviewed reviewed = true
is_reviewed _ = false

abbrev pub is_flagged : PaymentAuditStatus → Bool
is_flagged flagged = true
is_flagged _ = false

abbrev pub is_unreviewed : PaymentAuditStatus → Bool
is_unreviewed unreviewed = true
is_unreviewed _ = false

-- The checks that depend on the concept: those of ADVANCE, then those of the others.
pub advance_accepted : Payment → Bool
advance_accepted p =
    not (is_some p.audit_status)
    && not (
        is_some p.event_id
        && not (
            is_verified p.validation_status
            || is_refund_pending p.validation_status
            || is_refunded p.validation_status))
    && not (
        (is_verified p.validation_status || is_refunded p.validation_status)
        && is_none p.verified_by_user_id)

-- `self.transaction_reference is not None and not str(...).strip()`
pub blank_reference : Option Text → Bool
unfolding has_text
blank_reference none = false
blank_reference (some reference) = not (has_text reference)

pub show_accepted : Payment → Bool
unfolding blank_reference
show_accepted p =
    is_verified p.validation_status
    && not (is_none p.event_id || is_none p.registered_by_user_id)
    && is_some p.audit_status
    && not (is_some p.verified_by_user_id || is_some p.verified_at)
    && not (blank_reference p.transaction_reference)

abbrev pub audit_needs_date : Option PaymentAuditStatus → Bool
audit_needs_date (some reviewed) = true
audit_needs_date (some flagged) = true
audit_needs_date _ = false

abbrev pub is_naive : Option DateTime → Bool
is_naive (some (naive t)) = true
is_naive _ = false

-- The constructor, with the checks of `__post_init__`.
unfoldable pub payment : Payment → Result Payment
unfolding advance_accepted show_accepted has_text
payment p =
    if leb_ℤ p.amount.cents (pos 0)
    then err validation
    else if not (text_eq p.amount.currency pen)
    then err validation
    else if not (has_text p.evidence_path)
    then err validation
    else if not (if is_advance p.concept then advance_accepted p else show_accepted p)
    then err validation
    else if is_none p.audited_at && audit_needs_date p.audit_status
    then err validation
    else if is_naive p.audited_at
    then err validation
    else ok p

-- An instant with a time zone, kept in UTC.
abbrev pub stamp : ℕ → Option DateTime
stamp t = some (aware t)

unfoldable pub verify : ℕ → Option ℕ → DateTime → Method Payment (Unit {0})
unfolding require_aware
verify verified_by_user_id event_id verified_at = do
  raise_if (λ p. not (is_advance p.concept)) invalid_payment_state
  raise_if (λ p. not (is_pending p.validation_status)) invalid_payment_state
  instant ← lift (require_aware verified_at)
  modify (λ p. record p {
    validation_status = verified;
    verified_by_user_id = some verified_by_user_id;
    verified_at = stamp instant;
    event_id = event_id;
    rejection_reason = none;
  })

unfoldable pub require_manual_approval : Method Payment (Unit {0})
require_manual_approval = do
  raise_if
      (λ p.
        not (is_advance p.concept)
        || not (is_pending p.validation_status || is_overbooked p.validation_status))
      invalid_payment_state
  modify (λ p. record p { validation_status = requires_manual_approval })

unfoldable pub approve_overbooked : ℕ → Option ℕ → DateTime → Method Payment (Unit {0})
unfolding require_aware
approve_overbooked verified_by_user_id event_id approved_at = do
  raise_if (λ p. not (is_advance p.concept)) invalid_payment_state
  raise_if (λ p. not (is_overbooked p.validation_status)) invalid_payment_state
  instant ← lift (require_aware approved_at)
  modify (λ p. record p {
    validation_status = verified;
    verified_by_user_id = some verified_by_user_id;
    verified_at = stamp instant;
    event_id = event_id;
    rejection_reason = none;
  })

-- `rejected_at.astimezone(UTC)`: of a value with no time zone Python takes the machine's, so the
-- instant that it stands for is an argument, `local_time`.
abbrev pub to_utc : (ℕ → ℕ) → DateTime → ℕ
to_utc local_time (naive t) = local_time t
to_utc local_time (aware t) = t

unfoldable pub reject : (ℕ → ℕ) → Text → DateTime → Method Payment (Unit {0})
unfolding has_text
reject local_time reason rejected_at = do
  raise_if (λ p. not (is_advance p.concept)) invalid_payment_state
  raise_if (λ p. not (is_pending p.validation_status || is_overbooked p.validation_status))
      invalid_payment_state
  raise_if (λ _. not (has_text reason)) validation
  modify (λ p. record p { validation_status = rejected; rejection_reason = some (strip reason) })
  modify (λ p. record p { verified_at = stamp (to_utc local_time rejected_at) })

unfoldable pub mark_refund_pending : Method Payment (Unit {0})
mark_refund_pending = do
  raise_if (λ p. not (is_overbooked p.validation_status)) invalid_payment_state
  modify (λ p. record p { validation_status = refund_pending })

unfoldable pub confirm_refund : Method Payment (Unit {0})
confirm_refund = do
  raise_if (λ p. not (is_refund_pending p.validation_status)) invalid_payment_state
  modify (λ p. record p { validation_status = refunded })

-- `notes and notes.strip()`
pub has_notes : Option Text → Bool
unfolding has_text
has_notes none = false
has_notes (some notes) = truthy notes && has_text notes

-- `notes.strip() if notes else None`
pub kept_notes : Option Text → Option Text
kept_notes none = none
kept_notes (some notes) = if truthy notes then some (strip notes) else none

abbrev pub audit_is : (PaymentAuditStatus → Bool) → Payment → Bool
audit_is test p = elim p.audit_status [ none ↦ false | some s ↦ test s ]

-- The current time, `datetime.now(UTC)`, is an argument.
unfoldable pub audit : ℕ → ℕ → PaymentAuditStatus → Option Text → Method Payment (Unit {0})
unfolding has_notes kept_notes
audit now audited_by_user_id status notes = do
  raise_if (λ p. is_advance p.concept) invalid_payment_state
  raise_if (λ p. is_none p.audit_status) invalid_payment_state
  raise_if (audit_is is_reviewed) invalid_payment_state
  raise_if (λ _. is_flagged status && not (has_notes notes)) validation
  raise_if (λ p. audit_is is_flagged p && is_unreviewed status) invalid_payment_state
  modify (λ p. record p {
    audit_status = some status;
    audited_by_user_id = some audited_by_user_id;
    audited_at = stamp now;
    audit_notes = kept_notes notes;
  })
