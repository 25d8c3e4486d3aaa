-- ===== src/Approval.antt =====
-- Resolving the payment of an advance: verify_payment.py, approve_overbooked_payment.py and
-- audit_payment.py of app/application/use_cases/payment, over the payments and the store of the contracts,
-- in the transaction of the caller.
pub mod Issues
pub mod Accepting
mod Examples
use event_pro_backend.Prelude.{
  ℕ, Bool, true, false, not, Option, none, some, is_none, is_some, List, [], ◌∷◌, ◌++◌, Text,
  has_text, if◌then◌else◌,
}
use event_pro_backend.Method.{
  ok, Method, pure, raise, lift, raise_if, ◌>>=◌, ◌>>◌, validation, resource_not_found,
}
use event_pro_backend.Clock.{aware}
use event_pro_backend.Payment.{
  Payment, PaymentAuditStatus, unreviewed, verify, reject, approve_overbooked, mark_refund_pending,
  audit,
}
use event_pro_backend.Payment.Store.{Rows, get_by_id, save, call_entity}
use event_pro_backend.Contract.{Contract}
use event_pro_backend.Contract.Table.{Store}
use event_pro_backend.Issuing.Rules.{Settings, Desk, prepare_payment_event}
use event_pro_backend.Issuing.{issue_for_event}

pub data LogAction : Type 0 where
  approve_overbooked_payment reject_overbooked_payment audit_payment_action : LogAction

pub record LogEntry : Type 0 where
  pub action : LogAction
  pub entity_id : ℕ
  pub user_id : ℕ

pub record Booking : Type 0 where
  pub payments : Rows
  pub store : Store
  pub log : List LogEntry

-- The issuer of contracts, if there is one, the clock, the zone of the machine, and the store as its queries
-- sum up the payments that are saved.
pub record Around : Type 0 where
  pub contracts : Option (Settings × Desk)
  pub now : ℕ
  pub local_time : ℕ → ℕ
  pub sums : Rows → Store → Store

module _ {A : Type 0} where
  abbrev pub on_payments : Method Rows A → Method Booking A
  on_payments m b = let (r, rows) = m b.payments in (r, record b { payments = rows })

  abbrev pub on_store : Around → Method Store A → Method Booking A
  on_store a m b = let (r, s) = m (a.sums b.payments b.store) in (r, record b { store = s })

abbrev pub or_not_found : Option Payment → Method Booking Payment
or_not_found none = raise resource_not_found
or_not_found (some p) = pure p

unfoldable pub get_payment : ℕ → Method Booking Payment
unfolding get_by_id
get_payment id = do found ← on_payments (get_by_id id); or_not_found found

-- `prepare_payment_event` of the issuer, for the event that is given
unfoldable pub prepare : Around → ℕ → ℕ → Method Booking (Unit {0})
unfolding prepare_payment_event
prepare a event_id quote_id = elim a.contracts [
  | none ↦ pure tt
  | some (cfg, w) ↦ on_store a (prepare_payment_event w event_id quote_id)
]

-- `issue_for_event` of the issuer, if there is one
unfoldable pub issue : Around → ℕ → ℕ → Method Booking (Option Contract)
unfolding issue_for_event
issue a event_id user_id = elim a.contracts [
  | none ↦ pure none
  | some (cfg, w) ↦ do k ← on_store a (issue_for_event cfg w event_id (some user_id)); pure (some k)
]

unfoldable pub record_log : LogAction → ℕ → ℕ → Method Booking (Unit {0})
record_log action id user_id b = (
  ok tt,
  record b { log = b.log ++ (record { action = action; entity_id = id; user_id = user_id } ∷ []) },
)

-- `dto.action.upper()`
pub data Verdict : Type 0 where
  verified_action rejected_action other_action : Verdict

pub record VerifyInput : Type 0 where
  pub payment_id : ℕ
  pub action : Verdict
  pub event_id : Option ℕ
  pub verified_by_user_id : ℕ
  pub rejection_reason : Option Text

-- The event, without which no contract can be issued.
unfoldable pub verify_for_event : Around → VerifyInput → ℕ → Payment → Method Booking Payment
unfolding prepare issue verify save
verify_for_event a i event_id p = do
  prepare a event_id p.quote_id
  checked ← lift (call_entity (verify i.verified_by_user_id (some event_id) (aware a.now) p))
  on_payments (save checked)
  issue a event_id i.verified_by_user_id
  pure checked

-- The branch of VERIFIED
unfoldable pub verify_advance : Around → VerifyInput → Payment → Method Booking Payment
unfolding verify_for_event verify save
verify_advance a i p = elim i.event_id [
  | some event_id ↦ verify_for_event a i event_id p
  | none ↦ if is_some a.contracts then raise validation else (do
    checked ← lift (call_entity (verify i.verified_by_user_id none (aware a.now) p))
    on_payments (save checked)
    pure checked)
]

-- The branch of REJECTED
unfoldable pub reject_advance : Around → VerifyInput → Payment → Method Booking Payment
unfolding reject save has_text
reject_advance a i p = elim i.rejection_reason [
  | none ↦ raise validation
  | some reason ↦ if not (has_text reason) then raise validation else (do
    refused ← lift (call_entity (reject a.local_time reason (aware a.now) p))
    on_payments (save refused)
    pure refused)
]

-- `VerifyPaymentUseCase.execute`; the answer is read off the payment.
unfoldable pub verify_payment : Around → VerifyInput → Method Booking Payment
unfolding get_payment verify_advance reject_advance
verify_payment a i = do
  p ← get_payment i.payment_id
  elim i.action [
    | verified_action ↦ verify_advance a i p
    | rejected_action ↦ reject_advance a i p
    | other_action ↦ raise validation
  ]

pub record OverbookedInput : Type 0 where
  pub payment_id : ℕ
  pub approves : Bool
  pub event_id : Option ℕ
  pub decided_by_user_id : ℕ

-- `self._events.get_by_id_for_update(dto.event_id) is None`
abbrev pub event_missing : Around → ℕ → Booking → Bool
event_missing a event_id b = is_none ((a.sums b.payments b.store).events event_id)

-- The branch of APPROVE
unfoldable pub approve_for_event : Around → OverbookedInput → ℕ → Payment → Method Booking Payment
unfolding prepare issue approve_overbooked save record_log
approve_for_event a i event_id p = do
  raise_if (event_missing a event_id) resource_not_found
  prepare a event_id p.quote_id
  approved ←
      lift (call_entity (approve_overbooked i.decided_by_user_id (some event_id) (aware a.now) p))
  on_payments (save approved)
  issue a event_id i.decided_by_user_id
  record_log approve_overbooked_payment approved.id i.decided_by_user_id
  pure approved

-- `ApproveOverbookedPaymentUseCase.execute`
unfoldable pub resolve_overbooked : Around → OverbookedInput → Method Booking Payment
unfolding get_payment approve_for_event mark_refund_pending save record_log
resolve_overbooked a i = do
  p ← get_payment i.payment_id
  if i.approves
      then elim i.event_id [
        | none ↦ raise validation
        | some event_id ↦ approve_for_event a i event_id p
      ]
      else (do
        refunding ← lift (call_entity (mark_refund_pending p))
        on_payments (save refunding)
        record_log reject_overbooked_payment refunding.id i.decided_by_user_id
        pure refunding)

abbrev pub is_unreviewed : PaymentAuditStatus → Bool
is_unreviewed unreviewed = true
is_unreviewed _ = false

-- `AuditPaymentUseCase.execute`
unfoldable pub audit_payment :
    Around → ℕ → ℕ → PaymentAuditStatus → Option Text → Method Booking Payment
unfolding get_payment audit save record_log
audit_payment a payment_id user_id status notes = do
  p ← get_payment payment_id
  raise_if (λ b. is_unreviewed status) validation
  audited ← lift (call_entity (audit a.now user_id status notes p))
  on_payments (save audited)
  record_log audit_payment_action audited.id user_id
  pure audited
