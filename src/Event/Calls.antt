-- ===== src/Event/Calls.antt =====
-- The life of an event as a sequence of calls of the methods of Event.
use event_pro_backend.Prelude.{ℕ, ℤ, ◌≡◌, true}
use event_pro_backend.Method.{ok}
use event_pro_backend.Clock.{DateTime}
use event_pro_backend.Money.{Money}
use event_pro_backend.Event.{
  Event, EventStatus, in_progress, extended, settled, event, may_start, is_operating, start, extend,
  settle,
}

pub data Call : Type 0 where
  start_call : Money → DateTime → Call
  extend_call : ℕ → ℤ → Money → ℕ → DateTime → Call
  settle_call : Money → ℤ → Call

-- The event after a call, whether the call returned or raised.
unfoldable pub after : Call → Event → Event
after (start_call amount at) e = (start amount at e).1
after (extend_call id minutes rate payment at) e = (extend id minutes rate payment at e).1
after (settle_call amount minutes) e = (settle amount minutes e).1

-- What `__post_init__` accepts.
abbrev pub IsAccepted : Event → Type 0
IsAccepted e = event e ≡ ok e

-- The transitions that the methods make.
infix 40 ◌⟶◌ ◌⟶*◌
pub data ◌⟶◌ : EventStatus → EventStatus → Type 0 where
  begin : {s : EventStatus} → may_start s ≡ true → s ⟶ in_progress
  prolong : {s : EventStatus} → is_operating s ≡ true → s ⟶ extended
  close : {s : EventStatus} → is_operating s ≡ true → s ⟶ settled

pub data ◌⟶*◌ : EventStatus → EventStatus → Type 0 where
  here : {s : EventStatus} → s ⟶* s
  then : {s t u : EventStatus} → s ⟶* t → t ⟶ u → s ⟶* u

-- `e` after any calls.
pub data Later (e : Event) : Event → Type 0 where
  same : Later e e
  called : {r : Event} (c : Call) → Later e r → Later e (after c r)
