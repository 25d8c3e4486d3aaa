-- ===== src/Conversation/Invariant.antt =====
-- The invariants of a link.
use event_pro_backend.Prelude.{
  ℕ, ℤ, suc, ◌≤◌, ◌≡◌, true, Option, none, some, is_some, Text, length, strip, take, length-take,
  truthy, arith, pos, ◌≤ℤ◌, Bool-cases, if◌then◌else◌, inl, inr,
}
use event_pro_backend.Method.{ok}
use event_pro_backend.Clock.{DateTime}
use event_pro_backend.Conversation.{
  ConversationLink, create, clip_summary, register_handoff, assign, unassign, link_quote,
  link_client, record_client_message, mark_event_done, restart_lead_cycle, summary_max_length,
}
use event_pro_backend.Conversation.Calls.{
  Call, handoff_call, assign_call, unassign_call, quote_call, client_call, message_call, done_call,
  restart_call, after, Reachable, created, called, Later, same, more,
}

-- A summary is not empty and has at most 4000 characters.
abbrev pub IsShort : Option Text → Type 0
IsShort none = Unit
IsShort (some s) = (truthy s ≡ true) × (length s ≤ 4000)

kept-IsShort : (cut : Text) → length cut ≤ 4000 → IsShort (if truthy cut then some cut else none)
kept-IsShort cut h = elim (Bool-cases (truthy cut)) [ inl b ↦ rw b (b, h) | inr b ↦ rw b tt ]

clip_summary-IsShort : (s : Option Text) → IsShort (clip_summary s)
unfolding clip_summary
clip_summary-IsShort none = tt
clip_summary-IsShort (some s) =
    kept-IsShort (take summary_max_length (strip s))
      (omega (arith, length-take summary_max_length (strip s)))

pub record IsWellFormed (l : ConversationLink) : Type 0 where
  pub positive : pos 1 ≤ℤ l.chatwoot_conversation_id
  pub done_together : is_some l.event_done_at ≡ is_some l.event_done_by_user_id
  pub handoff_together : is_some l.handoff_reason ≡ is_some l.handed_off_at
  pub short_summary : IsShort l.handoff_summary

after-IsWellFormed : (c : Call) (l : ConversationLink) → IsWellFormed l → IsWellFormed (after c l)
unfolding after register_handoff assign unassign link_quote link_client record_client_message
    mark_event_done restart_lead_cycle
after-IsWellFormed (handoff_call reason summary at) l h =
    ground (arith, h, clip_summary-IsShort summary)
after-IsWellFormed (assign_call user at) l h = ground (arith, h)
after-IsWellFormed (unassign_call at) l h = ground (arith, h)
after-IsWellFormed (quote_call quote at) l h = ground (arith, h)
after-IsWellFormed (client_call client at) l h = ground (arith, h)
after-IsWellFormed (message_call at) l h = ground (arith, h)
after-IsWellFormed (done_call user at) l h = ground (arith, h)
after-IsWellFormed (restart_call at) l h = ground (arith, h)

create-IsWellFormed :
    (id : ℕ) (conversation : ℤ) (now : DateTime) (client : Option ℕ) (l : ConversationLink)
    → create id conversation now client ≡ ok l
    → IsWellFormed l
unfolding create
create-IsWellFormed id conversation now client l h = ground arith

-- Every link that `create` returns, after any sequence of calls of its methods, those that raise included:
-- the conversation has a positive number, the mark of a done event has its instant exactly if
-- it has its user, the last handoff has its reason exactly if it has its instant, and its summary, if
-- there is one, is not empty and has at most 4000 characters.
pub Reachable-IsWellFormed : {l : ConversationLink} → Reachable l → IsWellFormed l
Reachable-IsWellFormed (created {l} id conversation now client h) =
    create-IsWellFormed id conversation now client l h
Reachable-IsWellFormed (called {l} c r) = after-IsWellFormed c l (Reachable-IsWellFormed r)

-- None before any instant.
abbrev pub order_of : Option ℕ → ℕ
order_of none = 0
order_of (some t) = suc t

pub record IsKept (l r : ConversationLink) : Type 0 where
  pub same_id : r.id ≡ l.id
  pub same_conversation : r.chatwoot_conversation_id ≡ l.chatwoot_conversation_id
  pub same_creation : r.created_at ≡ l.created_at
  pub same_client : is_some l.client_id ≡ true → r.client_id ≡ l.client_id
  pub not_back : order_of l.last_client_message_at ≤ order_of r.last_client_message_at

after-IsKept : (c : Call) (l : ConversationLink) → IsKept l (after c l)
unfolding after register_handoff assign unassign link_quote link_client record_client_message
    mark_event_done restart_lead_cycle
after-IsKept (handoff_call reason summary at) l = ground arith
after-IsKept (assign_call user at) l = ground arith
after-IsKept (unassign_call at) l = ground arith
after-IsKept (quote_call quote at) l = ground arith
after-IsKept (client_call client at) l = ground arith
after-IsKept (message_call at) l = ground arith
after-IsKept (done_call user at) l = ground arith
after-IsKept (restart_call at) l = ground arith

IsKept-trans : (l r s : ConversationLink) → IsKept l r → IsKept r s → IsKept l s
IsKept-trans l r s h k = ground (arith, h, k)

-- Whatever is called on a link, calls that raise included: its id, its conversation and its creation
-- never change, a linked client is never replaced or removed, and the instant of the last message
-- of the client never goes back, also if the messages arrive out of order.
pub Later-IsKept : {l r : ConversationLink} → Later l r → IsKept l r
Later-IsKept {l} same = ground arith
Later-IsKept {l} (more {r} c k) = IsKept-trans l r (after c r) (Later-IsKept k) (after-IsKept c r)
