-- ===== src/Conversation/Calls.antt =====
-- The life of a link as a sequence of calls of the methods of ConversationLink.
use event_pro_backend.Prelude.{ℕ, ℤ, Option, Text, ◌≡◌}
use event_pro_backend.Method.{ok}
use event_pro_backend.Clock.{DateTime}
use event_pro_backend.Conversation.{
  ConversationLink, HandoffReason, create, register_handoff, assign, unassign, link_quote,
  link_client, record_client_message, mark_event_done, restart_lead_cycle,
}

pub data Call : Type 0 where
  handoff_call : HandoffReason → Option Text → DateTime → Call
  assign_call : ℕ → DateTime → Call
  unassign_call : DateTime → Call
  quote_call : Option ℕ → DateTime → Call
  client_call : ℕ → DateTime → Call
  message_call : DateTime → Call
  done_call : ℕ → DateTime → Call
  restart_call : DateTime → Call

-- The link after a call, whether the call returned or raised.
unfoldable pub after : Call → ConversationLink → ConversationLink
after (handoff_call reason summary at) l = (register_handoff reason summary at l).1
after (assign_call user at) l = (assign user at l).1
after (unassign_call at) l = (unassign at l).1
after (quote_call quote at) l = (link_quote quote at l).1
after (client_call client at) l = (link_client client at l).1
after (message_call at) l = (record_client_message at l).1
after (done_call user at) l = (mark_event_done user at l).1
after (restart_call at) l = (restart_lead_cycle at l).1

-- A link that was created, after any calls.
pub data Reachable : ConversationLink → Type 0 where
  created :
      {l : ConversationLink} (id : ℕ) (conversation : ℤ) (now : DateTime) (client : Option ℕ)
      → create id conversation now client ≡ ok l
      → Reachable l
  called : {l : ConversationLink} (c : Call) → Reachable l → Reachable (after c l)

-- `l` after any calls.
pub data Later (l : ConversationLink) : ConversationLink → Type 0 where
  same : Later l l
  more : {r : ConversationLink} (c : Call) → Later l r → Later l (after c r)
