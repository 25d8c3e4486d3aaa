-- ===== src/Conversation/Examples.antt =====
-- Runs of a link, and its theorems at them.
use event_pro_backend.Prelude.{◌≡◌, refl, none, some, codes, pos}
use event_pro_backend.Method.{ok}
use event_pro_backend.Clock.{aware}
use event_pro_backend.Conversation.{ConversationLink, client_request, create}
use event_pro_backend.Conversation.Calls.{handoff_call, message_call, after, created, called}
use event_pro_backend.Conversation.Invariant.{IsWellFormed, Reachable-IsWellFormed}

abbrev link : ConversationLink
link = record {
  id = 3;
  chatwoot_conversation_id = pos 41;
  created_at = 100;
  updated_at = 100;
  client_id = none;
  quote_id = none;
  assigned_user_id = none;
  handoff_reason = none;
  handoff_summary = none;
  handed_off_at = none;
  last_client_message_at = none;
  event_done_at = none;
  event_done_by_user_id = none;
  lead_cycle_started_at = none;
}

link-create : create 3 (pos 41) (aware 100) none ≡ ok link
unfolding create
link-create = refl

abbrev handed : ConversationLink
handed = after (handoff_call client_request (some (codes "Pide una persona")) (aware 200)) link

Reachable-IsWellFormed_example : IsWellFormed handed
Reachable-IsWellFormed_example = Reachable-IsWellFormed (
    called (handoff_call client_request (some (codes "Pide una persona")) (aware 200))
      (created 3 (pos 41) (aware 100) none link-create))

abbrev late : ConversationLink
late = after (message_call (aware 150)) (after (message_call (aware 300)) link)
