-- ===== src/Conversation.antt =====
-- app/domain/entities/conversation_link.py: the aggregate ConversationLink. The proofs are in the
-- modules below.
pub mod Calls
pub mod Invariant
mod Examples
use event_pro_backend.Prelude.{
  ℕ, ltb, max, Option, none, some, is_none, is_some, take, Text, strip, truthy, ℤ, pos, ltb_ℤ,
  if◌then◌else◌,
}
use event_pro_backend.Method.{
  Result, ok, err, and_then, Method, pure, lift, gets, modify, ◌>>=◌, ◌>>◌, validation,
}
use event_pro_backend.Clock.{DateTime, require_aware}

abbrev pub summary_max_length : ℕ
summary_max_length = 4000

pub data HandoffReason : Type 0 where
  client_request bot_not_understood manual_takeover bot_error : HandoffReason

pub record ConversationLink : Type 0 where
  pub id : ℕ
  pub chatwoot_conversation_id : ℤ
  pub created_at : ℕ
  pub updated_at : ℕ
  pub client_id : Option ℕ
  pub quote_id : Option ℕ
  pub assigned_user_id : Option ℕ
  pub handoff_reason : Option HandoffReason
  pub handoff_summary : Option Text
  pub handed_off_at : Option ℕ
  pub last_client_message_at : Option ℕ
  pub event_done_at : Option ℕ
  pub event_done_by_user_id : Option ℕ
  pub lead_cycle_started_at : Option ℕ

-- `ConversationLink.create`; `id` is the fresh `uuid4()`.
unfoldable pub create : ℕ → ℤ → DateTime → Option ℕ → Result ConversationLink
unfolding require_aware
create id chatwoot_conversation_id now client_id =
    if ltb_ℤ chatwoot_conversation_id (pos 1)
    then err validation
    else and_then (require_aware now) λ moment. ok (record {
      id = id;
      chatwoot_conversation_id = chatwoot_conversation_id;
      created_at = moment;
      updated_at = moment;
      client_id = client_id;
      quote_id = none;
      assigned_user_id = none;
      handoff_reason = none;
      handoff_summary = none;
      handed_off_at = none;
      last_client_message_at = none;
      event_done_at = none;
      event_done_by_user_id = none;
      lead_cycle_started_at = none;
    })

-- `_clip_summary`: a blank summary is none.
unfoldable pub clip_summary : Option Text → Option Text
clip_summary none = none
clip_summary (some summary) =
    let cut = take summary_max_length (strip summary) in if truthy cut then some cut else none

unfoldable pub register_handoff :
    HandoffReason → Option Text → DateTime → Method ConversationLink (Unit {0})
unfolding require_aware clip_summary
register_handoff reason summary at = do
  moment ← lift (require_aware at)
  modify (λ l. record l {
    handoff_reason = some reason;
    handoff_summary = clip_summary summary;
    handed_off_at = some moment;
    updated_at = moment;
  })

-- `self.updated_at = _require_aware(at, "at")`
abbrev pub touch : DateTime → Method ConversationLink (Unit {0})
touch at = do moment ← lift (require_aware at); modify (λ l. record l { updated_at = moment })

unfoldable pub assign : ℕ → DateTime → Method ConversationLink (Unit {0})
unfolding require_aware
assign user_id at = do modify (λ l. record l { assigned_user_id = some user_id }); touch at

unfoldable pub unassign : DateTime → Method ConversationLink (Unit {0})
unfolding require_aware
unassign at = do modify (λ l. record l { assigned_user_id = none }); touch at

unfoldable pub link_quote : Option ℕ → DateTime → Method ConversationLink (Unit {0})
unfolding require_aware
link_quote quote_id at = do modify (λ l. record l { quote_id = quote_id }); touch at

unfoldable pub link_client : ℕ → DateTime → Method ConversationLink (Unit {0})
unfolding require_aware
link_client client_id at = do
  current ← gets (λ l. l.client_id)
  if is_none current
      then (do modify (λ l. record l { client_id = some client_id }); touch at)
      else pure tt

-- `self.last_client_message_at is None or moment > self.last_client_message_at`
abbrev pub latest : ℕ → Option ℕ → Option ℕ
latest moment none = some moment
latest moment (some t) = if ltb t moment then some moment else some t

unfoldable pub record_client_message : DateTime → Method ConversationLink (Unit {0})
unfolding require_aware
record_client_message at = do
  moment ← lift (require_aware at)
  modify (λ l. record l { last_client_message_at = latest moment l.last_client_message_at })
  modify (λ l. record l { updated_at = max l.updated_at moment })

unfoldable pub mark_event_done : ℕ → DateTime → Method ConversationLink (Unit {0})
unfolding require_aware
mark_event_done user_id at = do
  done ← gets (λ l. l.event_done_at)
  if is_some done then pure tt else (do
    moment ← lift (require_aware at)
    modify (λ l. record l {
      event_done_at = some moment;
      event_done_by_user_id = some user_id;
      updated_at = moment;
    }))

unfoldable pub restart_lead_cycle : DateTime → Method ConversationLink (Unit {0})
unfolding require_aware
restart_lead_cycle at = do
  moment ← lift (require_aware at)
  modify (λ l. record l {
    lead_cycle_started_at = some moment;
    event_done_at = none;
    event_done_by_user_id = none;
    quote_id = none;
    updated_at = moment;
  })
