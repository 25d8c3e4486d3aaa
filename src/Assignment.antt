-- ===== src/Assignment.antt =====
-- app/application/use_cases/messaging/conversation_assignment.py: taking a conversation and giving it back
-- to the bot, over the table of links with its compare-and-set.
pub mod Race
pub mod Undo
pub mod Release
mod Examples
use event_pro_backend.Prelude.{
  ℕ, ◌==◌, Bool, true, false, not, ◌&&◌, Option, none, some, pos, if◌then◌else◌,
}
use event_pro_backend.Method.{Result, ok, err, conversation_taken_by_other, conversation_not_taken}
use event_pro_backend.Clock.{aware}
use event_pro_backend.Conversation.{ConversationLink, manual_takeover, register_handoff}

-- The table of links: the number of a conversation is unique.
abbrev pub Links : Type 0
Links = ℕ → Option ConversationLink

pub data Role : Type 0 where
  superadmin encargado operador : Role

pub data ConversationLifecycle : Type 0 where
  pending opened resolved : ConversationLifecycle

-- What a command meets: the answers of Chatwoot, what other commands commit meanwhile, the time and a
-- fresh id.
pub record Around : Type 0 where
  pub summary : Result ConversationLifecycle
  pub status_set : Result (Unit {0})
  pub before_claim : Links → Links
  pub while_called : Links → Links
  pub before_handoff : Links → Links
  pub now : ℕ
  pub fresh : ℕ

abbrev pub is_open : ConversationLifecycle → Bool
is_open opened = true
is_open _ = false

abbrev pub is_superadmin : Role → Bool
is_superadmin superadmin = true
is_superadmin _ = false

abbrev pub same_user : Option ℕ → Option ℕ → Bool
same_user none none = true
same_user (some a) (some b) = a == b
same_user _ _ = false

-- `holder not in (None, user_id)`
abbrev pub is_other : ℕ → Option ℕ → Bool
is_other user none = false
is_other user (some holder) = not (holder == user)

abbrev pub holder_of : Option ConversationLink → Option ℕ
holder_of none = none
holder_of (some l) = l.assigned_user_id

abbrev pub put : ℕ → ConversationLink → Links → Links
put conversation l links c = if c == conversation then some l else links c

abbrev pub empty_link : ℕ → ℕ → ℕ → ConversationLink
empty_link id conversation now = record {
  id = id;
  chatwoot_conversation_id = pos conversation;
  created_at = now;
  updated_at = now;
  client_id = none;
  quote_id = none;
  assigned_user_id = none;
  handoff_reason = none;
  handoff_summary = none;
  handed_off_at = none;
  last_client_message_at = none;
  event_done_at = none;
  event_done_by_user_id = none;
  lead_cycle_started_at = none;
}

-- `ensure` without a client: inserts the link, unless there is one.
unfoldable pub ensure : Around → ℕ → Links → Links
ensure a conversation links = elim (links conversation) [
  | none ↦ put conversation (empty_link a.fresh conversation a.now) links
  | some l ↦ links
]

-- `_compare_and_set`: one statement.
unfoldable pub compare_and_set : ℕ → Option ℕ → Option ℕ → ℕ → Links → Bool × Links
compare_and_set conversation new expected now links = elim (links conversation) [
  | none ↦ (false, links)
  | some l ↦
      if same_user l.assigned_user_id expected
      then (true, put conversation (record l { assigned_user_id = new; updated_at = now }) links)
      else (false, links)
]

-- `apply_conversation_link_to_model`: all but the assignment.
abbrev pub save : ℕ → ConversationLink → ConversationLink → Links → Links
save conversation row l links =
    put conversation (record l { assigned_user_id = row.assigned_user_id }) links

-- The end of the first transaction: nothing to do, or claimed from a holder.
pub data Claim : Type 0 where
  already : Claim
  claimed_from : Option ℕ → Claim

-- The first transaction. Where it raises, its own insertion is undone.
unfoldable pub claim : Around → ℕ → ℕ → Role → Bool → Links → Result Claim × Links
unfolding ensure compare_and_set
claim a conversation user role was_open links =
    let ensured = ensure a conversation links in
    let holder = holder_of (ensured conversation) in
    let (won, after) =
      compare_and_set conversation (some user) holder a.now (a.before_claim ensured) in
    if same_user holder (some user) && was_open
    then (ok already, ensured)
    else if is_other user holder && not (is_superadmin role)
    then (err conversation_taken_by_other, links)
    else if won
    then (ok (claimed_from holder), after)
    else (err conversation_taken_by_other, a.before_claim links)

-- The compensation of `_reopen`.
unfoldable pub undo : Around → ℕ → ℕ → Option ℕ → Links → Links
unfolding compare_and_set
undo a conversation user holder links =
    if is_other user holder
    then (compare_and_set conversation holder (some user) a.now links).1
    else (compare_and_set conversation none (some user) a.now links).1

-- `_register_manual_handoff`
unfoldable pub register_manual_handoff : Around → ℕ → Links → Links
unfolding register_handoff
register_manual_handoff a conversation links = elim (links conversation) [
  | none ↦ links
  | some l ↦ save conversation l (register_handoff manual_takeover none (aware a.now) l).1 links
]

-- `TakeoverConversation.execute`; the view is its life cycle. The audit, the session of the bot and the
-- notice to the inbox write nothing here.
unfoldable pub takeover : Around → ℕ → ℕ → Role → Links → Result ConversationLifecycle × Links
unfolding claim undo register_manual_handoff
takeover a conversation user role links = elim a.summary [
  | err e ↦ (err e, links)
  | ok lifecycle ↦
      let (claimed, rows) = claim a conversation user role (is_open lifecycle) links in
      elim claimed [
        | err e ↦ (err e, rows)
        | ok step ↦ elim step [
          | already ↦ (ok lifecycle, rows)
          | claimed_from holder ↦ elim a.status_set [
            | err e ↦ (err e, undo a conversation user holder (a.while_called rows))
            | ok _ ↦ (
              ok opened,
              if is_open lifecycle
                  then a.while_called rows
                  else register_manual_handoff a conversation
                      (a.before_handoff (a.while_called rows)),
            )
          ]
        ]
      ]
]

-- `_authorize`
unfoldable pub authorize : ℕ → Role → Option ℕ → Result (Unit {0})
authorize user role none = if is_superadmin role then ok tt else err conversation_not_taken
authorize user role (some assignee) =
    if not (assignee == user) && not (is_superadmin role)
    then err conversation_taken_by_other
    else ok tt

-- `_release_assignment`, if there is one
unfoldable pub release_assignment : ℕ → ℕ → Option ℕ → Links → Links
unfolding compare_and_set
release_assignment conversation now none links = links
release_assignment conversation now (some assignee) links =
    (compare_and_set conversation none (some assignee) now links).1

-- `ReleaseConversation.execute`
unfoldable pub release : Around → ℕ → ℕ → Role → Links → Result ConversationLifecycle × Links
unfolding authorize release_assignment
release a conversation user role links = elim a.summary [
  | err e ↦ (err e, links)
  | ok lifecycle ↦
      if not (is_open lifecycle)
      then (ok lifecycle, links)
      else elim (authorize user role (holder_of (links conversation))) [
        | err e ↦ (err e, links)
        | ok _ ↦ elim a.status_set [
          | err e ↦ (err e, a.while_called links)
          | ok _ ↦ (
            ok pending,
            release_assignment conversation a.now (holder_of (links conversation))
                (a.while_called links),
          )
        ]
      ]
]
