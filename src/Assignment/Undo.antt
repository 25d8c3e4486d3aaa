-- ===== src/Assignment/Undo.antt =====
-- A takeover that Chatwoot accepts, and one that it refuses.
use event_pro_backend.Prelude.{
  ℕ, ◌≡◌, Bool, true, false, not, ◌&&◌, is_some, Option, none, some, arith, if◌then◌else◌,
}
use event_pro_backend.Method.{Error, ok, err}
use event_pro_backend.Assignment.{
  Links, Role, Around, holder_of, claimed_from, same_user, ensure, compare_and_set, claim, undo,
  takeover, register_manual_handoff, is_superadmin, is_open, opened, is_other,
  ConversationLifecycle,
}
use event_pro_backend.Assignment.Race.{holder_of-ensure}

handoff-holder_of :
    (a : Around) (conversation : ℕ) (links : Links)
    → holder_of (register_manual_handoff a conversation links conversation)
      ≡ holder_of (links conversation)
unfolding register_manual_handoff
handoff-holder_of a conversation links = ground arith

ensure-is_some :
    (a : Around) (conversation : ℕ) (links : Links)
    → is_some (ensure a conversation links conversation) ≡ true
unfolding ensure
ensure-is_some a conversation links = ground arith

same_user_refl : (o : Option ℕ) → same_user o o ≡ true
same_user_refl o = ground arith

-- an update of a link whose holder is the expected one
compare_and_set-won :
    (conversation now : ℕ) (new : Option ℕ) (links : Links)
    → is_some (links conversation) ≡ true
    → let r = compare_and_set conversation new (holder_of (links conversation)) now links in
      (r.0 ≡ true) × (holder_of (r.1 conversation) ≡ new) × (is_some (r.1 conversation) ≡ true)
unfolding compare_and_set
compare_and_set-won conversation now new links h = ground arith

undo-holder_of :
    (a : Around) (conversation user : ℕ) (holder : Option ℕ) (links : Links)
    → is_some (links conversation) ≡ true
    → holder_of (links conversation) ≡ some user
    → holder_of (undo a conversation user holder links conversation)
      ≡ (if same_user holder (some user) then none else holder)
unfolding undo compare_and_set
undo-holder_of a conversation user holder links h k = ground (arith, h, k)

claim-wins :
    (a : Around) (conversation user : ℕ) (role : Role) (was_open : Bool) (links : Links)
    → ((rows : Links) → a.before_claim rows ≡ rows)
    → (is_other user (holder_of (links conversation)) && not (is_superadmin role)) ≡ false
    → (same_user (holder_of (links conversation)) (some user) && was_open) ≡ false
    → let r = claim a conversation user role was_open links in
      (r.0 ≡ ok (claimed_from (holder_of (links conversation))))
      × (is_some (r.1 conversation) ≡ true)
      × (holder_of (r.1 conversation) ≡ some user)
unfolding claim
claim-wins a conversation user role was_open links quiet may fresh =
    let ensured = ensure a conversation links in
    let (won, held, there) =
      compare_and_set-won conversation a.now (some user) ensured
        (ensure-is_some a conversation links) in
    let same = holder_of-ensure a conversation links in
    ground (arith, quiet ensured, same, may, fresh, won, held, there)

-- A takeover of a conversation that Chatwoot finds, by a user who may take it and does not hold it open
-- already, while no other command commits anything. If Chatwoot then reopens the conversation, the
-- takeover returns it open and the user holds it. If Chatwoot refuses, its error is raised and the
-- holder is the one before, with one exception: if the user was the holder before, nobody is.
pub takeover-undo :
    (a : Around) (conversation user : ℕ) (role : Role) (links : Links)
    (lifecycle : ConversationLifecycle)
    → a.summary ≡ ok lifecycle
    → ((rows : Links) → a.before_claim rows ≡ rows)
    → ((rows : Links) → a.while_called rows ≡ rows)
    → ((rows : Links) → a.before_handoff rows ≡ rows)
    → (is_other user (holder_of (links conversation)) && not (is_superadmin role)) ≡ false
    → (same_user (holder_of (links conversation)) (some user) && is_open lifecycle) ≡ false
    → let after = (takeover a conversation user role links).1 in
      (a.status_set ≡ ok tt
        → ((takeover a conversation user role links).0 ≡ ok opened)
          × (holder_of (after conversation) ≡ some user))
      × ((e : Error)
          → a.status_set ≡ err e
          → ((takeover a conversation user role links).0 ≡ err e)
            × (holder_of (after conversation) ≡ (
                if same_user (holder_of (links conversation)) (some user)
                then none
                else holder_of (links conversation))))
unfolding takeover
takeover-undo a conversation user role links lifecycle s quiet still calm may fresh =
    let rows = (claim a conversation user role (is_open lifecycle) links).1 in
    let (claimed, there, held) =
      claim-wins a conversation user role (is_open lifecycle) links quiet may fresh in
    let undone =
      undo-holder_of a conversation user (holder_of (links conversation)) rows there held in
    (
      λ accepted. ground (
        arith,
        s,
        claimed,
        accepted,
        still rows,
        calm rows,
        held,
        handoff-holder_of a conversation rows,
      ),
      λ e refused. ground (arith, s, claimed, refused, still rows, undone),
    )
