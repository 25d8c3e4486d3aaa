-- ===== src/Assignment/Race.antt =====
-- Takeovers of one conversation by several users, with commits of other commands in between.
use event_pro_backend.Prelude.{ℕ, ◌≡◌, ◌≢◌, sym, ◌∙◌, true, false, Option, some, arith}
use event_pro_backend.Method.{ok, err, conversation_taken_by_other}
use event_pro_backend.Assignment.{
  Links, Role, Around, holder_of, ensure, compare_and_set, claim, takeover, is_superadmin,
  ConversationLifecycle,
}

pub holder_of-ensure :
    (a : Around) (conversation : ℕ) (links : Links)
    → holder_of (ensure a conversation links conversation) ≡ holder_of (links conversation)
unfolding ensure
holder_of-ensure a conversation links = ground arith

-- an update of a link that another holds
pub compare_and_set-lost :
    (conversation now : ℕ) (new expected : Option ℕ) (links : Links)
    → holder_of (links conversation) ≢ expected
    → compare_and_set conversation new expected now links ≡ (false, links)
unfolding compare_and_set
compare_and_set-lost conversation now new expected links ne = ground arith

-- Of several updates that expect the same holder only the first sets it: after one that won for a user
-- who is not the expected holder, another that expects that holder changes nothing.
pub compare_and_set_once :
    (conversation user other now later : ℕ) (expected : Option ℕ) (links : Links)
    → expected ≢ some user
    → (compare_and_set conversation (some user) expected now links).0 ≡ true
    → let after = (compare_and_set conversation (some user) expected now links).1 in
      (holder_of (links conversation) ≡ expected)
      × (holder_of (after conversation) ≡ some user)
      × (compare_and_set conversation (some other) expected later after ≡ (false, after))
unfolding compare_and_set
compare_and_set_once conversation user other now later expected links ne won =
    let after = (compare_and_set conversation (some user) expected now links).1 in
    let taken : holder_of (after conversation) ≡ some user = ground arith in
    (
      ground arith,
      taken,
      compare_and_set-lost conversation later (some other) expected after (λ e. ne (sym e ∙ taken)),
    )

-- A takeover by a user who is no SUPERADMIN, of a conversation that Chatwoot finds, is refused because
-- another holds it, in two cases: another holds it when the link is read, and then the table is
-- unchanged; or the user did not hold it when it was read, and another holds it when the assignment is
-- to be set, whatever other commands have committed in between.
pub takeover_never_steals :
    (a : Around) (conversation user holder : ℕ) (role : Role) (links : Links)
    (lifecycle : ConversationLifecycle)
    → is_superadmin role ≡ false
    → a.summary ≡ ok lifecycle
    → holder ≢ user
    → (holder_of (links conversation) ≡ some holder
        → takeover a conversation user role links ≡ (err conversation_taken_by_other, links))
      × (holder_of (links conversation) ≢ some user
          → holder_of (a.before_claim (ensure a conversation links) conversation) ≡ some holder
          → (takeover a conversation user role links).0 ≡ err conversation_taken_by_other)
unfolding takeover claim
takeover_never_steals a conversation user holder role links lifecycle r s ne = (
  λ h. ground (arith, s, r, h, holder_of-ensure a conversation links),
  λ h k.
      let seen = holder_of (ensure a conversation links conversation) in
      let lost =
        compare_and_set-lost conversation a.now (some user) seen
          (a.before_claim (ensure a conversation links)) in
      ground (arith, s, r, holder_of-ensure a conversation links, k, lost),
)
