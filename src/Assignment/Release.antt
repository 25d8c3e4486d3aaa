-- ===== src/Assignment/Release.antt =====
-- Giving a conversation back to the bot.
use event_pro_backend.Prelude.{ℕ, ◌≡◌, ◌≢◌, false, not, ◌&&◌, none, some, arith}
use event_pro_backend.Method.{Error, ok, err, conversation_not_taken, conversation_taken_by_other}
use event_pro_backend.Assignment.{
  Links, Role, Around, holder_of, authorize, release_assignment, compare_and_set, release,
  is_superadmin, opened, pending, is_other,
}

-- Giving back an open conversation. A user who is no SUPERADMIN is refused if nobody or another holds it, and
-- nothing is written. Whoever may: if Chatwoot refuses, its error is raised and the command has
-- written nothing; if not, the conversation goes to the bot, and the assignment that was read is
-- removed if it is still there, while one that another command has set meanwhile stays.
pub release-keeps_later :
    (a : Around) (conversation user holder : ℕ) (role : Role) (links : Links)
    → a.summary ≡ ok opened
    → let seen = a.while_called links in
      (is_superadmin role ≡ false
        → holder_of (links conversation) ≡ none
        → release a conversation user role links ≡ (err conversation_not_taken, links))
      × (is_superadmin role ≡ false
          → holder_of (links conversation) ≡ some holder
          → holder ≢ user
          → release a conversation user role links ≡ (err conversation_taken_by_other, links))
      × (holder_of (links conversation) ≡ some holder
          → (is_other user (some holder) && not (is_superadmin role)) ≡ false
          → ((e : Error)
              → a.status_set ≡ err e
              → release a conversation user role links ≡ (err e, seen))
            × (a.status_set ≡ ok tt
                → ((release a conversation user role links).0 ≡ ok pending)
                  × (holder_of (seen conversation) ≡ some holder
                      → holder_of ((release a conversation user role links).1 conversation) ≡ none)
                  × (holder_of (seen conversation) ≢ some holder
                      → (release a conversation user role links).1 ≡ seen)))
unfolding release authorize release_assignment compare_and_set
release-keeps_later a conversation user holder role links s = (
  λ r h. ground (arith, s, r, h),
  λ r h ne. ground (arith, s, r, h),
  λ h may. (
    λ e bad. ground (arith, s, h, may, bad),
    λ good. (
      ground (arith, s, h, may, good),
      λ still. ground (arith, s, h, may, good, still),
      λ other. ground (arith, s, h, may, good, other),
    ),
  ),
)
