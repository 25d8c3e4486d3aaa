-- ===== src/Assignment/Examples.antt =====
-- Commands on a conversation, and their theorems at them.
use event_pro_backend.Prelude.{
  ℕ, ◌==◌, ◌≡◌, ◌≢◌, refl, false, not, ◌&&◌, none, some, arith, if◌then◌else◌,
}
use event_pro_backend.Method.{
  Error, ok, err, validation, conversation_taken_by_other, conversation_not_taken,
}
use event_pro_backend.Assignment.{
  Links, encargado, superadmin, Around, holder_of, is_other, is_superadmin, ensure, empty_link,
  takeover, release, opened, pending,
}
use event_pro_backend.Assignment.Race.{takeover_never_steals}
use event_pro_backend.Assignment.Undo.{takeover-undo}
use event_pro_backend.Assignment.Release.{release-keeps_later}

-- Conversation 41 is held by user 7.
abbrev held : Links
held c = if c == 41 then some (record (empty_link 3 41 100) { assigned_user_id = some 7 }) else none

abbrev quiet : Around
quiet = record {
  summary = ok opened;
  status_set = err validation;
  before_claim = λ rows. rows;
  while_called = λ rows. rows;
  before_handoff = λ rows. rows;
  now = 200;
  fresh = 4;
}

-- Chatwoot still says that the bot answers.
abbrev waiting : Around
waiting = record quiet { summary = ok pending }

takeover_never_steals_example :
    (holder_of (held 41) ≡ some 7
      → takeover quiet 41 8 encargado held ≡ (err conversation_taken_by_other, held))
    × (holder_of (held 41) ≢ some 8
        → holder_of (quiet.before_claim (ensure quiet 41 held) 41) ≡ some 7
        → (takeover quiet 41 8 encargado held).0 ≡ err conversation_taken_by_other)
takeover_never_steals_example =
    takeover_never_steals quiet 41 8 7 encargado held opened refl refl (omega arith)

takeover-undo_example :
    (waiting.status_set ≡ ok tt
      → ((takeover waiting 41 7 encargado held).0 ≡ ok opened)
        × (holder_of ((takeover waiting 41 7 encargado held).1 41) ≡ some 7))
    × ((e : Error)
        → waiting.status_set ≡ err e
        → ((takeover waiting 41 7 encargado held).0 ≡ err e)
          × (holder_of ((takeover waiting 41 7 encargado held).1 41) ≡ none))
takeover-undo_example =
    takeover-undo waiting 41 7 encargado held pending refl (λ rows. refl) (λ rows. refl)
      (λ rows. refl) refl refl

-- A SUPERADMIN gives back the conversation of user 7.
abbrev accepted : Around
accepted = record quiet { status_set = ok tt }

release-keeps_later_example :
    (is_superadmin superadmin ≡ false
      → holder_of (held 41) ≡ none
      → release accepted 41 9 superadmin held ≡ (err conversation_not_taken, held))
    × (is_superadmin superadmin ≡ false
        → holder_of (held 41) ≡ some 7
        → ◌≢◌ {A = ℕ} 7 9
        → release accepted 41 9 superadmin held ≡ (err conversation_taken_by_other, held))
    × (holder_of (held 41) ≡ some 7
        → (is_other 9 (some 7) && not (is_superadmin superadmin)) ≡ false
        → ((e : Error)
            → accepted.status_set ≡ err e
            → release accepted 41 9 superadmin held ≡ (err e, held))
          × (accepted.status_set ≡ ok tt
              → ((release accepted 41 9 superadmin held).0 ≡ ok pending)
                × (holder_of (held 41) ≡ some 7
                    → holder_of ((release accepted 41 9 superadmin held).1 41) ≡ none)
                × (holder_of (held 41) ≢ some 7
                    → (release accepted 41 9 superadmin held).1 ≡ held)))
release-keeps_later_example = release-keeps_later accepted 41 9 7 superadmin held refl
