-- ===== src/Outbox/Retries.antt =====
-- A message whose sends keep failing.
use event_pro_backend.Prelude.{
  refl, ℕ, ◌+◌, ◌≤◌, ◌<◌, ◌≡◌, false, Text, List, [], ◌∷◌, arith, length, leb, Bool-cases, inl, inr,
}
use event_pro_backend.Clock.{aware}
use event_pro_backend.Outbox.Schedule.{pending, failed, RetrySchedule}
use event_pro_backend.Outbox.{OutboxMessage, register_failure}

-- One transient failure after another, each with its error and its instant.
pub fail_all : RetrySchedule → List (Text × ℕ) → OutboxMessage → OutboxMessage
fail_all s [] m = m
fail_all s ((error, t) ∷ rest) m = fail_all s rest (register_failure error false (aware t) s m).1

module _ (s : RetrySchedule) (error : Text) (t : ℕ) (m : OutboxMessage) where
  abbrev next : OutboxMessage
  next = (register_failure error false (aware t) s m).1

  max_attempts-next : next.max_attempts ≡ m.max_attempts
  unfolding register_failure
  max_attempts-next = ground arith

  payload-next : next.payload ≡ m.payload
  unfolding register_failure
  payload-next = ground arith

  status-next_failed : m.status ≡ failed → next ≡ m
  unfolding register_failure
  status-next_failed h = ground arith

  attempts-next : m.status ≡ pending → next.attempts ≡ m.attempts + 1
  unfolding register_failure
  attempts-next h = ground arith

  status-next_open : m.status ≡ pending → m.attempts + 1 < m.max_attempts → next.status ≡ pending
  unfolding register_failure
  status-next_open h lt = ground arith

  status-next_last : m.status ≡ pending → m.max_attempts ≤ m.attempts + 1 → next.status ≡ failed
  unfolding register_failure
  status-next_last h le = ground arith

fail_all-failed :
    (s : RetrySchedule) (fs : List (Text × ℕ)) (m : OutboxMessage)
    → m.status ≡ failed
    → fail_all s fs m ≡ m
unfolding fail_all
fail_all-failed s [] m h = refl
fail_all-failed s ((error, t) ∷ fs) m h =
    rw (status-next_failed s error t m h) (fail_all-failed s fs m h)

-- A pending message with attempts left stays pending, with each failure counted, through fewer
-- transient failures than it has attempts left; with that many or more it is `FAILED`, and has
-- used all its attempts exactly. The content is kept in both cases. This holds for every schedule.
pub fail_all-exhausts :
    (s : RetrySchedule) (fs : List (Text × ℕ)) (m : OutboxMessage)
    → m.status ≡ pending
    → m.attempts < m.max_attempts
    → ((fail_all s fs m).payload ≡ m.payload)
      × (m.attempts + length fs < m.max_attempts
          → ((fail_all s fs m).status ≡ pending)
            × ((fail_all s fs m).attempts ≡ m.attempts + length fs))
      × (m.max_attempts ≤ m.attempts + length fs
          → ((fail_all s fs m).status ≡ failed) × ((fail_all s fs m).attempts ≡ m.max_attempts))
unfolding fail_all
fail_all-exhausts s [] m p h = (refl, λ lt. (p, omega arith), λ le. absurd (omega arith))
fail_all-exhausts s ((error, t) ∷ fs) m p h =
    elim (Bool-cases (leb m.max_attempts (m.attempts + 1))) [
      | inl last ↦ ground (
        arith,
        status-next_last s error t m p,
        attempts-next s error t m p,
        payload-next s error t m,
        fail_all-failed s fs (next s error t m),
      )
      | inr more ↦ ground (
        arith,
        status-next_open s error t m p,
        attempts-next s error t m p,
        payload-next s error t m,
        max_attempts-next s error t m,
        fail_all-exhausts s fs (next s error t m),
      )
    ]
