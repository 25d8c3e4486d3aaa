-- ===== src/Dispatch/Effects.antt =====
-- What becomes of a message that is dispatched.
use event_pro_backend.Prelude.{ℕ, ◌≡◌, ap, sym, ◌∙◌, true, false, none, some, ◌≢◌}
use event_pro_backend.Method.{Error, Result, ok, err}
use event_pro_backend.Clock.{DateTime}
use event_pro_backend.Outbox.{OutboxMessage, is_pending}
use event_pro_backend.Outbox.Schedule.{RetrySchedule}
use event_pro_backend.Dispatch.Table.{Rows, find_row, write_row}
use event_pro_backend.Dispatch.Gateway.{Sending}
use event_pro_backend.Dispatch.{Outcome, discarded}
use event_pro_backend.Dispatch.Writes.{
  find_row-write_row, written, find_row-id, apply-same, Shows, IsSavable, IsSameRow,
}

-- What became of the row of a message that was dispatched, for what the sending gave.
pub data Fate (sending : Sending) (now : DateTime) (schedule : RetrySchedule) (rows : Rows) (id : ℕ)
    (result : Result Outcome) (after : Rows) : Type 0 where
  -- there is no such row
  missing :
      find_row id rows ≡ none
      → result ≡ ok discarded
      → after ≡ rows
      → Fate sending now schedule rows id result after
  -- it is not pending any more
  settled_by_others :
      (c : OutboxMessage)
      → find_row id rows ≡ some c
      → is_pending c.status ≡ false
      → result ≡ ok discarded
      → after ≡ rows
      → Fate sending now schedule rows id result after
  -- what was sent cannot be saved: an exception, after which the transaction is undone
  undone :
      (c : OutboxMessage) (e : Error)
      → find_row id rows ≡ some c
      → is_pending c.status ≡ true
      → ¬ IsSavable sending now schedule c
      → result ≡ err e
      → after ≡ rows
      → Fate sending now schedule rows id result after
  resolved :
      (c r : OutboxMessage) (o : Outcome)
      → find_row id rows ≡ some c
      → is_pending c.status ≡ true
      → result ≡ ok o
      → find_row id after ≡ some r
      → IsSameRow c r
      → Shows sending o c r
      → ((other : ℕ) → other ≢ id → find_row other after ≡ find_row other rows)
      → Fate sending now schedule rows id result after

pub stored :
    (id : ℕ) (rows : Rows) (c r : OutboxMessage) (after : Rows)
    → find_row id rows ≡ some c
    → IsSameRow c r
    → after ≡ write_row r rows
    → (find_row id after ≡ some r)
      × ((other : ℕ) → other ≢ id → find_row other after ≡ find_row other rows)
stored id rows c r after h s wrote =
    let e : r.id ≡ id = s.0 ∙ find_row-id id rows c h in
    (
      rw (wrote, sym e) (written r c rows (rw e h) ∙ ap some (apply-same c r s)),
      λ other ne. rw wrote (find_row-write_row r other rows (λ q. ne (q ∙ e))),
    )
