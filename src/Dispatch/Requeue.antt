-- ===== src/Dispatch/Requeue.antt =====
-- RetryMessage over the table of rows.
use event_pro_backend.Prelude.{ℕ, ◌≡◌, ◌≢◌, ◌≤◌, ap, ◌∙◌, Bool, true, false, none, some, arith}
use event_pro_backend.Method.{ok, err, resource_not_found, invalid_outbox_state}
use event_pro_backend.Clock.{aware}
use event_pro_backend.Outbox.{OutboxMessage, retry, is_retryable}
use event_pro_backend.Dispatch.Table.{Rows, find_row, get_by_id, save, is_due, write_row}
use event_pro_backend.Dispatch.Writes.{find_row-id, IsSameRow}
use event_pro_backend.Dispatch.Effects.{stored}
use event_pro_backend.Dispatch.{retry_message}

retry-IsSameRow : (c : OutboxMessage) (t : ℕ) → IsSameRow c (retry (aware t) c).1
unfolding retry
retry-IsSameRow c t = ground arith

retry-is_due :
    (c : OutboxMessage) (t now : ℕ) (locked : ℕ → Bool)
    → is_retryable c ≡ true
    → t ≤ now
    → locked c.id ≡ false
    → ((retry (aware t) c).0 ≡ ok tt) × (is_due now locked (retry (aware t) c).1 ≡ true)
unfolding retry is_retryable
retry-is_due c t now locked h le free = (ground arith, ground arith)

retry-refused :
    (c : OutboxMessage) (t : ℕ)
    → is_retryable c ≡ false
    → (retry (aware t) c).0 ≡ err invalid_outbox_state
unfolding retry is_retryable
retry-refused c t h = ground arith

found_by :
    (a b : ℕ) (rows : Rows) (c : OutboxMessage)
    → a ≡ b
    → find_row b rows ≡ some c
    → find_row a rows ≡ some c
found_by a b rows c e h = rw e h

retried :
    (id t : ℕ) (rows : Rows) (c : OutboxMessage)
    → find_row id rows ≡ some c
    → (retry (aware t) c).0 ≡ ok tt
    → let r = (retry (aware t) c).1 in retry_message id (aware t) rows ≡ (ok r, write_row r rows)
unfolding retry_message get_by_id save
retried id t rows c found done =
    let e = (retry-IsSameRow c t).0 ∙ find_row-id id rows c found in
    let again = found_by (retry (aware t) c).1.id id rows c e found in
    ground (arith, found, done, again)

-- RetryMessage of a message in the table at the instant `t`. If the message is retryable, the message
-- that it returns is the one that is then stored, is due for a worker from `t` on unless another
-- transaction holds it, and no other row is written; if it is not, the state of the message is
-- refused and the table is unchanged. An id that is not in the table is not found, and the table
-- is unchanged.
pub retry_message-is_due :
    (id t now : ℕ) (locked : ℕ → Bool) (rows : Rows)
    → t ≤ now
    → locked id ≡ false
    → ((c : OutboxMessage)
        → find_row id rows ≡ some c
        → is_retryable c ≡ true
        → (r : OutboxMessage) × ((retry_message id (aware t) rows).0 ≡ ok r)
          × (find_row id (retry_message id (aware t) rows).1 ≡ some r)
          × (is_due now locked r ≡ true)
          × ((other : ℕ)
              → other ≢ id
              → find_row other (retry_message id (aware t) rows).1 ≡ find_row other rows))
      × ((c : OutboxMessage)
          → find_row id rows ≡ some c
          → is_retryable c ≡ false
          → retry_message id (aware t) rows ≡ (err invalid_outbox_state, rows))
      × (find_row id rows ≡ none → retry_message id (aware t) rows ≡ (err resource_not_found, rows))
unfolding retry_message get_by_id
retry_message-is_due id t now locked rows le free = (
  λ c found h.
      let e = find_row-id id rows c found in
      let (done, due) = retry-is_due c t now locked h le (ap locked e ∙ free) in
      let same = retried id t rows c found done in
      let (kept, apart) =
        stored id rows c (retry (aware t) c).1 _ found (retry-IsSameRow c t) (ap (λ p. p.1) same) in
      ((retry (aware t) c).1, ap (λ p. p.0) same, kept, due, apart),
  λ c found h. ground (arith, found, retry-refused c t h),
  λ gone. ground (arith, gone),
)
