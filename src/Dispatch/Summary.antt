-- ===== src/Dispatch/Summary.antt =====
-- What a cycle reports.
use event_pro_backend.Prelude.{
  ℕ, suc, ◌+◌, ◌≡◌, refl, ap, sym, ◌∙◌, pos, ◌≤◌, List, [], ◌∷◌, length, arith,
}
use event_pro_backend.Method.{ok}
use event_pro_backend.Clock.{seconds}
use event_pro_backend.Outbox.{OutboxMessage}
use event_pro_backend.Dispatch.Table.{Rows, claim_due}
use event_pro_backend.Dispatch.Claims.{claim_due-leases}
use event_pro_backend.Dispatch.{
  World, Outcome, sent, rescheduled, failed, discarded, error, dispatch, dispatch_all, count,
  execute, Worker, DispatchSummary,
}

-- Every outcome is counted once.
counted :
    (os : List Outcome)
    → length os
      ≡ count sent os + count rescheduled os + count failed os + count discarded os + count error os
unfolding count
counted [] = refl
counted (sent ∷ os) = omega (arith, counted os)
counted (rescheduled ∷ os) = omega (arith, counted os)
counted (failed ∷ os) = omega (arith, counted os)
counted (discarded ∷ os) = omega (arith, counted os)
counted (error ∷ os) = omega (arith, counted os)

length-dispatch_all :
    (w : World) (ms : List OutboxMessage) (rows : Rows)
    → length (dispatch_all w ms rows).0 ≡ length ms
unfolding dispatch_all
length-dispatch_all w [] rows = refl
length-dispatch_all w (m ∷ ms) rows = ap suc (length-dispatch_all w ms (dispatch w m rows).1)

-- A cycle whose claim succeeds always returns a summary, whatever the gateway and the other workers
-- do and however many messages raise, and each claimed message is counted once, in one of the five
-- outcomes; the batch is at most the batch size.
pub execute_counts :
    (settings : Worker) (w : World) (now : ℕ) (rows : Rows) (claimed after : Rows)
    → claim_due now settings.batch_size (pos (seconds settings.lease_seconds)) w.locked rows
      ≡ (ok claimed, after)
    → (s : DispatchSummary) × ((execute settings w now rows).0 ≡ ok s)
      × (s.claimed ≡ length claimed)
      × (s.claimed ≤ settings.batch_size)
      × (s.claimed
          ≡ s.sent_count + s.rescheduled_count + s.failed_count + s.discarded_count + s.error_count)
unfolding execute
execute_counts settings w now rows claimed after h =
    let outcomes = (dispatch_all w claimed after).0 in
    let same = length-dispatch_all w claimed after in
    let bound =
      claim_due-leases now settings.batch_size (seconds settings.lease_seconds) w.locked rows
        claimed after h in
    (
      record {
        claimed = length claimed;
        sent_count = count sent outcomes;
        rescheduled_count = count rescheduled outcomes;
        failed_count = count failed outcomes;
        discarded_count = count discarded outcomes;
        error_count = count error outcomes;
      },
      ground (arith, h),
      refl,
      bound.1,
      sym same ∙ counted outcomes,
    )
