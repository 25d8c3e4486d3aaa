-- ===== src/Schedule/Concurrency.antt =====
-- app/domain/services/concurrency_evaluator.py (RN-04).
use event_pro_backend.Prelude.{ℕ, ◌+◌, Bool, List, [], ◌∷◌, ℤ, pos, ltb_ℤ, if◌then◌else◌}
use event_pro_backend.Method.{Result, ok, err, value_error}
use event_pro_backend.Schedule.{TimeWindow, overlaps}

pub record ConcurrencyEvaluator : Type 0 where
  pub threshold : ℤ

-- The constructor.
unfoldable pub concurrency_evaluator : ℤ → Result ConcurrencyEvaluator
concurrency_evaluator threshold =
    if ltb_ℤ threshold (pos 0) then err value_error else ok (record { threshold = threshold })

-- `sum(1 for window in existing_windows if window.overlaps(candidate))`
unfoldable pub overlapping : List TimeWindow → TimeWindow → ℕ
overlapping [] candidate = 0
overlapping (window ∷ windows) candidate =
    (if overlaps window candidate then 1 else 0) + overlapping windows candidate

unfoldable pub simultaneous_count : List TimeWindow → TimeWindow → ℕ
simultaneous_count existing_windows candidate = 1 + overlapping existing_windows candidate

unfoldable pub requires_manual_approval : ConcurrencyEvaluator → List TimeWindow → TimeWindow → Bool
requires_manual_approval evaluator existing_windows candidate =
    ltb_ℤ evaluator.threshold (pos (simultaneous_count existing_windows candidate))
