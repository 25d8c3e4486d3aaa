-- ===== src/Schedule/Overlap.antt =====
-- What it means for two windows to overlap (RN-04).
use event_pro_backend.Prelude.{ℕ, ◌≤◌, ◌<◌, ◌≡◌, ◌↔◌, true, false, max, arith}
use event_pro_backend.Schedule.{TimeWindow, overlaps, is_adjacent}

-- A window that the constructor accepts.
abbrev pub IsWindow : TimeWindow → Type 0
IsWindow w = w.start < w.end

-- The instant `t` lies in [start, end).
abbrev pub Covers : TimeWindow → ℕ → Type 0
Covers w t = (w.start ≤ t) × (t < w.end)

pub later_start :
    (v w : TimeWindow)
    → IsWindow v
    → IsWindow w
    → overlaps v w ≡ true
    → Covers v (max v.start w.start) × Covers w (max v.start w.start)
unfolding overlaps
later_start v w hv hw h = ground arith

-- Two windows overlap exactly if some instant lies in both; windows where one ends as the other
-- starts do not.
pub overlaps_iff :
    (v w : TimeWindow)
    → IsWindow v
    → IsWindow w
    → ((overlaps v w ≡ true) ↔ ((t : ℕ) × Covers v t × Covers w t))
      × (is_adjacent v w ≡ true → overlaps v w ≡ false)
unfolding overlaps is_adjacent
overlaps_iff v w hv hw = (
  (
    λ h. let (a, b) = later_start v w hv hw h in (max v.start w.start, a, b),
    λ h. let (t, a, b) = h in ground arith,
  ),
  λ h. ground arith,
)
