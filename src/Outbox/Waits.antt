-- ===== src/Outbox/Waits.antt =====
-- The waits of a schedule that the constructor accepts.
use event_pro_backend.Prelude.{
  ℕ, zero, suc, ◌-◌, ◌<◌, ◌≡◌, false, some, List, [], ◌∷◌, arith, min, length, get_elem?, ℤ, pos,
  ◌<ℤ◌,
}
use event_pro_backend.Method.{ok}
use event_pro_backend.Outbox.Schedule.{
  RetrySchedule, any_not_positive, is_empty, retry_schedule, delay_after,
}

pub get_positive :
    (ds : List ℤ) (i : ℕ)
    → any_not_positive ds ≡ false
    → i < length ds
    → (d : ℤ) × (get_elem? ds i ≡ some d) × (pos 0 <ℤ d)
unfolding any_not_positive
get_positive [] i h lt = elim lt [ ]
get_positive (d ∷ ds) zero h lt = (d, ground arith, ground arith)
get_positive (d ∷ ds) (suc i) h lt = get_positive ds i (ground arith) (omega arith)

pub length_pos : (ds : List ℤ) → is_empty ds ≡ false → 0 < length ds
length_pos [] h = ground arith
length_pos (d ∷ ds) h = omega arith

-- A schedule that the constructor accepts gives a positive wait after every failed attempt from
-- the first on: the one at the attempt's place, or the last one for an attempt past the end.
pub delay_after-retry_schedule :
    (ds : List ℤ) (s : RetrySchedule) (n : ℕ)
    → retry_schedule ds ≡ ok s
    → 0 < n
    → (d : ℤ) × (delay_after s n ≡ ok d)
      × (pos 0 <ℤ d)
      × (get_elem? ds (min n (length ds) - 1) ≡ some d)
unfolding retry_schedule delay_after
delay_after-retry_schedule ds s n h first =
    let nonempty : is_empty ds ≡ false = ground arith in
    let positive : any_not_positive ds ≡ false = ground arith in
    let same : s.delays ≡ ds = ground arith in
    let (d, found, above) =
      get_positive ds (min n (length ds) - 1) positive (omega (arith, length_pos ds nonempty)) in
    (d, rw same (ground (arith, found)), above, found)
