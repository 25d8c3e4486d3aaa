-- ===== src/Occupancy/Bounds.antt =====
-- What an extension that passes the checks keeps free.
use event_pro_backend.Prelude.{
  ℕ, ◌==◌, ◌≤◌, ◌<◌, ◌≡◌, ◌⊎◌, inl, inr, refl, ap, ◌∙◌, true, false, ltb, leb, Bool-cases, List, [],
  ◌∷◌, if◌then◌else◌, arith,
}
use event_pro_backend.Schedule.{TimeWindow, overlaps}
use event_pro_backend.Occupancy.{CrewOccupancy, assignments, any_overlaps, following, least_start}

abbrev pub IsIn : CrewOccupancy → List CrewOccupancy → Type 0
IsIn r [] = ⊥
IsIn r (x ∷ xs) = (r ≡ x) ⊎ IsIn r xs

pub assignments-IsIn :
    (r : CrewOccupancy) (rows : List CrewOccupancy)
    → IsIn r rows
    → IsIn r (assignments r.crew_id rows)
unfolding assignments
assignments-IsIn r [] m = elim m [ ]
assignments-IsIn r (x ∷ xs) (inl e) =
    let same : (x.crew_id == r.crew_id) ≡ true = ground (arith, e) in rw same (inl e)
assignments-IsIn r (x ∷ xs) (inr m) = elim (Bool-cases (x.crew_id == r.crew_id)) [
  | inl same ↦ rw same (inr (assignments-IsIn r xs m))
  | inr other ↦ rw other (assignments-IsIn r xs m)
]

pub assignments-back :
    (n : CrewOccupancy) (id : ℕ) (rows : List CrewOccupancy)
    → IsIn n (assignments id rows)
    → IsIn n rows × (n.crew_id ≡ id)
unfolding assignments
assignments-back n id [] m = elim m [ ]
assignments-back n id (x ∷ xs) m = elim (Bool-cases (x.crew_id == id)) [
  | inl same ↦ elim (rw same at m) [
    | inl e ↦ (inl e, ground (arith, same, e))
    | inr k ↦ let (p, q) = assignments-back n id xs k in (inr p, q)
  ]
  | inr other ↦ let (p, q) = assignments-back n id xs (rw other at m) in (inr p, q)
]

pub following-IsIn :
    (w : TimeWindow) (r : CrewOccupancy) (rows : List CrewOccupancy)
    → IsIn r rows
    → w.end ≤ r.window.start
    → IsIn r (following w rows)
unfolding following
following-IsIn w r [] m le = elim m [ ]
following-IsIn w r (x ∷ xs) (inl e) le =
    let after : leb w.end x.window.start ≡ true = ground (arith, e, le) in rw after (inl e)
following-IsIn w r (x ∷ xs) (inr m) le = elim (Bool-cases (leb w.end x.window.start)) [
  | inl after ↦ rw after (inr (following-IsIn w r xs m le))
  | inr before ↦ rw before (following-IsIn w r xs m le)
]

pub following-back :
    (w : TimeWindow) (n : CrewOccupancy) (rows : List CrewOccupancy)
    → IsIn n (following w rows)
    → IsIn n rows
unfolding following
following-back w n [] m = elim m [ ]
following-back w n (x ∷ xs) m = elim (Bool-cases (leb w.end x.window.start)) [
  | inl after ↦ elim (rw after at m) [ inl e ↦ inl e | inr k ↦ inr (following-back w n xs k) ]
  | inr before ↦ inr (following-back w n xs (rw before at m))
]

pub apart :
    (w : TimeWindow) (r : CrewOccupancy) (rows : List CrewOccupancy)
    → any_overlaps w rows ≡ false
    → IsIn r rows
    → overlaps r.window w ≡ false
unfolding any_overlaps
apart w r [] h m = elim m [ ]
apart w r (x ∷ xs) h (inl e) = ap (λ c. overlaps c.window w) e ∙ ground (arith, h)
apart w r (x ∷ xs) h (inr m) = apart w r xs (ground (arith, h)) m

least-none : (first : CrewOccupancy) → least_start first [] ≡ first
unfolding least_start
least-none first = refl

least-less :
    (first x : CrewOccupancy) (xs : List CrewOccupancy)
    → ltb x.window.start first.window.start ≡ true
    → least_start first (x ∷ xs) ≡ least_start x xs
unfolding least_start
least-less first x xs h = ap (λ b. least_start (if b then x else first) xs) h

least-more :
    (first x : CrewOccupancy) (xs : List CrewOccupancy)
    → ltb x.window.start first.window.start ≡ false
    → least_start first (x ∷ xs) ≡ least_start first xs
unfolding least_start
least-more first x xs h = ap (λ b. least_start (if b then x else first) xs) h

least_start-first :
    (first : CrewOccupancy) (rows : List CrewOccupancy)
    → (least_start first rows).window.start ≤ first.window.start
least_start-first first [] = rw (least-none first) (omega arith)
least_start-first first (x ∷ xs) = elim (Bool-cases (ltb x.window.start first.window.start)) [
  | inl less ↦ rw (least-less first x xs less) (
      let le = least_start-first x xs in
      let lt : x.window.start < first.window.start = ground (arith, less) in omega arith)
  | inr more ↦ rw (least-more first x xs more) (least_start-first first xs)
]

pub least_start-le :
    (first r : CrewOccupancy) (rows : List CrewOccupancy)
    → IsIn r (first ∷ rows)
    → (least_start first rows).window.start ≤ r.window.start
least_start-le first r rows (inl e) =
    let same : r.window.start ≡ first.window.start = ap (λ c. c.window.start) e in
    rw same (least_start-first first rows)
least_start-le first r [] (inr m) = elim m [ ]
least_start-le first r (x ∷ xs) (inr m) =
    elim (Bool-cases (ltb x.window.start first.window.start)) [
      | inl less ↦ rw (least-less first x xs less) (least_start-le x r xs m)
      | inr more ↦ rw (least-more first x xs more) (elim m [
        | inl e ↦
            let same : r.window.start ≡ x.window.start = ap (λ c. c.window.start) e in
            let le = least_start-first first xs in
            let lt : first.window.start ≤ x.window.start = ground (arith, more) in
            rw same (omega arith)
        | inr k ↦ least_start-le first r xs (inr k)
      ])
    ]

IsIn-along : (n m : CrewOccupancy) (rows : List CrewOccupancy) → n ≡ m → IsIn m rows → IsIn n rows
IsIn-along n m [] e k = elim k [ ]
IsIn-along n m (x ∷ xs) e (inl k) = inl (e ∙ k)
IsIn-along n m (x ∷ xs) e (inr k) = inr (IsIn-along n m xs e k)

pub least_start-IsIn :
    (first : CrewOccupancy) (rows : List CrewOccupancy)
    → IsIn (least_start first rows) (first ∷ rows)
least_start-IsIn first [] = inl (least-none first)
least_start-IsIn first (x ∷ xs) = elim (Bool-cases (ltb x.window.start first.window.start)) [
  | inl less ↦ inr (
      IsIn-along (least_start first (x ∷ xs)) (least_start x xs) (x ∷ xs)
        (least-less first x xs less) (least_start-IsIn x xs))
  | inr more ↦ elim (least_start-IsIn first xs) [
    | inl e ↦ inl (least-more first x xs more ∙ e)
    | inr k ↦ inr (
        inr (
          IsIn-along (least_start first (x ∷ xs)) (least_start first xs) xs
            (least-more first x xs more) k))
  ]
]
