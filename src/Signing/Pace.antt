-- ===== src/Signing/Pace.antt =====
-- The requests of a code in a row: how far they lie apart (`request_otp`).
use event_pro_backend.Prelude.{
  ℕ, zero, suc, ◌≡◌, refl, ap, ◌+◌, ◌-◌, ◌≤◌, ◌<◌, inl, inr, ◌⊎◌, Option, none, some, List, [], ◌∷◌,
  get_elem?, arith,
}
use event_pro_backend.Clock.{seconds, minutes}

-- The last request of a code, the start of the window, and the requests in it.
pub record Pace : Type 0 where
  pub last : Option ℕ
  pub window : Option ℕ
  pub count : ℕ

abbrev pub Rested : ℕ → Option ℕ → Type 0
Rested now none = Unit {0}
Rested now (some last) = last + seconds 60 ≤ now

abbrev pub Ended : ℕ → Option ℕ → Type 0
Ended now none = Unit {0}
Ended now (some start) = start + minutes 10 ≤ now

-- A request that is accepted begins a window or is counted in the last one.
abbrev pub Next : ℕ → Pace → Pace → Type 0
Next now p q =
    Rested now p.last
    × ((Ended now p.window × (q ≡ record { last = some now; window = some now; count = 1 }))
        ⊎ ((start : ℕ) × (p.window ≡ some start)
            × (p.count < 3)
            × (q ≡ record { last = some now; window = some start; count = p.count + 1 })))

-- Each is a minute at least after the one before; the newest is first.
pub data Spaced : List ℕ → Type 0 where
  no_request : Spaced []
  one_request : (t : ℕ) → Spaced (t ∷ [])
  one_more : {t u : ℕ} {ts : List ℕ} → u + seconds 60 ≤ t → Spaced (u ∷ ts) → Spaced (t ∷ u ∷ ts)

Spaced-before :
    (t u : ℕ) (ts : List ℕ) (j : ℕ) → Spaced (t ∷ ts) → get_elem? (t ∷ ts) j ≡ some u → u ≤ t
Spaced-before t u ts zero s h = ground arith
Spaced-before t u [] (suc j) s h = ground arith
Spaced-before t u (v ∷ ts) (suc j) (one_more le s) h =
    let older : u ≤ v = Spaced-before v u ts j s h in ground arith

Spaced-older :
    (ts : List ℕ) (i j a b : ℕ)
    → i ≤ j
    → Spaced ts
    → get_elem? ts i ≡ some a
    → get_elem? ts j ≡ some b
    → b ≤ a
Spaced-older [] i j a b le s h g = ground arith
Spaced-older (t ∷ ts) zero j a b le s h g =
    let newest : t ≡ a = ground arith in
    let old : b ≤ t = Spaced-before t b ts j s g in ground arith
Spaced-older (t ∷ ts) (suc i) zero a b le s h g = ground arith
Spaced-older (t ∷ []) (suc i) (suc j) a b le s h g = ground arith
Spaced-older (t ∷ u ∷ ts) (suc i) (suc j) a b le (one_more _ s) h g =
    Spaced-older (u ∷ ts) i j a b (omega arith) s h g

-- Of six in a row the first and the last are ten minutes apart.
abbrev pub IsRare : List ℕ → Type 0
IsRare ts =
    (i t u : ℕ) → get_elem? ts i ≡ some t → get_elem? ts (i + 5) ≡ some u → u + minutes 10 ≤ t

-- The window began with one of the last three requests, and the third before it ten minutes earlier.
pub record IsBusy (p : Pace) (t : ℕ) (ts : List ℕ) : Type 0 where
  pub start : ℕ
  pub is_last : p.last ≡ some t
  pub is_window : p.window ≡ some start
  pub some_counted : 1 ≤ p.count
  pub few_counted : p.count ≤ 3
  pub began : get_elem? (t ∷ ts) (p.count - 1) ≡ some start
  pub prior : (u : ℕ) → get_elem? (t ∷ ts) (p.count + 2) ≡ some u → u + minutes 10 ≤ start

abbrev pub IsPaced : Pace → List ℕ → Type 0
IsPaced p [] = (p.last ≡ none) × (p.window ≡ none)
IsPaced p (t ∷ ts) = IsBusy p t ts × Spaced (t ∷ ts) × IsRare (t ∷ ts)

get_elem?-shorter :
    (ts : List ℕ) (i j u : ℕ)
    → i ≤ j
    → get_elem? ts j ≡ some u
    → (v : ℕ) × (get_elem? ts i ≡ some v)
get_elem?-shorter [] i j u le h = ground arith
get_elem?-shorter (t ∷ ts) zero j u le h = (t, refl)
get_elem?-shorter (t ∷ ts) (suc i) zero u le h = ground arith
get_elem?-shorter (t ∷ ts) (suc i) (suc j) u le h = get_elem?-shorter ts i j u (omega arith) h

-- The oldest of six is not after the third before the window.
IsRare-newest :
    (p : Pace) (t u : ℕ) (ts : List ℕ)
    → IsBusy p t ts
    → Spaced (t ∷ ts)
    → get_elem? (t ∷ ts) 5 ≡ some u
    → u + minutes 10 ≤ t
IsRare-newest p t u ts b s h =
    let (v, third) =
      get_elem?-shorter (t ∷ ts) (p.count + 2) 5 u (omega (arith, b.few_counted)) h in
    let older : u ≤ v =
      Spaced-older (t ∷ ts) (p.count + 2) 5 v u (omega (arith, b.few_counted)) s third h in
    let started : b.start ≤ t = Spaced-before t b.start ts (p.count - 1) s b.began in
    omega (arith, b.prior v third)

IsRare-more :
    (p : Pace) (t : ℕ) (ts : List ℕ) → IsBusy p t ts → Spaced (t ∷ ts) → IsRare ts → IsRare (t ∷ ts)
IsRare-more p t ts b s r zero a u h g =
    let same : t ≡ a = ground arith in
    let far : u + minutes 10 ≤ t = IsRare-newest p t u ts b s g in ground arith
IsRare-more p t ts b s r (suc i) a u h g = r i a u h (ground arith)

IsBusy-first :
    (q : Pace) (now : ℕ)
    → q ≡ record { last = some now; window = some now; count = 1 }
    → IsBusy q now []
IsBusy-first q now new = record {
  start = now;
  is_last = ap (λ p. p.last) new;
  is_window = ap (λ p. p.window) new;
  some_counted = ground arith;
  few_counted = ground arith;
  began = ground arith;
  prior = λ u h. ground arith;
}

IsBusy-new :
    (p q : Pace) (now t : ℕ) (ts : List ℕ)
    → IsBusy p t ts
    → Spaced (t ∷ ts)
    → Ended now p.window
    → q ≡ record { last = some now; window = some now; count = 1 }
    → IsBusy q now (t ∷ ts)
IsBusy-new p q now t ts b s late new =
    let over : b.start + minutes 10 ≤ now = ground (arith, b.is_window) in
    let one : q.count ≡ 1 = ap (λ p. p.count) new in
    record {
      start = now;
      is_last = ap (λ p. p.last) new;
      is_window = ap (λ p. p.window) new;
      some_counted = ground arith;
      few_counted = ground arith;
      began = rw one refl;
      prior = λ u h.
          let at : get_elem? (t ∷ ts) 2 ≡ some u = ground arith in
          let older : u ≤ b.start =
            Spaced-older (t ∷ ts) (p.count - 1) 2 b.start u (omega (arith, b.few_counted)) s b.began
              at in
          ground arith;
    }

IsBusy-more :
    (p q : Pace) (now t start : ℕ) (ts : List ℕ)
    → IsBusy p t ts
    → p.window ≡ some start
    → p.count < 3
    → q ≡ record { last = some now; window = some start; count = p.count + 1 }
    → IsBusy q now (t ∷ ts)
IsBusy-more p q now t start ts b w few more =
    let same : b.start ≡ start = ground (arith, b.is_window) in
    record {
      start = start;
      is_last = ap (λ p. p.last) more;
      is_window = ap (λ p. p.window) more;
      some_counted = ground arith;
      few_counted = ground arith;
      began = ground (arith, b.began, b.some_counted);
      prior = λ u h. ground (arith, b.prior u);
    }

pub IsPaced-Next :
    (p q : Pace) (now : ℕ) (ts : List ℕ) → IsPaced p ts → Next now p q → IsPaced q (now ∷ ts)
IsPaced-Next p q now [] (no_last, no_window) (rest, inl (late, new)) =
    let b = IsBusy-first q now new in
    (b, one_request now, IsRare-more q now [] b (one_request now) λ i t u h g. ground arith)
IsPaced-Next p q now [] (no_last, no_window) (rest, inr (start, w, few, more)) = ground arith
IsPaced-Next p q now (t ∷ ts) (b, s, r) (rest, inl (late, new)) =
    let b' = IsBusy-new p q now t ts b s late new in
    let s' : Spaced (now ∷ t ∷ ts) = one_more (ground (arith, b.is_last)) s in
    (b', s', IsRare-more q now (t ∷ ts) b' s' r)
IsPaced-Next p q now (t ∷ ts) (b, s, r) (rest, inr (start, w, few, more)) =
    let b' = IsBusy-more p q now t start ts b w few more in
    let s' : Spaced (now ∷ t ∷ ts) = one_more (ground (arith, b.is_last)) s in
    (b', s', IsRare-more q now (t ∷ ts) b' s' r)
