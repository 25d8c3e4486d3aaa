-- ===== src/Event/Closing.antt =====
-- The settlement of an event against the verified payments of its extensions.
use event_pro_backend.Prelude.{ℕ, ◌+◌, ◌≤◌, ◌≡◌, true, false, pos, arith}
use event_pro_backend.Method.{ok}
use event_pro_backend.Money.Laws.{soles, add_pos, add-soles}
use event_pro_backend.Event.{Event, settle, is_mismatch, is_uncovered, is_operating, settled}
use event_pro_backend.Event.Extension.{validate_extra_minutes, validate_extension_amount}
use event_pro_backend.Event.Calls.{IsAccepted, Later}
use event_pro_backend.Event.Balance.{
  has_started, cents_of, IsCovered, IsAccepted-amounts, Later-IsPaid,
}
use event_pro_backend.Event.Invariant.{Later-IsAccepted}

module _ (e : Event) (f a p x l v : ℕ) (hf : e.final_total_amount ≡ soles (pos f))
    (ha : e.advance_paid ≡ soles (pos a)) (hp : e.pre_show_balance_paid ≡ soles (pos p))
    (hx : e.extra_hours_amount ≡ soles (pos x))
    (hl : e.legacy_extra_hours_amount ≡ soles (pos l)) where
  matching :
      (minutes : ℕ)
      → l + v ≡ x
      → e.extra_minutes_total ≡ pos minutes
      → is_mismatch (soles (pos v)) (pos minutes) e ≡ ok false
  unfolding is_mismatch
  matching minutes sum same =
      ground (arith, hx, hl, sum, same, add-soles (pos l) (pos v), add_pos l v)

  mismatch :
      (minutes : ℕ)
      → is_mismatch (soles (pos v)) (pos minutes) e ≡ ok false
      → (l + v ≡ x) × (e.extra_minutes_total ≡ pos minutes)
  unfolding is_mismatch
  mismatch minutes h = (
    ground (arith, hx, hl, add-soles (pos l) (pos v), add_pos l v),
    ground (arith, hx, hl, add-soles (pos l) (pos v), add_pos l v),
  )

  covering : f ≤ a + p + l + v → is_uncovered (soles (pos v)) e ≡ ok false
  unfolding is_uncovered
  covering h = ground (
    arith,
    hf,
    ha,
    hp,
    hl,
    add-soles (pos a) (pos p),
    add_pos a p,
    add-soles (pos (a + p)) (pos l),
    add_pos (a + p) l,
    add-soles (pos (a + p + l)) (pos v),
    add_pos (a + p + l) v,
  )

settle-matches :
    (r : Event) (v minutes : ℕ)
    → is_operating r.status ≡ true
    → v ≤ 9999999999
    → minutes ≤ 2147483647
    → is_mismatch (soles (pos v)) (pos minutes) r ≡ ok false
    → is_uncovered (soles (pos v)) r ≡ ok false
    → settle (soles (pos v)) (pos minutes) r ≡ (ok tt, record r { status = settled })
unfolding settle validate_extra_minutes validate_extension_amount
settle-matches r v minutes o hv hm m u = ground (arith, m, u)

matches-settle :
    (r : Event) (v minutes : ℕ)
    → (settle (soles (pos v)) (pos minutes) r).0 ≡ ok tt
    → is_mismatch (soles (pos v)) (pos minutes) r ≡ ok false
unfolding settle validate_extra_minutes validate_extension_amount
matches-settle r v minutes h = ground arith

-- Of an event that the constructor accepted before its start, after any calls of start, extend and
-- settle that left it in progress or extended: `settle` with a verified amount of PEN and verified
-- minutes in their ranges returns exactly if the verified amount with the legacy one is the
-- amount of the agreed extra hours and the verified minutes are the agreed ones; it then changes
-- nothing but the status, to SETTLED.
pub settle_iff :
    (e r : Event) (v minutes : ℕ)
    → IsAccepted e
    → has_started e.status ≡ false
    → Later e r
    → is_operating r.status ≡ true
    → v ≤ 9999999999
    → minutes ≤ 2147483647
    → ((cents_of r.legacy_extra_hours_amount + v ≡ cents_of r.extra_hours_amount)
          × (r.extra_minutes_total ≡ pos minutes)
        → settle (soles (pos v)) (pos minutes) r ≡ (ok tt, record r { status = settled }))
      × ((settle (soles (pos v)) (pos minutes) r).0 ≡ ok tt
          → (cents_of r.legacy_extra_hours_amount + v ≡ cents_of r.extra_hours_amount)
            × (r.extra_minutes_total ≡ pos minutes))
settle_iff e r v minutes h new l o hv hm =
    let (f, a, p, x, legacy) = IsAccepted-amounts r (Later-IsAccepted e h l) in
    let covered : IsCovered r = (Later-IsPaid e h new l).0 (ground (arith, o)) in
    (
      λ (sum, same).
          settle-matches r v minutes o hv hm
            (matching r _ _ _ _ _ v f a p x legacy minutes sum same)
            (covering r _ _ _ _ _ v f a p x legacy (omega arith)),
      λ done. mismatch r _ _ _ _ _ v f a p x legacy minutes (matches-settle r v minutes done),
    )
