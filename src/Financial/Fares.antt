-- ===== src/Financial/Fares.antt =====
-- What a client pays for mobility (RN-03).
use native.Mathlib.Nat.{one-le-pow}
use native.Mathlib.Numerals.{towards_suc}
use event_pro_backend.Prelude.{
  ℕ, ◌+◌, ◌-◌, ◌*◌, ◌/◌, ◌^◌, ◌≤◌, ◌<◌, ◌≡◌, refl, true, false, Option, none, some, max, arith, ℤ,
  pos, pos_part,
}
use event_pro_backend.Method.{ok}
use event_pro_backend.Money.{Money, pen, money, amount, greater}
use event_pro_backend.Money.Decimals.{plus, percent, times, of_int}
use event_pro_backend.Money.Laws.{soles, mul_pos, add_pos}
use event_pro_backend.Financial.Mobility.{
  MobilityTariff, mobility_tariff, RouteEstimate, bad_rate, zone_amount, MobilityZone,
  MobilityResult, exempt, route, contingency,
}
use event_pro_backend.Financial.Settlement.{soles_of}
use event_pro_backend.Financial.Engine.{
  FinancialEngine, mobility, max_money, hundred, resolve_mobility,
}

-- Rounding to the nearest gives no less than an integer that the quotient reaches.
le-round : (k n d : ℕ) → 0 < d → k * d ≤ n → k ≤ (2 * n + d) / (2 * d)
le-round k n d h le = grind arith

pow-add_two : (s : ℕ) → 10 ^ (s + 2) ≡ 100 * 10 ^ s
pow-add_two s = simp towards_suc (omega arith)

-- The fare of the route, in ten-thousandths of a sol: distance in hundredths of a kilometre.
abbrev pub raw_fare : ℕ → ℕ → ℕ → ℕ → ℕ
raw_fare a d b m = a * d + 100 * (b * m)

abbrev pub route_cents : ℕ → ℕ → ℕ → ℕ → ℕ
route_cents a d b m = (2 * raw_fare a d b m + 100) / 200

-- `x` cents with the margin g / 10 ^ s per cent.
abbrev pub with_margin : ℕ → ℕ → ℕ → ℕ
with_margin x g s = (2 * (x * (100 * 10 ^ s + g)) + 10 ^ (s + 2)) / (2 * 10 ^ (s + 2))

route_money :
    (a d b m : ℕ)
    → money
        (plus
          (times (amount (soles (pos a))) (record { coefficient = pos d; scale = 2 }))
          (times (amount (soles (pos b))) (of_int (pos m))))
        pen
      ≡ ok (soles (pos (route_cents a d b m)))
unfolding money plus times
route_money a d b m = simp (mul_pos, add_pos) (ground arith)

margin_money :
    (x g s : ℕ)
    → money
        (percent (
          times
            (amount (soles (pos x)))
            (plus hundred (record { coefficient = pos g; scale = s }))))
        pen
      ≡ ok (soles (pos (with_margin x g s)))
unfolding money plus times percent
margin_money x g s =
    let whole : max 0 s - 0 ≡ s = omega arith in
    let rest : max 0 s - s ≡ 0 = omega arith in
    let digits : 2 + max 0 s + 2 - 2 ≡ s + 2 = omega arith in
    simp (mul_pos, add_pos, whole, rest, digits) (ground arith)

margin-le : (x g s : ℕ) → x ≤ with_margin x g s
margin-le x g s =
    let p = 10 ^ s in
    let bound : x * (100 * p) ≤ x * (100 * p + g) = grind arith in
    le-round x (x * (100 * p + g)) (10 ^ (s + 2))
      (rw (pow-add_two s) (omega (arith, one-le-pow s 10 (omega arith)))) (rw (pow-add_two s) bound)

-- The cents of an amount that is not negative.
abbrev pub cents_of : Money → ℕ
cents_of m = pos_part m.cents

abbrev pub IsAmount : Money → Type 0
IsAmount m = m ≡ soles (pos (cents_of m))

IsAmount-of_rate : (m : Money) → bad_rate m ≡ false → IsAmount m
IsAmount-of_rate m h = soles_of m (pos (cents_of m)) (ground arith) (ground arith)

-- What the constructor of a tariff checks.
pub record IsTariff (t : MobilityTariff) : Type 0 where
  pub per_km : IsAmount t.rate_per_km
  pub per_minute : IsAmount t.rate_per_minute
  pub least : IsAmount t.minimum_amount
  pub margin : t.margin_percent.coefficient ≡ pos (pos_part t.margin_percent.coefficient)
  pub first_zone : IsAmount t.zone_1_amount
  pub second_zone : IsAmount t.zone_2_amount
  pub third_zone : IsAmount t.zone_3_amount

pub mobility_tariff-IsTariff : (t : MobilityTariff) → mobility_tariff t ≡ ok t → IsTariff t
unfolding mobility_tariff
mobility_tariff-IsTariff t h = record {
  per_km = IsAmount-of_rate t.rate_per_km (ground arith);
  per_minute = IsAmount-of_rate t.rate_per_minute (ground arith);
  least = IsAmount-of_rate t.minimum_amount (ground arith);
  margin = ground arith;
  first_zone = IsAmount-of_rate t.zone_1_amount (ground arith);
  second_zone = IsAmount-of_rate t.zone_2_amount (ground arith);
  third_zone = IsAmount-of_rate t.zone_3_amount (ground arith);
}

max-soles : (x y : ℕ) → max_money (soles (pos x)) (soles (pos y)) ≡ ok (soles (pos (max x y)))
unfolding greater
max-soles x y = ground arith

zone-IsAmount :
    (t : MobilityTariff) (zone : MobilityZone) → IsTariff t → IsAmount (zone_amount t zone)
zone-IsAmount t zone v = ground arith

-- The base and the final amount of a route of `d` hundredths of a kilometre and `m` minutes.
abbrev pub base_cents : MobilityTariff → ℕ → ℕ → ℕ
base_cents t d m =
    max (route_cents (cents_of t.rate_per_km) d (cents_of t.rate_per_minute) m)
      (cents_of t.minimum_amount)

abbrev pub final_cents : MobilityTariff → ℕ → ℕ → ℕ
final_cents t d m =
    with_margin (base_cents t d m) (pos_part t.margin_percent.coefficient) t.margin_percent.scale

-- With a tariff that its constructor accepts, `mobility` returns for every route of a distance and
-- a duration that are not negative: the base is the larger of the minimum and the fare by
-- distance and time to the nearest cent, the final amount is the base with the margin to the
-- nearest cent, and it is never below the base, nor the base below the minimum.
pub mobility_fare :
    (t : MobilityTariff) (percentage : ℤ) (d m : ℕ)
    → mobility_tariff t ≡ ok t
    → (mobility
          (record { tariff = t; advance_percent = percentage })
          (record { distance_km = pos d; duration_minutes = pos m })
        ≡ ok (record {
          scenario = route;
          distance_km = some (pos d);
          duration_minutes = some (pos m);
          base_amount = soles (pos (base_cents t d m));
          final_amount = soles (pos (final_cents t d m));
        }))
      × (cents_of t.minimum_amount ≤ base_cents t d m)
      × (base_cents t d m ≤ final_cents t d m)
unfolding mobility
mobility_fare t percentage d m h =
    let v = mobility_tariff-IsTariff t h in
    let a = cents_of t.rate_per_km in
    let b = cents_of t.rate_per_minute in
    let g = pos_part t.margin_percent.coefficient in
    let s = t.margin_percent.scale in
    (
      ground (
        arith,
        v.per_km,
        v.per_minute,
        v.least,
        v.margin,
        route_money a d b m,
        max-soles (route_cents a d b m) (cents_of t.minimum_amount),
        margin_money (base_cents t d m) g s,
      ),
      omega arith,
      margin-le (base_cents t d m) g s,
    )

-- With a tariff that its constructor accepts, a distance and a duration that are not negative,
-- `resolve_mobility` always returns, and both amounts are PEN and not negative: nothing is charged
-- to a client who provides the mobility, whatever the estimate and the zone; else the estimate
-- decides if there is one; else the zone's fixed amount is charged as it is.
pub resolve_mobility_total :
    (t : MobilityTariff) (percentage : ℤ) (d m : ℕ) (zone : MobilityZone)
    → mobility_tariff t ≡ ok t
    → let engine : FinancialEngine = record { tariff = t; advance_percent = percentage } in
      let estimate : RouteEstimate = record { distance_km = pos d; duration_minutes = pos m } in
      ((e : Option RouteEstimate)
        → (r : MobilityResult) × (resolve_mobility engine true e zone ≡ ok r)
          × (r.scenario ≡ exempt)
          × (r.base_amount ≡ soles (pos 0))
          × (r.final_amount ≡ soles (pos 0)))
      × ((r : MobilityResult) × (resolve_mobility engine false (some estimate) zone ≡ ok r)
          × (r.scenario ≡ route)
          × IsAmount r.base_amount
          × IsAmount r.final_amount
          × (cents_of r.base_amount ≤ cents_of r.final_amount))
      × ((r : MobilityResult) × (resolve_mobility engine false none zone ≡ ok r)
          × (r.scenario ≡ contingency)
          × IsAmount r.final_amount
          × (r.base_amount ≡ r.final_amount)
          × (r.final_amount ≡ zone_amount t zone))
unfolding resolve_mobility
resolve_mobility_total t percentage d m zone h =
    let v = mobility_tariff-IsTariff t h in
    let (fare, _, le) = mobility_fare t percentage d m h in
    (
      λ e. (_, refl, refl, refl, refl),
      (_, fare, refl, refl, refl, le),
      (_, refl, refl, zone-IsAmount t zone v, refl, refl),
    )
