-- ===== src/Financial/Engine.antt =====
-- app/domain/services/financial_engine.py
use event_pro_backend.Prelude.{
  Bool, true, false, ◌&&◌, ◌||◌, Option, none, some, List, [], ◌∷◌, ℤ, pos, ltb_ℤ, leb_ℤ,
  if◌then◌else◌,
}
use event_pro_backend.Method.{Result, ok, err, and_then, validation}
use event_pro_backend.Money.{Money, pen, zero_pen, money, amount, add, sub, greater}
use event_pro_backend.Money.Decimals.{Decimal, of_int, plus, times, percent}
use event_pro_backend.Financial.Liquidations.{
  ExtraCharge, subtotal, Liquidation, liquidation, not_pen, is_negative,
}
use event_pro_backend.Financial.Mobility.{
  MobilityZone, exempt, route, contingency, RouteEstimate, MobilityTariff, zone_amount,
  MobilityResult,
}

pub record FinancialEngine : Type 0 where
  pub tariff : MobilityTariff
  pub advance_percent : ℤ

-- The constructor.
unfoldable pub financial_engine : MobilityTariff → ℤ → Result FinancialEngine
financial_engine tariff advance_percent =
    if ltb_ℤ (pos 0) advance_percent && leb_ℤ advance_percent (pos 100)
    then ok (record { tariff = tariff; advance_percent = advance_percent })
    else err validation

-- `max(a, b)`: Python keeps `a` unless `b > a`.
abbrev pub max_money : Money → Money → Result Money
max_money a b = and_then (greater b a) λ larger. ok (if larger then b else a)

abbrev pub hundred : Decimal
hundred = of_int (pos 100)

-- The distance as the `Decimal` that it is.
abbrev pub kilometres : RouteEstimate → Decimal
kilometres e = record { coefficient = e.distance_km; scale = 2 }

-- `FinancialEngine.mobility`
unfoldable pub mobility : FinancialEngine → RouteEstimate → Result MobilityResult
mobility engine estimate =
    let t = engine.tariff in
    let raw =
      plus (times (amount t.rate_per_km) (kilometres estimate))
        (times (amount t.rate_per_minute) (of_int estimate.duration_minutes)) in
    and_then (money raw pen) λ by_route. and_then (max_money by_route t.minimum_amount) λ base.
      and_then (money (percent (times (amount base) (plus hundred t.margin_percent))) pen) λ final.
        ok (record {
          scenario = route;
          distance_km = some estimate.distance_km;
          duration_minutes = some estimate.duration_minutes;
          base_amount = base;
          final_amount = final;
        })

-- `FinancialEngine.contingency`; the method and the scenario share their name in the source.
unfoldable pub contingency_amount : FinancialEngine → MobilityZone → MobilityResult
contingency_amount engine zone = record {
  scenario = contingency;
  distance_km = none;
  duration_minutes = none;
  base_amount = zone_amount engine.tariff zone;
  final_amount = zone_amount engine.tariff zone;
}

unfoldable pub resolve_mobility :
    FinancialEngine → Bool → Option RouteEstimate → MobilityZone → Result MobilityResult
unfolding zero_pen contingency_amount
resolve_mobility engine true estimate zone = ok (record {
  scenario = exempt;
  distance_km = none;
  duration_minutes = none;
  base_amount = zero_pen;
  final_amount = zero_pen;
})
resolve_mobility engine false (some estimate) zone = mobility engine estimate
resolve_mobility engine false none zone = ok (contingency_amount engine zone)

-- `for extra in extras: services = services + extra.subtotal`
unfoldable pub add_extras : Money → List ExtraCharge → Result Money
add_extras services [] = ok services
add_extras services (extra ∷ extras) =
    and_then (subtotal extra) λ s. and_then (add services s) λ sum. add_extras sum extras

unfoldable pub liquidate : FinancialEngine → Money → List ExtraCharge → Money → Result Liquidation
liquidate engine package_price extras mobility_amount =
    if not_pen package_price || not_pen mobility_amount
    then err validation
    else if leb_ℤ package_price.cents (pos 0)
    then err validation
    else if is_negative mobility_amount
    then err validation
    else and_then (add_extras package_price extras) λ services.
      and_then (money (percent (times (amount services) (of_int engine.advance_percent))) pen)
        λ advance. and_then (add services mobility_amount) λ total.
          and_then (sub total advance) λ pending. and_then (sub services advance) λ rest.
            liquidation (record {
              services_subtotal = services;
              mobility_amount = mobility_amount;
              total_amount = total;
              advance_amount = advance;
              pending_balance = pending;
              balance_services = rest;
              balance_mobility = mobility_amount;
            })
