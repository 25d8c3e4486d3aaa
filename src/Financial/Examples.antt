-- ===== src/Financial/Examples.antt =====
-- A liquidation and a fare, and the theorems at them.
use event_pro_backend.Prelude.{ℕ, ◌+◌, ◌-◌, ◌*◌, ◌≤◌, ◌<◌, ◌≡◌, refl, some, [], ◌∷◌, arith, pos}
use event_pro_backend.Method.{ok}
use event_pro_backend.Money.Laws.{soles}
use event_pro_backend.Financial.Liquidations.{ExtraCharge, extra_charge}
use event_pro_backend.Financial.Mobility.{MobilityTariff, mobility_tariff, route}
use event_pro_backend.Financial.Engine.{FinancialEngine, financial_engine, liquidate, mobility}
use event_pro_backend.Financial.Settlement.{charges, advance_cents, settled, liquidate_settles}
use event_pro_backend.Financial.Fares.{cents_of, base_cents, final_cents, mobility_fare}

-- The tariff of the business rules, with a margin of 15.5 per cent.
abbrev pub tariff : MobilityTariff
tariff = record {
  rate_per_km = soles (pos 150);
  rate_per_minute = soles (pos 30);
  minimum_amount = soles (pos 2000);
  margin_percent = record { coefficient = pos 155; scale = 1 };
  zone_1_amount = soles (pos 3000);
  zone_2_amount = soles (pos 5000);
  zone_3_amount = soles (pos 8000);
}

tariff-accepted : mobility_tariff tariff ≡ ok tariff
unfolding mobility_tariff
tariff-accepted = refl

abbrev pub engine : FinancialEngine
engine = record { tariff = tariff; advance_percent = pos 50 }

pub engine-accepted : financial_engine tariff (pos 50) ≡ ok engine
unfolding financial_engine
engine-accepted = refl

abbrev extra : ExtraCharge
extra = record { unit_price = soles (pos 2501); quantity = pos 3 }

extra-accepted : extra_charge extra.unit_price extra.quantity ≡ ok extra
unfolding extra_charge
extra-accepted = refl

abbrev services : ℕ
services = 60000 + charges (extra ∷ [])

liquidate_settles_example :
    (liquidate engine (soles (pos 60000)) (extra ∷ []) (soles (pos 4000))
      ≡ ok (settled services 4000 (advance_cents services 50)))
    × (advance_cents services 50 ≤ services)
    × (200 * advance_cents services 50 ≤ 2 * (services * 50) + 100)
    × (2 * (services * 50) < 200 * advance_cents services 50 + 100)
    × ((services - advance_cents services 50) + 4000 ≡ services + 4000 - advance_cents services 50)
    × (advance_cents services 50 + (services + 4000 - advance_cents services 50) ≡ services + 4000)
liquidate_settles_example =
    liquidate_settles tariff 50 engine 60000 4000 (extra ∷ []) engine-accepted (omega arith)
      (extra-accepted, tt)

-- 10.07 km and 31 minutes cost 24.41 soles, and 28.19 with the margin (28.19355).
fare_of_a_route : (base_cents tariff 1007 31 ≡ 2441) × (final_cents tariff 1007 31 ≡ 2819)
fare_of_a_route = (refl, refl)

mobility_fare_example :
    (mobility engine (record { distance_km = pos 1007; duration_minutes = pos 31 })
      ≡ ok (record {
        scenario = route;
        distance_km = some (pos 1007);
        duration_minutes = some (pos 31);
        base_amount = soles (pos (base_cents tariff 1007 31));
        final_amount = soles (pos (final_cents tariff 1007 31));
      }))
    × (cents_of tariff.minimum_amount ≤ base_cents tariff 1007 31)
    × (base_cents tariff 1007 31 ≤ final_cents tariff 1007 31)
mobility_fare_example = mobility_fare tariff (pos 50) 1007 31 tariff-accepted
