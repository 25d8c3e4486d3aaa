-- ===== src/Financial/Mobility.antt =====
-- app/domain/value_objects/mobility.py
use event_pro_backend.Prelude.{Bool, ◌||◌, Option, ℤ, pos, ltb_ℤ, if◌then◌else◌}
use event_pro_backend.Method.{Result, ok, err, validation}
use event_pro_backend.Money.{Money}
use event_pro_backend.Money.Decimals.{Decimal, quantize}
use event_pro_backend.Financial.Liquidations.{not_pen, is_negative}

pub data MobilityZone : Type 0 where
  zone_1 zone_2 zone_3 : MobilityZone

pub data MobilityScenario : Type 0 where
  exempt route contingency : MobilityScenario

-- The distance is kept at two decimals: in hundredths of a kilometre.
pub record RouteEstimate : Type 0 where
  pub distance_km : ℤ
  pub duration_minutes : ℤ

-- 9999.99 km
abbrev pub max_distance_km : ℤ
max_distance_km = pos 999999

-- The constructor, with the checks of `__post_init__` on a finite distance.
unfoldable pub route_estimate : Decimal → ℤ → Result RouteEstimate
route_estimate distance_km duration_minutes =
    let distance = quantize distance_km in
    if ltb_ℤ distance (pos 0) || ltb_ℤ duration_minutes (pos 0)
    then err validation
    else if ltb_ℤ max_distance_km distance
    then err validation
    else ok (record { distance_km = distance; duration_minutes = duration_minutes })

pub record MobilityTariff : Type 0 where
  pub rate_per_km : Money
  pub rate_per_minute : Money
  pub minimum_amount : Money
  pub margin_percent : Decimal
  pub zone_1_amount : Money
  pub zone_2_amount : Money
  pub zone_3_amount : Money

abbrev pub bad_rate : Money → Bool
bad_rate m = not_pen m || is_negative m

-- The constructor, with the checks of `__post_init__`.
unfoldable pub mobility_tariff : MobilityTariff → Result MobilityTariff
mobility_tariff t =
    if bad_rate t.rate_per_km
      || bad_rate t.rate_per_minute
      || bad_rate t.minimum_amount
      || bad_rate t.zone_1_amount
      || bad_rate t.zone_2_amount
      || bad_rate t.zone_3_amount
    then err validation
    else if ltb_ℤ t.margin_percent.coefficient (pos 0)
    then err validation
    else ok t

abbrev pub zone_amount : MobilityTariff → MobilityZone → Money
zone_amount t zone_1 = t.zone_1_amount
zone_amount t zone_2 = t.zone_2_amount
zone_amount t zone_3 = t.zone_3_amount

pub record MobilityResult : Type 0 where
  pub scenario : MobilityScenario
  pub distance_km : Option ℤ
  pub duration_minutes : Option ℤ
  pub base_amount : Money
  pub final_amount : Money
