-- ===== src/Quote/Examples.antt =====
-- Runs of a quote, and its theorems at them.
use event_pro_backend.Prelude.{◌≡◌, refl, false, none, some, [], ◌∷◌, codes, pos, ◌*ℤ◌, ◌+ℤ◌}
use event_pro_backend.Method.{ok}
use event_pro_backend.Clock.{aware, add_delta}
use event_pro_backend.Money.{add, zero_pen, greater}
use event_pro_backend.Money.Laws.{soles}
use event_pro_backend.Financial.Liquidations.{Liquidation}
use event_pro_backend.Financial.Settlement.{settled}
use event_pro_backend.Financial.Mobility.{route}
use event_pro_backend.Quote.{
  Quote, NewQuote, QuoteExtraLine, add_lines, whatsapp, sent, converted, create,
}
use event_pro_backend.Quote.Calls.{start_call, convert_call, after, ◌⟶*◌, Later, same, called}
use event_pro_backend.Quote.Lifecycle.{IsFrozen, Later-lifecycle}

abbrev plan : Liquidation
plan = settled 60000 4000 30000

abbrev pub line : QuoteExtraLine
line = record {
  extra_id = 3;
  quantity = pos 2;
  unit_price = soles (pos 5000);
  subtotal = soles (pos 10000);
}

abbrev request : NewQuote
request = record {
  client_id = 1;
  source = whatsapp;
  event_date = 739000;
  event_time = 0;
  location_address = codes "Av. Larco 1";
  location_district = codes "Miraflores";
  package_id = 2;
  theme_id = none;
  client_provides_mobility = false;
  mobility = record {
    scenario = route;
    distance_km = some (pos 1000);
    duration_minutes = some (pos 30);
    base_amount = soles (pos 3500);
    final_amount = soles (pos 4000);
  };
  liquidation = plan;
  extras = line ∷ [];
  now = aware 1000;
  deadline_hours = pos 24;
  latitude = none;
  longitude = none;
  manual_request_hash = none;
  mobility_overridden = false;
  mobility_override_reason = none;
  observations = none;
}

abbrev pub offer : Quote
offer = record {
  id = 9;
  client_id = 1;
  source = whatsapp;
  event_date = 739000;
  event_time = 0;
  location_address = codes "Av. Larco 1";
  location_district = codes "Miraflores";
  package_id = 2;
  liquidation = plan;
  sent_at = 1000;
  expires_at = 86400001000;
  theme_id = none;
  latitude = none;
  longitude = none;
  client_provides_mobility = false;
  calculated_distance_km = some (pos 1000);
  calculated_transit_minutes = some (pos 30);
  base_mobility_amount = soles (pos 3500);
  mobility_overridden = false;
  mobility_override_reason = none;
  extras = line ∷ [];
  status = sent;
  manual_request_hash = none;
  observations = none;
  cancellation_reason = none;
}

offer-create : create 9 request ≡ ok offer
unfolding create add_lines add zero_pen greater ◌*ℤ◌ ◌+ℤ◌ add_delta
offer-create = refl

abbrev paid : Quote
paid = after convert_call (after (start_call (aware 2000)) offer)

paid-Later : Later offer paid
paid-Later = called convert_call (called (start_call (aware 2000)) same)

Later-lifecycle_example : (offer.status ⟶* paid.status) × IsFrozen offer paid
Later-lifecycle_example = Later-lifecycle paid-Later

abbrev closed : Quote
closed = record offer { status = converted }
