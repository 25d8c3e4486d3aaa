-- ===== src/Occupancy/Examples.antt =====
-- An event that can be extended, beside another show, with an item and a crew, and the theorem at it.
use event_pro_backend.Prelude.{◌≡◌, refl, some, [], ◌∷◌, pos, ◌+ℤ◌, ◌-ℤ◌, ◌*ℤ◌}
use event_pro_backend.Method.{ok}
use event_pro_backend.Clock.{minutes}
use event_pro_backend.Schedule.{TimeWindow, combine, overlaps}
use event_pro_backend.Schedule.Concurrency.{simultaneous_count, overlapping}
use event_pro_backend.Schedule.Inventory.{
  inventory_reservation, inventory_request, reserved_quantity,
}
use event_pro_backend.Event.{window_with_extra_minutes}
use event_pro_backend.Event.Examples.{party}
use event_pro_backend.Occupancy.{
  InventoryOccupancy, CrewOccupancy, EventOccupancy, check_extension_availability,
}
use event_pro_backend.Occupancy.Free.{IsStock, IsFree, check_extension_availability-IsFree}

-- The window of the event, until 02:00, and the show after it, from 04:00.
abbrev night : TimeWindow
night = record { start = combine 739000 (minutes 1320); end = combine 739001 (minutes 120) }

abbrev dawn : TimeWindow
dawn = record { start = combine 739001 (minutes 240); end = combine 739001 (minutes 300) }

abbrev tents : InventoryOccupancy
tents = record {
  total_stock = pos 6;
  request = record { inventory_item_id = 3; quantity = pos 2; window = night };
  reservations = record { inventory_item_id = 3; quantity = pos 4; window = night } ∷ [];
}

abbrev next_show : CrewOccupancy
next_show = record { crew_id = 1; window = dawn; transit_interval_minutes = some (pos 45) }

abbrev occupancy : EventOccupancy
occupancy = record {
  simultaneous_windows = night ∷ dawn ∷ [];
  inventory = tents ∷ [];
  crews = next_show ∷ [];
}

tents-IsStock : IsStock tents
unfolding inventory_reservation inventory_request
tents-IsStock = ((refl, tt), refl)

passes : check_extension_availability party occupancy (pos 3) ≡ ok tt
unfolding check_extension_availability window_with_extra_minutes reserved_quantity overlaps ◌+ℤ◌
    ◌-ℤ◌ ◌*ℤ◌ simultaneous_count overlapping
passes = refl

check_extension_availability-IsFree_example : IsFree party occupancy 3
check_extension_availability-IsFree_example =
    check_extension_availability-IsFree party occupancy 3 (tents-IsStock, tt) passes
