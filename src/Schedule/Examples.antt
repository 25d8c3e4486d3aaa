-- ===== src/Schedule/Examples.antt =====
-- Windows, stock and shows at hand, and the theorems at them.
use event_pro_backend.Prelude.{◌≡◌, refl, true, false, [], ◌∷◌, arith, ℤ, pos, ◌+ℤ◌, ◌-ℤ◌, ◌≤ℤ◌}
use event_pro_backend.Method.{ok}
use event_pro_backend.Clock.{minutes}
use event_pro_backend.Schedule.{TimeWindow, overlaps}
use event_pro_backend.Schedule.Concurrency.{
  requires_manual_approval, simultaneous_count, overlapping,
}
use event_pro_backend.Schedule.Inventory.{
  InventoryReservation, inventory_reservation, InventoryRequest, inventory_request, InventoryCheck,
  check, at_least_zero, reserved_quantity,
}
use event_pro_backend.Schedule.Travel.{TravelIntervalService, travel_interval_service}
use event_pro_backend.Schedule.Stock.{held_at, check_never_overbooks}

abbrev morning : TimeWindow
morning = record { start = minutes 600; end = minutes 720 }

abbrev noon : TimeWindow
noon = record { start = minutes 720; end = minutes 780 }

abbrev late_morning : TimeWindow
late_morning = record { start = minutes 660; end = minutes 780 }

two_at_once :
    requires_manual_approval (record { threshold = pos 2 }) (morning ∷ noon ∷ []) morning ≡ false
unfolding requires_manual_approval simultaneous_count overlapping overlaps
two_at_once = refl

abbrev held : InventoryReservation
held = record { inventory_item_id = 3; quantity = pos 4; window = morning }

held-accepted : inventory_reservation held ≡ ok held
unfolding inventory_reservation
held-accepted = refl

abbrev wanted : InventoryRequest
wanted = record { inventory_item_id = 3; quantity = pos 2; window = late_morning }

wanted-accepted : inventory_request wanted ≡ ok wanted
unfolding inventory_request
wanted-accepted = refl

abbrev answer : InventoryCheck
answer = record { is_available = true; requested_quantity = pos 2; available_quantity = pos 2 }

six_tents : check (pos 6) (held ∷ []) wanted ≡ ok answer
unfolding check reserved_quantity overlaps ◌+ℤ◌ ◌-ℤ◌
six_tents = refl

check_never_overbooks_example : held_at 3 (held ∷ []) (minutes 700) +ℤ pos 2 ≤ℤ pos 6
check_never_overbooks_example =
    check_never_overbooks (pos 6) (held ∷ []) wanted answer (minutes 700) (held-accepted, tt)
      wanted-accepted six_tents refl (omega arith)

abbrev left_over : ℤ
left_over = at_least_zero (pos 5 -ℤ reserved_quantity 3 (held ∷ []) late_morning)

abbrev service : TravelIntervalService
service = record { rest_buffer_minutes = pos 30 }

service-accepted : travel_interval_service (pos 30) ≡ ok service
unfolding travel_interval_service
service-accepted = refl
