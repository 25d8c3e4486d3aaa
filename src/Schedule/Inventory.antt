-- ===== src/Schedule/Inventory.antt =====
-- app/domain/services/inventory_availability.py (RF-09, US-08).
use event_pro_backend.Prelude.{
  ℕ, ◌==◌, Bool, ◌&&◌, List, [], ◌∷◌, ℤ, pos, ltb_ℤ, leb_ℤ, ◌+ℤ◌, ◌-ℤ◌, if◌then◌else◌,
}
use event_pro_backend.Method.{Result, ok, err, and_then, value_error}
use event_pro_backend.Schedule.{TimeWindow, overlaps}

pub record InventoryReservation : Type 0 where
  pub inventory_item_id : ℕ
  pub quantity : ℤ
  pub window : TimeWindow

-- The constructor, with the check of `__post_init__`.
unfoldable pub inventory_reservation : InventoryReservation → Result InventoryReservation
inventory_reservation r = if leb_ℤ r.quantity (pos 0) then err value_error else ok r

pub record InventoryRequest : Type 0 where
  pub inventory_item_id : ℕ
  pub quantity : ℤ
  pub window : TimeWindow

-- The constructor, with the check of `__post_init__`.
unfoldable pub inventory_request : InventoryRequest → Result InventoryRequest
inventory_request r = if leb_ℤ r.quantity (pos 0) then err value_error else ok r

pub record InventoryCheck : Type 0 where
  pub is_available : Bool
  pub requested_quantity : ℤ
  pub available_quantity : ℤ

-- `max(0, n)`
abbrev pub at_least_zero : ℤ → ℤ
at_least_zero n = if ltb_ℤ (pos 0) n then n else pos 0

-- `InventoryCheck.missing_quantity`
unfoldable pub missing_quantity : InventoryCheck → ℤ
missing_quantity c = at_least_zero (c.requested_quantity -ℤ c.available_quantity)

unfoldable pub reserved_quantity : ℕ → List InventoryReservation → TimeWindow → ℤ
reserved_quantity item [] window = pos 0
reserved_quantity item (r ∷ rs) window =
    (if r.inventory_item_id == item && overlaps r.window window then r.quantity else pos 0)
    +ℤ reserved_quantity item rs window

unfoldable pub available_quantity : ℤ → ℕ → List InventoryReservation → TimeWindow → Result ℤ
available_quantity total_stock item reservations window =
    if ltb_ℤ total_stock (pos 0)
    then err value_error
    else ok (at_least_zero (total_stock -ℤ reserved_quantity item reservations window))

unfoldable pub check : ℤ → List InventoryReservation → InventoryRequest → Result InventoryCheck
unfolding available_quantity
check total_stock reservations request =
    and_then (available_quantity total_stock request.inventory_item_id reservations request.window)
      λ available. ok (record {
        is_available = leb_ℤ request.quantity available;
        requested_quantity = request.quantity;
        available_quantity = available;
      })
