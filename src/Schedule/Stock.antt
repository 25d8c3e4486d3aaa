-- ===== src/Schedule/Stock.antt =====
-- The checks of availability against what is used at an instant.
use event_pro_backend.Prelude.{
  ℕ, ◌+◌, ◌≤◌, ◌==◌, ◌≡◌, ◌⊎◌, refl, Bool, true, false, ◌&&◌, List, [], ◌∷◌, All, ltb, leb, leb_ℤ,
  ℤ, pos, ◌+ℤ◌, ◌-ℤ◌, ◌≤ℤ◌, ◌<ℤ◌, int_laws, if◌then◌else◌, arith,
}
use event_pro_backend.Method.{ok}
use event_pro_backend.Schedule.{TimeWindow, overlaps}
use event_pro_backend.Schedule.Overlap.{Covers}
use event_pro_backend.Schedule.Concurrency.{
  overlapping, simultaneous_count, requires_manual_approval,
}
use event_pro_backend.Schedule.Inventory.{
  InventoryReservation, inventory_reservation, InventoryRequest, inventory_request, InventoryCheck,
  reserved_quantity, missing_quantity, check, at_least_zero,
}

abbrev pub covers : TimeWindow → ℕ → Bool
covers w t = leb w.start t && ltb t w.end

-- The shows that are on at an instant.
unfoldable pub on_at : List TimeWindow → ℕ → ℕ
on_at [] t = 0
on_at (w ∷ ws) t = (if covers w t then 1 else 0) + on_at ws t

pub on_at-le :
    (ws : List TimeWindow) (candidate : TimeWindow) (t : ℕ)
    → Covers candidate t
    → on_at ws t ≤ overlapping ws candidate
unfolding on_at overlapping overlaps
on_at-le [] candidate t c = omega arith
on_at-le (w ∷ ws) candidate t c = ground (arith, on_at-le ws candidate t c)

-- A new show that needs no manual approval never raises the number of shows that are on at once,
-- itself included, above the threshold, at any instant of it.
pub approval_bounds_shows :
    (n : ℕ) (ws : List TimeWindow) (candidate : TimeWindow) (t : ℕ)
    → requires_manual_approval (record { threshold = pos n }) ws candidate ≡ false
    → Covers candidate t
    → on_at (candidate ∷ ws) t ≤ n
unfolding requires_manual_approval simultaneous_count on_at
approval_bounds_shows n ws candidate t h c = ground (arith, on_at-le ws candidate t c)

-- The units of an item that the reservations hold at an instant.
unfoldable pub held_at : ℕ → List InventoryReservation → ℕ → ℤ
held_at item [] t = pos 0
held_at item (r ∷ rs) t =
    (if r.inventory_item_id == item && covers r.window t then r.quantity else pos 0)
    +ℤ held_at item rs t

abbrev pub IsReservation : InventoryReservation → Type 0
IsReservation r = inventory_reservation r ≡ ok r

positive_quantity : (r : InventoryReservation) → IsReservation r → pos 0 <ℤ r.quantity
unfolding inventory_reservation
positive_quantity r h = ground arith

-- One reservation: what it holds at an instant of the window is counted for the window.
one_held :
    (item : ℕ) (r : InventoryReservation) (window : TimeWindow) (t : ℕ)
    → IsReservation r
    → Covers window t
    → (if r.inventory_item_id == item && covers r.window t then r.quantity else pos 0)
      ≤ℤ (if r.inventory_item_id == item && overlaps r.window window then r.quantity else pos 0)
unfolding overlaps
one_held item r window t v c = ground (arith, positive_quantity r v)

held_at-le :
    (item : ℕ) (rs : List InventoryReservation) (window : TimeWindow) (t : ℕ)
    → All IsReservation rs
    → Covers window t
    → held_at item rs t ≤ℤ reserved_quantity item rs window
unfolding held_at reserved_quantity
held_at-le item [] window t v c = omega arith
held_at-le item (r ∷ rs) window t v c =
    omega (int_laws, one_held item r window t v.0 c, held_at-le item rs window t v.1 c)

-- If `check` finds a request available, then at every instant of the requested window the units
-- that the active reservations of the item hold and the requested ones are together no more than
-- the stock: a unit is never reserved twice for one instant.
pub check_never_overbooks :
    (stock : ℤ) (rs : List InventoryReservation) (request : InventoryRequest)
    (result : InventoryCheck) (t : ℕ)
    → All IsReservation rs
    → inventory_request request ≡ ok request
    → check stock rs request ≡ ok result
    → result.is_available ≡ true
    → Covers request.window t
    → held_at request.inventory_item_id rs t +ℤ request.quantity ≤ℤ stock
unfolding check inventory_request
check_never_overbooks stock rs request result t v q h a c =
    let item = request.inventory_item_id in
    let reserved = reserved_quantity item rs request.window in
    let enough : request.quantity ≤ℤ at_least_zero (stock -ℤ reserved) = ground arith in
    let wanted : pos 0 <ℤ request.quantity = ground arith in
    let left : request.quantity ≤ℤ stock -ℤ reserved = ground arith in
    omega (int_laws, held_at-le item rs request.window t v c)

-- `check` of a stock that is not negative always returns, says yes exactly if no unit is missing,
-- and the missing units are what the stock left over by the overlapping reservations, or 0 if they
-- hold more than the stock, falls short of the request.
pub check_missing :
    (n : ℕ) (rs : List InventoryReservation) (request : InventoryRequest)
    → let left =
        at_least_zero (pos n -ℤ reserved_quantity request.inventory_item_id rs request.window) in
      (result : InventoryCheck) × (check (pos n) rs request ≡ ok result)
      × (result.available_quantity ≡ left)
      × ((result.is_available ≡ true) × (missing_quantity result ≡ pos 0)
          ⊎ (result.is_available ≡ false)
            × (pos 0 <ℤ missing_quantity result)
            × (left +ℤ missing_quantity result ≡ request.quantity))
unfolding check missing_quantity ◌+ℤ◌ ◌-ℤ◌
check_missing n rs request =
    let left =
      at_least_zero (pos n -ℤ reserved_quantity request.inventory_item_id rs request.window) in
    (
      record {
        is_available = leb_ℤ request.quantity left;
        requested_quantity = request.quantity;
        available_quantity = left;
      },
      ground arith,
      refl,
      ground arith,
    )
