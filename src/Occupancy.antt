-- ===== src/Occupancy.antt =====
-- Whether an event can be extended where it stands: app/application/services/event_extension_availability.py,
-- over the occupancy that the query gives (app/application/dtos/event_occupancy_dto.py).
pub mod Bounds
pub mod Free
mod Examples
use event_pro_backend.Prelude.{
  ℕ, ◌==◌, ltb, leb, Bool, false, ◌||◌, Option, none, some, List, [], ◌∷◌, ℤ, pos, if◌then◌else◌,
}
use event_pro_backend.Method.{Result, ok, err, and_then, event_resource_conflict}
use event_pro_backend.Schedule.{TimeWindow, overlaps}
use event_pro_backend.Schedule.Concurrency.{concurrency_evaluator, requires_manual_approval}
use event_pro_backend.Schedule.Inventory.{InventoryReservation, InventoryRequest, check}
use event_pro_backend.Schedule.Travel.{TravelIntervalService, travel_interval_service, is_feasible}
use event_pro_backend.Event.{Event, operating_window}

pub record InventoryOccupancy : Type 0 where
  pub total_stock : ℤ
  pub request : InventoryRequest
  pub reservations : List InventoryReservation

pub record CrewOccupancy : Type 0 where
  pub crew_id : ℕ
  pub window : TimeWindow
  pub transit_interval_minutes : Option ℤ

pub record EventOccupancy : Type 0 where
  pub simultaneous_windows : List TimeWindow
  pub inventory : List InventoryOccupancy
  pub crews : List CrewOccupancy

-- The loop over the items.
unfoldable pub check_inventory : List InventoryOccupancy → Result (Unit {0})
unfolding check
check_inventory [] = ok tt
check_inventory (item ∷ items) =
    let rest = check_inventory items in
    and_then (check item.total_stock item.reservations item.request)
      λ c. if c.is_available then rest else err event_resource_conflict

-- `[row for row in occupancy.crews if row.crew_id == crew_id]`
unfoldable pub assignments : ℕ → List CrewOccupancy → List CrewOccupancy
assignments id [] = []
assignments id (row ∷ rows) =
    let rest = assignments id rows in if row.crew_id == id then row ∷ rest else rest

unfoldable pub any_overlaps : TimeWindow → List CrewOccupancy → Bool
any_overlaps window [] = false
any_overlaps window (row ∷ rows) = overlaps row.window window || any_overlaps window rows

-- `[row for row in assignments if row.window.start >= window.end]`
unfoldable pub following : TimeWindow → List CrewOccupancy → List CrewOccupancy
following window [] = []
following window (row ∷ rows) =
    let rest = following window rows in if leb window.end row.window.start then row ∷ rest else rest

-- `min` by the start: the first of the least.
unfoldable pub least_start : CrewOccupancy → List CrewOccupancy → CrewOccupancy
least_start first [] = first
least_start first (row ∷ rows) =
    least_start (if ltb row.window.start first.window.start then row else first) rows

-- The travel to the event that follows.
unfoldable pub check_travel :
    TravelIntervalService → TimeWindow → List CrewOccupancy → Result (Unit {0})
unfolding least_start is_feasible
check_travel travel window [] = ok tt
check_travel travel window (row ∷ rows) =
    let next_event = least_start row rows in
    elim next_event.transit_interval_minutes [
      | none ↦ err event_resource_conflict
      | some interval ↦
          and_then (is_feasible travel window next_event.window (pos 0) (some interval))
            λ feasible. if feasible then ok tt else err event_resource_conflict
    ]

-- The body of the loop over the crews.
unfoldable pub check_crew :
    TravelIntervalService → TimeWindow → List CrewOccupancy → ℕ → Result (Unit {0})
unfolding assignments any_overlaps following check_travel
check_crew travel window crews id =
    let rows = assignments id crews in
    if any_overlaps window rows
    then err event_resource_conflict
    else check_travel travel window (following window rows)

-- The ids of a set of the crews, in the order of some list of them. A crew that is looked at twice raises
-- what it raised the first time.
unfoldable pub check_crews :
    TravelIntervalService → TimeWindow → List CrewOccupancy → List CrewOccupancy → Result (Unit {0})
unfolding check_crew
check_crews travel window crews [] = ok tt
check_crews travel window crews (row ∷ rows) =
    let rest = check_crews travel window crews rows in
    and_then (check_crew travel window crews row.crew_id) λ _. rest

-- `check_extension_availability`
unfoldable pub check_extension_availability : Event → EventOccupancy → ℤ → Result (Unit {0})
unfolding operating_window concurrency_evaluator requires_manual_approval check_inventory
    check_crews travel_interval_service
check_extension_availability event occupancy threshold = and_then (operating_window event) λ window.
    and_then (concurrency_evaluator threshold) λ evaluator.
      if requires_manual_approval evaluator occupancy.simultaneous_windows window
      then err event_resource_conflict
      else and_then (check_inventory occupancy.inventory) λ _.
        and_then (travel_interval_service (pos 30))
          λ travel. check_crews travel window occupancy.crews occupancy.crews
