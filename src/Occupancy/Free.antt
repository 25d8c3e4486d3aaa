-- ===== src/Occupancy/Free.antt =====
-- An extension that passes `check_extension_availability` overbooks nothing.
use event_pro_backend.Prelude.{
  ℕ, ◌+◌, ◌≤◌, ◌≡◌, inl, inr, refl, ap, ◌∙◌, true, false, Bool-cases, Option-cases, some, List, [],
  ◌∷◌, All, ℤ, pos, negsuc, ◌+ℤ◌, ◌≤ℤ◌, arith,
}
use event_pro_backend.Method.{ok, Result-cases}
use event_pro_backend.Clock.{minutes}
use event_pro_backend.Schedule.{TimeWindow, overlaps}
use event_pro_backend.Schedule.Overlap.{Covers}
use event_pro_backend.Schedule.Concurrency.{concurrency_evaluator, requires_manual_approval}
use event_pro_backend.Schedule.Inventory.{inventory_request, check}
use event_pro_backend.Schedule.Travel.{
  TravelIntervalService, travel_interval_service, is_feasible, is_feasible_iff,
}
use event_pro_backend.Schedule.Stock.{
  on_at, held_at, approval_bounds_shows, IsReservation, check_never_overbooks,
}
use event_pro_backend.Event.{Event, operating_window}
use event_pro_backend.Occupancy.{
  InventoryOccupancy, CrewOccupancy, EventOccupancy, check_inventory, assignments, any_overlaps,
  following, least_start, check_travel, check_crew, check_crews, check_extension_availability,
}
use event_pro_backend.Occupancy.Bounds.{
  IsIn, assignments-IsIn, assignments-back, following-IsIn, following-back, apart, least_start-le,
  least_start-IsIn,
}

-- The assignment does not overlap the window; and if it follows, its crew has the time that is set for the
-- travel to one of its assignments, before this one starts.
pub record IsReached (w : TimeWindow) (crews : List CrewOccupancy) (r : CrewOccupancy)
    : Type 0 where
  pub is_apart : overlaps r.window w ≡ false
  pub travel :
      w.end ≤ r.window.start
      → (n : CrewOccupancy) × (o : ℕ) × IsIn n crews
        × (n.crew_id ≡ r.crew_id)
        × (n.transit_interval_minutes ≡ some (pos o))
        × (w.end + minutes o ≤ r.window.start)

-- The reservations and the request of the item are valid.
abbrev pub IsStock : InventoryOccupancy → Type 0
IsStock i = All IsReservation i.reservations × (inventory_request i.request ≡ ok i.request)

-- At an instant of the request, what the reservations hold and the request are no more than the stock.
abbrev pub IsCovered : InventoryOccupancy → Type 0
IsCovered i =
    (t : ℕ)
    → Covers i.request.window t
    → held_at i.request.inventory_item_id i.reservations t +ℤ i.request.quantity ≤ℤ i.total_stock

checked-inventory :
    (items : List InventoryOccupancy)
    → check_inventory items ≡ ok tt
    → All IsStock items
    → All IsCovered items
unfolding check_inventory
checked-inventory [] h v = tt
checked-inventory (i ∷ items) h ((valid, request), vs) =
    elim (Result-cases (check i.total_stock i.reservations i.request)) [
      | inr (e, bad) ↦ ground (arith, h, bad)
      | inl (c, good) ↦ elim (Bool-cases c.is_available) [
        | inr short ↦ ground (arith, h, good, short)
        | inl enough ↦ (
          λ t covers.
              check_never_overbooks i.total_stock i.reservations i.request c t valid request good
                enough covers,
          checked-inventory items (ground (arith, h, good, enough)) vs,
        )
      ]
    ]

feasible-later :
    (s : TravelIntervalService) (w v : TimeWindow) (interval : ℤ)
    → travel_interval_service (pos 30) ≡ ok s
    → is_feasible s w v (pos 0) (some interval) ≡ ok true
    → (o : ℕ) × (interval ≡ pos o) × (w.end + minutes o ≤ v.start)
unfolding is_feasible
feasible-later s w v (pos o) made h =
    let (_, (there, _), _) = is_feasible_iff s 30 0 o w v made in (o, refl, there h)
feasible-later s w v (negsuc o) made h = ground (arith, h)

checked-travel :
    (s : TravelIntervalService) (w : TimeWindow) (rows : List CrewOccupancy) (r : CrewOccupancy)
    → travel_interval_service (pos 30) ≡ ok s
    → check_travel s w rows ≡ ok tt
    → IsIn r rows
    → (n : CrewOccupancy) × (o : ℕ) × IsIn n rows
      × (n.transit_interval_minutes ≡ some (pos o))
      × (w.end + minutes o ≤ r.window.start)
unfolding check_travel
checked-travel s w [] r made h m = elim m [ ]
checked-travel s w (x ∷ xs) r made h m =
    let n = least_start x xs in
    elim (Option-cases n.transit_interval_minutes) [
      | inl unset ↦ ground (arith, h, unset)
      | inr (interval, is_set) ↦
          elim (Result-cases (is_feasible s w n.window (pos 0) (some interval))) [
            | inr (e, bad) ↦ ground (arith, h, is_set, bad)
            | inl (b, good) ↦ elim (Bool-cases b) [
              | inr short ↦ ground (arith, h, is_set, good, short)
              | inl enough ↦
                  let fits : is_feasible s w n.window (pos 0) (some interval) ≡ ok true =
                    good ∙ ap ok enough in
                  let (o, minutes_set, later) = feasible-later s w n.window interval made fits in
                  let first = least_start-le x r xs m in
                  (n, o, least_start-IsIn x xs, is_set ∙ ap some minutes_set, omega arith)
            ]
          ]
    ]

checked-crew :
    (s : TravelIntervalService) (w : TimeWindow) (crews : List CrewOccupancy) (r : CrewOccupancy)
    → travel_interval_service (pos 30) ≡ ok s
    → check_crew s w crews r.crew_id ≡ ok tt
    → IsIn r crews
    → IsReached w crews r
unfolding check_crew
checked-crew s w crews r made h m =
    let rows = assignments r.crew_id crews in
    let own : IsIn r rows = assignments-IsIn r crews m in
    elim (Bool-cases (any_overlaps w rows)) [
      | inl hit ↦ ground (arith, h, hit)
      | inr free ↦ record {
        is_apart = apart w r rows free own;
        travel = λ after.
            let travels : check_travel s w (following w rows) ≡ ok tt = ground (arith, h, free) in
            let (n, o, place, is_set, fits) =
              checked-travel s w (following w rows) r made travels
                (following-IsIn w r rows own after) in
            let (in_crews, same_crew) =
              assignments-back n r.crew_id crews (following-back w n rows place) in
            (n, o, in_crews, same_crew, is_set, fits);
      }
    ]

checked-crews :
    (s : TravelIntervalService) (w : TimeWindow) (crews rows : List CrewOccupancy)
    (r : CrewOccupancy)
    → check_crews s w crews rows ≡ ok tt
    → IsIn r rows
    → check_crew s w crews r.crew_id ≡ ok tt
unfolding check_crews
checked-crews s w crews [] r h m = elim m [ ]
checked-crews s w crews (x ∷ xs) r h m = elim (Result-cases (check_crew s w crews x.crew_id)) [
  | inr (e, bad) ↦ ground (arith, h, bad)
  | inl (_, good) ↦ elim m [
    | inl e ↦ ap (λ c. check_crew s w crews c.crew_id) e ∙ good
    | inr k ↦ checked-crews s w crews xs r (ground (arith, h, good)) k
  ]
]

pub record IsFree (event : Event) (occupancy : EventOccupancy) (threshold : ℕ) : Type 0 where
  pub window : TimeWindow
  pub is_window : operating_window event ≡ ok window
  pub shows :
      (t : ℕ) → Covers window t → on_at (window ∷ occupancy.simultaneous_windows) t ≤ threshold
  pub items : All IsCovered occupancy.inventory
  pub crews : (r : CrewOccupancy) → IsIn r occupancy.crews → IsReached window occupancy.crews r

-- If `check_extension_availability` passes and the reservations and requests of the items are valid, then
-- for the window of the extended event: at any instant of it no more shows are on than the threshold, itself
-- included; of every item, at an instant of its request, what the reservations hold and the request together
-- are no more than the stock; and every assignment of a crew of the event does not overlap the window, and
-- if it follows it, it starts later than the end by at least the minutes that are set for an assignment of
-- that crew.
pub check_extension_availability-IsFree :
    (event : Event) (occupancy : EventOccupancy) (threshold : ℕ)
    → All IsStock occupancy.inventory
    → check_extension_availability event occupancy (pos threshold) ≡ ok tt
    → IsFree event occupancy threshold
unfolding check_extension_availability concurrency_evaluator travel_interval_service
check_extension_availability-IsFree event occupancy threshold v h =
    elim (Result-cases (operating_window event)) [
      | inr (e, bad) ↦ ground (arith, h, bad)
      | inl (w, good) ↦
          let windows = occupancy.simultaneous_windows in
          let crews = occupancy.crews in
          let travel : TravelIntervalService = record { rest_buffer_minutes = pos 30 } in
          elim (Bool-cases
            (requires_manual_approval (record { threshold = pos threshold }) windows w)) [
              | inl over ↦ ground (arith, h, good, over)
              | inr under ↦ elim (Result-cases (check_inventory occupancy.inventory)) [
                | inr (e, bad) ↦ ground (arith, h, good, under, bad)
                | inl (_, stocked) ↦
                    let passed : check_crews travel w crews crews ≡ ok tt =
                      ground (arith, h, good, under, stocked) in
                    record {
                      window = w;
                      is_window = good;
                      shows = λ t c. approval_bounds_shows threshold windows w t under c;
                      items = checked-inventory occupancy.inventory stocked v;
                      crews = λ r m.
                          checked-crew travel w crews r refl
                            (checked-crews travel w crews crews r passed m) m;
                    }
              ]
            ]
    ]
