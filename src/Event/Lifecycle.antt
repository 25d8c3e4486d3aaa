-- ===== src/Event/Lifecycle.antt =====
-- The life cycle of an event (RF-20).
use event_pro_backend.Prelude.{ℕ, ◌≡◌, ℤ, arith, inl, inr, ◌⊎◌}
use event_pro_backend.Method.{Error, err}
use event_pro_backend.Clock.{DateTime}
use event_pro_backend.Money.{Money}
use event_pro_backend.Event.{Event, start, extend, settle}
use event_pro_backend.Event.Outcomes.{start-outcome, extend-outcome, settle-outcome}
use event_pro_backend.Event.Calls.{
  Call, start_call, extend_call, settle_call, after, ◌⟶◌, begin, prolong, close, ◌⟶*◌, here, then,
  Later, same, called,
}

-- The fields that no method writes.
pub record IsFrozen (e r : Event) : Type 0 where
  pub same_id : r.id ≡ e.id
  pub same_code : r.event_code ≡ e.event_code
  pub same_quote : r.quote_id ≡ e.quote_id
  pub same_date : r.event_date ≡ e.event_date
  pub same_start : r.start_time ≡ e.start_time
  pub same_end : r.end_time ≡ e.end_time
  pub same_services : r.total_services_amount ≡ e.total_services_amount
  pub same_mobility : r.total_mobility_amount ≡ e.total_mobility_amount
  pub same_advance : r.advance_paid ≡ e.advance_paid
  pub same_legacy : r.legacy_extra_hours_amount ≡ e.legacy_extra_hours_amount

abbrev Moves : Event → Event → Type 0
Moves e r = (e.status ⟶* r.status) × IsFrozen e r

IsFrozen-refl : (e : Event) → IsFrozen e e
IsFrozen-refl e = ground arith

moved : (e r s : Event) → Moves e r → (s ≡ r) ⊎ ((r.status ⟶ s.status) × IsFrozen r s) → Moves e s
moved e r s (path, frozen) (inl kept) = rw kept (path, frozen)
moved e r s (path, frozen) (inr (edge, next)) = (then path edge, ground (arith, next))

after-moves :
    (c : Call) (r : Event)
    → (after c r ≡ r) ⊎ ((r.status ⟶ (after c r).status) × IsFrozen r (after c r))
unfolding after
after-moves (start_call amount at) r = elim (start-outcome r amount at) [
  | inl (_, kept) ↦ inl kept
  | inr (_, s) ↦ inr (rw s.became (begin s.could_start, ground arith))
]
after-moves (extend_call id minutes rate payment at) r =
    elim (extend-outcome r id minutes rate payment at) [
      | inl (_, kept) ↦ inl kept
      | inr (_, _, _, x) ↦ inr (rw x.became (prolong x.was_operating, ground arith))
    ]
after-moves (settle_call amount minutes) r = elim (settle-outcome r amount minutes) [
  | inl (_, kept) ↦ inl kept
  | inr s ↦ inr (rw s.became (close s.was_operating, ground arith))
]

-- Under any sequence of calls of start, extend and settle, those that raise included, the status of
-- an event moves along the transitions only (to IN_PROGRESS from SCHEDULED or AWAITING_BALANCE, and
-- from IN_PROGRESS or EXTENDED to EXTENDED or SETTLED), and its identity, its quote, its date and
-- hours, its services and mobility, its advance and its legacy extra hours never change.
pub Later-moves : (e : Event) {r : Event} → Later e r → (e.status ⟶* r.status) × IsFrozen e r
Later-moves e same = (here, IsFrozen-refl e)
Later-moves e (called {r} c l) = moved e r (after c r) (Later-moves e l) (after-moves c r)

-- Whatever start, extend or settle raises, the event is unchanged.
pub error_changes_no_event :
    (e : Event) (amount : Money) (at : DateTime) (id payment : ℕ) (minutes : ℤ) (x : Error)
    → ((start amount at e).0 ≡ err x → (start amount at e).1 ≡ e)
      × ((extend id minutes amount payment at e).0 ≡ err x
          → (extend id minutes amount payment at e).1 ≡ e)
      × ((settle amount minutes e).0 ≡ err x → (settle amount minutes e).1 ≡ e)
unfolding start extend settle
error_changes_no_event e amount at id payment minutes x = (ground arith, ground arith, ground arith)
