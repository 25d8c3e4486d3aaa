-- ===== src/Event/Examples.antt =====
-- Runs of an event, and its theorems at them.
use event_pro_backend.Prelude.{◌+◌, ◌≡◌, refl, true, none, some, codes, pos, arith, ◌+ℤ◌, ◌*ℤ◌}
use event_pro_backend.Method.{ok}
use event_pro_backend.Clock.{aware}
use event_pro_backend.Money.{zero_pen}
use event_pro_backend.Money.Laws.{soles}
use event_pro_backend.Event.{
  Event, event, scheduled, in_progress, extended, settled, start, extend, settle,
  window_with_extra_minutes, pending_balance_to_collect,
}
use event_pro_backend.Event.Extension.{EventExtension, validate_extension_terms}
use event_pro_backend.Event.Calls.{
  Call, start_call, extend_call, after, Later, same, called, IsAccepted,
}
use event_pro_backend.Event.Balance.{has_started, cents_of, started_owes_nothing}
use event_pro_backend.Event.Closing.{settle_iff}

-- From 22:00 to 02:00 of the next day.
abbrev pub party : Event
party = record {
  id = 5;
  event_code = codes "EV-5";
  quote_id = 9;
  event_date = 739000;
  start_time = 79200000000;
  end_time = 7200000000;
  address = codes "Av. Larco 1";
  district = codes "Miraflores";
  total_services_amount = soles (pos 60000);
  total_mobility_amount = soles (pos 4000);
  final_total_amount = soles (pos 64000);
  client_observations = none;
  status = scheduled;
  advance_paid = soles (pos 30000);
  pre_show_balance_paid = soles (pos 0);
  extra_hours_amount = soles (pos 0);
  actual_start_time = none;
  extra_minutes_total = pos 0;
  legacy_extra_hours_amount = soles (pos 0);
}

party-IsAccepted : IsAccepted party
unfolding event
party-IsAccepted = refl

abbrev running : Event
running = record party {
  pre_show_balance_paid = soles (pos 34000);
  actual_start_time = some 500;
  status = in_progress;
}

abbrev begin_call : Call
begin_call = start_call (soles (pos 34000)) (aware 500)

abbrev longer_call : Call
longer_call = extend_call 1 (pos 60) (soles (pos 8000)) 77 (aware 900)

abbrev longer : Event
longer = after longer_call (after begin_call party)

longer-Later : Later party longer
longer-Later = called longer_call (called begin_call same)

longer-status : longer.status ≡ extended
unfolding after start extend ◌+ℤ◌ ◌*ℤ◌ window_with_extra_minutes
longer-status = refl

started_owes_nothing_example :
    IsAccepted longer
    × (has_started longer.status ≡ true → pending_balance_to_collect longer ≡ ok zero_pen)
    × (cents_of longer.final_total_amount + 0 ≡ 64000 + cents_of longer.extra_hours_amount)
started_owes_nothing_example = started_owes_nothing party longer party-IsAccepted refl longer-Later

settle_iff_example :
    ((cents_of longer.legacy_extra_hours_amount + 8000 ≡ cents_of longer.extra_hours_amount)
        × (longer.extra_minutes_total ≡ pos 60)
      → settle (soles (pos 8000)) (pos 60) longer ≡ (ok tt, record longer { status = settled }))
    × ((settle (soles (pos 8000)) (pos 60) longer).0 ≡ ok tt
        → (cents_of longer.legacy_extra_hours_amount + 8000 ≡ cents_of longer.extra_hours_amount)
          × (longer.extra_minutes_total ≡ pos 60))
unfolding after start extend ◌+ℤ◌ ◌*ℤ◌ window_with_extra_minutes
settle_iff_example =
    settle_iff party longer 8000 60 party-IsAccepted refl longer-Later refl (ground arith)
      (ground arith)

running-IsAccepted : IsAccepted running
unfolding event
running-IsAccepted = refl

abbrev extension : EventExtension
extension = record {
  id = 1;
  event_id = 5;
  payment_id = 77;
  extra_minutes = pos 60;
  agreed_rate = soles (pos 8000);
  requested_at = 900;
}

running-extend : (extend 1 (pos 60) (soles (pos 8000)) 77 (aware 900) running).0 ≡ ok extension
unfolding extend ◌+ℤ◌ ◌*ℤ◌ window_with_extra_minutes
running-extend = refl

valid_terms :
    validate_extension_terms
      (pos 60)
      (record { coefficient = pos 8000; scale = 2 })
      (some (codes "OP-1"))
    ≡ ok (soles (pos 8000))
unfolding validate_extension_terms ◌*ℤ◌
valid_terms = refl
