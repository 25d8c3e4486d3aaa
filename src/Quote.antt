-- ===== src/Quote.antt =====
-- app/domain/entities/quote.py: the aggregate Quote. The proofs are in the modules below.
pub mod Calls
pub mod Lifecycle
pub mod Creation
pub mod Examples
use event_pro_backend.Prelude.{
  ℕ, ltb, leb, Bool, true, false, not, ◌||◌, Option, none, some, List, [], ◌∷◌, Text, strip,
  has_text, ℤ, pos, leb_ℤ, ◌*ℤ◌, if◌then◌else◌,
}
use event_pro_backend.Method.{
  Result, ok, err, and_then, Method, pure, raise, lift, gets, modify, raise_if, ◌>>=◌, ◌>>◌,
  validation, invalid_quote_state, quote_expired,
}
use event_pro_backend.Clock.{DateTime, require_aware, add_delta, hours}
use event_pro_backend.Money.{Money, money_eq, mul, add, greater, zero_pen}
use event_pro_backend.Money.Decimals.{Decimal, of_int}
use event_pro_backend.Financial.Liquidations.{Liquidation, is_negative}
use event_pro_backend.Financial.Mobility.{MobilityResult, MobilityScenario, exempt}

pub data QuoteStatus : Type 0 where
  sent payment_started converted expired cancelled : QuoteStatus

pub data QuoteSource : Type 0 where
  whatsapp manual : QuoteSource

-- `status in _OPEN_STATUSES`
abbrev pub is_open : QuoteStatus → Bool
is_open sent = true
is_open payment_started = true
is_open _ = false

pub record QuoteExtraLine : Type 0 where
  pub extra_id : ℕ
  pub quantity : ℤ
  pub unit_price : Money
  pub subtotal : Money

-- The constructor, with the checks of `__post_init__`.
unfoldable pub quote_extra_line : QuoteExtraLine → Result QuoteExtraLine
quote_extra_line l =
    if leb_ℤ l.quantity (pos 0)
    then err validation
    else if is_negative l.unit_price
    then err validation
    else and_then (mul l.unit_price (of_int l.quantity))
        λ product. if not (money_eq l.subtotal product) then err validation else ok l

-- An identifier is a number; a date is its day and a time of day its microsecond.
pub record Quote : Type 0 where
  pub id : ℕ
  pub client_id : ℕ
  pub source : QuoteSource
  pub event_date : ℕ
  pub event_time : ℕ
  pub location_address : Text
  pub location_district : Text
  pub package_id : ℕ
  pub liquidation : Liquidation
  pub sent_at : ℕ
  pub expires_at : ℕ
  pub theme_id : Option ℕ
  pub latitude : Option Decimal
  pub longitude : Option Decimal
  pub client_provides_mobility : Bool
  pub calculated_distance_km : Option ℤ
  pub calculated_transit_minutes : Option ℤ
  pub base_mobility_amount : Money
  pub mobility_overridden : Bool
  pub mobility_override_reason : Option Text
  pub extras : List QuoteExtraLine
  pub status : QuoteStatus
  pub manual_request_hash : Option Text
  pub observations : Option Text
  pub cancellation_reason : Option Text

pub record NewQuote : Type 0 where
  pub client_id : ℕ
  pub source : QuoteSource
  pub event_date : ℕ
  pub event_time : ℕ
  pub location_address : Text
  pub location_district : Text
  pub package_id : ℕ
  pub theme_id : Option ℕ
  pub client_provides_mobility : Bool
  pub mobility : MobilityResult
  pub liquidation : Liquidation
  pub extras : List QuoteExtraLine
  pub now : DateTime
  pub deadline_hours : ℤ
  pub latitude : Option Decimal
  pub longitude : Option Decimal
  pub manual_request_hash : Option Text
  pub mobility_overridden : Bool
  pub mobility_override_reason : Option Text
  pub observations : Option Text

-- `extras_total = extras_total + line.subtotal` over the extras
unfoldable pub add_lines : Money → List QuoteExtraLine → Result Money
add_lines total [] = ok total
add_lines total (line ∷ lines) = and_then (add total line.subtotal) λ sum. add_lines sum lines

abbrev pub is_exempt : MobilityScenario → Bool
is_exempt exempt = true
is_exempt _ = false

abbrev pub bool_eq : Bool → Bool → Bool
bool_eq true b = b
bool_eq false b = not b

-- `Quote.create`, with the checks of `__post_init__` last; `id` is the fresh `uuid4()`.
unfoldable pub create : ℕ → NewQuote → Result Quote
unfolding require_aware has_text
create id r = and_then (require_aware r.now) λ sent_at.
    if leb_ℤ r.deadline_hours (pos 0)
    then err validation
    else if not (bool_eq r.client_provides_mobility (is_exempt r.mobility.scenario))
    then err validation
    else if not (money_eq r.liquidation.mobility_amount r.mobility.final_amount)
    then err validation
    else and_then (add_lines zero_pen r.extras) λ extras_total.
      and_then (greater extras_total r.liquidation.services_subtotal) λ exceeds.
        if exceeds
        then err validation
        else and_then (add_delta sent_at (r.deadline_hours *ℤ pos (hours 1))) λ expires_at.
          if not (has_text r.location_address) || not (has_text r.location_district)
          then err validation
          else ok (record {
            id = id;
            client_id = r.client_id;
            source = r.source;
            event_date = r.event_date;
            event_time = r.event_time;
            location_address = r.location_address;
            location_district = r.location_district;
            package_id = r.package_id;
            liquidation = r.liquidation;
            sent_at = sent_at;
            expires_at = expires_at;
            theme_id = r.theme_id;
            latitude = r.latitude;
            longitude = r.longitude;
            client_provides_mobility = r.client_provides_mobility;
            calculated_distance_km = r.mobility.distance_km;
            calculated_transit_minutes = r.mobility.duration_minutes;
            base_mobility_amount = r.mobility.base_amount;
            mobility_overridden = r.mobility_overridden;
            mobility_override_reason = r.mobility_override_reason;
            extras = r.extras;
            status = sent;
            manual_request_hash = r.manual_request_hash;
            observations = r.observations;
            cancellation_reason = none;
          })

-- `is_terminal`
abbrev pub is_terminal : Quote → Bool
is_terminal q = not (is_open q.status)

-- `start_payment` once the instant is known, by the status.
pub start_payment_at : QuoteStatus → ℕ → Method Quote (Unit {0})
start_payment_at converted instant = raise invalid_quote_state
start_payment_at cancelled instant = raise invalid_quote_state
start_payment_at expired instant = raise quote_expired
start_payment_at payment_started instant = pure tt
start_payment_at sent instant = do
  raise_if (λ q. leb q.expires_at instant) quote_expired
  modify (λ q. record q { status = payment_started })

unfoldable pub start_payment : DateTime → Method Quote (Unit {0})
unfolding require_aware start_payment_at
start_payment now = do
  instant ← lift (require_aware now)
  status ← gets (λ q. q.status)
  start_payment_at status instant

abbrev pub is_payment_started : QuoteStatus → Bool
is_payment_started payment_started = true
is_payment_started _ = false

unfoldable pub convert : Method Quote (Unit {0})
convert = do
  raise_if (λ q. not (is_payment_started q.status)) invalid_quote_state
  modify (λ q. record q { status = converted })

unfoldable pub expire : DateTime → Method Quote (Unit {0})
unfolding require_aware
expire now = do
  instant ← lift (require_aware now)
  raise_if (λ q. not (is_open q.status)) invalid_quote_state
  raise_if (λ q. ltb instant q.expires_at) invalid_quote_state
  modify (λ q. record q { status = expired })

-- `reason.strip() if reason and reason.strip() else None`
pub stripped : Option Text → Option Text
unfolding has_text
stripped none = none
stripped (some reason) = if has_text reason then some (strip reason) else none

unfoldable pub cancel : Option Text → Method Quote (Unit {0})
unfolding stripped
cancel reason = do
  raise_if (λ q. not (is_open q.status)) invalid_quote_state
  modify (λ q. record q { status = cancelled; cancellation_reason = stripped reason })

unfoldable pub override_mobility : Liquidation → Text → Method Quote (Unit {0})
unfolding has_text
override_mobility liquidation reason = do
  raise_if (λ q. not (is_open q.status)) invalid_quote_state
  raise_if (λ _. not (has_text reason)) validation
  raise_if (λ q. not (money_eq liquidation.advance_amount q.liquidation.advance_amount)) validation
  modify (λ q. record q {
    liquidation = liquidation;
    mobility_overridden = true;
    mobility_override_reason = some (strip reason);
  })
