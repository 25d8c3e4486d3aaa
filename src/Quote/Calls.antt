-- ===== src/Quote/Calls.antt =====
-- The life of a quote as a sequence of calls of the methods of Quote.
use event_pro_backend.Prelude.{Option, Text, ◌≡◌, true}
use event_pro_backend.Clock.{DateTime}
use event_pro_backend.Financial.Liquidations.{Liquidation}
use event_pro_backend.Quote.{
  Quote, QuoteStatus, sent, payment_started, converted, expired, cancelled, is_open, start_payment,
  convert, expire, cancel, override_mobility,
}

pub data Call : Type 0 where
  start_call : DateTime → Call
  convert_call : Call
  expire_call : DateTime → Call
  cancel_call : Option Text → Call
  override_call : Liquidation → Text → Call

-- The quote after a call, whether the call returned or raised.
unfoldable pub after : Call → Quote → Quote
after (start_call now) q = (start_payment now q).1
after convert_call q = (convert q).1
after (expire_call now) q = (expire now q).1
after (cancel_call reason) q = (cancel reason q).1
after (override_call liquidation reason) q = (override_mobility liquidation reason q).1

-- The transitions of the life cycle (RN-09).
infix 40 ◌⟶◌ ◌⟶*◌
pub data ◌⟶◌ : QuoteStatus → QuoteStatus → Type 0 where
  pay : sent ⟶ payment_started
  close : payment_started ⟶ converted
  lapse : {s : QuoteStatus} → is_open s ≡ true → s ⟶ expired
  drop : {s : QuoteStatus} → is_open s ≡ true → s ⟶ cancelled

pub data ◌⟶*◌ : QuoteStatus → QuoteStatus → Type 0 where
  here : {s : QuoteStatus} → s ⟶* s
  then : {s t u : QuoteStatus} → s ⟶* t → t ⟶ u → s ⟶* u

-- `q` after any calls.
pub data Later (q : Quote) : Quote → Type 0 where
  same : Later q q
  called : {r : Quote} (c : Call) → Later q r → Later q (after c r)
