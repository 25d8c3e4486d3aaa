-- ===== src/Repricing.antt =====
-- A new mobility amount for an open quote: app/application/use_cases/quote/override_mobility.py, over the
-- tables of Advance.
pub mod Settles
mod Examples
use event_pro_backend.Prelude.{ℕ, List, [], ◌∷◌, ◌++◌, Text}
use event_pro_backend.Method.{Result, ok, and_then, Method, pure, lift, ◌>>=◌, ◌>>◌}
use event_pro_backend.Money.{pen, money, sub, zero_pen}
use event_pro_backend.Money.Decimals.{Decimal}
use event_pro_backend.Financial.Liquidations.{ExtraCharge, extra_charge, Liquidation}
use event_pro_backend.Financial.Engine.{FinancialEngine, liquidate}
use event_pro_backend.Quote.{Quote, QuoteExtraLine, add_lines, override_mobility}
use event_pro_backend.Advance.{Ledger, get_for_update, save, call_entity}

-- An entry of the audit: the quote and the user.
pub record LogEntry : Type 0 where
  pub entity_id : ℕ
  pub user_id : ℕ

pub record Desk : Type 0 where
  pub ledger : Ledger
  pub log : List LogEntry

pub record OverrideInput : Type 0 where
  pub quote_id : ℕ
  pub manual_mobility_amount : Decimal
  pub reason : Text
  pub decided_by_user_id : ℕ

abbrev pub on_ledger : {A : Type 0} → Method Ledger A → Method Desk A
on_ledger m d = let (r, ledger) = m d.ledger in (r, record d { ledger = ledger })

-- `[ExtraCharge(line.unit_price, line.quantity) for line in quote.extras]`
unfoldable pub charges_of : List QuoteExtraLine → Result (List ExtraCharge)
unfolding extra_charge
charges_of [] = ok []
charges_of (line ∷ lines) =
    let rest = charges_of lines in
    and_then (extra_charge line.unit_price line.quantity) λ e. and_then rest λ es. ok (e ∷ es)

-- The liquidation with the amount that is given.
unfoldable pub reprice : FinancialEngine → Decimal → Quote → Result Liquidation
unfolding charges_of liquidate
reprice engine manual_amount q = and_then (add_lines zero_pen q.extras) λ extras_total.
    and_then (sub q.liquidation.services_subtotal extras_total) λ package_price.
      and_then (charges_of q.extras) λ extras.
        and_then (money manual_amount pen)
          λ mobility. liquidate engine package_price extras mobility

unfoldable pub record_log : ℕ → ℕ → Method Desk (Unit {0})
record_log id user_id d =
    (ok tt, record d { log = d.log ++ (record { entity_id = id; user_id = user_id } ∷ []) })

-- `OverrideQuoteMobilityUseCase.execute`; the answer is read off the quote.
unfoldable pub override_quote_mobility : FinancialEngine → OverrideInput → Method Desk Quote
unfolding get_for_update reprice override_mobility save record_log
override_quote_mobility engine i = do
  q ← on_ledger (get_for_update i.quote_id)
  priced ← lift (reprice engine i.manual_mobility_amount q)
  changed ← lift (call_entity (override_mobility priced i.reason q))
  on_ledger (save changed)
  record_log changed.id i.decided_by_user_id
  pure changed
