-- ===== src/Financial/Liquidations.antt =====
-- app/domain/value_objects/liquidation.py
use event_pro_backend.Prelude.{Bool, not, ◌||◌, text_eq, ℤ, pos, ltb_ℤ, leb_ℤ, if◌then◌else◌}
use event_pro_backend.Method.{Result, ok, err, validation}
use event_pro_backend.Money.{Money, pen, mul}
use event_pro_backend.Money.Decimals.{of_int}

-- `_require_pen` fails
abbrev pub not_pen : Money → Bool
not_pen m = not (text_eq m.currency pen)

abbrev pub is_negative : Money → Bool
is_negative m = ltb_ℤ m.cents (pos 0)

pub record ExtraCharge : Type 0 where
  pub unit_price : Money
  pub quantity : ℤ

-- The constructor, with the checks of `__post_init__`.
unfoldable pub extra_charge : Money → ℤ → Result ExtraCharge
extra_charge unit_price quantity =
    if not_pen unit_price
    then err validation
    else if is_negative unit_price
    then err validation
    else if leb_ℤ quantity (pos 0)
    then err validation
    else ok (record { unit_price = unit_price; quantity = quantity })

-- `ExtraCharge.subtotal`
unfoldable pub subtotal : ExtraCharge → Result Money
subtotal e = mul e.unit_price (of_int e.quantity)

pub record Liquidation : Type 0 where
  pub services_subtotal : Money
  pub mobility_amount : Money
  pub total_amount : Money
  pub advance_amount : Money
  pub pending_balance : Money
  pub balance_services : Money
  pub balance_mobility : Money

abbrev pub is_refused : Money → Bool
is_refused m = not_pen m || is_negative m

-- The constructor, with the checks of `__post_init__`.
unfoldable pub liquidation : Liquidation → Result Liquidation
liquidation l =
    if is_refused l.services_subtotal
      || is_refused l.mobility_amount
      || is_refused l.total_amount
      || is_refused l.advance_amount
      || is_refused l.pending_balance
      || is_refused l.balance_services
      || is_refused l.balance_mobility
    then err validation
    else ok l
