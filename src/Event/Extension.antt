-- ===== src/Event/Extension.antt =====
-- app/domain/entities/event_extension.py
use event_pro_backend.Prelude.{
  ℕ, ltb, Bool, false, not, ◌&&◌, ◌||◌, ◌^◌, ◌*ℤ◌, Option, none, some, Text, length, has_text, ℤ,
  pos, ltb_ℤ, leb_ℤ, eqb_ℤ, if◌then◌else◌,
}
use event_pro_backend.Method.{Result, ok, err, and_then, validation}
use event_pro_backend.Clock.{DateTime, require_aware}
use event_pro_backend.Money.{Money, money, pen}
use event_pro_backend.Money.Decimals.{Decimal, quantize}
use event_pro_backend.Financial.Liquidations.{not_pen, is_negative}

-- 99999999.99, in cents
abbrev pub max_amount : ℤ
max_amount = pos 9999999999

abbrev pub max_minutes : ℤ
max_minutes = pos 2147483647

unfoldable pub validate_extra_minutes : ℤ → Bool → Result (Unit {0})
validate_extra_minutes value allow_zero =
    if leb_ℤ (if allow_zero then pos 0 else pos 1) value && leb_ℤ value max_minutes
    then ok tt
    else err validation

unfoldable pub validate_extension_amount : Money → Bool → Result (Unit {0})
validate_extension_amount value allow_zero =
    if not_pen value
      || is_negative value
      || (not allow_zero && eqb_ℤ value.cents (pos 0))
      || ltb_ℤ max_amount value.cents
    then err validation
    else ok tt

-- `amount != amount.quantize(Decimal("0.01"))`, negated. Which way the code rounds does not matter, since
-- an amount that is rounded at all differs.
abbrev pub has_two_decimals : Decimal → Bool
has_two_decimals x = eqb_ℤ (quantize x *ℤ pos (10 ^ x.scale)) (x.coefficient *ℤ pos 100)

abbrev pub fits_amount : Decimal → Bool
fits_amount x =
    ltb_ℤ (pos 0) x.coefficient
    && leb_ℤ (x.coefficient *ℤ pos 100) (max_amount *ℤ pos (10 ^ x.scale))
    && has_two_decimals x

abbrev pub bad_reference : Option Text → Bool
bad_reference none = false
bad_reference (some reference) = not (has_text reference) || ltb 60 (length reference)

unfoldable pub validate_extension_terms : ℤ → Decimal → Option Text → Result Money
unfolding validate_extra_minutes quantize money has_text
validate_extension_terms minutes amount reference =
    and_then (validate_extra_minutes minutes false) λ _.
      if not (fits_amount amount)
      then err validation
      else if bad_reference reference
      then err validation
      else money amount pen

pub record EventExtension : Type 0 where
  pub id : ℕ
  pub event_id : ℕ
  pub payment_id : ℕ
  pub extra_minutes : ℤ
  pub agreed_rate : Money
  pub requested_at : ℕ

-- The constructor, with the checks of `__post_init__`.
unfoldable pub event_extension : ℕ → ℕ → ℕ → ℤ → Money → DateTime → Result EventExtension
unfolding validate_extra_minutes validate_extension_amount require_aware
event_extension id event_id payment_id extra_minutes agreed_rate requested_at =
    and_then (validate_extra_minutes extra_minutes false) λ _.
      and_then (validate_extension_amount agreed_rate false) λ _.
        and_then (require_aware requested_at) λ instant. ok (record {
          id = id;
          event_id = event_id;
          payment_id = payment_id;
          extra_minutes = extra_minutes;
          agreed_rate = agreed_rate;
          requested_at = instant;
        })
