-- ===== src/Money.antt =====
-- app/domain/value_objects/money.py: an exact amount of a currency, rounded to the cent.
pub mod Decimals
pub mod Laws
use event_pro_backend.Prelude.{
  Bool, Text, codes, text_eq, truthy, ◌&&◌, ℤ, pos, ltb_ℤ, eqb_ℤ, if◌then◌else◌,
}
use event_pro_backend.Method.{Result, ok, err, value_error}
use event_pro_backend.Money.Decimals.{Decimal, quantize, plus, minus, times}

-- After `__post_init__` the amount has two decimals: `cents` hundredths.
pub record Money : Type 0 where
  pub cents : ℤ
  pub currency : Text

abbrev pub pen : Text
pen = codes "PEN"

-- `Money(amount, currency)`
unfoldable pub money : Decimal → Text → Result Money
unfolding quantize
money amount currency =
    if truthy currency
    then ok (record { cents = quantize amount; currency = currency })
    else err value_error

-- `self.amount`
abbrev pub amount : Money → Decimal
amount m = record { coefficient = m.cents; scale = 2 }

unfoldable pub zero_pen : Money
zero_pen = record { cents = pos 0; currency = pen }

-- `_check_currency`, and the rest of the method behind it.
abbrev pub same_currency {ℓ} : {A : Type ℓ} → Money → Money → Result A → Result A
same_currency a b r = if text_eq a.currency b.currency then r else err value_error

unfoldable pub add : Money → Money → Result Money
unfolding money plus
add a b = same_currency a b (money (plus (amount a) (amount b)) a.currency)

unfoldable pub sub : Money → Money → Result Money
unfolding money minus
sub a b = same_currency a b (money (minus (amount a) (amount b)) a.currency)

unfoldable pub mul : Money → Decimal → Result Money
unfolding money times
mul a factor = money (times (amount a) factor) a.currency

-- `__lt__`, `__gt__`
unfoldable pub less : Money → Money → Result Bool
less a b = same_currency a b (ok (ltb_ℤ a.cents b.cents))

unfoldable pub greater : Money → Money → Result Bool
greater a b = same_currency a b (ok (ltb_ℤ b.cents a.cents))

-- `==` of the dataclass
abbrev pub money_eq : Money → Money → Bool
money_eq a b = eqb_ℤ a.cents b.cents && text_eq a.currency b.currency
