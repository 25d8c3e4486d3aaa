-- ===== src/Money/Decimals.antt =====
-- Python's finite `Decimal` values, with the operations that the money of app/domain uses. They are
-- exact: the amounts keep far below the 28 digits of Python's default context.
use event_pro_backend.Prelude.{
  ℕ, ◌+◌, ◌-◌, ◌*◌, ◌/◌, ◌^◌, suc, leb, max, ℤ, pos, negsuc, sub_ℕ, ◌+ℤ◌, ◌-ℤ◌, ◌*ℤ◌, if◌then◌else◌,
}

-- coefficient / 10 ^ scale
pub record Decimal : Type 0 where
  pub coefficient : ℤ
  pub scale : ℕ

abbrev pub of_int : ℤ → Decimal
of_int n = record { coefficient = n; scale = 0 }

-- n / d to the nearest integer, a tie away from zero (`ROUND_HALF_UP`).
unfoldable pub round_half_up : ℤ → ℕ → ℤ
round_half_up (pos n) d = pos ((2 * n + d) / (2 * d))
round_half_up (negsuc n) d = sub_ℕ 0 ((2 * suc n + d) / (2 * d))

-- `quantize(Decimal("0.01"), rounding=ROUND_HALF_UP)`, in hundredths.
unfoldable pub quantize : Decimal → ℤ
unfolding round_half_up
quantize x =
    if leb x.scale 2
    then x.coefficient *ℤ pos (10 ^ (2 - x.scale))
    else round_half_up x.coefficient (10 ^ (x.scale - 2))

-- The coefficient of `x` at a scale that is not smaller.
abbrev pub at_scale : ℕ → Decimal → ℤ
at_scale k x = x.coefficient *ℤ pos (10 ^ (k - x.scale))

unfoldable pub plus : Decimal → Decimal → Decimal
plus x y =
    let k = max x.scale y.scale in record { coefficient = at_scale k x +ℤ at_scale k y; scale = k }

unfoldable pub minus : Decimal → Decimal → Decimal
minus x y =
    let k = max x.scale y.scale in record { coefficient = at_scale k x -ℤ at_scale k y; scale = k }

unfoldable pub times : Decimal → Decimal → Decimal
times x y = record { coefficient = x.coefficient *ℤ y.coefficient; scale = x.scale + y.scale }

-- `x / Decimal(100)`, which is exact.
unfoldable pub percent : Decimal → Decimal
percent x = record { coefficient = x.coefficient; scale = x.scale + 2 }
