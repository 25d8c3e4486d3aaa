-- ===== src/Money/Laws.antt =====
-- The arithmetic of Money in one currency is that of its cents.
use event_pro_backend.Prelude.{ℕ, ◌+◌, ◌-◌, ◌*◌, ◌≤◌, ◌≡◌, arith, ℤ, pos, ◌+ℤ◌, ◌-ℤ◌, ◌*ℤ◌}
use event_pro_backend.Method.{ok}
use event_pro_backend.Money.{Money, pen, add, sub, mul}
use event_pro_backend.Money.Decimals.{of_int}

-- An amount of PEN.
abbrev pub soles : ℤ → Money
soles c = record { cents = c; currency = pen }

pub mul_one : (a : ℤ) → a *ℤ pos 1 ≡ a
unfolding ◌*ℤ◌
mul_one a = ground arith

pub mul_pos : (a b : ℕ) → pos a *ℤ pos b ≡ pos (a * b)
unfolding ◌*ℤ◌
mul_pos a b = ground arith

pub add_pos : (a b : ℕ) → pos a +ℤ pos b ≡ pos (a + b)
unfolding ◌+ℤ◌
add_pos a b = ground arith

pub sub_pos : (a b : ℕ) → b ≤ a → pos a -ℤ pos b ≡ pos (a - b)
unfolding ◌-ℤ◌
sub_pos a b h = ground arith

pub add-soles : (a b : ℤ) → add (soles a) (soles b) ≡ ok (soles (a +ℤ b))
unfolding add
add-soles a b = simp mul_one

pub sub-soles : (a b : ℤ) → sub (soles a) (soles b) ≡ ok (soles (a -ℤ b))
unfolding sub
sub-soles a b = simp mul_one

pub mul-soles : (a : ℤ) (n : ℤ) → mul (soles a) (of_int n) ≡ ok (soles (a *ℤ n))
unfolding mul
mul-soles a n = simp mul_one
