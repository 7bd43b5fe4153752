-- ===== src/Prelude/Integers.antt =====
-- Signed integers by their sign, where a program divides them: an int64 is an integer from
-- - 2 ^ 63 up to 2 ^ 63 - 1.
use Prim.Native.Nat.{ℕ, zero, suc, ◌+◌, ◌-◌, ◌*◌, ◌/◌, ◌^◌, ◌≤◌, ◌<◌}
use mathlib.Core.Path.{◌≡◌}
use mathlib.Core.Logic.{◌↔◌}
use mathlib.Core.Bool.{Bool, false}
use mathlib.Core.Option.{Option, none, some}
use native.Mathlib.Omega.{arith}
use native.Mathlib.Nat.{div-mul-le_self, lt-div-mul-add, div-eq_of_lt-le}
use bb_clientd.Prelude.Tests.{ltb, ◌==◌, if◌then◌else◌}

pub data ℤ : Type 0 where
  pos : ℕ → ℤ
  negsuc : ℕ → ℤ

abbrev pub neg : ℕ → ℤ
neg zero = pos 0
neg (suc n) = negsuc n

abbrev pub eq_int : ℤ → ℤ → Bool
eq_int (pos a) (pos b) = a == b
eq_int (pos a) (negsuc b) = false
eq_int (negsuc a) (pos b) = false
eq_int (negsuc a) (negsuc b) = a == b

-- The only quotient of two int64 that is out of range is 2 ^ 63, which wraps.
abbrev pub wrap_quotient : ℕ → ℤ
wrap_quotient q = if ltb q (2 ^ 63) then pos q else negsuc (2 ^ 63 - 1)

-- a / b on int64: the quotient is cut towards zero. A zero divisor panics.
abbrev pub quot_i64 : ℤ → ℤ → Option ℤ
quot_i64 a (pos zero) = none
quot_i64 (pos n) (pos (suc d)) = some (pos (n / suc d))
quot_i64 (negsuc n) (pos (suc d)) = some (neg (suc n / suc d))
quot_i64 (pos n) (negsuc d) = some (neg (n / suc d))
quot_i64 (negsuc n) (negsuc d) = some (wrap_quotient (suc n / suc d))

-- A quotient says between which multiples of the divisor a number lies.
pub div_window : (n d q : ℕ) → 0 < d → (n / d ≡ q) ↔ ((q * d ≤ n) × (n < q * d + d))
div_window n d q pos_d = (
  λ e. rw (← e) (div-mul-le_self n d, lt-div-mul-add pos_d),
  λ (low, high). div-eq_of_lt-le d low (omega (arith, high)),
)
