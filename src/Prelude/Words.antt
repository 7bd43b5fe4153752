-- ===== src/Prelude/Words.antt =====
-- Signed machine integers as bit patterns: an int64 is a number below 2 ^ 64, an int32 one below
-- 2 ^ 32, and the upper half of each range stands for the negative values.
use Prim.Native.Nat.{ℕ, zero, suc, ◌+◌, ◌-◌, ◌*◌, ◌/◌, ◌%◌, ◌^◌, ◌<◌}
use mathlib.Core.Path.{◌≡◌}
use mathlib.Core.Bool.{Bool, true}
use mathlib.Core.List.{List, [], ◌∷◌}
use native.Mathlib.Omega.{arith}
use bb_clientd.Prelude.Tests.{ltb, leb, ◌==◌, if◌then◌else◌}

-- a < b on int64: adding 2 ^ 63 turns the order of the bit patterns into the signed one.
abbrev pub lt_i64 : ℕ → ℕ → Bool
lt_i64 a b = ltb ((a + 2 ^ 63) % 2 ^ 64) ((b + 2 ^ 63) % 2 ^ 64)

abbrev pub add_i64 : ℕ → ℕ → ℕ
add_i64 a b = (a + b) % 2 ^ 64

-- x <= 0 on int32
abbrev pub is_nonpositive_i32 : ℕ → Bool
is_nonpositive_i32 x = if x == 0 then true else leb (2 ^ 31) x

-- int64(x) of an int32
abbrev pub i64_of_i32 : ℕ → ℕ
i64_of_i32 x = if ltb x (2 ^ 31) then x else x + (2 ^ 64 - 2 ^ 32)

-- binary.LittleEndian: the lowest byte first.
abbrev pub put_le : ℕ → ℕ → List ℕ
put_le zero x = []
put_le (suc k) x = x % 256 ∷ put_le k (x / 256)

abbrev pub get_le : List ℕ → ℕ
get_le [] = 0
get_le (b ∷ bs) = b + 256 * get_le bs

-- 256 ^ k, one byte at a time.
abbrev pub le_bound : ℕ → ℕ
le_bound zero = 1
le_bound (suc k) = 256 * le_bound k

-- What was put in so many bytes is got back, if it fits in them.
pub get_le-put_le : (k x : ℕ) → x < le_bound k → get_le (put_le k x) ≡ x
get_le-put_le zero x h = omega arith
get_le-put_le (suc k) x h = omega (arith, get_le-put_le k (x / 256) (omega arith))
