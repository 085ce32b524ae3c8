-- ===== src/Prelude/Word.antt =====
-- Machine integers: the value of a two's complement `i64` after wrap-around, and its division.
-- An overflow wraps, as in the release profile (Cargo.toml sets no overflow checks).
use klass_mobile_backend.Prelude.Tests.{ltb, if◌then◌else◌}
use klass_mobile_backend.Prelude.Int.{ℤ, pos, negsuc}
use Prim.Native.Nat.{ℕ, zero, suc, ◌-◌, ◌/◌, ◌%◌, ◌≤◌, ◌<◌}
use mathlib.Core.Path.{◌≡◌}
use mathlib.Core.Option.{Option, none, some}
use native.Mathlib.Omega.{arith}

abbrev pub two63 : ℕ
two63 = 9223372036854775808

abbrev pub two64 : ℕ
two64 = 18446744073709551616

-- The 64 bits of an integer.
abbrev pub bits64 : ℤ → ℕ
bits64 (pos n) = n % two64
bits64 (negsuc n) = two64 - 1 - n % two64

abbrev pub of_bits64 : ℕ → ℤ
of_bits64 u = if ltb u two63 then pos u else negsuc (two64 - 1 - u)

unfoldable pub wrap64 : ℤ → ℤ
wrap64 z = of_bits64 (bits64 z)

-- `as i32`: the low 32 bits.
abbrev pub of_bits32 : ℕ → ℤ
of_bits32 u = if ltb u 2147483648 then pos u else negsuc (4294967295 - u)

unfoldable pub wrap32 : ℤ → ℤ
wrap32 z = of_bits32 (bits64 z % 4294967296)

pub wrap64-pos : (n : ℕ) → n < two63 → wrap64 (pos n) ≡ pos n
unfolding wrap64
wrap64-pos n h = ground arith

pub wrap64-negsuc : (n : ℕ) → n < two63 → wrap64 (negsuc n) ≡ negsuc n
unfolding wrap64
wrap64-negsuc n h = ground arith

pub wrap64_overflow : (n : ℕ) → two63 ≤ n → n < two64 → wrap64 (pos n) ≡ negsuc (two64 - 1 - n)
unfolding wrap64
wrap64_overflow n h k = ground arith

negate : ℕ → ℤ
negate zero = pos 0
negate (suc n) = negsuc n

-- `/` on `i64`: truncation towards zero, and a panic (`none`) on a zero divisor and where the
-- quotient is 2 ^ 63.
unfoldable pub div64 : ℤ → ℤ → Option ℤ
unfolding negate
div64 (pos a) (pos zero) = none
div64 (negsuc a) (pos zero) = none
div64 (pos a) (pos (suc b)) = some (pos (a / suc b))
div64 (pos a) (negsuc b) = some (negate (a / suc b))
div64 (negsuc a) (pos (suc b)) = some (negate (suc a / suc b))
div64 (negsuc a) (negsuc b) = let q = suc a / suc b in if ltb q two63 then some (pos q) else none
