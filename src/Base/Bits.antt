-- ===== src/Base/Bits.antt =====
-- Bits of the flag words, and the wrap-around of 32-bit arithmetic.
use Prim.Native.Nat.{ℕ, ◌+◌, ◌-◌, ◌/◌, ◌%◌, ◌^◌}
use mathlib.Core.Bool.{Bool}
use cifsd.Base.Tests.{◌==◌, leb, if◌then◌else◌}

-- `x & (1 << k)` as a condition.
abbrev pub test_bit : ℕ → ℕ → Bool
test_bit x k = x / 2 ^ k % 2 == 1

-- `x | (1 << k)`.
abbrev pub set_bit : ℕ → ℕ → ℕ
set_bit x k = if test_bit x k then x else x + 2 ^ k

-- `x & ~(1 << k)`.
abbrev pub clear_bit : ℕ → ℕ → ℕ
clear_bit x k = if test_bit x k then x - 2 ^ k else x

abbrev pub u16_mod : ℕ
u16_mod = 65536

abbrev pub u32_mod : ℕ
u32_mod = 4294967296

-- The sign of an `int` that is held as its 32-bit pattern.
abbrev pub is_negative : ℕ → Bool
is_negative x = leb 2147483648 x

-- `x += y` and `x -= y` on `unsigned int`.
abbrev pub add32 : ℕ → ℕ → ℕ
add32 x y = (x + y) % u32_mod

abbrev pub sub32 : ℕ → ℕ → ℕ
sub32 x y = (x + u32_mod - y) % u32_mod
