-- ===== src/Base/Check.antt =====
-- A test of all numbers below a bound, which the checker computes.
use Prim.Native.Nat.{ℕ, zero, suc, ◌<◌}
use mathlib.Core.Path.{◌≡◌, subst}
use mathlib.Core.Logic.{inl, inr}
use mathlib.Core.Bool.{Bool, true, ◌&&◌}
use native.Mathlib.Omega.{arith}
use cifsd.Base.Tests.{◌==◌, Bool-cases}

abbrev pub check_all : (ℕ → Bool) → ℕ → Bool
check_all f zero = true
check_all f (suc n) = f n && check_all f n

pub check_all_sound : (f : ℕ → Bool) (n m : ℕ) → check_all f n ≡ true → m < n → f m ≡ true
check_all_sound f zero m h l = absurd (ground arith)
check_all_sound f (suc n) m h l = elim (Bool-cases (m == n)) [
  | inl same ↦ let e : n ≡ m = ground arith in subst (λ k. f k ≡ true) e (ground arith)
  | inr other ↦ check_all_sound f n m (ground arith) (ground arith)
]
