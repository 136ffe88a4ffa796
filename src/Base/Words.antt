-- ===== src/Base/Words.antt =====
-- `u32` and `u64` arithmetic of a release build: it wraps.
use Prim.Native.Nat.{ℕ, ◌+◌, ◌-◌, ◌%◌, ◌<◌}
use mathlib.Core.Path.{◌≡◌, refl}
use mathlib.Core.List.{List, [], ◌∷◌}
use native.Mathlib.Omega.{arith}
use bullshark_ubuntu.Base.Lists.{sum}

abbrev pub u32_mod : ℕ
u32_mod = 4294967296

abbrev pub u64_mod : ℕ
u64_mod = 18446744073709551616

abbrev pub add_u32 : ℕ → ℕ → ℕ
add_u32 a b = (a + b) % u32_mod

abbrev pub add_u64 : ℕ → ℕ → ℕ
add_u64 a b = (a + b) % u64_mod

abbrev pub sub_u64 : ℕ → ℕ → ℕ
sub_u64 a b = (a + u64_mod - b) % u64_mod

-- `Iterator::sum` at `u32`.
abbrev pub sum_u32 : List ℕ → ℕ
sum_u32 [] = 0
sum_u32 (x ∷ xs) = add_u32 x (sum_u32 xs)

pub sum_u32-lt : (xs : List ℕ) → sum_u32 xs < u32_mod
sum_u32-lt [] = omega arith
sum_u32-lt (x ∷ xs) = omega arith

-- Without an overflow it is the sum.
pub sum_u32-eq-sum : (xs : List ℕ) → sum xs < u32_mod → sum_u32 xs ≡ sum xs
sum_u32-eq-sum [] h = refl
sum_u32-eq-sum (x ∷ xs) h = omega (arith, sum_u32-eq-sum xs (omega arith))
