-- ===== src/Base/Floats.antt =====
-- The arithmetic of `f64`, as operations on bit patterns.
use Prim.Native.Nat.{ℕ, ◌%◌, ◌^◌}
use mathlib.Core.Path.{◌≡◌, refl}
use mathlib.Core.Logic.{◌↔◌}
use mathlib.Core.Bool.{Bool, true, not, ◌&&◌}
use mathlib.Core.List.{List, [], ◌∷◌}
use native.Mathlib.Omega.{arith}
use aeryon.Base.Tests.{if◌then◌else◌}
use aeryon.Base.Lists.{All}
use aeryon.Base.Ints.{ℤ}
use aeryon.Base.Words.{is_finite32, is_finite64, is_nan64, f64_lt}

-- The rounding operations. The theorems assume nothing of them.
pub record F64 : Type 0 where
  pub add : ℕ → ℕ → ℕ
  pub sub : ℕ → ℕ → ℕ
  pub mul : ℕ → ℕ → ℕ
  pub div : ℕ → ℕ → ℕ
  pub sqrt : ℕ → ℕ
  pub cos : ℕ → ℕ
  -- `Iterator::sum`.
  pub sum : List ℕ → ℕ
  -- `as f64` on an unsigned integer, and `f64::from` on an `f32`.
  pub of_nat : ℕ → ℕ
  pub of_f32 : ℕ → ℕ
  -- `f64::from` on an `i16`.
  pub of_int : ℤ → ℕ

abbrev pub f64_half : ℕ
f64_half = 0x3fe0_0000_0000_0000

abbrev pub f64_two : ℕ
f64_two = 0x4000_0000_0000_0000

-- 2π.
abbrev pub f64_tau : ℕ
f64_tau = 0x4019_21fb_5444_2d18

abbrev pub f64_billion : ℕ
f64_billion = 0x41cd_cd65_0000_0000

-- 1.05.
abbrev pub f64_margin : ℕ
f64_margin = 0x3ff0_cccc_cccc_cccd

-- `f64::EPSILON`.
abbrev pub f64_epsilon : ℕ
f64_epsilon = 0x3cb0_0000_0000_0000

abbrev pub f64_infinity : ℕ
f64_infinity = 0x7ff0_0000_0000_0000

abbrev pub f64_neg_infinity : ℕ
f64_neg_infinity = 0xfff0_0000_0000_0000

-- `a <= b`.
unfoldable pub f64_le : ℕ → ℕ → Bool
f64_le a b = not (is_nan64 a) && not (is_nan64 b) && not (f64_lt b a)

-- `f64::min` and `f64::max`: a NaN is passed over.
unfoldable pub f64_min : ℕ → ℕ → ℕ
f64_min a b = if is_nan64 a then b else if is_nan64 b then a else if f64_lt b a then b else a

unfoldable pub f64_max : ℕ → ℕ → ℕ
f64_max a b = if is_nan64 a then b else if is_nan64 b then a else if f64_lt a b then b else a

-- `f64::abs` clears the sign.
unfoldable pub f64_abs : ℕ → ℕ
f64_abs a = a % 2 ^ 63

unfoldable pub all_finite32 : List ℕ → Bool
all_finite32 [] = true
all_finite32 (x ∷ xs) = is_finite32 x && all_finite32 xs

unfoldable pub all_finite64 : List ℕ → Bool
all_finite64 [] = true
all_finite64 (x ∷ xs) = is_finite64 x && all_finite64 xs

abbrev pub AreFinite : List ℕ → Type 0
AreFinite = All (λ x. is_finite64 x ≡ true)

pub all_finite64_iff : (xs : List ℕ) → (all_finite64 xs ≡ true) ↔ AreFinite xs
unfolding all_finite64
all_finite64_iff [] = (λ _. tt, λ _. refl)
all_finite64_iff (x ∷ xs) = ground (arith, all_finite64_iff xs)
