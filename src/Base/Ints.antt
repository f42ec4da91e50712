-- ===== src/Base/Ints.antt =====
-- Signed integers, with the two tests that the code makes on `i16` values.
use Prim.Native.Nat.{ℕ}
use mathlib.Core.Path.{◌≡◌}
use mathlib.Core.Bool.{Bool, true, false}
use native.Mathlib.Omega.{arith}
use aeryon.Base.Tests.{ltb, ◌==◌}

-- `negsuc n` is -(n + 1).
pub data ℤ : Type 0 where
  pos : ℕ → ℤ
  negsuc : ℕ → ℤ

unfoldable pub eqℤ : ℤ → ℤ → Bool
eqℤ (pos a) (pos b) = a == b
eqℤ (negsuc a) (negsuc b) = a == b
eqℤ _ _ = false

unfoldable pub ltℤ : ℤ → ℤ → Bool
ltℤ (pos a) (pos b) = ltb a b
ltℤ (pos a) (negsuc b) = false
ltℤ (negsuc a) (pos b) = true
ltℤ (negsuc a) (negsuc b) = ltb b a

pub eqℤ→eq : (a b : ℤ) → eqℤ a b ≡ true → a ≡ b
unfolding eqℤ
eqℤ→eq a b h = ground arith

pub eqℤ-refl : (a : ℤ) → eqℤ a a ≡ true
unfolding eqℤ
eqℤ-refl a = ground arith

pub ltℤ-irrefl : (a : ℤ) → ltℤ a a ≡ false
unfolding ltℤ
ltℤ-irrefl a = ground arith

pub ltℤ-trans : (a b c : ℤ) → ltℤ a b ≡ true → ltℤ b c ≡ true → ltℤ a c ≡ true
unfolding ltℤ
ltℤ-trans a b c h k = ground arith

pub ltℤ_total : (a b : ℤ) → eqℤ a b ≡ false → ltℤ a b ≡ false → ltℤ b a ≡ true
unfolding eqℤ ltℤ
ltℤ_total a b h k = ground arith

pub ltℤ-asymm : (a b : ℤ) → ltℤ a b ≡ true → (ltℤ b a ≡ false) × (eqℤ b a ≡ false)
unfolding eqℤ ltℤ
ltℤ-asymm a b h = ground arith
