-- ===== src/Base/Singles.antt =====
-- The arithmetic of `f32` and `Complex32`, as operations on bit patterns, and the facts of IEEE 754 on
-- which a loop over angles rests.
use Prim.Native.Nat.{ℕ, ◌+◌, ◌/◌, ◌%◌, ◌^◌, ◌≤◌, ◌<◌}
use mathlib.Core.Path.{◌≡◌}
use mathlib.Core.Bool.{Bool, true, false, not, ◌&&◌, ◌||◌}
use native.Mathlib.Omega.{arith}
use aeryon.Base.Tests.{ltb, ◌==◌, if◌then◌else◌}
use aeryon.Base.Words.{is_finite32}

-- The rounding operations.
pub record F32 : Type 0 where
  pub add : ℕ → ℕ → ℕ
  pub sub : ℕ → ℕ → ℕ
  pub div : ℕ → ℕ → ℕ
  -- `Complex32::arg`, `Complex32::norm` and `Complex32::from_polar`.
  pub arg : (re im : ℕ) → ℕ
  pub norm : (re im : ℕ) → ℕ
  pub polar_re : (magnitude phase : ℕ) → ℕ
  pub polar_im : (magnitude phase : ℕ) → ℕ
  -- `as f32` on an unsigned integer and on an `f64`.
  pub of_nat : ℕ → ℕ
  pub of_f64 : ℕ → ℕ

unfoldable pub is_nan32 : ℕ → Bool
unfolding is_finite32
is_nan32 x = not (is_finite32 x) && not (x % 2 ^ 23 == 0)

-- `a < b`, as `f64_lt`.
unfoldable pub f32_lt : ℕ → ℕ → Bool
unfolding is_nan32
f32_lt a b =
    not (is_nan32 a)
    && not (is_nan32 b)
    && (let m = a % 2 ^ 31 in
        let n = b % 2 ^ 31 in
        if a / 2 ^ 31 == 0
        then (b / 2 ^ 31 == 0) && ltb m n
        else if b / 2 ^ 31 == 0
        then ltb 0 m || ltb 0 n
        else ltb n m)

-- `a <= b`.
unfoldable pub f32_le : ℕ → ℕ → Bool
unfolding is_nan32 f32_lt
f32_le a b = not (is_nan32 a) && not (is_nan32 b) && not (f32_lt b a)

-- `-a`, for a number that is not negative.
abbrev pub f32_neg : ℕ → ℕ
f32_neg a = a + 2 ^ 31

abbrev pub f32_pi : ℕ
f32_pi = 0x4049_0fdb

abbrev pub f32_neg_pi : ℕ
f32_neg_pi = 0xc049_0fdb

-- 2π.
abbrev pub f32_tau : ℕ
f32_tau = 0x40c9_0fdb

abbrev pub f32_four : ℕ
f32_four = 0x4080_0000

module _ ⦃o : F32⦄ where
  -- A finite number from -n to n.
  pub record IsBetween (n x : ℕ) : Type 0 where
    pub word : x < 2 ^ 32
    pub finite : is_finite32 x ≡ true
    pub above : f32_le (f32_neg (o.of_nat n)) x ≡ true
    pub below : f32_le x (o.of_nat n) ≡ true

  -- What IEEE 754 promises of the operations up to 2^24, to which the integers are exact: rounding is
  -- monotone, so that sums keep their integer bounds, and a turn of 2π more or less moves a number.
  pub record IsIeee : Type 0 where
    pub four : o.of_nat 4 ≡ f32_four
    pub arg_bounds :
        (re im : ℕ) → is_finite32 re ≡ true → is_finite32 im ≡ true → IsBetween 4 (o.arg re im)
    pub sub_bounds :
        (m n a b : ℕ)
        → m + n ≤ 2 ^ 24
        → IsBetween m a
        → IsBetween n b
        → IsBetween (m + n) (o.sub a b)
    pub add_bounds :
        (m n a b : ℕ)
        → m + n ≤ 2 ^ 24
        → IsBetween m a
        → IsBetween n b
        → IsBetween (m + n) (o.add a b)
    pub lower_turn :
        (n x : ℕ)
        → 4 ≤ n
        → n ≤ 2 ^ 24
        → IsBetween n x
        → f32_lt f32_pi x ≡ true
        → IsBetween n (o.sub x f32_tau) × (f32_lt (o.sub x f32_tau) x ≡ true)
    pub raise_turn :
        (n x : ℕ)
        → 4 ≤ n
        → n ≤ 2 ^ 24
        → IsBetween n x
        → f32_lt x f32_neg_pi ≡ true
        → IsBetween n (o.add x f32_tau)
          × (f32_lt x (o.add x f32_tau) ≡ true)
          × (f32_lt f32_pi (o.add x f32_tau) ≡ false)

-- Above π the order is that of the bit patterns, and below -π the reverse.
pub lt_above_pi : (a b : ℕ) → b < 2 ^ 32 → f32_lt f32_pi a ≡ true → f32_lt a b ≡ true → a < b
unfolding f32_lt
lt_above_pi a b word h k = ground arith

pub lt_below_pi : (a b : ℕ) → b < 2 ^ 32 → f32_lt b f32_neg_pi ≡ true → f32_lt a b ≡ true → b < a
unfolding f32_lt
lt_below_pi a b word h k = ground arith

-- A finite number that is not above π and not below -π lies between -4 and 4.
pub between_four :
    (x : ℕ)
    → is_finite32 x ≡ true
    → f32_lt f32_pi x ≡ false
    → f32_lt x f32_neg_pi ≡ false
    → (f32_le (f32_neg f32_four) x ≡ true) × (f32_le x f32_four ≡ true)
unfolding f32_lt f32_le is_nan32 is_finite32
between_four x finite up down = ground arith
