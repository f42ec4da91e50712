-- ===== src/Base/Words.antt =====
-- Machine words: `u64` arithmetic, and the IEEE 754 formats by their bit patterns.
use Prim.Native.Nat.{ℕ, ◌+◌, ◌/◌, ◌%◌, ◌^◌, min}
use mathlib.Core.Path.{◌≡◌, refl}
use mathlib.Core.Bool.{Bool, true, false, not, ◌&&◌, ◌||◌}
use aeryon.Base.Tests.{ltb, ◌==◌, if◌then◌else◌}

abbrev pub u64_max : ℕ
u64_max = 18_446_744_073_709_551_615

-- `u64::saturating_add`.
abbrev pub saturating_add : ℕ → ℕ → ℕ
saturating_add a b = min (a + b) u64_max

abbrev pub u32_max : ℕ
u32_max = 4_294_967_295

-- `u32::saturating_add`.
abbrev pub saturating_add32 : ℕ → ℕ → ℕ
saturating_add32 a b = min (a + b) u32_max

-- `AtomicU64::fetch_add`, which wraps round.
abbrev pub fetch_add : ℕ → ℕ → ℕ
fetch_add a b = (a + b) % (u64_max + 1)

-- `f32::is_finite`: not all bits of the exponent are set.
unfoldable pub is_finite32 : ℕ → Bool
is_finite32 x = not (x / 2 ^ 23 % 256 == 255)

-- `f64::is_finite`.
unfoldable pub is_finite64 : ℕ → Bool
is_finite64 x = not (x / 2 ^ 52 % 2048 == 2047)

unfoldable pub is_nan64 : ℕ → Bool
unfolding is_finite64
is_nan64 x = not (is_finite64 x) && not (x % 2 ^ 52 == 0)

-- `a < b` on `f64`: false if either is NaN; otherwise by the signs, then by the other 63 bits, where
-- the two zeros are equal.
unfoldable pub f64_lt : ℕ → ℕ → Bool
unfolding is_nan64
f64_lt a b =
    not (is_nan64 a)
    && not (is_nan64 b)
    && (let m = a % 2 ^ 63 in
        let n = b % 2 ^ 63 in
        if a / 2 ^ 63 == 0
        then (b / 2 ^ 63 == 0) && ltb m n
        else if b / 2 ^ 63 == 0
        then ltb 0 m || ltb 0 n
        else ltb n m)

-- The bit patterns of 0.0 and 1.0.
abbrev pub f64_zero : ℕ
f64_zero = 0

abbrev pub f64_one : ℕ
f64_one = 0x3ff0_0000_0000_0000

f64_lt_samples :
    (f64_lt f64_zero f64_one ≡ true)
    × (f64_lt (2 ^ 63) f64_zero ≡ false)
    × (f64_lt 0xbff0_0000_0000_0000 f64_zero ≡ true)
    × (f64_lt 0x7ff8_0000_0000_0000 f64_one ≡ false)
    × (f64_lt 0xfff0_0000_0000_0000 0xbff0_0000_0000_0000 ≡ true)
unfolding f64_lt
f64_lt_samples = (refl, refl, refl, refl, refl)
