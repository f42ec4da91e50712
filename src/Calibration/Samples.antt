-- ===== src/Calibration/Samples.antt =====
-- Test data: an arithmetic that rounds everything to one value, and a small frame.
use mathlib.Core.List.{map}
use aeryon.Calibration.Profile.{baseline_csi_v1, enabled_stages, is_enabled, stage_id}
use aeryon.Calibration.Pipeline.Applied.{UnwrapsFirst}
use aeryon.Base.{ℕ, ◌≡◌, refl, true, is_finite32, f64_one, arith}
use aeryon.Base.Floats.{F64}
use aeryon.Base.Singles.{
  F32, IsBetween, IsIeee, f32_lt, f32_le, f32_pi, f32_neg_pi, f32_four, is_nan32,
}
use aeryon.Domain.Frame.{Timestamp}

instance abbrev pub doubles : F64
doubles = record {
  add = λ x y. f64_one;
  sub = λ x y. f64_one;
  mul = λ x y. f64_one;
  div = λ x y. f64_one;
  sqrt = λ x. f64_one;
  cos = λ x. f64_one;
  sum = λ xs. f64_one;
  of_nat = λ n. f64_one;
  of_f32 = λ x. f64_one;
  of_int = λ z. f64_one;
}

instance abbrev pub singles : F32
singles = record {
  add = λ x y. 0;
  sub = λ x y. 0;
  div = λ x y. 0;
  arg = λ x y. 0;
  norm = λ x y. 0;
  polar_re = λ m p. 0;
  polar_im = λ m p. 0;
  of_nat = λ n. f32_four;
  of_f64 = λ x. 0x3f80_0000;
}

pub zero-IsBetween : (n : ℕ) → IsBetween n 0
unfolding is_finite32 f32_le
zero-IsBetween n = record { word = omega arith; finite = refl; above = refl; below = refl }

above_zero : (x : ℕ) → f32_lt f32_pi x ≡ true → f32_lt 0 x ≡ true
unfolding f32_lt is_nan32 is_finite32
above_zero x h = ground arith

below_zero : (x : ℕ) → f32_lt x f32_neg_pi ≡ true → f32_lt x 0 ≡ true
unfolding f32_lt is_nan32 is_finite32
below_zero x h = ground arith

pub singles-IsIeee : IsIeee
unfolding f32_lt is_nan32 is_finite32
singles-IsIeee = record {
  four = refl;
  arg_bounds = λ re im h k. zero-IsBetween 4;
  sub_bounds = λ m n a b h p q. zero-IsBetween _;
  add_bounds = λ m n a b h p q. zero-IsBetween _;
  lower_turn = λ n x l m b h. (zero-IsBetween n, above_zero x h);
  raise_turn = λ n x l m b h. (zero-IsBetween n, below_zero x h, refl);
}

abbrev pub at_noon : Timestamp
at_noon = record { nanos = 120 }

pub baseline-UnwrapsFirst : UnwrapsFirst (map stage_id (enabled_stages baseline_csi_v1.stages))
unfolding baseline_csi_v1 enabled_stages is_enabled stage_id
baseline-UnwrapsFirst = (tt, (tt, tt))
