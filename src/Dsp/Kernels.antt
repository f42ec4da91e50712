-- ===== src/Dsp/Kernels.antt =====
-- The reference kernels of core/dsp/src/kernels.rs, and `hann_window` of core/dsp/src/spectral.rs.
pub mod Totality
use aeryon.Base.{
  ℕ, zero, suc, ◌+◌, ◌-◌, ◌*◌, Bool, true, false, not, ◌||◌, Option, none, some, List, [], ◌∷◌,
  length, get_elem?, ltb, ◌==◌, is_finite64, f64_zero, f64_one, if◌then◌else◌,
}
use aeryon.Base.Text.{codes}
use aeryon.Base.Outcomes.{Outcome, done, failed, ◌>>=◌, ◌>>◌, refuse, or_panic, or_fail}
use aeryon.Base.Floats.{F64, f64_half, f64_tau, all_finite32, all_finite64}
use aeryon.Csi.Frame.{checked_mul}
use aeryon.Dsp.Errors.{
  DspError, motion_energy, spectral, Message, plain, dimension_mismatch, insufficient_length,
  non_finite,
}

module _ ⦃o : F64⦄ where
  -- The sum over the subcarriers from the `k`-th on, of which `n` are left.
  unfoldable pub square_sum :
      (real imag : List ℕ) → (previous current : ℕ) → (k n sum : ℕ) → Outcome DspError ℕ
  square_sum real imag previous current k zero sum = done sum
  square_sum real imag previous current k (suc n) sum = do
    real_now ← or_panic (get_elem? real (current + k))
    real_before ← or_panic (get_elem? real (previous + k))
    imag_now ← or_panic (get_elem? imag (current + k))
    imag_before ← or_panic (get_elem? imag (previous + k))
    let dr = o.sub (o.of_f32 real_now) (o.of_f32 real_before)
    let di = o.sub (o.of_f32 imag_now) (o.of_f32 imag_before)
    square_sum real imag previous current (suc k) n (o.add sum (o.add (o.mul dr dr) (o.mul di di)))

  -- The loop over the frames from the `t`-th on, of which `n` are left.
  unfoldable pub energies : (real imag : List ℕ) → (subcarriers t n : ℕ) → Outcome DspError (List ℕ)
  energies real imag w t zero = done []
  energies real imag w t (suc n) = do
    sum ← square_sum real imag ((t - 1) * w) (t * w) 0 w f64_zero
    let energy = o.sqrt (o.mul sum (o.div f64_one (o.of_nat w)))
    refuse (not (is_finite64 energy))
        (motion_energy (plain (codes "motion-energy produced a non-finite value")))
    rest ← energies real imag w (suc t) n
    done (energy ∷ rest)

  unfoldable pub motion_energy_link :
      (real imag : List ℕ) → (frame_count subcarrier_count : ℕ) → Outcome DspError (List ℕ)
  motion_energy_link real imag frames w = do
    refuse (ltb frames 2)
        (motion_energy (plain (codes "motion-energy requires at least two frames")))
    refuse (w == 0) (motion_energy (plain (codes "motion-energy requires at least one subcarrier")))
    expected ←
        or_fail (checked_mul frames w)
          (motion_energy (plain (codes "motion-energy sample count overflow")))
    refuse (not (length real == expected) || not (length imag == expected))
        (motion_energy (dimension_mismatch expected (length real) (length imag)))
    refuse (not (all_finite32 real) || not (all_finite32 imag))
        (motion_energy (plain (codes "motion-energy input contains non-finite values")))
    energies real imag w 1 (frames - 1)

  -- The weights from the `i`-th on, of which `n` are left.
  unfoldable pub hann_from : (denominator : ℕ) → (i n : ℕ) → List ℕ
  hann_from d i zero = []
  hann_from d i (suc n) =
      o.mul f64_half (o.sub f64_one (o.cos (o.div (o.mul f64_tau (o.of_nat i)) d)))
      ∷ hann_from d (suc i) n

  unfoldable pub hann_window : ℕ → List ℕ
  hann_window zero = []
  hann_window (suc zero) = f64_one ∷ []
  hann_window (suc (suc n)) = hann_from (o.of_nat (suc n)) 0 (suc (suc n))

  -- The loop over the samples with their weights, which stops with the shorter list.
  unfoldable pub weigh : (mean : ℕ) → (signal window : List ℕ) → Outcome DspError (List ℕ)
  weigh mean (x ∷ xs) (w ∷ ws) = do
    let sample = o.mul (o.sub x mean) w
    refuse (not (is_finite64 sample))
        (spectral (plain (codes "center/Hann produced a non-finite value")) non_finite)
    rest ← weigh mean xs ws
    done (sample ∷ rest)
  weigh mean _ _ = done []

  unfoldable pub center_and_apply_hann : List ℕ → Outcome DspError (List ℕ)
  center_and_apply_hann signal = do
    refuse (length signal == 0)
        (spectral (plain (codes "center/Hann requires at least one sample")) insufficient_length)
    refuse (not (all_finite64 signal))
        (spectral (plain (codes "center/Hann input contains non-finite values")) non_finite)
    let mean = o.div (o.sum signal) (o.of_nat (length signal))
    (if length signal == 1
        then done (f64_zero ∷ [])
        else weigh mean signal (hann_window (length signal)))
