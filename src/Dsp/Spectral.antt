-- ===== src/Dsp/Spectral.antt =====
-- Sampling analysis and spectra of core/dsp/src/spectral.rs. The Fourier transform is that of a
-- third-party package, a parameter.
pub mod Shape
use aeryon.Base.{
  ℕ, zero, suc, ◌+◌, ◌-◌, ◌/◌, ◌%◌, Bool, true, false, not, ◌&&◌, ◌||◌, Option, none, some, List,
  [], ◌∷◌, map, length, get_elem?, take, drop, ltb, ◌==◌, is_finite64, f64_lt, f64_zero, f64_one,
  is_some, if◌then◌else◌,
}
use aeryon.Base.Text.{Str, codes}
use aeryon.Base.Outcomes.{Outcome, done, failed, ◌>>=◌, ◌>>◌, refuse, or_panic}
use aeryon.Base.Floats.{
  F64, f64_two, f64_billion, f64_margin, f64_infinity, f64_neg_infinity, f64_le, f64_min, f64_max,
  f64_abs, all_finite64,
}
use aeryon.Calibration.Report.{AntennaLink}
use aeryon.Calibration.Frame as Frame
use aeryon.Calibration.Frame.{CalibratedCsiFrame}
use aeryon.Dsp.Errors.{
  DspError, DspFailureCode, Message, plain, jitter_exceeds, insufficient_length,
  non_monotonic_timestamp, invalid_sample_rate, excessive_jitter, non_finite,
}
use aeryon.Dsp.Window.{CsiWindow}
use aeryon.Dsp.Kernels.{hann_window}
use aeryon.Dsp.Backend.{DspKernelBackend}
use aeryon.Dsp.Motion.{LinkMotionEnergy}

pub record SamplingAnalysis : Type 0 where
  pub median_interval_secs : ℕ
  pub min_interval_secs : ℕ
  pub max_interval_secs : ℕ
  pub effective_sample_rate_hz : ℕ
  pub timestamp_jitter : ℕ

pub record LinkPowerSpectrum : Type 0 where
  pub link : AntennaLink
  pub frequencies_hz : List ℕ
  pub power : List ℕ
  pub dominant_non_dc_hz : Option ℕ

pub record SpectralAnalysis : Type 0 where
  pub sampling : SamplingAnalysis
  pub links : List LinkPowerSpectrum
  pub aggregate : Option LinkPowerSpectrum
  pub warnings : List Str

abbrev pub spectral_error : Str → DspFailureCode → DspError
spectral_error s code = DspError.spectral (plain s) code

-- A stable sort by `partial_cmp`, for values of which none is a NaN.
unfoldable pub insert_sorted : ℕ → List ℕ → List ℕ
insert_sorted x [] = x ∷ []
insert_sorted x (y ∷ ys) =
    let rest = insert_sorted x ys in if f64_lt y x then y ∷ rest else x ∷ (y ∷ ys)

unfoldable pub sort_values : List ℕ → List ℕ
sort_values [] = []
sort_values (x ∷ xs) = insert_sorted x (sort_values xs)

-- Not every link is without a dominant frequency.
unfoldable pub any_dominant : List LinkPowerSpectrum → Bool
any_dominant [] = false
any_dominant (l ∷ ls) = is_some l.dominant_non_dc_hz || any_dominant ls

-- `fold`.
abbrev pub fold_values : (ℕ → ℕ → ℕ) → ℕ → List ℕ → ℕ
fold_values f a [] = a
fold_values f a (x ∷ xs) = fold_values f (f a x) xs

module _ ⦃o : F64⦄ where
  -- The loop over `windows(2)` of the frames.
  unfoldable pub intervals : List CalibratedCsiFrame → Outcome DspError (List ℕ)
  intervals [] = done []
  intervals (previous ∷ []) = done []
  intervals (previous ∷ (current ∷ rest)) = do
    let before = (Frame.capture_timestamp previous).nanos
    let now = (Frame.capture_timestamp current).nanos
    refuse (ltb now before)
        (spectral_error (codes "capture timestamps are not monotonic") non_monotonic_timestamp)
    refuse (now - before == 0) (
        spectral_error (codes "zero capture-time interval is invalid for spectral analysis")
          invalid_sample_rate)
    later ← intervals (current ∷ rest)
    done (o.div (o.of_nat (now - before)) f64_billion ∷ later)

  unfoldable pub median_f64 : List ℕ → Outcome DspError ℕ
  median_f64 values =
      let sorted = sort_values values in
      let mid = length sorted / 2 in
      if length sorted % 2 == 0
      then (or_panic (get_elem? sorted (mid - 1)) >>= λ below.
          or_panic (get_elem? sorted mid) >>= λ above. done (o.div (o.add below above) f64_two))
      else or_panic (get_elem? sorted mid)

  unfoldable pub analyze_sampling : CsiWindow → Outcome DspError SamplingAnalysis
  analyze_sampling window = do
    refuse (ltb (length window.frames) 2) (
        spectral_error (codes "sampling analysis requires at least two frames") insufficient_length)
    gaps ← intervals window.frames
    median ← median_f64 gaps
    refuse (not (is_finite64 median) || f64_le median f64_zero)
        (spectral_error (codes "median capture interval is invalid") invalid_sample_rate)
    let deviation =
        fold_values f64_max f64_zero (map (λ interval. f64_abs (o.sub interval median)) gaps)
    let jitter = o.div deviation median
    let sample_rate = o.div f64_one median
    refuse
        (not (is_finite64 jitter) || not (is_finite64 sample_rate) || f64_le sample_rate f64_zero)
        (spectral_error (codes "derived sample rate or jitter is non-finite") invalid_sample_rate)
    done (record {
      median_interval_secs = median;
      min_interval_secs = fold_values f64_min f64_infinity gaps;
      max_interval_secs = fold_values f64_max f64_neg_infinity gaps;
      effective_sample_rate_hz = sample_rate;
      timestamp_jitter = jitter;
    })

  -- The index and the power of the greatest value, from the value at `index` on.
  unfoldable pub best_from : (best_index best_power index : ℕ) → List ℕ → ℕ × ℕ
  best_from i p index [] = (i, p)
  best_from i p index (x ∷ xs) =
      if f64_lt p x then best_from index x (suc index) xs else best_from i p (suc index) xs

  -- The frequency of the best bin, if its power is meaningful.
  unfoldable pub peak_frequency : (frequencies power : List ℕ) → ℕ × ℕ → Outcome DspError (Option ℕ)
  peak_frequency frequencies power (best, peak) =
      let mean = o.div (o.sum (drop 1 power)) (o.of_nat (length power - 1)) in
      let is_flat =
        not (is_finite64 peak) || f64_le peak f64_zero || f64_lt peak (o.mul mean f64_margin) in
      if is_flat
      then done none
      else (or_panic (get_elem? frequencies best) >>= λ frequency. done (some frequency))

  unfoldable pub dominant_non_dc : (frequencies power : List ℕ) → Outcome DspError (Option ℕ)
  dominant_non_dc frequencies power =
      if ltb (length frequencies) 2 || not (length power == length frequencies)
      then done none
      else (or_panic (get_elem? power 1) >>= λ first.
          peak_frequency frequencies power (best_from 1 first 1 (drop 1 power)))

  -- The loop over the bins from the one at `bin` on: frequencies and powers.
  unfoldable pub bins :
      (n sample_rate scale onesided_len bin : ℕ) → List (ℕ × ℕ) → Outcome DspError (List ℕ × List ℕ)
  bins n rate scale onesided bin [] = done ([], [])
  bins n rate scale onesided bin ((re, im) ∷ rest) = do
    let freq = o.div (o.mul (o.of_nat bin) rate) (o.of_nat n)
    let single = o.mul (o.add (o.mul re re) (o.mul im im)) scale
    let p =
        if ltb 0 bin && not ((n % 2 == 0) && (bin == onesided - 1))
        then o.mul single f64_two
        else single
    refuse (not (is_finite64 freq) || not (is_finite64 p))
        (spectral_error (codes "spectral output contains non-finite values") non_finite)
    later ← bins n rate scale onesided (suc bin) rest
    done (freq ∷ later.0, p ∷ later.1)

  module _ (fft : List (ℕ × ℕ) → List (ℕ × ℕ)) where
    unfoldable pub spectrum_for_series :
        AntennaLink
        → List ℕ
        → (sample_rate : ℕ) → DspKernelBackend
        → Outcome DspError LinkPowerSpectrum
    spectrum_for_series link signal rate backend = do
      refuse (ltb (length signal) 4) (
          spectral_error (codes "spectral analysis requires at least four motion-energy samples")
            insufficient_length)
      refuse (not (is_finite64 rate) || f64_le rate f64_zero)
          (spectral_error (codes "sample rate must be finite and positive") invalid_sample_rate)
      refuse (not (all_finite64 signal))
          (spectral_error (codes "motion-energy signal contains non-finite values") non_finite)
      let n = length signal
      windowed ← backend.center_and_apply_hann signal
      refuse (not (length windowed == n))
          (spectral_error (codes "center/Hann output length mismatch") DspFailureCode.spectral)
      let window_power = o.sum (map (λ w. o.mul w w) (hann_window n))
      refuse (f64_le window_power f64_zero || not (is_finite64 window_power))
          (spectral_error (codes "Hann window normalization failed") DspFailureCode.spectral)
      let buffer = fft (map (λ value. (value, f64_zero)) windowed)
      let onesided = n / 2 + 1
      spectrum ← bins n rate (o.div f64_one window_power) onesided 0 (take onesided buffer)
      dominant ← dominant_non_dc spectrum.0 spectrum.1
      done (record {
        link = link;
        frequencies_hz = spectrum.0;
        power = spectrum.1;
        dominant_non_dc_hz = dominant;
      })

    unfoldable pub link_spectra :
        List LinkMotionEnergy
        → (sample_rate : ℕ) → DspKernelBackend
        → Outcome DspError (List LinkPowerSpectrum)
    link_spectra [] rate backend = done []
    link_spectra (series ∷ motion) rate backend = do
      first ← spectrum_for_series series.link series.values rate backend
      rest ← link_spectra motion rate backend
      done (first ∷ rest)

    unfoldable pub aggregate_spectrum :
        Option (List ℕ)
        → (sample_rate : ℕ) → DspKernelBackend
        → Outcome DspError (Option LinkPowerSpectrum)
    aggregate_spectrum none rate backend = done none
    aggregate_spectrum (some values) rate backend = do
      spectrum ← spectrum_for_series (record { rx = 65535; tx = 65535 }) values rate backend
      done (some spectrum)

    unfoldable pub analyze_spectrum_with_backend :
        CsiWindow
        → List LinkMotionEnergy
        → Option (List ℕ)
        → (jitter_tolerance : ℕ) → DspKernelBackend
        → Outcome DspError SpectralAnalysis
    analyze_spectrum_with_backend window motion aggregate tolerance backend = do
      sampling ← analyze_sampling window
      refuse (f64_lt tolerance sampling.timestamp_jitter)
          (DspError.spectral (jitter_exceeds sampling.timestamp_jitter tolerance) excessive_jitter)
      links ← link_spectra motion sampling.effective_sample_rate_hz backend
      combined ← aggregate_spectrum aggregate sampling.effective_sample_rate_hz backend
      done (record {
        sampling = sampling;
        links = links;
        aggregate = combined;
        warnings =
            if any_dominant links
            then []
            else codes "no meaningful non-DC spectral peak detected" ∷ [];
      })
