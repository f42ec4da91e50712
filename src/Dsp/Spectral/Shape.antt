-- ===== src/Dsp/Spectral/Shape.antt =====
-- The spectra do not panic, and what they return is aligned and finite.
use aeryon.Base.{
  ℕ, suc, ◌+◌, ◌-◌, ◌/◌, ◌≤◌, ◌<◌, not, ◌||◌, ◌≡◌, refl, inl, inr, Option, none, some, List, [],
  ◌∷◌, map, length, get_elem?_lt, take, length-map, length-take, length-drop, drop, ltb, ◌==◌,
  f64_zero, f64_one, All, arith, Bool-cases,
}
use aeryon.Base.Outcomes.{Returns, Outcome-cases}
use aeryon.Base.Floats.{F64}
use aeryon.Calibration.Report.{AntennaLink}
use aeryon.Calibration.Frame as Frame
use aeryon.Calibration.Frame.{CalibratedCsiFrame}
use aeryon.Dsp.Window.{CsiWindow}
use aeryon.Dsp.Backend.{DspKernelBackend, IsSound}
use aeryon.Dsp.Kernels.{hann_window}
use aeryon.Dsp.Kernels.Totality.{IsSeries}
use aeryon.Dsp.Motion.{LinkMotionEnergy}
use aeryon.Dsp.Motion.Shape.{AreSeries, IsSeries?}
use aeryon.Dsp.Spectral.{
  LinkPowerSpectrum, SpectralAnalysis, insert_sorted, sort_values, intervals, median_f64,
  analyze_sampling, best_from, peak_frequency, dominant_non_dc, bins, spectrum_for_series,
  link_spectra, aggregate_spectrum, analyze_spectrum_with_backend,
}

length-insert_sorted : (x : ℕ) (ys : List ℕ) → length (insert_sorted x ys) ≡ suc (length ys)
unfolding insert_sorted
length-insert_sorted x [] = refl
length-insert_sorted x (y ∷ ys) = ground (arith, length-insert_sorted x ys)

length-sort_values : (xs : List ℕ) → length (sort_values xs) ≡ length xs
unfolding sort_values
length-sort_values [] = refl
length-sort_values (x ∷ xs) =
    omega (arith, length-insert_sorted x (sort_values xs), length-sort_values xs)

module _ ⦃o : F64⦄ where
  -- Each two consecutive frames have different capture times, in order.
  abbrev pub Advance : List CalibratedCsiFrame → Type 0
  Advance [] = Unit
  Advance (p ∷ []) = Unit
  Advance (p ∷ (c ∷ rest)) =
      ((Frame.capture_timestamp p).nanos < (Frame.capture_timestamp c).nanos) × Advance (c ∷ rest)

  intervals_total :
      (fs : List CalibratedCsiFrame)
      → Returns (λ gs. (length gs ≡ length fs - 1) × Advance fs) (intervals fs)
  unfolding intervals
  intervals_total [] = (refl, tt)
  intervals_total (p ∷ []) = (refl, tt)
  intervals_total (p ∷ (c ∷ rest)) = ground (arith, intervals_total (c ∷ rest))

  median_f64_total : (xs : List ℕ) → 0 < length xs → Returns (λ m. Unit {0}) (median_f64 xs)
  unfolding median_f64
  median_f64_total xs h =
      let n = length-sort_values xs in
      let (a, ea) =
        get_elem?_lt (sort_values xs) (length (sort_values xs) / 2) (omega (arith, n)) in
      let (b, eb) =
        get_elem?_lt (sort_values xs) (length (sort_values xs) / 2 - 1) (omega (arith, n)) in
      ground (arith, ea, eb)

  -- For every window: the analysis does not panic, and where it returns there are at least two frames
  -- and their capture times rise strictly.
  pub analyze_sampling_total :
      (w : CsiWindow) → Returns (λ s. (1 < length w.frames) × Advance w.frames) (analyze_sampling w)
  unfolding analyze_sampling
  analyze_sampling_total w =
      let total = intervals_total w.frames in
      elim (Outcome-cases (intervals w.frames)) [
        | inl (gaps, e) ↦ ground (arith, e, total, median_f64_total gaps)
        | inr e ↦ ground (arith, e, total)
      ]

  best_from_bound :
      (i p index : ℕ) (xs : List ℕ)
      → i < index + length xs
      → (best_from i p index xs).0 < index + length xs
  unfolding best_from
  best_from_bound i p index [] h = h
  best_from_bound i p index (x ∷ xs) h =
      ground (arith, best_from_bound index x (suc index) xs, best_from_bound i p (suc index) xs)

  dominant_non_dc_total :
      (frequencies power : List ℕ) → Returns (λ d. Unit {0}) (dominant_non_dc frequencies power)
  unfolding dominant_non_dc peak_frequency
  dominant_non_dc_total fs ps =
      elim (Bool-cases (ltb (length fs) 2 || not (length ps == length fs))) [
        | inl e ↦ ground (arith, e)
        | inr e ↦
            let (first, ef) = get_elem?_lt ps 1 (ground arith) in
            let bound = best_from_bound 1 first 1 (drop 1 ps) (ground (arith, length-drop 1 ps)) in
            let (x, ex) =
              get_elem?_lt fs (best_from 1 first 1 (drop 1 ps)).0
                (ground (arith, length-drop 1 ps)) in
            ground (arith, e, ef, ex)
      ]

  bins_total :
      (n rate scale onesided bin : ℕ) (xs : List (ℕ × ℕ))
      → Returns
          (λ r. IsSeries (length xs) r.0 × IsSeries (length xs) r.1)
          (bins n rate scale onesided bin xs)
  unfolding bins
  bins_total n rate scale onesided bin [] = ((refl, tt), (refl, tt))
  bins_total n rate scale onesided bin ((re, im) ∷ xs) =
      ground (arith, bins_total n rate scale onesided (suc bin) xs)

  -- A spectrum of a series of `n` values: at least four, and a finite frequency and a finite power for
  -- each bin up to the half.
  pub record IsSpectrum (n : ℕ) (s : LinkPowerSpectrum) : Type 0 where
    pub enough : 4 ≤ n
    pub frequencies : IsSeries (n / 2 + 1) s.frequencies_hz
    pub power : IsSeries (n / 2 + 1) s.power

  abbrev pub IsSpectrum? : ℕ → Option LinkPowerSpectrum → Type 0
  IsSpectrum? n none = Unit
  IsSpectrum? n (some s) = IsSpectrum n s

  module _ (fft : List (ℕ × ℕ) → List (ℕ × ℕ))
      (in_place : (xs : List (ℕ × ℕ)) → length (fft xs) ≡ length xs) (b : DspKernelBackend)
      (sound : IsSound b) where
    spectrum_for_series_shape :
        (link : AntennaLink) (signal : List ℕ) (rate : ℕ)
        → Returns
            (λ s. (s.link ≡ link) × IsSpectrum (length signal) s)
            (spectrum_for_series fft link signal rate b)
    unfolding spectrum_for_series
    spectrum_for_series_shape link signal rate =
        let n = length signal in
        let half = n / 2 + 1 in
        let scale = o.div f64_one (o.sum (map (λ w. o.mul w w) (hann_window n))) in
        let kernel = sound.center_and_apply_hann signal in
        elim (Outcome-cases (b.center_and_apply_hann signal)) [
          | inr e ↦ ground (arith, e, kernel)
          | inl (windowed, e) ↦
              let input = map (λ value. (value, f64_zero)) windowed in
              let count : 4 ≤ n → length windowed ≡ n → length (take half (fft input)) ≡ half =
                λ h q. omega (
                  arith,
                  length-take half (fft input),
                  in_place input,
                  length-map {B = ℕ × ℕ} (λ (value : ℕ). (value, f64_zero)) windowed,
                ) in
              let total = bins_total n rate scale half 0 (take half (fft input)) in
              elim (Outcome-cases (bins n rate scale half 0 (take half (fft input)))) [
                | inr f ↦ ground (arith, e, f, total)
                | inl (spectrum, f) ↦
                    ground (arith, e, f, total, count, dominant_non_dc_total spectrum.0 spectrum.1)
              ]
        ]

    link_spectra_shape :
        (n : ℕ) (motion : List LinkMotionEnergy) (rate : ℕ)
        → AreSeries n motion
        → Returns
            (λ ls. (map (λ s. s.link) ls ≡ map (λ l. l.link) motion) × All (IsSpectrum n) ls)
            (link_spectra fft motion rate b)
    unfolding link_spectra
    link_spectra_shape n [] rate a = (refl, tt)
    link_spectra_shape n (l ∷ ls) rate a = ground (
      arith,
      spectrum_for_series_shape l.link l.values rate,
      link_spectra_shape n ls rate a.1,
      a.0.0,
    )

    aggregate_spectrum_shape :
        (n : ℕ) (values : Option (List ℕ)) (rate : ℕ)
        → IsSeries? n values
        → Returns (IsSpectrum? n) (aggregate_spectrum fft values rate b)
    unfolding aggregate_spectrum
    aggregate_spectrum_shape n none rate a = tt
    aggregate_spectrum_shape n (some vs) rate a =
        ground (arith, spectrum_for_series_shape (record { rx = 65535; tx = 65535 }) vs rate, a.0)

    -- What the analysis returns for a window and a motion-energy signal of `n` values for each link.
    pub record IsAnalysis (w : CsiWindow) (n : ℕ) (motion : List LinkMotionEnergy)
        (r : SpectralAnalysis) : Type 0 where
      pub advance : Advance w.frames
      pub links : map (λ s. s.link) r.links ≡ map (λ l. l.link) motion
      pub spectra : All (IsSpectrum n) r.links
      pub aggregate : IsSpectrum? n r.aggregate

    pub analyze_spectrum_shape :
        (w : CsiWindow) (n : ℕ) (motion : List LinkMotionEnergy) (values : Option (List ℕ))
        (tolerance : ℕ)
        → AreSeries n motion
        → IsSeries? n values
        → Returns
            (IsAnalysis w n motion)
            (analyze_spectrum_with_backend fft w motion values tolerance b)
    unfolding analyze_spectrum_with_backend
    analyze_spectrum_shape w n motion values tolerance m a =
        let total = analyze_sampling_total w in
        elim (Outcome-cases (analyze_sampling w)) [
          | inr e ↦ ground (arith, e, total)
          | inl (s, e) ↦ ground (
            arith,
            e,
            total,
            link_spectra_shape n motion s.effective_sample_rate_hz m,
            aggregate_spectrum_shape n values s.effective_sample_rate_hz a,
          )
        ]
