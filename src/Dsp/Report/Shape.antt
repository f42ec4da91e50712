-- ===== src/Dsp/Report/Shape.antt =====
-- What the processing of a window returns.
use aeryon.Base.{
  ℕ, zero, suc, ◌≢◌, ◌-◌, ◌<◌, ◌≡◌, sym, ◌∙◌, inl, inr, List, [], ◌∷◌, map, length, length-map,
  length-drop, drop, All, arith,
}
use aeryon.Base.Outcomes.{done, Returns, Outcome-cases}
use aeryon.Base.Floats.{F64, f64_billion}
use aeryon.Domain.Frame.{Timestamp}
use aeryon.Calibration.Frame as Frame
use aeryon.Calibration.Frame.{CalibratedCsiFrame}
use aeryon.Dsp.Window.{CsiWindow}
use aeryon.Dsp.Backend.{DspKernelBackend, IsSound}
use aeryon.Dsp.Motion.{compute_motion_energy_with_backend}
use aeryon.Dsp.Motion.Shape.{all_links, AreSeries, HasMean-IsSeries?, HasShape, motion_shape}
use aeryon.Dsp.Spectral.{LinkPowerSpectrum, analyze_spectrum_with_backend}
use aeryon.Dsp.Spectral.Shape.{Advance, IsSpectrum, IsSpectrum?, analyze_spectrum_shape}
use aeryon.Dsp.Report.{DspProfile, DspWindowResult, success, time_axis, process_window}

all_links_cons : (m k n : ℕ) → 0 < m → 0 < n → all_links m k n ≢ []
all_links_cons (suc m) k (suc n) p q h = ground arith
all_links_cons zero k n p q h = elim p [ ]
all_links_cons (suc m) k zero p q h = elim q [ ]

module _ ⦃o : F64⦄ where
  -- The result describes the window: its antenna links in the order of the samples, a value of motion
  -- energy and a time for each two consecutive frames, and a spectrum for each link.
  pub record Describes (w : CsiWindow) (r : DspWindowResult) : Type 0 where
    pub identity : (r.window_id ≡ w.window_id) × (r.sensor_id ≡ w.sensor_id)
    pub count : r.frame_count ≡ length w.frames
    pub links : r.antenna_links ≡ all_links w.transmit_antennas 0 w.receive_antennas
    pub spectrum_links : map (λ s. s.link) r.spectra.links ≡ r.antenna_links
    pub motion : AreSeries (length w.frames - 1) r.motion_energy.signal.links
    pub times : length r.motion_energy.time_axis_secs ≡ length w.frames - 1
    pub spectra : All (IsSpectrum (length w.frames - 1)) r.spectra.links
    pub aggregate : IsSpectrum? (length w.frames - 1) r.spectra.aggregate
    pub advance : Advance w.frames
    pub status : r.status ≡ success

  length-time_axis :
      (first : Timestamp) (fs : List CalibratedCsiFrame)
      → length (time_axis first fs) ≡ length fs - 1
  unfolding time_axis
  length-time_axis first fs = omega (
    arith,
    length-map
        (λ (f : CalibratedCsiFrame).
          o.div (o.of_nat ((Frame.capture_timestamp f).nanos - first.nanos)) f64_billion)
        (drop 1 fs),
    length-drop 1 fs,
  )

  module _ (fft : List (ℕ × ℕ) → List (ℕ × ℕ))
      (in_place : (xs : List (ℕ × ℕ)) → length (fft xs) ≡ length xs) (b : DspKernelBackend)
      (sound : IsSound b) (now : Timestamp) (duration : ℕ) where
    -- With a transform that works in place and a sound backend: the processing never panics, and what
    -- it returns describes the window.
    pub process_window-Describes :
        (w : CsiWindow) (p : DspProfile)
        → Returns (Describes w) (process_window fft now duration w p b)
    unfolding process_window
    process_window-Describes w p =
        let shape = motion_shape w b sound in
        elim (Outcome-cases (compute_motion_energy_with_backend w b)) [
          | inr e ↦ ground (arith, e, shape)
          | inl (motion, e) ↦
              let h : HasShape w motion = ground (arith, e, shape) in
              let analysis =
                analyze_spectrum_shape fft in_place b sound w (length w.frames - 1) motion.links
                  motion.aggregate p.timestamp_jitter_tolerance h.series
                  (HasMean-IsSeries? (length w.frames - 1) motion.links motion.aggregate
                    h.aggregate) in
              elim (Outcome-cases (
                analyze_spectrum_with_backend fft w motion.links motion.aggregate
                  p.timestamp_jitter_tolerance b)) [
                    | inr f ↦ ground (arith, e, f, analysis)
                    | inl (spectra, f) ↦
                        let times = length-time_axis w.first_capture_timestamp w.frames in
                        ground (arith, e, f, analysis, h, times)
                  ]
        ]

    -- With a transform that works in place and a sound backend: a window of fewer than five frames, of
    -- a sensor with antennas, is never processed.
    pub short_window_fails :
        (w : CsiWindow) (p : DspProfile)
        → 0 < w.receive_antennas
        → 0 < w.transmit_antennas
        → length w.frames < 5
        → (r : DspWindowResult) → process_window fft now duration w p b ≢ done r
    short_window_fails w p rx tx short r e =
        let describes = process_window-Describes w p in
        let d : Describes w r = ground (arith, e, describes) in
        no_spectrum r.spectra.links (d.spectrum_links ∙ d.links) d.spectra
      where
        no_spectrum :
            (ls : List LinkPowerSpectrum)
            → map (λ s. s.link) ls ≡ all_links w.transmit_antennas 0 w.receive_antennas
            → All (IsSpectrum (length w.frames - 1)) ls
            → ⊥
        no_spectrum [] h a = all_links_cons w.transmit_antennas 0 w.receive_antennas tx rx (sym h)
        no_spectrum (s ∷ ls) h a = omega (arith, a.0.enough)
