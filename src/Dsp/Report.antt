-- ===== src/Dsp/Report.antt =====
-- core/dsp/src/report.rs with the results of result.rs: a window is processed. The clock is two
-- parameters: when the processing ended and how long it took.
pub mod Shape
use aeryon.Base.{
  ℕ, ◌-◌, Bool, true, false, not, ◌&&◌, ◌||◌, Option, none, some, List, [], ◌∷◌, map, length, drop,
  ◌==◌, is_some, if◌then◌else◌,
}
use aeryon.Base.Text.{Str, codes}
use aeryon.Base.Outcomes.{Outcome, done, ◌>>=◌, ◌>>◌, refuse}
use aeryon.Base.Floats.{F64, f64_billion, all_finite64}
use aeryon.Domain.Frame.{SensorId, Timestamp}
use aeryon.Calibration.Report.{AntennaLink}
use aeryon.Calibration.Frame as Frame
use aeryon.Calibration.Frame.{CalibratedCsiFrame}
use aeryon.Dsp.Errors.{DspError, DspBackendKind, rust, cpp, output_validation, plain}
use aeryon.Dsp.Window.{CsiWindow}
use aeryon.Dsp.Backend.{DspKernelBackend}
use aeryon.Dsp.Motion.{LinkMotionEnergy, MotionEnergySignal, compute_motion_energy_with_backend}
use aeryon.Dsp.Spectral.{
  SamplingAnalysis, LinkPowerSpectrum, SpectralAnalysis, analyze_spectrum_with_backend,
}

-- `DspProfile` of profile.rs.
pub record DspProfile : Type 0 where
  pub id : Str
  pub version : ℕ
  pub window_size_frames : ℕ
  pub hop_size_frames : ℕ
  pub mean_removal_enabled : Bool
  pub hann_window_enabled : Bool
  pub fft_implementation : Str
  pub spectral_normalization : Str
  pub timestamp_jitter_tolerance : ℕ
  pub backend : DspBackendKind

pub record MotionEnergySeries : Type 0 where
  pub signal : MotionEnergySignal
  pub time_axis_secs : List ℕ

pub data DspResultStatus : Type 0 where
  success failed : DspResultStatus

pub record DspWindowResult : Type 0 where
  pub window_id : ℕ
  pub sensor_id : SensorId
  pub first_sequence : ℕ
  pub last_sequence : ℕ
  pub first_capture_timestamp : Timestamp
  pub last_capture_timestamp : Timestamp
  pub frame_count : ℕ
  pub sampling : SamplingAnalysis
  pub antenna_links : List AntennaLink
  pub motion_energy : MotionEnergySeries
  pub spectra : SpectralAnalysis
  pub dsp_profile_id : Str
  pub dsp_profile_version : ℕ
  pub calibration_profile_id : Str
  pub calibration_profile_version : ℕ
  pub backend_id : Str
  pub backend_version : Str
  pub backend_abi_version : Option ℕ
  pub processed_at : Timestamp
  pub processing_duration_ns : ℕ
  pub warnings : List Str
  pub status : DspResultStatus

unfoldable pub first_dominant : List LinkPowerSpectrum → Option ℕ
first_dominant [] = none
first_dominant (l ∷ ls) = elim l.dominant_non_dc_hz [ none ↦ first_dominant ls | some x ↦ some x ]

unfoldable pub dominant_non_dc_hz : DspWindowResult → Option ℕ
dominant_non_dc_hz r = elim r.spectra.aggregate [
  | none ↦ first_dominant r.spectra.links
  | some s ↦ elim s.dominant_non_dc_hz [ none ↦ first_dominant r.spectra.links | some x ↦ some x ]
]

abbrev pub backend_name : DspBackendKind → Str
backend_name rust = codes "rust"
backend_name cpp = codes "cpp"

abbrev pub same_link : (rx tx : ℕ) → AntennaLink → Bool
same_link rx tx l = (l.rx == rx) && (l.tx == tx)

unfoldable pub find_spectrum : (rx tx : ℕ) → List LinkPowerSpectrum → Option LinkPowerSpectrum
find_spectrum rx tx [] = none
find_spectrum rx tx (s ∷ ss) =
    let rest = find_spectrum rx tx ss in if same_link rx tx s.link then some s else rest

unfoldable pub spectrum_for_link : DspWindowResult → (rx tx : ℕ) → Option LinkPowerSpectrum
spectrum_for_link r rx tx = find_spectrum rx tx r.spectra.links

unfoldable pub find_motion : (rx tx : ℕ) → List LinkMotionEnergy → Option (List ℕ)
find_motion rx tx [] = none
find_motion rx tx (l ∷ ls) =
    let rest = find_motion rx tx ls in if same_link rx tx l.link then some l.values else rest

unfoldable pub motion_for_link : DspWindowResult → (rx tx : ℕ) → Option (List ℕ)
motion_for_link r rx tx = find_motion rx tx r.motion_energy.signal.links

unfoldable pub finite_motion : List LinkMotionEnergy → Bool
finite_motion [] = true
finite_motion (l ∷ ls) = all_finite64 l.values && finite_motion ls

unfoldable pub finite_values? : Option (List ℕ) → Bool
finite_values? none = true
finite_values? (some vs) = all_finite64 vs

abbrev pub finite_spectrum : LinkPowerSpectrum → Bool
finite_spectrum s = all_finite64 s.power && all_finite64 s.frequencies_hz

unfoldable pub finite_spectra : List LinkPowerSpectrum → Bool
finite_spectra [] = true
finite_spectra (s ∷ ss) = finite_spectrum s && finite_spectra ss

unfoldable pub finite_spectrum? : Option LinkPowerSpectrum → Bool
finite_spectrum? none = true
finite_spectrum? (some s) = finite_spectrum s

module _ ⦃o : F64⦄ where
  -- Seconds from the first capture on; the subtraction saturates.
  unfoldable pub time_axis : Timestamp → List CalibratedCsiFrame → List ℕ
  time_axis first frames =
      map
        (λ frame.
          o.div (o.of_nat ((Frame.capture_timestamp frame).nanos - first.nanos)) f64_billion)
        (drop 1 frames)

  module _ (fft : List (ℕ × ℕ) → List (ℕ × ℕ)) (now : Timestamp) (duration_ns : ℕ) where
    unfoldable pub process_window :
        CsiWindow → DspProfile → DspKernelBackend → Outcome DspError DspWindowResult
    process_window window profile backend = do
      motion ← compute_motion_energy_with_backend window backend
      spectra ←
          analyze_spectrum_with_backend fft window motion.links motion.aggregate
            profile.timestamp_jitter_tolerance backend
      refuse (not (finite_motion motion.links && finite_values? motion.aggregate))
          (output_validation (plain (codes "motion-energy output contains non-finite values")))
      refuse (not (finite_spectra spectra.links && finite_spectrum? spectra.aggregate))
          (output_validation (plain (codes "spectral output contains non-finite values")))
      done (record {
        window_id = window.window_id;
        sensor_id = window.sensor_id;
        first_sequence = window.first_sequence;
        last_sequence = window.last_sequence;
        first_capture_timestamp = window.first_capture_timestamp;
        last_capture_timestamp = window.last_capture_timestamp;
        frame_count = length window.frames;
        sampling = spectra.sampling;
        antenna_links = map (λ l. l.link) motion.links;
        motion_energy = record {
          signal = motion;
          time_axis_secs = time_axis window.first_capture_timestamp window.frames;
        };
        spectra = spectra;
        dsp_profile_id = profile.id;
        dsp_profile_version = profile.version;
        calibration_profile_id = window.calibration_profile_id;
        calibration_profile_version = window.calibration_profile_version;
        backend_id = backend_name backend.identity.kind;
        backend_version = backend.identity.implementation_version;
        backend_abi_version = backend.identity.abi_version;
        processed_at = now;
        processing_duration_ns = duration_ns;
        warnings = spectra.warnings;
        status = success;
      })
