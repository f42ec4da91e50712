-- ===== src/Dsp/Config.antt =====
-- core/dsp/src/profile.rs: the profile and the configuration of the DSP. Whether the C++ backend is
-- compiled in, which the build decides, is the parameter `cpp_dsp`.
pub mod Validity
pub mod Windows
use aeryon.Base.{
  ℕ, Bool, true, not, Result, ok, err, ◌>>=◌, ◌>>◌, refuse, if◌then◌else◌, ◌==◌, list_eq,
}
use Prim.Native.Nat.{max}
use aeryon.Base.Text.{Str, codes, is_blank}
use aeryon.Dsp.Errors.{
  DspError, DspBackendKind, rust, cpp, invalid_config, backend_unavailable, plain,
  unsupported_profile, unknown_profile, backend_not_compiled,
}
use aeryon.Dsp.Assembler as Assembler
use aeryon.Dsp.Assembler.{AssemblerConfig}
use aeryon.Dsp.Report.{DspProfile, backend_name}

abbrev pub baseline_dsp_v1_id : Str
baseline_dsp_v1_id = codes "baseline-dsp-v1"

abbrev pub is_compiled : (cpp_dsp : Bool) → DspBackendKind → Bool
is_compiled cpp_dsp rust = true
is_compiled cpp_dsp cpp = cpp_dsp

abbrev config_error : Str → DspError
config_error s = invalid_config (plain s)

-- `DspProfile::validate`.
unfoldable pub validate_profile : DspProfile → Result DspError (Unit {0})
validate_profile p = do
  refuse (is_blank p.id) (config_error (codes "DSP profile id must not be empty"))
  refuse (p.version == 0) (config_error (codes "DSP profile version must be >= 1"))
  Assembler.validate (record {
    window_size_frames = p.window_size_frames;
    hop_size_frames = p.hop_size_frames;
    queue_capacity = p.window_size_frames;
    maximum_sequence_gap = 1;
    timestamp_jitter_tolerance = p.timestamp_jitter_tolerance;
  })

unfoldable pub baseline_dsp_v1 :
    (window_size_frames hop_size_frames timestamp_jitter_tolerance : ℕ)
    → DspBackendKind
    → DspProfile
baseline_dsp_v1 window hop tolerance backend = record {
  id = baseline_dsp_v1_id;
  version = 1;
  window_size_frames = window;
  hop_size_frames = hop;
  mean_removal_enabled = true;
  hann_window_enabled = true;
  fft_implementation = codes "rustfft";
  spectral_normalization = codes "onesided_periodogram_hann_window_power";
  timestamp_jitter_tolerance = tolerance;
  backend = backend;
}

pub record DspConfig : Type 0 where
  pub enabled : Bool
  pub profile : Str
  pub backend : DspBackendKind
  pub queue_capacity : ℕ
  pub window_size_frames : ℕ
  pub hop_size_frames : ℕ
  pub maximum_sequence_gap : ℕ
  pub timestamp_jitter_tolerance : ℕ

unfoldable pub assembler_config : DspConfig → AssemblerConfig
assembler_config c = record {
  window_size_frames = c.window_size_frames;
  hop_size_frames = c.hop_size_frames;
  queue_capacity = max c.queue_capacity c.window_size_frames;
  maximum_sequence_gap = c.maximum_sequence_gap;
  timestamp_jitter_tolerance = c.timestamp_jitter_tolerance;
}

unfoldable pub resolve_profile : DspConfig → Result DspError DspProfile
unfolding baseline_dsp_v1
resolve_profile c =
    let profile =
      baseline_dsp_v1 c.window_size_frames c.hop_size_frames c.timestamp_jitter_tolerance
        c.backend in
    refuse (not (list_eq c.profile baseline_dsp_v1_id)) (invalid_config (unknown_profile c.profile))
    >> validate_profile profile
    >> ok profile

-- From the test of `enabled` on.
unfoldable pub validate_enabled : (cpp_dsp : Bool) → DspConfig → Result DspError (Unit {0})
validate_enabled cpp_dsp c = do
  refuse (not (list_eq c.profile baseline_dsp_v1_id))
      (invalid_config (unsupported_profile c.profile))
  refuse (not (is_compiled cpp_dsp c.backend))
      (backend_unavailable c.backend (backend_not_compiled (backend_name c.backend)))
  refuse (c.queue_capacity == 0)
      (config_error (codes "dsp.queue_capacity must be greater than zero"))
  Assembler.validate (assembler_config c)
  profile ← resolve_profile c
  validate_profile profile

unfoldable pub validate : (cpp_dsp : Bool) → DspConfig → Result DspError (Unit {0})
validate cpp_dsp c = if not c.enabled then ok tt else validate_enabled cpp_dsp c
