-- ===== src/Dsp/WorkerSamples.antt =====
-- Test data: a worker of the DSP that has not begun, with its profile.
use aeryon.Base.{ℕ, refl, true, List, [], is_finite64, f64_lt}
use aeryon.Base.Text.{codes}
use aeryon.Base.Floats.{f64_half}
use aeryon.Domain.Frame.{Timestamp}
use aeryon.Dsp.Errors.{rust}
use aeryon.Dsp.Samples.{settings}
use aeryon.Dsp.Assembler.{fresh, validate}
use aeryon.Dsp.Assembler.Invariant.{Inv, validate_iff}
use aeryon.Dsp.Assembler.Preserve.{fresh-Inv}
use aeryon.Dsp.Report.{DspProfile}
use aeryon.Dsp.Stats.{new_stats}
use aeryon.Dsp.Service.{Worker}

abbrev pub unchanged : List (ℕ × ℕ) → List (ℕ × ℕ)
unchanged xs = xs

abbrev pub profile : DspProfile
profile = record {
  id = codes "baseline-dsp-v1";
  version = 1;
  window_size_frames = 2;
  hop_size_frames = 1;
  mean_removal_enabled = true;
  hann_window_enabled = true;
  fft_implementation = codes "rustfft";
  spectral_normalization = codes "onesided_periodogram_hann_window_power";
  timestamp_jitter_tolerance = f64_half;
  backend = rust;
}

abbrev pub idle_worker : Worker
idle_worker = record {
  assembler = fresh (settings 2 1);
  stats = new_stats;
  ticks = 0;
  published = [];
  stored = [];
}

pub idle_worker-Inv : Inv idle_worker.assembler
unfolding validate is_finite64 f64_lt
idle_worker-Inv = fresh-Inv (settings 2 1) ((validate_iff (settings 2 1)).0 refl)

abbrev pub clock : ℕ → Timestamp
clock n = record { nanos = n }
