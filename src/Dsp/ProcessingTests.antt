-- ===== src/Dsp/ProcessingTests.antt =====
-- The processing of windows with an arithmetic in which every operation gives zero.
use aeryon.Base.{◌+◌, ◌≤◌, ◌<◌, ◌≡◌, ◌≢◌, refl, none, some, List, [], ◌∷◌, u64_max, ◌-◌, arith}
use aeryon.Base.Outcomes.{done, Returns}
use aeryon.Base.Floats.{F64}
use aeryon.Dsp.Samples.{at}
use aeryon.Dsp.Window.{CsiWindow, window_of}
use aeryon.Dsp.Backend.{rust_backend, rust_backend-IsSound}
use aeryon.Dsp.Kernels.{motion_energy_link}
use aeryon.Dsp.Kernels.Totality.{IsSeries, motion_energy_link_total}
use aeryon.Dsp.Motion.{compute_motion_energy_with_backend}
use aeryon.Dsp.Motion.Shape.{HasShape, motion_shape}
use aeryon.Dsp.Report.{DspResultStatus, DspWindowResult, process_window}
use aeryon.Dsp.Report.Shape.{Describes, process_window-Describes, short_window_fails}
use aeryon.Dsp.Stats.{new_stats}
use aeryon.Dsp.Stats.History.{
  Entry, success, failure, frame, record_all, Counted, record_all-Counted,
}
use aeryon.Dsp.Service.{Worker, run_worker}
use aeryon.Dsp.Service.Accounts.{Finished}
use aeryon.Dsp.Service.Delivery.{run_worker_delivers}
use aeryon.Dsp.WorkerSamples.{unchanged, profile, idle_worker, idle_worker-Inv, clock}

instance abbrev zero_arithmetic : F64
zero_arithmetic = record {
  add = λ a b. 0;
  sub = λ a b. 0;
  mul = λ a b. 0;
  div = λ a b. 0;
  sqrt = λ a. 0;
  cos = λ a. 0;
  sum = λ xs. 0;
  of_nat = λ n. 0;
  of_f32 = λ x. 0;
  of_int = λ z. 0;
}

abbrev two_frames : CsiWindow
two_frames = window_of 1 (at 1 10) (at 2 20 ∷ [])

motion_energy_link_total_example :
    Returns (λ vs. (1 < 2) × IsSeries (2 - 1) vs) (motion_energy_link (1 ∷ 2 ∷ []) (3 ∷ 4 ∷ []) 2 1)
motion_energy_link_total_example = motion_energy_link_total (1 ∷ 2 ∷ []) (3 ∷ 4 ∷ []) 2 1

motion_shape_example :
    Returns (HasShape two_frames) (compute_motion_energy_with_backend two_frames rust_backend)
motion_shape_example = motion_shape two_frames rust_backend rust_backend-IsSound

process_window-Describes_example :
    Returns
      (Describes two_frames)
      (process_window unchanged (record { nanos = 30 }) 5 two_frames profile rust_backend)
process_window-Describes_example =
    process_window-Describes unchanged (λ xs. refl) rust_backend rust_backend-IsSound
      (record { nanos = 30 }) 5 two_frames profile

abbrev some_result : DspWindowResult
some_result = record {
  window_id = 1;
  sensor_id = 7;
  first_sequence = 1;
  last_sequence = 2;
  first_capture_timestamp = record { nanos = 10 };
  last_capture_timestamp = record { nanos = 20 };
  frame_count = 2;
  sampling = record {
    median_interval_secs = 0;
    min_interval_secs = 0;
    max_interval_secs = 0;
    effective_sample_rate_hz = 0;
    timestamp_jitter = 0;
  };
  antenna_links = [];
  motion_energy = record { signal = record { links = []; aggregate = none }; time_axis_secs = [] };
  spectra = record {
    sampling = record {
      median_interval_secs = 0;
      min_interval_secs = 0;
      max_interval_secs = 0;
      effective_sample_rate_hz = 0;
      timestamp_jitter = 0;
    };
    links = [];
    aggregate = none;
    warnings = [];
  };
  dsp_profile_id = [];
  dsp_profile_version = 1;
  calibration_profile_id = [];
  calibration_profile_version = 1;
  backend_id = [];
  backend_version = [];
  backend_abi_version = none;
  processed_at = record { nanos = 30 };
  processing_duration_ns = 5;
  warnings = [];
  status = DspResultStatus.success;
}

short_window_fails_example :
    process_window unchanged (record { nanos = 30 }) 5 two_frames profile rust_backend
    ≢ done some_result
short_window_fails_example =
    short_window_fails unchanged (λ xs. refl) rust_backend rust_backend-IsSound
      (record { nanos = 30 }) 5 two_frames profile (unfold window_of in omega arith)
      (unfold window_of in omega arith) (unfold window_of in omega arith) some_result

abbrev entries : List Entry
entries = frame ∷ success 1 2 30 5 0 0 (some 1) ∷ frame ∷ failure [] ∷ []

new_stats_room :
    (new_stats.calibrated_frames_received + 4 ≤ u64_max)
    × (new_stats.windows_emitted + 4 ≤ u64_max)
    × (new_stats.windows_rejected + 4 ≤ u64_max)
    × (new_stats.consecutive_failures + 4 ≤ u64_max)
unfolding new_stats
new_stats_room = omega arith

record_all-Counted_example : Counted new_stats entries (record_all entries new_stats)
record_all-Counted_example = record_all-Counted entries new_stats new_stats_room

idle_worker_room :
    (idle_worker.stats.calibrated_frames_received + 3 ≤ u64_max)
    × (idle_worker.stats.windows_emitted + 3 ≤ u64_max)
    × (idle_worker.stats.windows_rejected + 3 ≤ u64_max)
unfolding new_stats
idle_worker_room = omega arith

run_worker_delivers_example :
    (v : Worker) × (run_worker unchanged clock
        (λ n. n)
        (λ e. [])
        profile
        rust_backend
        (at 1 10 ∷ at 2 20 ∷ at 3 30 ∷ [])
        idle_worker
      ≡ done v)
    × Finished idle_worker (at 1 10 ∷ at 2 20 ∷ at 3 30 ∷ []) v
run_worker_delivers_example =
    run_worker_delivers unchanged (λ xs. refl) clock (λ n. n) (λ e. []) profile rust_backend
      rust_backend-IsSound (at 1 10 ∷ at 2 20 ∷ at 3 30 ∷ []) idle_worker idle_worker-Inv
      idle_worker_room.0 idle_worker_room.1 idle_worker_room.2
