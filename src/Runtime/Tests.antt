-- ===== src/Runtime/Tests.antt =====
-- The store and the health on small data.
use aeryon.Replay.Stats.{CsiReplayCompletion}
use Prim.Native.Nat.{min, max}
use aeryon.Base.{
  ℕ, ◌+◌, ◌≤◌, ◌≡◌, ◌↔◌, refl, true, false, ◌&&◌, none, some, List, [], ◌∷◌, u64_max, arith,
  if◌then◌else◌, leb, ltb,
}
use aeryon.Base.Floats.{F64}
use aeryon.Dsp.Stats as Stats
use aeryon.Dsp.Stats.{DspStats, new_stats, DspWorkerState}
use aeryon.Dsp.Stats.History.{
  Entry, record_all, failing_run, successes_in, failures_in, get_worker_state-set_worker_state,
}
use aeryon.Runtime.Health.{RuntimeHealth}
use aeryon.Runtime.CalibrationStats.{CalibrationStats}
use aeryon.Runtime.SignalStore.{new, recent}
use aeryon.Runtime.SignalStore.Recent.{last_of, push_events, recent_last}
use aeryon.Runtime.Metrics.{RuntimeMetrics, evaluate_health, evaluate_dsp_health}
use aeryon.Runtime.Metrics.Verdict.{
  IsHealthy, IsActive, evaluate_health_iff, evaluate_dsp_health_history,
}

instance abbrev zero_arithmetic : F64
zero_arithmetic = record {
  add = λ a b. 0;
  sub = λ a b. 0;
  mul = λ a b. 0;
  div = λ a b. 0;
  sqrt = λ a. 0;
  cos = λ a. 0;
  sum = λ xs. 0;
  of_nat = λ n. 0;
  of_f32 = λ x. 0;
  of_int = λ z. 0;
}

recent_last_example :
    recent {E = ℕ} 5 (push_events (1 ∷ 2 ∷ 3 ∷ []) (new {V = ℕ} {O = ℕ} {E = ℕ} 2))
    ≡ last_of (min 5 (max 2 1)) (1 ∷ 2 ∷ 3 ∷ [])
recent_last_example = recent_last ℕ ℕ 2 5 (1 ∷ 2 ∷ 3 ∷ [])

abbrev calibration : CalibrationStats
calibration = record {
  enabled = true;
  worker_state = 2;
  profile_id = none;
  profile_version = 0;
  raw_frames_submitted = 5;
  frames_calibrated = 4;
  calibration_failures = 1;
  latest_sequence = 4;
  latest_timestamp_nanos = 40;
  has_calibrated = true;
  last_duration_ns = 1;
  average_duration_ns_bits = 0;
  average_count = 4;
  queue_depth = 0;
  last_error = none;
  last_warning = none;
  unexpected_exit = false;
}

abbrev metrics : RuntimeMetrics
metrics = record {
  frames_received = 1;
  last_sequence = 1;
  last_frame_nanos = 10;
  has_frame = true;
  consumer_running = true;
  sensor_lifecycle = 3;
  csi_lifecycle = 3;
  started_at = some 0;
  csi_started_at = some 0;
  csi_completion = CsiReplayCompletion.active;
  calibration = calibration;
  dsp = new_stats;
}

evaluate_health_iff_example :
    (evaluate_health true true 9 5 metrics ≡ RuntimeHealth.running)
    ↔ IsHealthy true true 9 5 metrics
evaluate_health_iff_example = evaluate_health_iff true true 9 5 metrics

abbrev active : DspStats
active = Stats.set_worker_state DspWorkerState.running (record new_stats { enabled = true })

active-IsActive : IsActive active
unfolding new_stats Stats.set_worker_state
active-IsActive = record {
  enabled = refl;
  state =
      get_worker_state-set_worker_state DspWorkerState.running
        (record new_stats { enabled = true });
  exit = refl;
}

abbrev failures : List Entry
failures = Entry.failure [] ∷ Entry.failure [] ∷ Entry.failure [] ∷ []

active_room :
    (active.calibrated_frames_received + 3 ≤ u64_max)
    × (active.windows_emitted + 3 ≤ u64_max)
    × (active.windows_rejected + 3 ≤ u64_max)
    × (active.consecutive_failures + 3 ≤ u64_max)
unfolding new_stats Stats.set_worker_state
active_room = omega arith

evaluate_dsp_health_history_example : evaluate_dsp_health (record_all failures active) ≡ (
    if leb 3 (failing_run active.consecutive_failures failures)
      && ltb
          (active.windows_emitted + successes_in failures)
          (active.windows_rejected + failures_in failures)
    then some RuntimeHealth.degraded
    else none)
evaluate_dsp_health_history_example =
    evaluate_dsp_health_history failures active active-IsActive active_room
