-- ===== src/Runtime/Metrics.antt =====
-- `RuntimeMetrics` of core/runtime/src/metrics.rs, with the completion of plugins/csi-replay/src/stats.rs.
-- An instant is a number on a clock whose reading is an argument where the code reads it.
pub mod Verdict
use aeryon.Replay.Stats.{CsiReplayCompletion}
use aeryon.Base.{
  ℕ, ◌-◌, Bool, true, false, not, ◌&&◌, ◌||◌, Option, none, some, if◌then◌else◌, ◌==◌, leb, ltb,
  fetch_add, is_some_and,
}
use aeryon.Plugins.Types.{LifecycleState}
use aeryon.Dsp.Stats as DspStats
use aeryon.Dsp.Stats.{DspStats, DspWorkerState}
use aeryon.Runtime.Health.{RuntimeHealth}
use aeryon.Runtime.CalibrationStats.{CalibrationStats, evaluate_calibration_health}

pub record RuntimeMetrics : Type 0 where
  pub frames_received : ℕ
  pub last_sequence : ℕ
  pub last_frame_nanos : ℕ
  pub has_frame : Bool
  pub consumer_running : Bool
  pub sensor_lifecycle : ℕ
  pub csi_lifecycle : ℕ
  pub started_at : Option ℕ
  pub csi_started_at : Option ℕ
  pub csi_completion : CsiReplayCompletion
  pub calibration : CalibrationStats
  pub dsp : DspStats

unfoldable pub lifecycle_to_u64 : LifecycleState → ℕ
lifecycle_to_u64 LifecycleState.registered = 1
lifecycle_to_u64 LifecycleState.initialized = 2
lifecycle_to_u64 LifecycleState.running = 3
lifecycle_to_u64 LifecycleState.stopped = 4
lifecycle_to_u64 LifecycleState.failed = 5

unfoldable pub u64_to_lifecycle : ℕ → Option LifecycleState
u64_to_lifecycle n =
    if n == 1
    then some LifecycleState.registered
    else if n == 2
    then some LifecycleState.initialized
    else if n == 3
    then some LifecycleState.running
    else if n == 4
    then some LifecycleState.stopped
    else if n == 5
    then some LifecycleState.failed
    else none

abbrev pub start_of : LifecycleState → (now : ℕ) → Option ℕ → Option ℕ
start_of LifecycleState.running now before = some now
start_of _ now before = before

unfoldable pub set_sensor_lifecycle : LifecycleState → (now : ℕ) → RuntimeMetrics → RuntimeMetrics
set_sensor_lifecycle state now m = record m {
  sensor_lifecycle = lifecycle_to_u64 state;
  started_at = start_of state now m.started_at;
}

unfoldable pub get_sensor_lifecycle : RuntimeMetrics → Option LifecycleState
get_sensor_lifecycle m = u64_to_lifecycle m.sensor_lifecycle

unfoldable pub set_csi_lifecycle : LifecycleState → (now : ℕ) → RuntimeMetrics → RuntimeMetrics
set_csi_lifecycle state now m = record m {
  csi_lifecycle = lifecycle_to_u64 state;
  csi_started_at = start_of state now m.csi_started_at;
}

unfoldable pub get_csi_lifecycle : RuntimeMetrics → Option LifecycleState
get_csi_lifecycle m = u64_to_lifecycle m.csi_lifecycle

unfoldable pub record_frame : (sequence timestamp_nanos : ℕ) → RuntimeMetrics → RuntimeMetrics
record_frame sequence time m = record m {
  frames_received = fetch_add m.frames_received 1;
  last_sequence = sequence;
  last_frame_nanos = time;
  has_frame = true;
}

unfoldable pub get_last_sequence : RuntimeMetrics → Option ℕ
get_last_sequence m = if m.has_frame then some m.last_sequence else none

unfoldable pub get_last_frame_nanos : RuntimeMetrics → Option ℕ
get_last_frame_nanos m = if m.has_frame then some m.last_frame_nanos else none

-- `started_at.elapsed() > first_frame_timeout`, at the time `now`; the difference saturates.
abbrev pub is_late : (now timeout : ℕ) → Option ℕ → Bool
is_late now timeout started_at = is_some_and started_at (λ started. ltb timeout (now - started))

unfoldable pub evaluate_source_health :
    Option LifecycleState
    → (has_frame : Bool) → (started_at : Option ℕ) → (now timeout : ℕ) → RuntimeHealth
evaluate_source_health (some LifecycleState.failed) frame started now timeout = RuntimeHealth.failed
evaluate_source_health (some LifecycleState.running) frame started now timeout =
    if frame
    then RuntimeHealth.running
    else if is_late now timeout started
    then RuntimeHealth.degraded
    else RuntimeHealth.running
evaluate_source_health _ frame started now timeout = RuntimeHealth.running

abbrev pub is_failed : DspWorkerState → Bool
is_failed DspWorkerState.failed = true
is_failed _ = false

-- The worker is at rest: completed, idle or stopped.
abbrev pub is_at_rest : DspWorkerState → Bool
is_at_rest DspWorkerState.completed = true
is_at_rest DspWorkerState.idle = true
is_at_rest DspWorkerState.stopped = true
is_at_rest _ = false

unfoldable pub evaluate_dsp_health : DspStats → Option RuntimeHealth
evaluate_dsp_health s =
    if not s.enabled
    then none
    else if s.unexpected_exit || is_failed (DspStats.get_worker_state s)
    then some RuntimeHealth.failed
    else if is_at_rest (DspStats.get_worker_state s)
    then none
    else if leb 3 s.consecutive_failures && ltb s.windows_emitted s.windows_rejected
    then some RuntimeHealth.degraded
    else none

-- From the test of the replay's completion on.
unfoldable pub evaluate_replay_health :
    CsiReplayCompletion → RuntimeMetrics → (now timeout : ℕ) → RuntimeHealth
evaluate_replay_health CsiReplayCompletion.failed m now timeout = RuntimeHealth.failed
evaluate_replay_health CsiReplayCompletion.completed m now timeout = RuntimeHealth.running
evaluate_replay_health CsiReplayCompletion.stopped m now timeout = RuntimeHealth.running
evaluate_replay_health _ m now timeout =
    evaluate_source_health (get_csi_lifecycle m) m.has_frame m.csi_started_at now timeout

abbrev pub replay_health : Bool → RuntimeMetrics → (now timeout : ℕ) → RuntimeHealth
replay_health csi_enabled m now timeout =
    if csi_enabled
    then evaluate_replay_health m.csi_completion m now timeout
    else RuntimeHealth.running

-- From the test of the synthetic source on.
unfoldable pub evaluate_sources :
    (synthetic csi : Bool) → RuntimeMetrics → (now timeout : ℕ) → RuntimeHealth
evaluate_sources false csi m now timeout = replay_health csi m now timeout
evaluate_sources true csi m now timeout =
    elim (evaluate_source_health (get_sensor_lifecycle m) m.has_frame m.started_at now timeout) [
      | RuntimeHealth.failed ↦ RuntimeHealth.failed
      | RuntimeHealth.degraded ↦ RuntimeHealth.degraded
      | _ ↦ replay_health csi m now timeout
    ]

unfoldable pub evaluate_health :
    (synthetic_enabled csi_replay_enabled : Bool)
    → (now first_frame_timeout : ℕ) → RuntimeMetrics
    → RuntimeHealth
evaluate_health synthetic csi now timeout m =
    if not m.consumer_running && (synthetic || csi)
    then RuntimeHealth.failed
    else elim (evaluate_calibration_health m.calibration) [
      | some health ↦ health
      | none ↦ elim (evaluate_dsp_health m.dsp) [
        | some health ↦ health
        | none ↦ evaluate_sources synthetic csi m now timeout
      ]
    ]
