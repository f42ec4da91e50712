-- ===== src/Runtime/Metrics/Verdict.antt =====
-- When the runtime is healthy, and how the DSP's health follows from what was recorded.
use aeryon.Replay.Stats.{CsiReplayCompletion}
use aeryon.Base.{
  ℕ, ◌+◌, ◌≡◌, ◌≢◌, ◌↔◌, ◌⊎◌, Bool, true, false, ◌&&◌, ◌||◌, Option, none, some, List, [], ◌∷◌,
  length, if◌then◌else◌, leb, ltb, arith,
}
use aeryon.Base.Floats.{F64}
use aeryon.Plugins.Types.{LifecycleState}
use aeryon.Dsp.Stats as DspStats
use aeryon.Dsp.Stats.{DspStats, DspWorkerState}
use aeryon.Dsp.Stats.History.{
  Entry, HasRoom, record_all, record_all-Counted, failing_run, successes_in, failures_in,
}
use aeryon.Runtime.Health.{RuntimeHealth}
use aeryon.Runtime.CalibrationStats.{CalibrationStats, evaluate_calibration_health}
use aeryon.Runtime.Metrics.{
  RuntimeMetrics, lifecycle_to_u64, u64_to_lifecycle, is_late, evaluate_source_health,
  get_sensor_lifecycle, get_csi_lifecycle, evaluate_dsp_health, evaluate_replay_health,
  evaluate_sources, evaluate_health,
}

-- A lifecycle state is read as it was set.
pub u64_to_lifecycle-lifecycle_to_u64 :
    (s : LifecycleState) → u64_to_lifecycle (lifecycle_to_u64 s) ≡ some s
unfolding u64_to_lifecycle lifecycle_to_u64
u64_to_lifecycle-lifecycle_to_u64 s = ground arith

-- A source is well: it has not failed, and if it runs then there was a frame or it is not late.
abbrev pub IsWell : Option LifecycleState → Bool → Option ℕ → (now timeout : ℕ) → Type 0
IsWell lifecycle frame started now timeout =
    (lifecycle ≢ some LifecycleState.failed)
    × (lifecycle ≡ some LifecycleState.running
        → frame ≡ false
        → is_late now timeout started ≡ false)

source_running_iff :
    (l : Option LifecycleState) (frame : Bool) (started : Option ℕ) (now timeout : ℕ)
    → (evaluate_source_health l frame started now timeout ≡ RuntimeHealth.running)
      ↔ IsWell l frame started now timeout
unfolding evaluate_source_health
source_running_iff l frame started now timeout = ground arith

source_verdicts :
    (l : Option LifecycleState) (frame : Bool) (started : Option ℕ) (now timeout : ℕ)
    → let h = evaluate_source_health l frame started now timeout in
      (h ≡ RuntimeHealth.failed) ⊎ (h ≡ RuntimeHealth.degraded) ⊎ (h ≡ RuntimeHealth.running)
unfolding evaluate_source_health
source_verdicts l frame started now timeout = ground arith

abbrev pub ReplayEnded : CsiReplayCompletion → Type 0
ReplayEnded c = (c ≡ CsiReplayCompletion.completed) ⊎ (c ≡ CsiReplayCompletion.stopped)

-- The conditions of a healthy runtime.
pub record IsHealthy (synthetic csi : Bool) (now timeout : ℕ) (m : RuntimeMetrics) : Type 0 where
  pub consumer : (synthetic || csi) ≡ true → m.consumer_running ≡ true
  pub calibration : evaluate_calibration_health m.calibration ≡ none
  pub dsp : evaluate_dsp_health m.dsp ≡ none
  pub sensor :
      synthetic ≡ true → IsWell (get_sensor_lifecycle m) m.has_frame m.started_at now timeout
  pub replay :
      csi ≡ true
      → ReplayEnded m.csi_completion
        ⊎ ((m.csi_completion ≢ CsiReplayCompletion.failed)
            × IsWell (get_csi_lifecycle m) m.has_frame m.csi_started_at now timeout)

calibration_not_running :
    (s : CalibrationStats) → evaluate_calibration_health s ≢ some RuntimeHealth.running
unfolding evaluate_calibration_health
calibration_not_running s h = ground arith

dsp_not_running : (s : DspStats) → evaluate_dsp_health s ≢ some RuntimeHealth.running
unfolding evaluate_dsp_health
dsp_not_running s h = ground arith

-- The runtime reports that it is running just if the consumer runs where a source is enabled, neither
-- the calibration nor the DSP reports trouble, an enabled sensor is well, and an enabled replay has
-- ended without failure or is well.
pub evaluate_health_iff :
    (synthetic csi : Bool) (now timeout : ℕ) (m : RuntimeMetrics)
    → (evaluate_health synthetic csi now timeout m ≡ RuntimeHealth.running)
      ↔ IsHealthy synthetic csi now timeout m
unfolding evaluate_health evaluate_sources evaluate_replay_health
evaluate_health_iff synthetic csi now timeout m = ground (
  arith,
  calibration_not_running m.calibration,
  dsp_not_running m.dsp,
  source_running_iff (get_sensor_lifecycle m) m.has_frame m.started_at now timeout,
  source_running_iff (get_csi_lifecycle m) m.has_frame m.csi_started_at now timeout,
  source_verdicts (get_sensor_lifecycle m) m.has_frame m.started_at now timeout,
)

-- The worker runs.
pub record IsActive (s : DspStats) : Type 0 where
  pub enabled : s.enabled ≡ true
  pub state : DspStats.get_worker_state s ≡ DspWorkerState.running
  pub exit : s.unexpected_exit ≡ false

module _ ⦃o : F64⦄ where
  record_all-IsActive : (es : List Entry) (s : DspStats) → IsActive s → IsActive (record_all es s)
  unfolding DspStats.get_worker_state DspStats.record_frame_received DspStats.record_window_success
      DspStats.update_average_duration DspStats.record_window_failure DspStats.set_last_error
      DspStats.set_last_warning
  record_all-IsActive [] s a = a
  record_all-IsActive (Entry.frame ∷ es) s a =
      record_all-IsActive es _ (record { enabled = a.enabled; state = a.state; exit = a.exit })
  record_all-IsActive (Entry.success f l t d r j x ∷ es) s a =
      record_all-IsActive es _ (record { enabled = a.enabled; state = a.state; exit = a.exit })
  record_all-IsActive (Entry.failure e ∷ es) s a =
      record_all-IsActive es _ (record { enabled = a.enabled; state = a.state; exit = a.exit })
  record_all-IsActive (Entry.warning w ∷ es) s a =
      record_all-IsActive es _ (record { enabled = a.enabled; state = a.state; exit = a.exit })

  -- While the DSP worker runs and no counter reaches the end of its range: after any recording calls
  -- the DSP is reported as degraded just if at least three windows failed since the last success and
  -- there are more failures than successes in all; else no trouble is reported.
  pub evaluate_dsp_health_history :
      (es : List Entry) (s : DspStats)
      → IsActive s
      → HasRoom s (length es)
      → evaluate_dsp_health (record_all es s) ≡ (
          if leb 3 (failing_run s.consecutive_failures es)
            && ltb (s.windows_emitted + successes_in es) (s.windows_rejected + failures_in es)
          then some RuntimeHealth.degraded
          else none)
  unfolding evaluate_dsp_health
  evaluate_dsp_health_history es s a room =
      let active = record_all-IsActive es s a in
      let counted = record_all-Counted es s room in
      ground (
        arith, active.enabled, active.state, active.exit, counted.failing, counted.emitted,
        counted.rejected,
      )
