-- ===== src/Flow/Tests.antt =====
-- A recording of one frame on its way.
use aeryon.Base.{◌≡◌, refl, List, [], ◌∷◌, ◌+◌, ◌≤◌, u64_max, arith, none}
use aeryon.Base.Text.{codes}
use aeryon.Base.Outcomes.{done}
use aeryon.Csi.Frame.{CsiFrame}
use aeryon.Csi.Fixture.{FixtureHeader, rx_tx_subcarrier}
use aeryon.Csi.Fixture.Order.{Ascends}
use aeryon.Csi.Samples.{four_samples, four_samples-IsValid}
use aeryon.Calibration.Profile.{baseline_csi_v1}
use aeryon.Calibration.Samples.{baseline-UnwrapsFirst, doubles, singles, singles-IsIeee, at_noon}
use aeryon.Dsp.Backend.{rust_backend, rust_backend-IsSound}
use aeryon.Dsp.Service as Dsp
use aeryon.Dsp.Stats as Stats
use aeryon.Dsp.WorkerSamples.{unchanged, profile, idle_worker, idle_worker-Inv}
use aeryon.Runtime.CalibrationService as Calibration
use aeryon.Runtime.Samples.{new_worker}
use aeryon.Flow.{Reaches, recording-Reaches}

abbrev the_header : FixtureHeader
the_header = record {
  schema = codes "aeryon-csi-fixture";
  version = 1;
  sensor_id = 7;
  description = [];
  sample_layout = rx_tx_subcarrier;
}

abbrev recording : List CsiFrame
recording = four_samples ∷ []

recording-Ascends : Ascends the_header none recording
recording-Ascends = ((four_samples-IsValid, refl, refl), tt, tt)

idle_worker_room :
    (idle_worker.stats.calibrated_frames_received + 1 ≤ u64_max)
    × (idle_worker.stats.windows_emitted + 1 ≤ u64_max)
    × (idle_worker.stats.windows_rejected + 1 ≤ u64_max)
unfolding Stats.new_stats
idle_worker_room = omega arith

recording-Reaches_example :
    (v : Calibration.Worker (Unit {0}) (Unit {0}) (Unit {0})) × (y : Dsp.Worker)
    × (Calibration.run_worker
          (λ n. at_noon)
          (λ n. 20)
          (λ n s. 5)
          (λ e. codes "failed")
          (record { profile = baseline_csi_v1 })
          recording
          new_worker
        ≡ done v)
    × Reaches
        (λ n. at_noon)
        (λ n. 20)
        (λ n s. 5)
        (λ e. codes "failed")
        singles-IsIeee
        baseline_csi_v1
        baseline-UnwrapsFirst
        unchanged
        (λ xs. refl)
        (λ e. [])
        profile
        rust_backend
        rust_backend-IsSound
        the_header
        recording
        idle_worker
        v.sent
        y
recording-Reaches_example =
    recording-Reaches (λ n. at_noon) (λ n. 20) (λ n s. 5) (λ e. codes "failed") singles-IsIeee
      baseline_csi_v1 baseline-UnwrapsFirst unchanged (λ xs. refl) (λ e. []) profile rust_backend
      rust_backend-IsSound the_header recording new_worker idle_worker recording-Ascends
      ((omega arith, omega arith), tt) refl refl (omega arith) (omega arith) (omega arith)
      idle_worker-Inv idle_worker_room.0 idle_worker_room.1 idle_worker_room.2
