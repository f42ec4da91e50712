-- ===== src/Runtime/ServiceTests.antt =====
-- A run of the calibration worker on a frame that is calibrated and one that fails.
use aeryon.Base.{◌≡◌, false, List, [], ◌∷◌, arith}
use aeryon.Base.Outcomes.{done}
use aeryon.Base.Text.{codes}
use aeryon.Csi.Frame.{CsiFrame}
use aeryon.Calibration.Frame.{CalibratedCsiFrame}
use aeryon.Calibration.Profile.{baseline_csi_v1}
use aeryon.Csi.Samples.{four_samples}
use aeryon.Calibration.Samples.{baseline-UnwrapsFirst, doubles, singles, singles-IsIeee, at_noon}
use aeryon.Runtime.CalibrationStats.{CalibrationWorkerState, get_worker_state}
use aeryon.Runtime.CalibrationService.{Worker, run_worker}
use aeryon.Runtime.CalibrationService.Accounts.{Calibrates, Progress}
use aeryon.Runtime.CalibrationService.Answers.{run_worker_answers}
use aeryon.Runtime.Samples.{new_worker}

abbrev two_frames : List CsiFrame
two_frames = four_samples ∷ record four_samples { samples = [] } ∷ []

run_worker_answers_example :
    (v : Worker (Unit {0}) (Unit {0}) (Unit {0})) × (cs : List CalibratedCsiFrame) × (run_worker
        (λ n. at_noon)
        (λ n. 20)
        (λ n s. 5)
        (λ e. codes "failed")
        (record { profile = baseline_csi_v1 })
        two_frames
        new_worker
      ≡ done v)
    × Calibrates baseline_csi_v1 two_frames cs
    × Progress new_worker two_frames cs v
    × (get_worker_state v.stats ≡ CalibrationWorkerState.stopped)
    × (v.alive ≡ false)
run_worker_answers_example =
    run_worker_answers (λ n. at_noon) (λ n. 20) (λ n s. 5) (λ e. codes "failed") singles-IsIeee
      baseline_csi_v1 baseline-UnwrapsFirst two_frames new_worker
      ((omega arith, omega arith), ((omega arith, omega arith), tt)) (omega arith) (omega arith)
      (omega arith)
