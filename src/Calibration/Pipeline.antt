-- ===== src/Calibration/Pipeline.antt =====
-- `CalibrationPipeline` of core/calibration/src/pipeline.rs. The readings of the clock are parameters: when
-- the calibration started and ended, how long it took, and how long each stage took.
pub mod Applied
pub mod Outputs
pub mod Calibrated
pub mod Failing
pub mod StageFailures
pub mod Failures
use aeryon.Base.{
  ℕ, suc, ◌*◌, ◌%◌, ◌^◌, ℤ, eqℤ, Bool, true, false, not, ◌&&◌, List, [], ◌∷◌, ◌++◌, length, ◌==◌,
  if◌then◌else◌,
}
use aeryon.Base.Text.{codes}
use aeryon.Base.Outcomes.{Outcome, done, ◌>>=◌, ◌>>◌, refuse}
use aeryon.Base.Floats.{F64}
use aeryon.Base.Singles.{F32}
use aeryon.Domain.Frame.{Timestamp}
use aeryon.Csi.Frame as Raw
use aeryon.Csi.Frame.{CsiFrame, ComplexSample, is_finite}
use aeryon.Calibration.Report.{
  CalibrationStageId, StageReport, CalibrationReport, CalibrationStatus, CalibrationWarning,
  stage_skipped,
}
use aeryon.Calibration.Errors.{
  CalibrationError, output_validation, Message, plain, count_changed, non_finite_at,
  stage_reported_failure,
}
use aeryon.Calibration.Frame.{CalibratedCsiFrame}
use aeryon.Calibration.Stage.{CalibrationContext, CalibrationBuffer, context, from_frame}
use aeryon.Calibration.Unwrap.{apply_unwrap}
use aeryon.Calibration.Detrend.{apply_detrend}
use aeryon.Calibration.Normalize.{apply_normalize}
use aeryon.Calibration.Profile as Profile
use aeryon.Calibration.Profile.{
  CalibrationProfile, StageConfig, ConfiguredStage, stage_id, is_enabled, enabled_stages,
  build_stages,
}

pub record CalibrationPipeline : Type 0 where
  pub profile : CalibrationProfile

unfoldable pub try_new : CalibrationProfile → Outcome CalibrationError CalibrationPipeline
try_new p = Profile.validate p >> done (record { profile = p })

-- The warnings for the disabled stages, from the `order`-th stage on.
unfoldable pub skipped : (order : ℕ) → List StageConfig → List CalibrationWarning
skipped order [] = []
skipped order (s ∷ ss) =
    if not (is_enabled s)
    then stage_skipped (stage_id s) (order % 2 ^ 16) ∷ skipped (suc order) ss
    else skipped (suc order) ss

unfoldable pub same_indices : List ℤ → List ℤ → Bool
same_indices [] [] = true
same_indices (x ∷ xs) (y ∷ ys) = eqℤ x y && same_indices xs ys
same_indices _ _ = false

abbrev pub invalid_output : CsiFrame → Message → CalibrationError
invalid_output raw m = output_validation (Raw.frame_id raw) (Raw.sequence raw) m

-- The loop over the samples, from the one at `index` on.
unfoldable pub check_samples :
    CsiFrame → (index : ℕ) → List ComplexSample → Outcome CalibrationError (Unit {0})
check_samples raw index [] = done tt
check_samples raw index (s ∷ ss) = do
  refuse (not (is_finite s)) (invalid_output raw (non_finite_at index))
  check_samples raw (suc index) ss

-- The loop over the reports, from the one at `idx` on.
unfoldable pub check_reports :
    CsiFrame → (idx : ℕ) → List StageReport → Outcome CalibrationError (Unit {0})
check_reports raw idx [] = done tt
check_reports raw idx (r ∷ rs) = do
  refuse (not (r.order == idx))
      (invalid_output raw (plain (codes "stage report order does not match execution order")))
  refuse (not r.success) (invalid_output raw (stage_reported_failure r.stage_id))
  check_reports raw (suc idx) rs

unfoldable pub validate_output :
    CsiFrame
    → List ComplexSample
    → List ℤ
    → List StageReport
    → (expected_stage_count : ℕ) → Outcome CalibrationError (Unit {0})
validate_output raw samples expected_indices reports expected_stage_count = do
  refuse (not (length samples == length raw.samples))
      (invalid_output raw (count_changed (length raw.samples) (length samples)))
  refuse (not (same_indices raw.subcarrier_indices expected_indices))
      (invalid_output raw (plain (codes "subcarrier ordering changed during calibration")))
  refuse
      (not
        (length samples == raw.receive_antennas * raw.transmit_antennas * Raw.subcarrier_count raw))
      (invalid_output raw (plain (codes "calibrated dimensions do not match raw frame")))
  check_samples raw 0 samples
  refuse (not (length reports == expected_stage_count))
      (invalid_output raw (plain (codes "stage report count does not match executed stages")))
  check_reports raw 0 reports

module _ ⦃d : F64⦄ ⦃o : F32⦄ (stage_duration : CalibrationStageId → ℕ) where
  -- `configured.as_stage().apply(…)`.
  unfoldable pub apply :
      ConfiguredStage
      → CalibrationContext
      → CalibrationBuffer
      → Outcome CalibrationError (CalibrationBuffer × StageReport)
  apply ConfiguredStage.phase_unwrap c b =
      apply_unwrap (stage_duration CalibrationStageId.phase_unwrap) c b
  apply ConfiguredStage.linear_phase_detrend c b =
      apply_detrend (stage_duration CalibrationStageId.linear_phase_detrend) c b
  apply (ConfiguredStage.rms_amplitude_normalize epsilon) c b =
      apply_normalize epsilon (stage_duration CalibrationStageId.rms_amplitude_normalize) c b

  -- The loop over the stages, from the `order`-th on: the buffer, the reports and their warnings.
  unfoldable pub run_stages :
      (order : ℕ)
      → List ConfiguredStage
      → CalibrationContext
      → CalibrationBuffer
      → Outcome CalibrationError (CalibrationBuffer × List StageReport × List CalibrationWarning)
  run_stages order [] c b = done (b, [], [])
  run_stages order (s ∷ ss) c b = do
    left ← apply s c b
    rest ← run_stages (suc order) ss c left.0
    done (rest.0, record (left.1) { order = order % 2 ^ 16 } ∷ rest.1, left.1.warnings ++ rest.2)

  unfoldable pub calibrate :
      (started_at completed_at : Timestamp) (duration_ns : ℕ)
      → CalibrationPipeline
      → CsiFrame
      → Outcome CalibrationError CalibratedCsiFrame
  calibrate started_at completed_at duration_ns pipeline raw = do
    let p = pipeline.profile
    buffer ← from_frame raw
    stages ← build_stages p
    ran ← run_stages 0 stages (context buffer) buffer
    let samples = ran.0.samples
    validate_output raw samples raw.subcarrier_indices ran.1 (length (enabled_stages p.stages))
    done (record {
      raw = raw;
      samples = samples;
      profile_id = p.id;
      profile_version = p.version;
      calibrated_at = completed_at;
      report = record {
        raw_frame_id = Raw.frame_id raw;
        sequence = Raw.sequence raw;
        profile_id = p.id;
        profile_version = p.version;
        started_at = started_at;
        completed_at = completed_at;
        duration_ns = duration_ns;
        stages = ran.1;
        input_sample_count = length raw.samples;
        output_sample_count = length samples;
        warnings = skipped 0 p.stages ++ ran.2;
        status = CalibrationStatus.success;
      };
    })
