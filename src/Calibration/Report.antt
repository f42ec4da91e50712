-- ===== src/Calibration/Report.antt =====
-- core/calibration/src/report.rs, with `CalibrationStageId` of stage.rs and `AntennaLink` of errors.rs.
use aeryon.Base.{ℕ, Bool, List}
use aeryon.Base.Text.{Str}
use aeryon.Domain.Frame.{FrameId, Timestamp}

pub data CalibrationStageId : Type 0 where
  phase_unwrap linear_phase_detrend rms_amplitude_normalize : CalibrationStageId

pub data CalibrationStatus : Type 0 where
  success failed : CalibrationStatus

pub data CalibrationWarning : Type 0 where
  stage_skipped : (stage : CalibrationStageId) (order : ℕ) → CalibrationWarning
  single_subcarrier_link_unchanged : (stage : CalibrationStageId) (rx tx : ℕ) → CalibrationWarning

-- Floats are their bit patterns.
pub data StageDiagnostics : Type 0 where
  none : StageDiagnostics
  phase_unwrap : (links_processed wraps_applied : ℕ) → StageDiagnostics
  linear_phase_detrend :
      (links_processed links_unchanged mean_abs_slope mean_abs_intercept : ℕ) → StageDiagnostics
  rms_amplitude_normalize : (links_processed : ℕ) (original_rms : List ℕ) → StageDiagnostics

pub record StageReport : Type 0 where
  pub stage_id : CalibrationStageId
  pub stage_name : Str
  pub order : ℕ
  pub duration_ns : ℕ
  pub success : Bool
  pub warning_count : ℕ
  pub warnings : List CalibrationWarning
  pub diagnostics : StageDiagnostics

pub record CalibrationReport : Type 0 where
  pub raw_frame_id : FrameId
  pub sequence : ℕ
  pub profile_id : Str
  pub profile_version : ℕ
  pub started_at : Timestamp
  pub completed_at : Timestamp
  pub duration_ns : ℕ
  pub stages : List StageReport
  pub input_sample_count : ℕ
  pub output_sample_count : ℕ
  pub warnings : List CalibrationWarning
  pub status : CalibrationStatus

pub record AntennaLink : Type 0 where
  pub rx : ℕ
  pub tx : ℕ
