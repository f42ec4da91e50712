-- ===== src/Calibration/Errors.antt =====
-- `CalibrationError` of core/calibration/src/errors.rs. A message that the code formats is a constructor
-- with the values that it prints.
use aeryon.Base.{ℕ, Option, none, some}
use aeryon.Base.Text.{Str, codes}
use aeryon.Domain.Frame.{FrameId}
use aeryon.Calibration.Report.{AntennaLink, CalibrationStageId}

pub data Message : Type 0 where
  plain : Str → Message
  duplicate_stage : CalibrationStageId → Message
  invalid_epsilon : ℕ → Message
  unsupported_profile : Str → Message
  count_mismatch : (expected actual : ℕ) → Message
  count_changed : (raw calibrated : ℕ) → Message
  non_finite_at : (index : ℕ) → Message
  stage_reported_failure : CalibrationStageId → Message

pub data CalibrationError : Type 0 where
  invalid_profile : Message → CalibrationError
  unsupported_stage : (stage : Str) → CalibrationError
  malformed_frame : Option FrameId → (sequence : Option ℕ) → Message → CalibrationError
  non_finite_sample :
      FrameId
      → (sequence : ℕ) → Option CalibrationStageId
      → (sample_index : Option ℕ) → Option AntennaLink
      → CalibrationError
  insufficient_subcarriers :
      FrameId
      → (sequence : ℕ) → CalibrationStageId
      → Option AntennaLink
      → (count : ℕ) → CalibrationError
  degenerate_regression :
      FrameId → (sequence : ℕ) → CalibrationStageId → AntennaLink → Message → CalibrationError
  zero_energy_link :
      FrameId
      → (sequence : ℕ) → CalibrationStageId
      → AntennaLink
      → (rms epsilon : ℕ) → CalibrationError
  stage_failure : FrameId → (sequence : ℕ) → CalibrationStageId → Message → CalibrationError
  output_validation : FrameId → (sequence : ℕ) → Message → CalibrationError
  pipeline_unavailable : Message → CalibrationError

unfoldable pub code : CalibrationError → Str
code (invalid_profile m) = codes "invalid_profile"
code (unsupported_stage s) = codes "unsupported_stage"
code (malformed_frame f q m) = codes "malformed_frame"
code (non_finite_sample f q s i l) = codes "non_finite_sample"
code (insufficient_subcarriers f q s l n) = codes "insufficient_subcarriers"
code (degenerate_regression f q s l m) = codes "degenerate_regression"
code (zero_energy_link f q s l r e) = codes "zero_energy_link"
code (stage_failure f q s m) = codes "stage_failure"
code (output_validation f q m) = codes "output_validation"
code (pipeline_unavailable m) = codes "pipeline_unavailable"

unfoldable pub stage : CalibrationError → Option CalibrationStageId
stage (non_finite_sample f q s i l) = s
stage (insufficient_subcarriers f q s l n) = some s
stage (degenerate_regression f q s l m) = some s
stage (zero_energy_link f q s l r e) = some s
stage (stage_failure f q s m) = some s
stage _ = none

unfoldable pub frame_id : CalibrationError → Option FrameId
frame_id (malformed_frame f q m) = f
frame_id (non_finite_sample f q s i l) = some f
frame_id (insufficient_subcarriers f q s l n) = some f
frame_id (degenerate_regression f q s l m) = some f
frame_id (zero_energy_link f q s l r e) = some f
frame_id (stage_failure f q s m) = some f
frame_id (output_validation f q m) = some f
frame_id _ = none

unfoldable pub sequence : CalibrationError → Option ℕ
sequence (malformed_frame f q m) = q
sequence (non_finite_sample f q s i l) = some q
sequence (insufficient_subcarriers f q s l n) = some q
sequence (degenerate_regression f q s l m) = some q
sequence (zero_energy_link f q s l r e) = some q
sequence (stage_failure f q s m) = some q
sequence (output_validation f q m) = some q
sequence _ = none
