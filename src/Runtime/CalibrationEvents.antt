-- ===== src/Runtime/CalibrationEvents.antt =====
-- The events of the calibration, of core/domain/src/event.rs, and how core/runtime/src/calibration_service.rs
-- maps what they name.
use aeryon.Base.{ℕ, Option}
use aeryon.Base.Text.{Str, codes}
use aeryon.Domain.Frame.{FrameId, SensorId, Timestamp}
use aeryon.Csi.Frame.{CsiSourceKind}
use aeryon.Calibration.Errors as Errors
use aeryon.Calibration.Errors.{CalibrationError}

pub data CsiDataSource : Type 0 where
  replay live : CsiDataSource

pub data CalibrationFailureCode : Type 0 where
  invalid_profile unsupported_stage malformed_frame non_finite_sample insufficient_subcarriers
        degenerate_regression zero_energy_link stage_failure output_validation pipeline_unavailable
        worker_exited :
      CalibrationFailureCode

pub record CalibrationStarted : Type 0 where
  pub timestamp : Timestamp
  pub profile_id : Str
  pub profile_version : ℕ

pub record CsiFrameCalibrated : Type 0 where
  pub raw_frame_id : FrameId
  pub sensor_id : SensorId
  pub sequence : ℕ
  pub profile_id : Str
  pub profile_version : ℕ
  pub stage_count : ℕ
  pub calibration_duration_ns : ℕ
  pub receive_antennas : ℕ
  pub transmit_antennas : ℕ
  pub subcarrier_count : ℕ
  pub source : CsiDataSource
  pub calibrated_at : Timestamp

pub record CalibrationFailed : Type 0 where
  pub raw_frame_id : Option FrameId
  pub sensor_id : Option SensorId
  pub sequence : Option ℕ
  pub timestamp : Timestamp
  pub failed_stage : Option Str
  pub code : CalibrationFailureCode
  pub message : Str

-- The events that the service publishes.
pub data Event : Type 0 where
  calibration_started : CalibrationStarted → Event
  csi_frame_calibrated : CsiFrameCalibrated → Event
  calibration_failed : CalibrationFailed → Event
  calibration_service_stopped : (timestamp : Timestamp) → Event

unfoldable pub map_failure_code : CalibrationError → CalibrationFailureCode
map_failure_code (Errors.invalid_profile m) = CalibrationFailureCode.invalid_profile
map_failure_code (Errors.unsupported_stage s) = CalibrationFailureCode.unsupported_stage
map_failure_code (Errors.malformed_frame f q m) = CalibrationFailureCode.malformed_frame
map_failure_code (Errors.non_finite_sample f q s i l) = CalibrationFailureCode.non_finite_sample
map_failure_code (Errors.insufficient_subcarriers f q s l n) =
    CalibrationFailureCode.insufficient_subcarriers
map_failure_code (Errors.degenerate_regression f q s l m) =
    CalibrationFailureCode.degenerate_regression
map_failure_code (Errors.zero_energy_link f q s l r e) = CalibrationFailureCode.zero_energy_link
map_failure_code (Errors.stage_failure f q s m) = CalibrationFailureCode.stage_failure
map_failure_code (Errors.output_validation f q m) = CalibrationFailureCode.output_validation
map_failure_code (Errors.pipeline_unavailable m) = CalibrationFailureCode.pipeline_unavailable

unfoldable pub source_of : CsiSourceKind → CsiDataSource
source_of CsiSourceKind.replay = CsiDataSource.replay
source_of CsiSourceKind.live = CsiDataSource.live

unfoldable pub failure_code : CalibrationFailureCode → Str
failure_code CalibrationFailureCode.invalid_profile = codes "invalid_profile"
failure_code CalibrationFailureCode.unsupported_stage = codes "unsupported_stage"
failure_code CalibrationFailureCode.malformed_frame = codes "malformed_frame"
failure_code CalibrationFailureCode.non_finite_sample = codes "non_finite_sample"
failure_code CalibrationFailureCode.insufficient_subcarriers = codes "insufficient_subcarriers"
failure_code CalibrationFailureCode.degenerate_regression = codes "degenerate_regression"
failure_code CalibrationFailureCode.zero_energy_link = codes "zero_energy_link"
failure_code CalibrationFailureCode.stage_failure = codes "stage_failure"
failure_code CalibrationFailureCode.output_validation = codes "output_validation"
failure_code CalibrationFailureCode.pipeline_unavailable = codes "pipeline_unavailable"
failure_code CalibrationFailureCode.worker_exited = codes "worker_exited"
