-- ===== src/Dsp/Errors.antt =====
-- `DspError` and `DspFailureCode` of core/dsp/src/errors.rs. A message that the code formats is a
-- constructor with the values that it prints.
use aeryon.Base.{ℕ, Option, none}
use aeryon.Base.Text.{Str}
use aeryon.Domain.Frame.{FrameId, SensorId}

pub data DspFailureCode : Type 0 where
  invalid_config backend_unavailable native_kernel invalid_window : DspFailureCode
  sensor_mismatch geometry_mismatch calibration_profile_mismatch : DspFailureCode
  non_monotonic_sequence sequence_gap non_monotonic_timestamp : DspFailureCode
  excessive_jitter motion_energy spectral insufficient_length : DspFailureCode
  invalid_sample_rate non_finite output_validation worker_exited : DspFailureCode

pub data DspBackendKind : Type 0 where
  rust cpp : DspBackendKind

pub data Message : Type 0 where
  plain : Str → Message
  sensor_mismatch_at : (index expected got : ℕ) → Message
  antenna_mismatch_at subcarrier_mismatch_at profile_mismatch_at : (index : ℕ) → Message
  non_finite_at : (index sample_index : ℕ) → Message
  sequence_order : (previous current : ℕ) → Message
  timestamp_order : (previous current : ℕ) → Message
  sensor_mismatch : (expected got : ℕ) → Message
  sequence_gap : (gap maximum : ℕ) → Message
  missing_link : (rx tx : ℕ) → Message
  jitter_exceeds : (jitter tolerance : ℕ) → Message
  dimension_mismatch : (expected real imag : ℕ) → Message
  unsupported_profile unknown_profile backend_not_compiled : Str → Message

pub data DspError : Type 0 where
  invalid_config : Message → DspError
  backend_unavailable : DspBackendKind → Message → DspError
  native_kernel : DspBackendKind → (kernel status : Str) → Message → DspError
  invalid_window : Message → DspError
  assembler_rejected :
      (frame_id : Option FrameId) (sensor_id : Option SensorId) (sequence : Option ℕ)
      → Message
      → DspFailureCode
      → DspError
  motion_energy : Message → DspError
  spectral : Message → DspFailureCode → DspError
  output_validation : Message → DspError

unfoldable pub code : DspError → DspFailureCode
code (DspError.invalid_config m) = DspFailureCode.invalid_config
code (DspError.backend_unavailable b m) = DspFailureCode.backend_unavailable
code (DspError.native_kernel b k s m) = DspFailureCode.native_kernel
code (DspError.invalid_window m) = DspFailureCode.invalid_window
code (assembler_rejected f s q m c) = c
code (DspError.motion_energy m) = DspFailureCode.motion_energy
code (DspError.spectral m c) = c
code (DspError.output_validation m) = DspFailureCode.output_validation

unfoldable pub sequence : DspError → Option ℕ
sequence (assembler_rejected f s q m c) = q
sequence _ = none

unfoldable pub sensor_id : DspError → Option SensorId
sensor_id (assembler_rejected f s q m c) = s
sensor_id _ = none
