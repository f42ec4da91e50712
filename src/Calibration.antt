-- ===== src/Calibration.antt =====
-- core/calibration: the pipeline that makes a calibrated frame of a raw one by its stages, with its
-- profile, its errors and its report.
pub mod Report
pub mod Errors
pub mod Stage
pub mod Unwrap
pub mod Normalize
pub mod Detrend
pub mod Warnings
pub mod Profile
pub mod Pipeline
pub mod Frame
pub mod Samples
mod Tests
