-- ===== src/Runtime.antt =====
-- core/runtime: the store of the latest signals and recent events, and the evaluation of health.
pub mod SignalStore
pub mod Health
pub mod CalibrationStats
pub mod CalibrationEvents
pub mod CalibrationService
pub mod Metrics
pub mod Samples
mod ServiceTests
mod Tests
