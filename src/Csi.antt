-- ===== src/Csi.antt =====
-- core/csi: the canonical frame of WiFi channel state information, and the reader of recorded frames.
pub mod Frame
pub mod Fixture
mod Tests
pub mod Samples
pub mod Recordings
mod FixtureTests
