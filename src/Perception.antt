-- ===== src/Perception.antt =====
-- core/perception/src: the observation of channel changes from feature vectors.
pub mod Profile
pub mod Observation
pub mod Judging
pub mod Validity
pub mod Reading
pub mod Verdict
pub mod Tests
