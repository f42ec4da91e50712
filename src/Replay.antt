-- ===== src/Replay.antt =====
-- plugins/csi-replay: the plugin that replays recorded frames.
pub mod Config
pub mod Stats
pub mod Events
pub mod Producer
pub mod Plugin
mod Tests
