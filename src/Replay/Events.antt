-- ===== src/Replay/Events.antt =====
-- The events of the replay, of core/domain/src/event.rs.
use aeryon.Base.{ℕ, Option}
use aeryon.Domain.Frame.{FrameId, SensorId, Timestamp}

pub data CsiReplayFailureKind : Type 0 where
  fixture_error malformed_frame publish_failed producer_exited : CsiReplayFailureKind

-- The source is the replay, and the token carries nothing.
pub record CsiFrameReceived : Type 0 where
  pub frame_id : FrameId
  pub sensor_id : SensorId
  pub sequence : ℕ
  pub capture_timestamp : Timestamp
  pub receive_timestamp : Timestamp
  pub receive_antennas : ℕ
  pub transmit_antennas : ℕ
  pub subcarrier_count : ℕ
  pub center_frequency_hz : Option ℕ
  pub bandwidth_hz : Option ℕ

-- The events of the plugin, whose sensor is always `SENSOR_ID`.
pub data Event : Type 0 where
  replay_started : (timestamp : Timestamp) → Event
  frame_received : CsiFrameReceived → Event
  replay_completed : (timestamp : Timestamp) (frames_accepted : ℕ) → Event
  replay_stopped : (timestamp : Timestamp) → Event
  replay_failed : (timestamp : Timestamp) → CsiReplayFailureKind → Event
