-- ===== src/Replay/Stats.antt =====
-- `CsiReplayStats` of plugins/csi-replay/src/stats.rs: the atomics are fields of one record, and a recording
-- is its updates in program order.
use aeryon.Base.{ℕ, ◌%◌, ◌^◌, Bool, true, false, Option, none, some, if◌then◌else◌, ◌==◌, fetch_add}
use aeryon.Base.Text.{Str}

pub data CsiReplayCompletion : Type 0 where
  idle active completed failed stopped : CsiReplayCompletion

unfoldable pub completion_to_u64 : CsiReplayCompletion → ℕ
completion_to_u64 idle = 0
completion_to_u64 active = 1
completion_to_u64 completed = 2
completion_to_u64 failed = 3
completion_to_u64 stopped = 4

unfoldable pub u64_to_completion : ℕ → CsiReplayCompletion
u64_to_completion n =
    if n == 1
    then active
    else if n == 2
    then completed
    else if n == 3
    then failed
    else if n == 4
    then stopped
    else idle

pub record CsiReplayStats : Type 0 where
  pub frames_read : ℕ
  pub frames_accepted : ℕ
  pub frames_rejected : ℕ
  pub latest_sequence : ℕ
  pub latest_frame_nanos : ℕ
  pub has_frame : Bool
  pub receive_antennas : ℕ
  pub transmit_antennas : ℕ
  pub subcarrier_count : ℕ
  pub center_frequency_bits : ℕ
  pub has_center_frequency : Bool
  pub bandwidth_bits : ℕ
  pub has_bandwidth : Bool
  pub completion : ℕ
  pub last_error : Option Str

abbrev pub new_stats : CsiReplayStats
new_stats = record {
  frames_read = 0;
  frames_accepted = 0;
  frames_rejected = 0;
  latest_sequence = 0;
  latest_frame_nanos = 0;
  has_frame = false;
  receive_antennas = 0;
  transmit_antennas = 0;
  subcarrier_count = 0;
  center_frequency_bits = 0;
  has_center_frequency = false;
  bandwidth_bits = 0;
  has_bandwidth = false;
  completion = 0;
  last_error = none;
}

unfoldable pub set_completion : CsiReplayCompletion → CsiReplayStats → CsiReplayStats
set_completion c s = record s { completion = completion_to_u64 c }

unfoldable pub get_completion : CsiReplayStats → CsiReplayCompletion
get_completion s = u64_to_completion s.completion

-- The bits of the frequency and of the bandwidth stay.
unfoldable pub reset : CsiReplayStats → CsiReplayStats
unfolding set_completion completion_to_u64
reset s =
    record (set_completion idle (record s {
      frames_read = 0;
      frames_accepted = 0;
      frames_rejected = 0;
      latest_sequence = 0;
      latest_frame_nanos = 0;
      has_frame = false;
      receive_antennas = 0;
      transmit_antennas = 0;
      subcarrier_count = 0;
      has_center_frequency = false;
      has_bandwidth = false;
    })) { last_error = none }

unfoldable pub record_read : CsiReplayStats → CsiReplayStats
record_read s = record s { frames_read = fetch_add s.frames_read 1 }

unfoldable pub set_last_error : Str → CsiReplayStats → CsiReplayStats
set_last_error e s = record s { last_error = some e }

unfoldable pub record_rejected : Str → CsiReplayStats → CsiReplayStats
unfolding set_last_error
record_rejected e s =
    set_last_error e (record s { frames_rejected = fetch_add s.frames_rejected 1 })

abbrev pub set_center_frequency : Option ℕ → CsiReplayStats → CsiReplayStats
set_center_frequency none s = s
set_center_frequency (some x) s = record s {
  center_frequency_bits = x;
  has_center_frequency = true;
}

abbrev pub set_bandwidth : Option ℕ → CsiReplayStats → CsiReplayStats
set_bandwidth none s = s
set_bandwidth (some x) s = record s { bandwidth_bits = x; has_bandwidth = true }

unfoldable pub record_accepted :
    (sequence timestamp_nanos receive_antennas transmit_antennas subcarrier_count : ℕ)
    → (center_frequency_hz bandwidth_hz : Option ℕ) → CsiReplayStats
    → CsiReplayStats
record_accepted sequence time rx tx subcarriers frequency bandwidth s = set_bandwidth bandwidth (
    set_center_frequency frequency (record s {
      frames_accepted = fetch_add s.frames_accepted 1;
      latest_sequence = sequence;
      latest_frame_nanos = time;
      has_frame = true;
      receive_antennas = rx;
      transmit_antennas = tx;
      subcarrier_count = subcarriers;
    }))

-- The getters that are none before the first frame, or for a frame without the value.
unfoldable pub get_latest_sequence : CsiReplayStats → Option ℕ
get_latest_sequence s = if s.has_frame then some s.latest_sequence else none

unfoldable pub get_latest_frame_nanos : CsiReplayStats → Option ℕ
get_latest_frame_nanos s = if s.has_frame then some s.latest_frame_nanos else none

unfoldable pub get_receive_antennas : CsiReplayStats → Option ℕ
get_receive_antennas s = if s.has_frame then some (s.receive_antennas % 2 ^ 16) else none

unfoldable pub get_transmit_antennas : CsiReplayStats → Option ℕ
get_transmit_antennas s = if s.has_frame then some (s.transmit_antennas % 2 ^ 16) else none

unfoldable pub get_subcarrier_count : CsiReplayStats → Option ℕ
get_subcarrier_count s = if s.has_frame then some (s.subcarrier_count % 2 ^ 16) else none

unfoldable pub center_frequency_hz : CsiReplayStats → Option ℕ
center_frequency_hz s = if s.has_center_frequency then some s.center_frequency_bits else none

unfoldable pub bandwidth_hz : CsiReplayStats → Option ℕ
bandwidth_hz s = if s.has_bandwidth then some s.bandwidth_bits else none
