-- ===== src/Dsp/Assembler.antt =====
-- `WindowAssembler` of core/dsp/src/assembler.rs. `push` returns the assembler that it leaves, also
-- with an error.
pub mod Invariant
pub mod Push
pub mod Preserve
pub mod Sliding
pub mod Counters
pub mod Tumbling
use aeryon.Base.{
  ℕ, ◌+◌, ◌-◌, ℤ, Bool, true, false, not, ◌&&◌, ◌||◌, Option, none, some, List, [], ◌∷◌, ◌++◌,
  Result, ok, err, ◌>>=◌, ◌>>◌, refuse, if◌then◌else◌, ◌==◌, leb, ltb, list_eq, last?, length, take,
  drop, is_some, saturating_add, is_finite64, f64_lt, f64_zero,
}
use aeryon.Base.Text.{Str, codes}
use aeryon.Domain.Frame.{SensorId}
use aeryon.Csi.Frame.{ComplexSample, is_finite}
use aeryon.Calibration.Frame as Frame
use aeryon.Calibration.Frame.{CalibratedCsiFrame}
use aeryon.Dsp.Errors.{
  DspError, invalid_config, assembler_rejected, Message, plain, sensor_mismatch, DspFailureCode,
  sequence_order, timestamp_order,
}
use aeryon.Dsp.Window
use aeryon.Dsp.Window.{CsiWindow, eq_indices}

pub record AssemblerConfig : Type 0 where
  pub window_size_frames : ℕ
  pub hop_size_frames : ℕ
  pub queue_capacity : ℕ
  pub maximum_sequence_gap : ℕ
  pub timestamp_jitter_tolerance : ℕ

abbrev config_error : Str → DspError
config_error s = invalid_config (plain s)

unfoldable pub validate : AssemblerConfig → Result DspError (Unit {0})
validate c = do
  refuse (leb c.window_size_frames 1)
      (config_error (codes "window_size_frames must be greater than one"))
  refuse (c.hop_size_frames == 0) (config_error (codes "hop_size_frames must be greater than zero"))
  refuse (ltb c.window_size_frames c.hop_size_frames)
      (config_error (codes "hop_size_frames must not exceed window_size_frames"))
  refuse (c.queue_capacity == 0) (config_error (codes "queue_capacity must be greater than zero"))
  refuse (ltb c.queue_capacity c.window_size_frames)
      (config_error (codes "queue_capacity must be at least window_size_frames"))
  refuse
      (not (is_finite64 c.timestamp_jitter_tolerance)
        || f64_lt c.timestamp_jitter_tolerance f64_zero)
      (config_error (codes "timestamp_jitter_tolerance must be finite and non-negative"))

pub record AssemblerCounters : Type 0 where
  pub frames_accepted : ℕ
  pub frames_rejected : ℕ
  pub windows_emitted : ℕ

pub record WindowAssembler : Type 0 where
  pub config : AssemblerConfig
  pub buffer : List CalibratedCsiFrame
  pub next_window_id : ℕ
  pub expected_sensor : Option SensorId
  pub expected_rx : Option ℕ
  pub expected_tx : Option ℕ
  pub expected_subcarriers : Option (List ℤ)
  pub expected_profile_id : Option Str
  pub expected_profile_version : Option ℕ
  pub last_sequence : Option ℕ
  pub last_capture_nanos : Option ℕ
  pub counters : AssemblerCounters

unfoldable pub fresh : AssemblerConfig → WindowAssembler
fresh c = record {
  config = c;
  buffer = [];
  next_window_id = 1;
  expected_sensor = none;
  expected_rx = none;
  expected_tx = none;
  expected_subcarriers = none;
  expected_profile_id = none;
  expected_profile_version = none;
  last_sequence = none;
  last_capture_nanos = none;
  counters = record { frames_accepted = 0; frames_rejected = 0; windows_emitted = 0 };
}

unfoldable pub try_new : AssemblerConfig → Result DspError WindowAssembler
unfolding fresh
try_new c = validate c >> ok (fresh c)

unfoldable pub reset : WindowAssembler → WindowAssembler
reset s = record s {
  buffer = [];
  expected_sensor = none;
  expected_rx = none;
  expected_tx = none;
  expected_subcarriers = none;
  expected_profile_id = none;
  expected_profile_version = none;
  last_sequence = none;
  last_capture_nanos = none;
}

-- The closure `reject` of `validate_candidate`.
abbrev pub reject : CalibratedCsiFrame → DspFailureCode → Message → DspError
reject f code message =
    assembler_rejected (some (Frame.raw_frame_id f)) (some (Frame.sensor_id f))
      (some (Frame.sequence f)) message code

unfoldable pub all_finite : List ComplexSample → Bool
all_finite [] = true
all_finite (s ∷ ss) = is_finite s && all_finite ss

unfoldable pub check_sensor : Option SensorId → CalibratedCsiFrame → Result DspError (Unit {0})
check_sensor none f = ok tt
check_sensor (some sensor) f =
    refuse (not (Frame.sensor_id f == sensor))
      (reject f DspFailureCode.sensor_mismatch (sensor_mismatch sensor (Frame.sensor_id f)))

unfoldable pub check_antennas : (rx tx : Option ℕ) → CalibratedCsiFrame → Result DspError (Unit {0})
check_antennas (some rx) (some tx) f =
    refuse (not (Frame.receive_antennas f == rx) || not (Frame.transmit_antennas f == tx))
      (reject f DspFailureCode.geometry_mismatch (plain (codes "antenna geometry mismatch")))
check_antennas _ _ f = ok tt

unfoldable pub check_subcarriers : Option (List ℤ) → CalibratedCsiFrame → Result DspError (Unit {0})
check_subcarriers none f = ok tt
check_subcarriers (some indices) f =
    refuse (not (eq_indices (Frame.subcarrier_indices f) indices))
      (reject f DspFailureCode.geometry_mismatch (plain (codes "subcarrier indices mismatch")))

unfoldable pub check_profile :
    Option Str → Option ℕ → CalibratedCsiFrame → Result DspError (Unit {0})
check_profile (some id) (some version) f =
    refuse (not (list_eq f.profile_id id) || not (f.profile_version == version)) (
      reject f DspFailureCode.calibration_profile_mismatch
        (plain (codes "calibration profile mismatch")))
check_profile _ _ f = ok tt

unfoldable pub check_sequence :
    (maximum_gap : ℕ) → Option ℕ → CalibratedCsiFrame → Result DspError (Unit {0})
check_sequence maximum none f = ok tt
check_sequence maximum (some previous) f = do
  refuse (leb (Frame.sequence f) previous)
      (reject f DspFailureCode.non_monotonic_sequence (sequence_order previous (Frame.sequence f)))
  let gap = Frame.sequence f - previous
  refuse (ltb (saturating_add maximum 1) gap)
      (reject f DspFailureCode.sequence_gap (Message.sequence_gap gap (saturating_add maximum 1)))

unfoldable pub check_timestamp : Option ℕ → CalibratedCsiFrame → Result DspError (Unit {0})
check_timestamp none f = ok tt
check_timestamp (some previous) f =
    let current = (Frame.capture_timestamp f).nanos in
    refuse (ltb current previous)
      (reject f DspFailureCode.non_monotonic_timestamp (timestamp_order previous current))

unfoldable pub validate_candidate :
    WindowAssembler → CalibratedCsiFrame → Result DspError (Unit {0})
validate_candidate s f = do
  refuse (not (all_finite f.samples)) (
      reject f DspFailureCode.non_finite
        (plain (codes "calibrated frame contains non-finite samples")))
  check_sensor s.expected_sensor f
  check_antennas s.expected_rx s.expected_tx f
  check_subcarriers s.expected_subcarriers f
  check_profile s.expected_profile_id s.expected_profile_version f
  check_sequence s.config.maximum_sequence_gap s.last_sequence f
  check_timestamp s.last_capture_nanos f

unfoldable pub count_rejected : WindowAssembler → WindowAssembler
count_rejected s = record s {
  counters = record (s.counters) { frames_rejected = saturating_add s.counters.frames_rejected 1 };
}

-- The assembler has not seen a frame yet: what later frames are held to comes from this one.
unfoldable pub expect : WindowAssembler → CalibratedCsiFrame → WindowAssembler
expect s f = if is_some s.expected_sensor then s else record s {
  expected_sensor = some (Frame.sensor_id f);
  expected_rx = some (Frame.receive_antennas f);
  expected_tx = some (Frame.transmit_antennas f);
  expected_subcarriers = some (Frame.subcarrier_indices f);
  expected_profile_id = some f.profile_id;
  expected_profile_version = some f.profile_version;
}

-- Up to the counting of the accepted frame.
unfoldable pub enqueue : WindowAssembler → CalibratedCsiFrame → WindowAssembler
unfolding expect
enqueue s f =
    let t : WindowAssembler =
      expect
        (record s {
          last_sequence = some (Frame.sequence f);
          last_capture_nanos = some (Frame.capture_timestamp f).nanos;
        })
        f in
    record t {
      buffer = t.buffer ++ (f ∷ []);
      counters = record (t.counters) {
        frames_accepted = saturating_add t.counters.frames_accepted 1;
      };
    }

abbrev pub sequence? : Option CalibratedCsiFrame → Option ℕ
sequence? none = none
sequence? (some f) = some (Frame.sequence f)

abbrev pub nanos? : Option CalibratedCsiFrame → Option ℕ
nanos? none = none
nanos? (some f) = some (Frame.capture_timestamp f).nanos

-- After a window: drop the hop, and take the trackers from the last frame that is retained.
unfoldable pub hop : WindowAssembler → WindowAssembler
hop s =
    let rest = drop s.config.hop_size_frames s.buffer in
    record s {
      buffer = rest;
      last_sequence = sequence? (last? rest);
      last_capture_nanos = nanos? (last? rest);
      counters = record (s.counters) {
        windows_emitted = saturating_add s.counters.windows_emitted 1;
      };
    }

-- The end of `push`, where the buffer holds the frames of a window.
unfoldable pub emit : WindowAssembler → WindowAssembler × Result DspError (Option CsiWindow)
unfolding hop
emit s =
    let t : WindowAssembler = record s { next_window_id = saturating_add s.next_window_id 1 } in
    elim (Window.try_new s.next_window_id (take s.config.window_size_frames s.buffer)) [
      | ok window ↦ (hop t, ok (some window))
      | err e ↦ (t, err e)
    ]

unfoldable pub push :
    WindowAssembler → CalibratedCsiFrame → WindowAssembler × Result DspError (Option CsiWindow)
push s f = elim (validate_candidate s f) [
  | err e ↦ (count_rejected s, err e)
  | ok _ ↦
      if leb s.config.queue_capacity (length s.buffer)
      then (
        count_rejected s,
        err (
            reject f DspFailureCode.invalid_config
              (plain (codes "assembler queue_capacity exceeded; refuse silent frame drop"))),
      )
      else (let t = enqueue s f in
          if ltb (length t.buffer) t.config.window_size_frames then (t, ok none) else emit t)
]
