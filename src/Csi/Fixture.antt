-- ===== src/Csi/Fixture.antt =====
-- core/csi/src/fixture.rs: the reader of the fixture format, with its errors from core/csi/src/error.rs.
-- The stream is the list of what its reads give, a line or an I/O error; the decoder of JSON and the two
-- foreign errors are parameters.
pub mod Calls
pub mod Order
use aeryon.Base.{
  ℕ, ◌+◌, ◌*◌, ◌-◌, ℤ, Bool, true, false, not, ◌&&◌, Option, none, some, List, [], ◌∷◌, Result, ok,
  err, if◌then◌else◌, ◌==◌, leb, ltb, list_eq, u64_max, saturating_add,
}
use aeryon.Base.Outcomes.{Outcome, done, failed, panicked, ◌>>=◌, ◌>>◌, refuse, or_panic}
use aeryon.Base.Text.{Str, codes, is_blank}
use aeryon.Domain.Frame as Domain
use aeryon.Domain.Frame.{SensorId, FrameMetadata, Metadata, source, text}
use aeryon.Csi.Frame.{ComplexSample, CsiFrame, CsiFrameError, CsiRadioMetadata, replay, try_new}

pub data CanonicalSampleLayout : Type 0 where
  rx_tx_subcarrier : CanonicalSampleLayout

unfoldable pub parse_layout : Str → Option CanonicalSampleLayout
parse_layout s = if list_eq s (codes "rx-tx-subcarrier") then some rx_tx_subcarrier else none

pub record FixtureHeader : Type 0 where
  pub schema : Str
  pub version : ℕ
  pub sensor_id : SensorId
  pub description : Str
  pub sample_layout : CanonicalSampleLayout

pub record FixtureFrameRecord : Type 0 where
  pub record_type : Str
  pub frame_id : ℕ
  pub sequence : ℕ
  pub capture_timestamp_nanos : ℕ
  pub center_frequency_hz : Option ℕ
  pub bandwidth_hz : Option ℕ
  pub receive_antennas : ℕ
  pub transmit_antennas : ℕ
  pub subcarrier_indices : List ℤ
  pub samples : List ComplexSample
  pub radio : Option CsiRadioMetadata

pub record RawHeader : Type 0 where
  pub record_type : Str
  pub schema : Str
  pub version : ℕ
  pub sensor_id : Str
  pub description : Str
  pub sample_layout : Str

pub data RawRecord : Type 0 where
  header : RawHeader → RawRecord
  frame : FixtureFrameRecord → RawRecord
  unknown : (record_type : Str) → RawRecord

-- The error of `str::parse::<u64>`.
pub data ParseIntError : Type 0 where
  empty invalid_digit pos_overflow : ParseIntError

-- The digits of a decimal number after the value `n`.
unfoldable pub parse_digits : ℕ → Str → Result ParseIntError ℕ
parse_digits n [] = ok n
parse_digits n (c ∷ s) =
    let value = n * 10 + (c - 48) in
    let rest = parse_digits value s in
    if not (leb 48 c && leb c 57)
    then err invalid_digit
    else if ltb u64_max value
    then err pos_overflow
    else rest

-- `str::parse::<u64>`: a plus sign may stand in front of the digits.
unfoldable pub parse_u64 : Str → Result ParseIntError ℕ
parse_u64 [] = err empty
parse_u64 (c ∷ []) = parse_digits 0 (c ∷ [])
parse_u64 (c ∷ (d ∷ s)) = if c == 43 then parse_digits 0 (d ∷ s) else parse_digits 0 (c ∷ (d ∷ s))

pub data FixtureError (Io Json : Type 0) : Type 0 where
  io : (line : ℕ) → Io → FixtureError Io Json
  json : (line : ℕ) → Json → FixtureError Io Json
  missing_header : FixtureError Io Json
  expected_header : (line : ℕ) → FixtureError Io Json
  unsupported_schema : (line : ℕ) → Str → FixtureError Io Json
  unsupported_version : (line version : ℕ) → FixtureError Io Json
  unsupported_layout : (line : ℕ) → Str → FixtureError Io Json
  invalid_sensor_id : (line : ℕ) → ParseIntError → FixtureError Io Json
  unexpected_record_type : (line : ℕ) → Str → FixtureError Io Json
  non_monotonic_sequence : (line previous current : ℕ) → FixtureError Io Json
  malformed_frame : (line : ℕ) → Str → FixtureError Io Json
  invalid_frame : (line : ℕ) → CsiFrameError → FixtureError Io Json

-- `reads` is what the next reads give, until the end of the stream.
pub record FixtureReader (Io : Type 0) : Type 0 where
  pub reads : List (Result Io Str)
  pub header : Option FixtureHeader
  pub line : ℕ
  pub last_sequence : Option ℕ
  pub finished : Bool

abbrev pub default_radio : CsiRadioMetadata
default_radio = record { rssi_dbm = none; noise_floor_dbm = none; agc = none; flags = none }

abbrev pub radio_of : Option CsiRadioMetadata → CsiRadioMetadata
radio_of none = default_radio
radio_of (some r) = r

abbrev pub is_stale : ℕ → Option ℕ → Bool
is_stale sequence none = false
is_stale sequence (some previous) = leb sequence previous

abbrev pub value_or_zero : Option ℕ → ℕ
value_or_zero none = 0
value_or_zero (some n) = n

-- The metadata of a frame of the sensor.
unfoldable pub metadata_of : SensorId → FixtureFrameRecord → FrameMetadata
metadata_of sensor f = record {
  frame_id = f.frame_id;
  sensor_id = sensor;
  timestamp = record { nanos = f.capture_timestamp_nanos };
  sequence = f.sequence;
  mission_id = none;
  metadata = Domain.insert source (text (codes "csi_replay")) (record { fields = [] });
}

-- `FixtureError::line`.
unfoldable pub error_line : {Io Json : Type 0} → FixtureError Io Json → Option ℕ
error_line (io n e) = some n
error_line (json n e) = some n
error_line missing_header = none
error_line (expected_header n) = some n
error_line (unsupported_schema n s) = some n
error_line (unsupported_version n v) = some n
error_line (unsupported_layout n s) = some n
error_line (invalid_sensor_id n e) = some n
error_line (unexpected_record_type n s) = some n
error_line (non_monotonic_sequence n p c) = some n
error_line (malformed_frame n s) = some n
error_line (invalid_frame n e) = some n

module _ {Io Json : Type 0} (from_str : Str → Result Json RawRecord) where
  -- The frame of a record, for the reader's header and its last sequence number.
  unfoldable pub convert :
      FixtureFrameRecord → FixtureReader Io → Outcome (FixtureError Io Json) CsiFrame
  convert f r = do
    refuse (not (list_eq f.record_type (codes "frame")))
        (unexpected_record_type r.line f.record_type)
    refuse (is_stale f.sequence r.last_sequence)
        (non_monotonic_sequence r.line (value_or_zero r.last_sequence) f.sequence)
    h ← or_panic r.header
    elim (try_new (metadata_of h.sensor_id f) (record { nanos = f.capture_timestamp_nanos })
        f.center_frequency_hz f.bandwidth_hz f.receive_antennas f.transmit_antennas
        f.subcarrier_indices f.samples replay (radio_of f.radio)) [
          | ok c ↦ done c
          | err e ↦ failed (invalid_frame r.line e)
        ]

  unfoldable pub frame_record_to_csi :
      FixtureFrameRecord
      → FixtureReader Io
      → FixtureReader Io × Outcome (FixtureError Io Json) (Option CsiFrame)
  frame_record_to_csi f r = elim (convert f r) [
    | done c ↦ (record r { last_sequence = some f.sequence }, done (some c))
    | failed e ↦ (r, failed e)
    | panicked ↦ (r, panicked)
  ]

  -- What `next_frame` does with a decoded line.
  unfoldable pub handle_record :
      Result Json RawRecord
      → FixtureReader Io
      → FixtureReader Io × Outcome (FixtureError Io Json) (Option CsiFrame)
  handle_record (err e) r = (r, failed (json r.line e))
  handle_record (ok (frame f)) r = frame_record_to_csi f r
  handle_record (ok (header h)) r = (r, failed (unexpected_record_type r.line (codes "header")))
  handle_record (ok (unknown t)) r = (r, failed (unexpected_record_type r.line t))

  -- The loop of `next_frame` over what is left to read.
  unfoldable pub next_from :
      List (Result Io Str)
      → FixtureReader Io
      → FixtureReader Io × Outcome (FixtureError Io Json) (Option CsiFrame)
  next_from [] r = (record r { reads = []; finished = true }, done none)
  next_from (err e ∷ reads) r =
      (record r { reads = reads }, failed (io (saturating_add r.line 1) e))
  next_from (ok raw_line ∷ reads) r =
      let u : FixtureReader Io = record r { reads = reads; line = saturating_add r.line 1 } in
      let later = next_from reads u in
      if is_blank raw_line then later else handle_record (from_str raw_line) u

  unfoldable pub next_frame :
      FixtureReader Io → FixtureReader Io × Outcome (FixtureError Io Json) (Option CsiFrame)
  next_frame r = if r.finished then (r, done none) else next_from r.reads r

  -- What `read_header` makes of the header on a line.
  unfoldable pub check_header :
      (line : ℕ) → RawHeader → Outcome (FixtureError Io Json) FixtureHeader
  check_header n h = do
    refuse (not (list_eq h.record_type (codes "header"))) (expected_header n)
    refuse (not (list_eq h.schema (codes "aeryon-csi-fixture"))) (unsupported_schema n h.schema)
    refuse (not (h.version == 1)) (unsupported_version n h.version)
    elim (parse_layout h.sample_layout) [
      | none ↦ failed (unsupported_layout n h.sample_layout)
      | some layout ↦ elim (parse_u64 h.sensor_id) [
        | err e ↦ failed (invalid_sensor_id n e)
        | ok sensor ↦ done (record {
          schema = h.schema;
          version = h.version;
          sensor_id = sensor;
          description = h.description;
          sample_layout = layout;
        })
      ]
    ]

  unfoldable pub handle_header :
      Result Json RawRecord → FixtureReader Io → Outcome (FixtureError Io Json) (FixtureReader Io)
  handle_header (err e) r = failed (json r.line e)
  handle_header (ok (header h)) r =
      check_header r.line h >>= λ checked. done (record r { header = some checked })
  handle_header (ok (frame f)) r = failed (expected_header r.line)
  handle_header (ok (unknown t)) r = failed (expected_header r.line)

  -- The loop of `read_header`.
  unfoldable pub read_header :
      List (Result Io Str) → FixtureReader Io → Outcome (FixtureError Io Json) (FixtureReader Io)
  read_header [] r = failed missing_header
  read_header (err e ∷ reads) r = failed (io (saturating_add r.line 1) e)
  read_header (ok raw_line ∷ reads) r =
      let u : FixtureReader Io = record r { reads = reads; line = saturating_add r.line 1 } in
      let later = read_header reads u in
      if is_blank raw_line then later else handle_header (from_str raw_line) u

  unfoldable pub new : List (Result Io Str) → Outcome (FixtureError Io Json) (FixtureReader Io)
  new reads =
      read_header reads
        (record { reads = reads; header = none; line = 0; last_sequence = none; finished = false })
