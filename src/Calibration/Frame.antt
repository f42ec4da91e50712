-- ===== src/Calibration/Frame.antt =====
-- `CalibratedCsiFrame` of core/calibration/src/frame.rs.
use aeryon.Base.{ℕ, ◌+◌, ◌*◌, ◌||◌, ℤ, List, Option, none, some, leb, if◌then◌else◌, get_elem?}
use aeryon.Base.Text.{Str}
use aeryon.Domain.Frame.{FrameId, SensorId, Timestamp}
use aeryon.Csi.Frame as Raw
use aeryon.Csi.Frame.{CsiFrame, ComplexSample, get_range}
use aeryon.Calibration.Report.{CalibrationReport}

pub record CalibratedCsiFrame : Type 0 where
  pub raw : CsiFrame
  pub samples : List ComplexSample
  pub profile_id : Str
  pub profile_version : ℕ
  pub calibrated_at : Timestamp
  pub report : CalibrationReport

-- The accessors that read the raw frame.
abbrev pub raw_frame_id : CalibratedCsiFrame → FrameId
raw_frame_id f = Raw.frame_id f.raw

abbrev pub sensor_id : CalibratedCsiFrame → SensorId
sensor_id f = Raw.sensor_id f.raw

abbrev pub sequence : CalibratedCsiFrame → ℕ
sequence f = Raw.sequence f.raw

abbrev pub capture_timestamp : CalibratedCsiFrame → Timestamp
capture_timestamp f = Raw.capture_timestamp f.raw

abbrev pub receive_antennas : CalibratedCsiFrame → ℕ
receive_antennas f = f.raw.receive_antennas

abbrev pub transmit_antennas : CalibratedCsiFrame → ℕ
transmit_antennas f = f.raw.transmit_antennas

abbrev pub subcarrier_indices : CalibratedCsiFrame → List ℤ
subcarrier_indices f = f.raw.subcarrier_indices

abbrev pub subcarrier_count : CalibratedCsiFrame → ℕ
subcarrier_count f = Raw.subcarrier_count f.raw

unfoldable pub sample_index : CalibratedCsiFrame → (rx tx subcarrier_position : ℕ) → Option ℕ
sample_index f rx tx k =
    if leb (receive_antennas f) rx || leb (transmit_antennas f) tx || leb (subcarrier_count f) k
    then none
    else some ((rx * transmit_antennas f + tx) * subcarrier_count f + k)

unfoldable pub sample : CalibratedCsiFrame → (rx tx subcarrier_position : ℕ) → Option ComplexSample
sample f rx tx k = elim (sample_index f rx tx k) [
  | none ↦ none
  | some index ↦ get_elem? f.samples index
]

unfoldable pub link : CalibratedCsiFrame → (rx tx : ℕ) → Option (List ComplexSample)
link f rx tx =
    if leb (receive_antennas f) rx || leb (transmit_antennas f) tx
    then none
    else elim (sample_index f rx tx 0) [
      | none ↦ none
      | some start ↦ get_range f.samples start (start + subcarrier_count f)
    ]
