-- ===== src/Dsp/Window.antt =====
-- `CsiWindow` of core/dsp/src/window.rs.
pub mod Validity
pub mod Chain
use aeryon.Base.{
  ℕ, zero, suc, ℤ, eqℤ, Bool, true, false, not, ◌&&◌, ◌||◌, Option, none, some, List, [], ◌∷◌,
  Result, ok, err, ◌>>=◌, ◌>>◌, refuse, if◌then◌else◌, ◌==◌, leb, ltb, list_eq, last?,
}
use aeryon.Base.Text.{Str, codes}
use aeryon.Domain.Frame.{SensorId, Timestamp}
use aeryon.Csi.Frame.{ComplexSample, is_finite}
use aeryon.Calibration.Frame as Frame
use aeryon.Calibration.Frame.{CalibratedCsiFrame}
use aeryon.Dsp.Errors.{
  DspError, invalid_window, Message, plain, sensor_mismatch_at, antenna_mismatch_at,
  subcarrier_mismatch_at, profile_mismatch_at, non_finite_at, sequence_order, timestamp_order,
}

pub record CsiWindow : Type 0 where
  pub sensor_id : SensorId
  pub first_sequence : ℕ
  pub last_sequence : ℕ
  pub first_capture_timestamp : Timestamp
  pub last_capture_timestamp : Timestamp
  pub receive_antennas : ℕ
  pub transmit_antennas : ℕ
  pub subcarrier_indices : List ℤ
  pub sample_layout : Str
  pub frames : List CalibratedCsiFrame
  pub calibration_profile_id : Str
  pub calibration_profile_version : ℕ
  pub window_id : ℕ

abbrev pub sample_layout : Str
sample_layout = codes "rx-tx-subcarrier"

-- `==` on slices of `i16`.
unfoldable pub eq_indices : List ℤ → List ℤ → Bool
eq_indices [] [] = true
eq_indices (x ∷ xs) (y ∷ ys) = eqℤ x y && eq_indices xs ys
eq_indices _ _ = false

-- The loop over the samples of the frame at `index`.
unfoldable pub check_samples :
    (index sample_index : ℕ) → List ComplexSample → Result DspError (Unit {0})
check_samples index i [] = ok tt
check_samples index i (s ∷ ss) =
    let later = check_samples index (suc i) ss in
    if is_finite s then later else err (invalid_window (non_finite_at index i))

-- The comparison with the frame before, for `index > 0`.
unfoldable pub check_order :
    Option CalibratedCsiFrame → CalibratedCsiFrame → Result DspError (Unit {0})
check_order none frame = ok tt
check_order (some previous) frame = do
  refuse (leb (Frame.sequence frame) (Frame.sequence previous))
      (invalid_window (sequence_order (Frame.sequence previous) (Frame.sequence frame)))
  refuse (ltb (Frame.capture_timestamp frame).nanos (Frame.capture_timestamp previous).nanos) (
      invalid_window (
        timestamp_order (Frame.capture_timestamp previous).nanos
          (Frame.capture_timestamp frame).nanos))

-- The body of the loop over the frames.
unfoldable pub check_frame :
    (first : CalibratedCsiFrame)
    → ℕ
    → Option CalibratedCsiFrame
    → CalibratedCsiFrame
    → Result DspError (Unit {0})
check_frame first index previous frame = do
  refuse (not (Frame.sensor_id frame == Frame.sensor_id first))
      (invalid_window (sensor_mismatch_at index (Frame.sensor_id first) (Frame.sensor_id frame)))
  refuse
      (not (Frame.receive_antennas frame == Frame.receive_antennas first)
        || not (Frame.transmit_antennas frame == Frame.transmit_antennas first))
      (invalid_window (antenna_mismatch_at index))
  refuse (not (eq_indices (Frame.subcarrier_indices frame) (Frame.subcarrier_indices first)))
      (invalid_window (subcarrier_mismatch_at index))
  refuse
      (not (list_eq frame.profile_id first.profile_id)
        || not (frame.profile_version == first.profile_version))
      (invalid_window (profile_mismatch_at index))
  check_samples index 0 frame.samples
  check_order previous frame

unfoldable pub check_frames :
    (first : CalibratedCsiFrame)
    → ℕ
    → Option CalibratedCsiFrame
    → List CalibratedCsiFrame
    → Result DspError (Unit {0})
check_frames first index previous [] = ok tt
check_frames first index previous (frame ∷ rest) =
    check_frame first index previous frame >> check_frames first (suc index) (some frame) rest

-- The last of a frame and those after it.
unfoldable pub last_from : CalibratedCsiFrame → List CalibratedCsiFrame → CalibratedCsiFrame
last_from f [] = f
last_from f (g ∷ rest) = last_from g rest

unfoldable pub window_of : ℕ → CalibratedCsiFrame → List CalibratedCsiFrame → CsiWindow
window_of id first rest = record {
  sensor_id = Frame.sensor_id first;
  first_sequence = Frame.sequence first;
  last_sequence = Frame.sequence (last_from first rest);
  first_capture_timestamp = Frame.capture_timestamp first;
  last_capture_timestamp = Frame.capture_timestamp (last_from first rest);
  receive_antennas = Frame.receive_antennas first;
  transmit_antennas = Frame.transmit_antennas first;
  subcarrier_indices = Frame.subcarrier_indices first;
  sample_layout = sample_layout;
  frames = first ∷ rest;
  calibration_profile_id = first.profile_id;
  calibration_profile_version = first.profile_version;
  window_id = id;
}

unfoldable pub try_new : ℕ → List CalibratedCsiFrame → Result DspError CsiWindow
try_new id [] = err (invalid_window (plain (codes "window frame count must be greater than zero")))
try_new id (first ∷ rest) = check_frames first 0 none (first ∷ rest) >> ok (window_of id first rest)
