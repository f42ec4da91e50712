-- ===== src/Csi/Samples.antt =====
-- Test data: a frame with two receive antennas, one transmit antenna and two subcarriers.
use aeryon.Base.{ℕ, pos, negsuc, ltℤ, eqℤ, is_finite32, ◌≡◌, refl, none, [], ◌∷◌, ok}
use aeryon.Csi.Frame.{
  CsiFrame, ComplexSample, replay, check_ascending, check_dimensions, check_finite, is_finite,
  try_new,
}
use aeryon.Csi.Frame.Validity.{IsValid, build, build_iff}

abbrev pub value : ℕ → ComplexSample
value n = record { re = n; im = 0 }

abbrev pub four_samples : CsiFrame
four_samples = record {
  metadata = record {
    frame_id = 1;
    sensor_id = 7;
    timestamp = record { nanos = 100 };
    sequence = 1;
    mission_id = none;
    metadata = record { fields = [] };
  };
  receive_timestamp = record { nanos = 110 };
  center_frequency_hz = none;
  bandwidth_hz = none;
  receive_antennas = 2;
  transmit_antennas = 1;
  subcarrier_indices = negsuc 0 ∷ pos 1 ∷ [];
  samples = value 1 ∷ value 2 ∷ value 3 ∷ value 4 ∷ [];
  source = replay;
  radio = record { rssi_dbm = none; noise_floor_dbm = none; agc = none; flags = none };
}

pub accepted : build four_samples ≡ ok four_samples
unfolding try_new check_ascending check_dimensions check_finite is_finite eqℤ ltℤ is_finite32
accepted = refl

pub four_samples-IsValid : IsValid four_samples
four_samples-IsValid = ((build_iff four_samples four_samples).0 accepted).1
