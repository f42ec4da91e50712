-- ===== src/Csi/Frame.antt =====
-- `CsiFrame` of core/csi/src/frame.rs, and its errors from core/csi/src/error.rs. Floats are their bit
-- patterns; `usize` has 64 bits.
pub mod Validity
pub mod Layout
use aeryon.Base.{
  ℕ, suc, zero, ◌+◌, ◌-◌, ◌*◌, ℤ, eqℤ, ltℤ, Bool, true, false, not, ◌&&◌, ◌||◌, Option, none, some,
  List, [], ◌∷◌, Result, ok, err, ◌>>=◌, ◌>>◌, refuse, length, get_elem?, take, drop, if◌then◌else◌,
  ◌==◌, leb, ltb, u64_max, is_finite32, is_finite64, f64_lt, f64_one, is_some_and,
}
use aeryon.Base.Text.{Str, codes}
use aeryon.Domain.Frame.{FrameMetadata, FrameId, SensorId, Timestamp}

-- `Complex32`.
pub record ComplexSample : Type 0 where
  pub re : ℕ
  pub im : ℕ

unfoldable pub is_finite : ComplexSample → Bool
is_finite s = is_finite32 s.re && is_finite32 s.im

pub data CsiSourceKind : Type 0 where
  replay live : CsiSourceKind

pub record CsiRadioMetadata : Type 0 where
  pub rssi_dbm : Option ℕ
  pub noise_floor_dbm : Option ℕ
  pub agc : Option ℕ
  pub flags : Option ℕ

pub data CsiFrameError : Type 0 where
  zero_receive_antennas zero_transmit_antennas empty_subcarriers : CsiFrameError
  duplicate_subcarrier_index : (index : ℤ) → CsiFrameError
  subcarriers_not_ascending : (position : ℕ) → CsiFrameError
  sample_count_mismatch : (expected actual : ℕ) → CsiFrameError
  non_finite_sample : (index : ℕ) → CsiFrameError
  invalid_center_frequency invalid_bandwidth : CsiFrameError
  invalid_rssi invalid_noise_floor invalid_agc : CsiFrameError
  out_of_bounds : (component : Str) (requested bound : ℕ) → CsiFrameError

pub record CsiFrame : Type 0 where
  pub metadata : FrameMetadata
  pub receive_timestamp : Timestamp
  pub center_frequency_hz : Option ℕ
  pub bandwidth_hz : Option ℕ
  pub receive_antennas : ℕ
  pub transmit_antennas : ℕ
  pub subcarrier_indices : List ℤ
  pub samples : List ComplexSample
  pub source : CsiSourceKind
  pub radio : CsiRadioMetadata

-- `iter().position(|value| *value == current).unwrap_or(1)`, `from` positions further on.
unfoldable pub position : ℕ → ℤ → List ℤ → ℕ
position from current [] = 1
position from current (x ∷ xs) = if eqℤ x current then from else position (suc from) current xs

-- The loop over `windows(2)` of the indices `all`.
unfoldable pub check_ascending : List ℤ → List ℤ → Result CsiFrameError (Unit {0})
unfolding position
check_ascending all [] = ok tt
check_ascending all (previous ∷ []) = ok tt
check_ascending all (previous ∷ (current ∷ rest)) =
    let later = check_ascending all (current ∷ rest) in
    if eqℤ current previous
    then err (duplicate_subcarrier_index current)
    else if ltℤ current previous
    then err (subcarriers_not_ascending (position 0 current all))
    else later

unfoldable pub checked_mul : ℕ → ℕ → Option ℕ
checked_mul a b = if leb (a * b) u64_max then some (a * b) else none

-- The number of samples that the dimensions ask for.
unfoldable pub expected_samples : (rx tx subcarriers : ℕ) → Option ℕ
unfolding checked_mul
expected_samples rx tx n = elim (checked_mul rx tx) [
  | none ↦ none
  | some links ↦ checked_mul links n
]

-- The loop over the samples, from the one at `index` on.
unfoldable pub check_finite : ℕ → List ComplexSample → Result CsiFrameError (Unit {0})
check_finite index [] = ok tt
check_finite index (s ∷ ss) =
    let later = check_finite (suc index) ss in
    if is_finite s then later else err (non_finite_sample index)

-- A frequency or a bandwidth is refused if it is not finite or less than 1.0 (both minima).
unfoldable pub is_bad_frequency : ℕ → Bool
is_bad_frequency f = not (is_finite64 f) || f64_lt f f64_one

unfoldable pub check_dimensions :
    ℕ → ℕ → List ℤ → List ComplexSample → Result CsiFrameError (Unit {0})
unfolding expected_samples
check_dimensions rx tx indices samples = elim (expected_samples rx tx (length indices)) [
  | none ↦ err (sample_count_mismatch 0 (length samples))
  | some expected ↦
      refuse (not (length samples == expected)) (sample_count_mismatch expected (length samples))
]

unfoldable pub try_new :
    FrameMetadata
    → Timestamp
    → (center_frequency_hz bandwidth_hz : Option ℕ) → (receive_antennas transmit_antennas : ℕ)
    → List ℤ
    → List ComplexSample
    → CsiSourceKind
    → CsiRadioMetadata
    → Result CsiFrameError CsiFrame
try_new metadata received frequency bandwidth rx tx indices samples source radio = do
  refuse (rx == 0) zero_receive_antennas
  refuse (tx == 0) zero_transmit_antennas
  refuse (length indices == 0) empty_subcarriers
  check_ascending indices indices
  check_dimensions rx tx indices samples
  check_finite 0 samples
  refuse (is_some_and frequency is_bad_frequency) invalid_center_frequency
  refuse (is_some_and bandwidth is_bad_frequency) invalid_bandwidth
  refuse (is_some_and radio.rssi_dbm (λ x. not (is_finite32 x))) invalid_rssi
  refuse (is_some_and radio.noise_floor_dbm (λ x. not (is_finite32 x))) invalid_noise_floor
  refuse (is_some_and radio.agc (λ x. not (is_finite32 x))) invalid_agc
  ok (record {
    metadata = metadata;
    receive_timestamp = received;
    center_frequency_hz = frequency;
    bandwidth_hz = bandwidth;
    receive_antennas = rx;
    transmit_antennas = tx;
    subcarrier_indices = indices;
    samples = samples;
    source = source;
    radio = radio;
  })

abbrev pub frame_id : CsiFrame → FrameId
frame_id f = f.metadata.frame_id

abbrev pub sensor_id : CsiFrame → SensorId
sensor_id f = f.metadata.sensor_id

abbrev pub sequence : CsiFrame → ℕ
sequence f = f.metadata.sequence

abbrev pub capture_timestamp : CsiFrame → Timestamp
capture_timestamp f = f.metadata.timestamp

abbrev pub subcarrier_count : CsiFrame → ℕ
subcarrier_count f = length f.subcarrier_indices

abbrev pub link_count : CsiFrame → ℕ
link_count f = f.receive_antennas * f.transmit_antennas

unfoldable pub sample_index : CsiFrame → (rx tx subcarrier_position : ℕ) → Option ℕ
sample_index f rx tx k =
    if leb f.receive_antennas rx || leb f.transmit_antennas tx || leb (subcarrier_count f) k
    then none
    else some ((rx * f.transmit_antennas + tx) * subcarrier_count f + k)

unfoldable pub sample : CsiFrame → (rx tx subcarrier_position : ℕ) → Option ComplexSample
sample f rx tx k = elim (sample_index f rx tx k) [
  | none ↦ none
  | some index ↦ get_elem? f.samples index
]

-- `samples.get(start..end)`: none if the range runs past the end.
unfoldable pub get_range : List ComplexSample → (start stop : ℕ) → Option (List ComplexSample)
get_range xs start stop =
    if leb start stop && leb stop (length xs)
    then some (take (stop - start) (drop start xs))
    else none

unfoldable pub link : CsiFrame → (rx tx : ℕ) → Option (List ComplexSample)
unfolding get_range
link f rx tx =
    if leb f.receive_antennas rx || leb f.transmit_antennas tx
    then none
    else elim (sample_index f rx tx 0) [
      | none ↦ none
      | some start ↦ get_range f.samples start (start + subcarrier_count f)
    ]

-- The result of `sample_checked`; `none` is the panic of its `expect`.
unfoldable pub sample_checked :
    CsiFrame → (rx tx subcarrier_position : ℕ) → Option (Result CsiFrameError ComplexSample)
sample_checked f rx tx k =
    if leb f.receive_antennas rx
    then some (err (out_of_bounds (codes "receive_antenna") rx f.receive_antennas))
    else if leb f.transmit_antennas tx
    then some (err (out_of_bounds (codes "transmit_antenna") tx f.transmit_antennas))
    else if leb (subcarrier_count f) k
    then some (err (out_of_bounds (codes "subcarrier_position") k (subcarrier_count f)))
    else elim (sample f rx tx k) [ none ↦ none | some s ↦ some (ok s) ]
