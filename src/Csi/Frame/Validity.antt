-- ===== src/Csi/Frame/Validity.antt =====
-- What `CsiFrame::try_new` accepts.
use aeryon.Base.{
  ℕ, suc, ◌*◌, ◌≤◌, ◌<◌, ℤ, ltℤ, eqℤ→eq, ltℤ_total, ltℤ-asymm, ltℤ-irrefl, eqℤ-refl, true, false,
  ◌≡◌, refl, ◌↔◌, Option, none, some, List, [], ◌∷◌, Result, ok, err, length, u64_max, is_finite32,
  All, arith,
}
use aeryon.Csi.Frame.{
  CsiFrame, CsiFrameError, ComplexSample, is_finite, check_ascending, check_finite,
  is_bad_frequency, check_dimensions, try_new, subcarriers_not_ascending,
}

-- Each index is less than the next.
abbrev pub IsAscending : List ℤ → Type 0
IsAscending [] = Unit
IsAscending (x ∷ []) = Unit
IsAscending (x ∷ (y ∷ ys)) = (ltℤ x y ≡ true) × IsAscending (y ∷ ys)

-- A float that is present is finite.
abbrev pub IsFinite? : Option ℕ → Type 0
IsFinite? none = Unit
IsFinite? (some x) = is_finite32 x ≡ true

-- A frequency that is present is finite and at least 1 Hz.
abbrev pub IsFrequency? : Option ℕ → Type 0
IsFrequency? none = Unit
IsFrequency? (some x) = is_bad_frequency x ≡ false

pub record IsValid (f : CsiFrame) : Type 0 where
  pub receives : 0 < f.receive_antennas
  pub transmits : 0 < f.transmit_antennas
  pub carriers : 0 < length f.subcarrier_indices
  pub ascending : IsAscending f.subcarrier_indices
  pub links_fit : f.receive_antennas * f.transmit_antennas ≤ u64_max
  pub samples_fit : length f.samples ≤ u64_max
  pub dimensions :
      length f.samples ≡ f.receive_antennas * f.transmit_antennas * length f.subcarrier_indices
  pub finite : All (λ s. is_finite s ≡ true) f.samples
  pub frequency : IsFrequency? f.center_frequency_hz
  pub bandwidth : IsFrequency? f.bandwidth_hz
  pub rssi : IsFinite? f.radio.rssi_dbm
  pub noise_floor : IsFinite? f.radio.noise_floor_dbm
  pub agc : IsFinite? f.radio.agc

-- `try_new` on the parts of a frame.
abbrev pub build : CsiFrame → Result CsiFrameError CsiFrame
build f =
    try_new f.metadata f.receive_timestamp f.center_frequency_hz f.bandwidth_hz f.receive_antennas
      f.transmit_antennas f.subcarrier_indices f.samples f.source f.radio

check_ascending_iff : (all xs : List ℤ) → (check_ascending all xs ≡ ok tt) ↔ IsAscending xs
unfolding check_ascending
check_ascending_iff all [] = (λ _. tt, λ _. refl)
check_ascending_iff all (x ∷ []) = (λ _. tt, λ _. refl)
check_ascending_iff all (x ∷ (y ∷ ys)) =
    ground (arith, check_ascending_iff all (y ∷ ys), ltℤ_total y x, ltℤ-asymm x y)

check_finite_iff :
    (i : ℕ) (xs : List ComplexSample)
    → (check_finite i xs ≡ ok tt) ↔ All (λ s. is_finite s ≡ true) xs
unfolding check_finite
check_finite_iff i [] = (λ _. tt, λ _. refl)
check_finite_iff i (x ∷ xs) = ground (arith, check_finite_iff (suc i) xs)

check_dimensions_iff :
    (rx tx : ℕ) (indices : List ℤ) (samples : List ComplexSample)
    → (check_dimensions rx tx indices samples ≡ ok tt) ↔ (
        (rx * tx ≤ u64_max)
        × (length samples ≤ u64_max)
        × (length samples ≡ rx * tx * length indices))
unfolding check_dimensions
check_dimensions_iff rx tx indices samples = ground arith

-- `try_new`, given the parts of a frame, returns a frame just if its parts are valid, and then the frame of those parts.
pub build_iff : (f g : CsiFrame) → (build f ≡ ok g) ↔ ((g ≡ f) × IsValid f)
unfolding try_new
build_iff f g = ground (
  arith,
  check_ascending_iff f.subcarrier_indices f.subcarrier_indices,
  check_dimensions_iff f.receive_antennas f.transmit_antennas f.subcarrier_indices f.samples,
  check_finite_iff 0 f.samples,
)

-- Where the third index repeats the first and the second is greater, the order is violated at
-- position 2, and the error names position 0, at which the repeated index stands first.
pub check_ascending_position :
    (a b : ℤ) (rest : List ℤ)
    → ltℤ a b ≡ true
    → check_ascending (a ∷ b ∷ a ∷ rest) (a ∷ b ∷ a ∷ rest) ≡ err (subcarriers_not_ascending 0)
unfolding check_ascending
check_ascending_position a b rest h =
    ground (arith, ltℤ-asymm a b h, eqℤ-refl a, eqℤ→eq a b, ltℤ-irrefl a)
