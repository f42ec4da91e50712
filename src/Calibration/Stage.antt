-- ===== src/Calibration/Stage.antt =====
-- The stage identities and the working buffer of core/calibration/src/stage.rs.
pub mod Links
use aeryon.Base.{
  ℕ, zero, suc, ◌+◌, ◌*◌, ◌/◌, ◌%◌, ◌^◌, ℤ, Bool, not, Option, none, some, List, [], ◌∷◌, ◌++◌,
  length, take, drop, leb, ◌==◌, ◌&&◌, is_finite32, if◌then◌else◌,
}
use aeryon.Base.Text.{Str, codes}
use aeryon.Base.Outcomes.{Outcome, done, failed, ◌>>=◌, ◌>>◌, refuse, or_panic, or_fail}
use aeryon.Base.Singles.{F32}
use aeryon.Domain.Frame.{FrameId, SensorId}
use aeryon.Csi.Frame as Raw
use aeryon.Csi.Frame.{CsiFrame, ComplexSample, is_finite, expected_samples}
use aeryon.Calibration.Report.{
  AntennaLink, CalibrationStageId, phase_unwrap, linear_phase_detrend, rms_amplitude_normalize,
}
use aeryon.Calibration.Errors.{
  CalibrationError, malformed_frame, non_finite_sample, plain, count_mismatch,
}

abbrev pub as_str : CalibrationStageId → Str
as_str phase_unwrap = codes "phase_unwrap"
as_str linear_phase_detrend = codes "linear_phase_detrend"
as_str rms_amplitude_normalize = codes "rms_amplitude_normalize"

abbrev pub display_name : CalibrationStageId → Str
display_name phase_unwrap = codes "Phase Unwrap"
display_name linear_phase_detrend = codes "Linear Phase Detrend"
display_name rms_amplitude_normalize = codes "RMS Amplitude Normalize"

pub record CalibrationContext : Type 0 where
  pub frame_id : FrameId
  pub sensor_id : SensorId
  pub sequence : ℕ

-- Phases are bit patterns, in the layout of the samples.
pub record CalibrationBuffer : Type 0 where
  pub receive_antennas : ℕ
  pub transmit_antennas : ℕ
  pub subcarrier_indices : List ℤ
  pub samples : List ComplexSample
  pub phases : List ℕ
  pub frame_id : FrameId
  pub sensor_id : SensorId
  pub sequence : ℕ

abbrev pub context : CalibrationBuffer → CalibrationContext
context b = record { frame_id = b.frame_id; sensor_id = b.sensor_id; sequence = b.sequence }

module _ {ℓ} {A : Type ℓ} where
  -- `xs[start..end].to_vec()`, which panics past the end.
  unfoldable pub slice : (start width : ℕ) → List A → Option (List A)
  slice start width xs =
      if leb (start + width) (length xs) then some (take width (drop start xs)) else none

  -- `xs[start..end].copy_from_slice(ys)`, which panics past the end or if the lengths differ.
  unfoldable pub copy_from_slice : (start width : ℕ) → (ys xs : List A) → Option (List A)
  copy_from_slice start width ys xs =
      if leb (start + width) (length xs) && length ys == width
      then some (take start xs ++ (ys ++ drop (start + width) xs))
      else none

-- What the closure of `for_each_link_mut` leaves: the link's samples and phases, and what it captures.
abbrev pub LinkUpdate : Type 0 → Type 0
LinkUpdate S =
    AntennaLink
    → List ComplexSample
    → List ℕ
    → S
    → Outcome CalibrationError (List ComplexSample × List ℕ × S)

abbrev pub link_at : (n_tx link_idx : ℕ) → AntennaLink
link_at n_tx i = record { rx = i / n_tx % 2 ^ 16; tx = i % n_tx % 2 ^ 16 }

module _ {S : Type 0} (f : LinkUpdate S) (n_sc n_tx : ℕ) where
  -- The body of the loop for the link `i`.
  unfoldable pub update_link :
      (i : ℕ) → CalibrationBuffer → S → Outcome CalibrationError (CalibrationBuffer × S)
  update_link i b s = do
    samples ← or_panic (slice (i * n_sc) n_sc b.samples)
    phases ← or_panic (slice (i * n_sc) n_sc b.phases)
    left ← f (link_at n_tx i) samples phases s
    all_samples ← or_panic (copy_from_slice (i * n_sc) n_sc left.0 b.samples)
    all_phases ← or_panic (copy_from_slice (i * n_sc) n_sc left.1 b.phases)
    done (record b { samples = all_samples; phases = all_phases }, left.2)

  -- The loop from the link `i` on, of which `n` are left.
  unfoldable pub update_links :
      (i n : ℕ) → CalibrationBuffer → S → Outcome CalibrationError (CalibrationBuffer × S)
  update_links i zero b s = done (b, s)
  update_links i (suc n) b s = update_link i b s >>= λ (c, t). update_links (suc i) n c t

unfoldable pub for_each_link_mut :
    {S : Type 0}
    → LinkUpdate S
    → CalibrationBuffer
    → S
    → Outcome CalibrationError (CalibrationBuffer × S)
for_each_link_mut f b s =
    update_links f (length b.subcarrier_indices) b.transmit_antennas 0
      (b.receive_antennas * b.transmit_antennas) b s

module _ ⦃o : F32⦄ where
  -- The phases of the samples from the `index`-th on.
  unfoldable pub initial_phases :
      CsiFrame → (index : ℕ) → List ComplexSample → Outcome CalibrationError (List ℕ)
  initial_phases f index [] = done []
  initial_phases f index (s ∷ ss) = do
    let non_finite = non_finite_sample (Raw.frame_id f) (Raw.sequence f) none (some index) none
    refuse (not (is_finite s)) non_finite
    refuse (not (is_finite32 (o.arg s.re s.im))) non_finite
    phases ← initial_phases f (suc index) ss
    done (o.arg s.re s.im ∷ phases)

  unfoldable pub from_frame : CsiFrame → Outcome CalibrationError CalibrationBuffer
  from_frame f = do
    let malformed = malformed_frame (some (Raw.frame_id f)) (some (Raw.sequence f))
    expected ←
        or_fail (expected_samples f.receive_antennas f.transmit_antennas (Raw.subcarrier_count f))
          (malformed (plain (codes "sample dimension overflow")))
    refuse (not (length f.samples == expected))
        (malformed (count_mismatch expected (length f.samples)))
    phases ← initial_phases f 0 f.samples
    done (record {
      receive_antennas = f.receive_antennas;
      transmit_antennas = f.transmit_antennas;
      subcarrier_indices = f.subcarrier_indices;
      samples = f.samples;
      phases = phases;
      frame_id = Raw.frame_id f;
      sensor_id = Raw.sensor_id f;
      sequence = Raw.sequence f;
    })
