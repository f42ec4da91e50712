-- ===== src/Calibration/Unwrap.antt =====
-- core/calibration/src/stages/phase_unwrap.rs: phases are made continuous along the subcarriers. The two
-- `while` loops take fuel; a loop that has used it up counts as a panic.
pub mod Turns
use aeryon.Base.{
  ℕ, zero, suc, Bool, true, false, not, ◌||◌, Option, none, some, List, [], ◌∷◌, length, get_elem?,
  ◌==◌, is_finite32, saturating_add, saturating_add32,
}
use aeryon.Base.Text.{codes}
use aeryon.Base.Outcomes.{Outcome, done, ◌>>=◌, ◌>>◌, refuse, or_panic}
use aeryon.Base.Singles.{F32, f32_lt, f32_pi, f32_neg_pi, f32_tau}
use aeryon.Csi.Frame.{ComplexSample, is_finite}
use aeryon.Calibration.Report.{AntennaLink, StageReport, CalibrationStageId, StageDiagnostics}
use aeryon.Calibration.Errors.{CalibrationError, malformed_frame, non_finite_sample, plain}
use aeryon.Calibration.Stage.{
  CalibrationContext, CalibrationBuffer, display_name, for_each_link_mut,
}

abbrev pub non_finite : CalibrationContext → AntennaLink → (offset : ℕ) → CalibrationError
non_finite c link offset =
    non_finite_sample c.frame_id c.sequence (some CalibrationStageId.phase_unwrap) (some offset)
      (some link)

module _ ⦃o : F32⦄ where
  -- `while delta > PI`.
  unfoldable pub lower : (fuel delta wraps : ℕ) → Option (ℕ × ℕ)
  lower zero delta wraps = none
  lower (suc fuel) delta wraps = elim (f32_lt f32_pi delta) [
    | true ↦ lower fuel (o.sub delta f32_tau) (saturating_add wraps 1)
    | false ↦ some (delta, wraps)
  ]

  -- `while delta < -PI`.
  unfoldable pub raise : (fuel delta wraps : ℕ) → Option (ℕ × ℕ)
  raise zero delta wraps = none
  raise (suc fuel) delta wraps = elim (f32_lt delta f32_neg_pi) [
    | true ↦ raise fuel (o.add delta f32_tau) (saturating_add wraps 1)
    | false ↦ some (delta, wraps)
  ]

  unfoldable pub sample_phase :
      ComplexSample → CalibrationContext → (offset : ℕ) → AntennaLink → Outcome CalibrationError ℕ
  sample_phase s c offset link = do
    refuse (not (is_finite s)) (non_finite c link offset)
    refuse (not (is_finite32 (o.arg s.re s.im))) (non_finite c link offset)
    done (o.arg s.re s.im)

  unfoldable pub sample_magnitude :
      ComplexSample → CalibrationContext → (offset : ℕ) → AntennaLink → Outcome CalibrationError ℕ
  sample_magnitude s c offset link = do
    refuse (not (is_finite s)) (non_finite c link offset)
    refuse (not (is_finite32 (o.norm s.re s.im))) (non_finite c link offset)
    done (o.norm s.re s.im)

  -- `Complex::from_polar`.
  abbrev pub from_polar : (magnitude phase : ℕ) → ComplexSample
  from_polar m p = record { re = o.polar_re m p; im = o.polar_im m p }

  -- The fuel is the bit pattern that a loop starts at: each round moves it towards that of π.
  unfoldable pub wrap_delta : (delta wraps : ℕ) → Outcome CalibrationError (ℕ × ℕ)
  unfolding lower raise
  wrap_delta delta wraps = do
    lowered ← or_panic (lower (suc delta) delta wraps)
    or_panic (raise (suc lowered.0) lowered.0 lowered.1)

  -- The loop over the samples from the one at `offset` on.
  unfoldable pub unwrap_from :
      CalibrationContext
      → AntennaLink
      → (offset previous_unwrapped : ℕ) → List ComplexSample
      → (wraps : ℕ) → Outcome CalibrationError (List ComplexSample × List ℕ × ℕ)
  unwrap_from c link offset previous [] wraps = done ([], [], wraps)
  unwrap_from c link offset previous (s ∷ ss) wraps = do
    magnitude ← sample_magnitude s c offset link
    wrapped ← sample_phase s c offset link
    turned ← wrap_delta (o.sub wrapped previous) wraps
    let unwrapped = o.add previous turned.0
    refuse (not (is_finite32 unwrapped) || not (is_finite32 magnitude)) (non_finite c link offset)
    rest ← unwrap_from c link (suc offset) unwrapped ss turned.1
    done (from_polar magnitude unwrapped ∷ rest.0, unwrapped ∷ rest.1, rest.2)

  unfoldable pub unwrap_link :
      CalibrationContext
      → AntennaLink
      → List ComplexSample
      → (phases : List ℕ) → Outcome CalibrationError (List ComplexSample × List ℕ × ℕ)
  unwrap_link c link [] phases = done ([], phases, 0)
  unwrap_link c link (s ∷ ss) phases = do
    refuse (not (length (s ∷ ss) == length phases)) (
        malformed_frame (some c.frame_id) (some c.sequence)
          (plain (codes "sample/phase length mismatch")))
    first ← or_panic (get_elem? phases 0)
    refuse (not (is_finite32 first)) (non_finite c link 0)
    magnitude ← sample_magnitude s c 0 link
    rest ← unwrap_from c link 1 first ss 0
    done (from_polar magnitude first ∷ rest.0, first ∷ rest.1, rest.2)

  -- The closure of `apply`: it captures the links processed and the wraps applied.
  unfoldable pub unwrap_update :
      CalibrationContext
      → AntennaLink
      → List ComplexSample
      → List ℕ
      → ℕ × ℕ
      → Outcome CalibrationError (List ComplexSample × List ℕ × (ℕ × ℕ))
  unwrap_update c link samples phases (links, wraps) = do
    left ← unwrap_link c link samples phases
    done (left.0, left.1, (saturating_add32 links 1, saturating_add wraps left.2))

  unfoldable pub apply_unwrap :
      (duration_ns : ℕ)
      → CalibrationContext
      → CalibrationBuffer
      → Outcome CalibrationError (CalibrationBuffer × StageReport)
  apply_unwrap duration c buffer = do
    left ← for_each_link_mut (unwrap_update c) buffer (0, 0)
    done (
      left.0,
      record {
        stage_id = CalibrationStageId.phase_unwrap;
        stage_name = display_name CalibrationStageId.phase_unwrap;
        order = 0;
        duration_ns = duration;
        success = true;
        warning_count = 0;
        warnings = [];
        diagnostics = StageDiagnostics.phase_unwrap left.1.0 left.1.1;
      },
    )
