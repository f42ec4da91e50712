-- ===== src/Calibration/Normalize.antt =====
-- core/calibration/src/stages/rms_amplitude_normalize.rs: each link is divided by its RMS amplitude.
pub mod Totality
use aeryon.Base.{
  ℕ, suc, ◌%◌, Bool, true, not, ◌||◌, none, some, List, [], ◌∷◌, ◌++◌, length, get_elem?, drop,
  is_finite32, is_finite64, f64_lt, f64_zero, u32_max, ◌+◌,
}
use aeryon.Base.Text.{codes}
use aeryon.Base.Outcomes.{Outcome, done, failed, ◌>>=◌, ◌>>◌, refuse, or_panic}
use aeryon.Base.Floats.{F64}
use aeryon.Base.Singles.{F32, f32_le}
use aeryon.Csi.Frame.{ComplexSample, is_finite}
use aeryon.Calibration.Report.{AntennaLink, StageReport, CalibrationStageId, StageDiagnostics}
use aeryon.Calibration.Errors.{
  CalibrationError, invalid_profile, invalid_epsilon, insufficient_subcarriers, non_finite_sample,
  stage_failure, zero_energy_link, plain,
}
use aeryon.Calibration.Stage.{
  CalibrationContext, CalibrationBuffer, display_name, for_each_link_mut,
}

abbrev pub non_finite : CalibrationContext → AntennaLink → (offset : ℕ) → CalibrationError
non_finite c link offset =
    non_finite_sample c.frame_id c.sequence (some CalibrationStageId.rms_amplitude_normalize)
      (some offset) (some link)

-- `RmsAmplitudeNormalizeStage::try_new`; the stage is its epsilon.
unfoldable pub try_new : (epsilon : ℕ) → Outcome CalibrationError ℕ
try_new epsilon = do
  refuse (not (is_finite32 epsilon) || f32_le epsilon 0) (invalid_profile (invalid_epsilon epsilon))
  done epsilon

module _ ⦃d : F64⦄ ⦃o : F32⦄ where
  unfoldable pub square_sum :
      CalibrationContext
      → AntennaLink
      → (offset : ℕ) → List ComplexSample
      → (sum : ℕ) → Outcome CalibrationError ℕ
  square_sum c link offset [] sum = done sum
  square_sum c link offset (s ∷ ss) sum = do
    refuse (not (is_finite s)) (non_finite c link offset)
    let re = d.of_f32 s.re
    let im = d.of_f32 s.im
    square_sum c link (suc offset) ss (d.add sum (d.add (d.mul re re) (d.mul im im)))

  -- The loop that divides, from the sample at `offset` on.
  unfoldable pub divide :
      CalibrationContext
      → AntennaLink
      → (rms offset : ℕ) → List ComplexSample
      → (phases : List ℕ) → Outcome CalibrationError (List ComplexSample × List ℕ)
  divide c link rms offset [] phases = done ([], phases)
  divide c link rms offset (s ∷ ss) phases = do
    let scaled : ComplexSample = record { re = o.div s.re rms; im = o.div s.im rms }
    refuse (not (is_finite scaled)) (non_finite c link offset)
    replaced ← or_panic (get_elem? phases 0)
    rest ← divide c link rms (suc offset) ss (drop 1 phases)
    done (scaled ∷ rest.0, o.arg scaled.re scaled.im ∷ rest.1)

  unfoldable pub normalize_link :
      (epsilon : ℕ)
      → CalibrationContext
      → AntennaLink
      → List ComplexSample
      → (phases : List ℕ) → Outcome CalibrationError (List ComplexSample × List ℕ × ℕ)
  normalize_link epsilon c link [] phases = failed (
      insufficient_subcarriers c.frame_id c.sequence CalibrationStageId.rms_amplitude_normalize
        (some link) 0)
  normalize_link epsilon c link (s ∷ ss) phases = do
    sum ← square_sum c link 0 (s ∷ ss) f64_zero
    let mean = d.div sum (d.of_nat (length (s ∷ ss)))
    refuse (not (is_finite64 mean) || f64_lt mean f64_zero) (
        stage_failure c.frame_id c.sequence CalibrationStageId.rms_amplitude_normalize
          (plain (codes "non-finite mean-square magnitude")))
    let rms = o.of_f64 (d.sqrt mean)
    refuse (not (is_finite32 rms)) (
        non_finite_sample c.frame_id c.sequence (some CalibrationStageId.rms_amplitude_normalize)
          none (some link))
    refuse (f32_le rms epsilon) (
        zero_energy_link c.frame_id c.sequence CalibrationStageId.rms_amplitude_normalize link rms
          epsilon)
    left ← divide c link rms 0 (s ∷ ss) phases
    done (left.0, left.1, rms)

  -- The closure of `apply`: it captures the RMS amplitudes.
  unfoldable pub normalize_update :
      (epsilon : ℕ)
      → CalibrationContext
      → AntennaLink
      → List ComplexSample
      → List ℕ
      → List ℕ
      → Outcome CalibrationError (List ComplexSample × List ℕ × List ℕ)
  normalize_update epsilon c link samples phases original_rms = do
    left ← normalize_link epsilon c link samples phases
    done (left.0, left.1, original_rms ++ (left.2 ∷ []))

  unfoldable pub apply_normalize :
      (epsilon duration_ns : ℕ)
      → CalibrationContext
      → CalibrationBuffer
      → Outcome CalibrationError (CalibrationBuffer × StageReport)
  apply_normalize epsilon duration c buffer = do
    left ← for_each_link_mut (normalize_update epsilon c) buffer []
    done (
      left.0,
      record {
        stage_id = CalibrationStageId.rms_amplitude_normalize;
        stage_name = display_name CalibrationStageId.rms_amplitude_normalize;
        order = 0;
        duration_ns = duration;
        success = true;
        warning_count = 0;
        warnings = [];
        diagnostics =
            StageDiagnostics.rms_amplitude_normalize (length left.1 % (u32_max + 1)) left.1;
      },
    )
