-- ===== src/Calibration/Pipeline/Failures.antt =====
-- The errors of the calibration pipeline are about the frame that it was given.
use mathlib.Core.Path.{subst}
use aeryon.Base.{ℕ, suc, ◌≡◌, sym, inl, inr, List, [], ◌∷◌, ℤ, arith}
use aeryon.Base.Outcomes.{done, failed, Outcome-cases}
use aeryon.Base.Floats.{F64}
use aeryon.Base.Singles.{F32}
use aeryon.Domain.Frame.{Timestamp}
use aeryon.Csi.Frame as Raw
use aeryon.Csi.Frame.{CsiFrame, ComplexSample, expected_samples}
use aeryon.Calibration.Report.{CalibrationStageId, StageReport}
use aeryon.Calibration.Errors as Errors
use aeryon.Calibration.Errors.{CalibrationError}
use aeryon.Calibration.Stage.{
  CalibrationContext, CalibrationBuffer, context, initial_phases, from_frame,
}
use aeryon.Calibration.Unwrap.{unwrap_update, apply_unwrap}
use aeryon.Calibration.Detrend.{detrend_update, apply_detrend}
use aeryon.Calibration.Normalize as Normalize
use aeryon.Calibration.Normalize.{
  square_sum, divide, normalize_link, normalize_update, apply_normalize,
}
use aeryon.Calibration.Profile.{
  CalibrationProfile, StageConfig, ConfiguredStage, stage_id, from_config, configure_stages,
  build_stages, validate, check_stages, check_parameters,
}
use aeryon.Calibration.Pipeline.{
  CalibrationPipeline, apply, run_stages, check_samples, check_reports, validate_output, calibrate,
}
use aeryon.Calibration.Pipeline.Failing.{
  Concerns, FailsWith, FailsWith-bind, for_each_link_mut_fails,
}
use aeryon.Calibration.Pipeline.StageFailures.{
  unwrap_link_fails, normalize_link_fails, detrend_link_fails,
}

initial_phases_fails :
    ⦃o : F32⦄ (f : CsiFrame) (index : ℕ) (ss : List ComplexSample)
    → FailsWith (Concerns (Raw.frame_id f) (Raw.sequence f)) (initial_phases f index ss)
unfolding initial_phases Errors.frame_id Errors.sequence
initial_phases_fails f index [] = tt
initial_phases_fails f index (s ∷ ss) = ground (arith, initial_phases_fails f (suc index) ss)

from_frame_fails :
    ⦃o : F32⦄ (f : CsiFrame) → FailsWith (Concerns (Raw.frame_id f) (Raw.sequence f)) (from_frame f)
unfolding from_frame Errors.frame_id Errors.sequence
from_frame_fails f = ground (arith, initial_phases_fails f 0 f.samples)

module _ ⦃d : F64⦄ ⦃o : F32⦄ (stage_duration : CalibrationStageId → ℕ)
    (c : CalibrationContext) where
  apply_fails :
      (s : ConfiguredStage) (b : CalibrationBuffer)
      → FailsWith (Concerns c.frame_id c.sequence) (apply stage_duration s c b)
  unfolding apply apply_unwrap apply_detrend apply_normalize unwrap_update detrend_update
      normalize_update
  apply_fails ConfiguredStage.phase_unwrap b =
      FailsWith-bind (Concerns c.frame_id c.sequence) _ _
        (for_each_link_mut_fails (Concerns c.frame_id c.sequence) (unwrap_update c)
          (λ link ss ps x.
            FailsWith-bind (Concerns c.frame_id c.sequence) _ _ (unwrap_link_fails c link ss ps)
              (λ _. tt))
          b (0, 0))
        (λ _. tt)
  apply_fails ConfiguredStage.linear_phase_detrend b =
      FailsWith-bind (Concerns c.frame_id c.sequence) _ _
        (for_each_link_mut_fails (Concerns c.frame_id c.sequence)
          (detrend_update b.subcarrier_indices c)
          (λ link ss ps x.
            FailsWith-bind (Concerns c.frame_id c.sequence) _ _
              (detrend_link_fails c link ss ps b.subcarrier_indices) (λ _. tt))
          b _)
        (λ _. tt)
  apply_fails (ConfiguredStage.rms_amplitude_normalize epsilon) b =
      FailsWith-bind (Concerns c.frame_id c.sequence) _ _
        (for_each_link_mut_fails (Concerns c.frame_id c.sequence) (normalize_update epsilon c)
          (λ link ss ps x.
            FailsWith-bind (Concerns c.frame_id c.sequence) _ _
              (normalize_link_fails c link epsilon ss ps) (λ _. tt))
          b [])
        (λ _. tt)

  run_stages_fails :
      (order : ℕ) (ss : List ConfiguredStage) (b : CalibrationBuffer)
      → FailsWith (Concerns c.frame_id c.sequence) (run_stages stage_duration order ss c b)
  unfolding run_stages
  run_stages_fails order [] b = tt
  run_stages_fails order (s ∷ ss) b =
      FailsWith-bind (Concerns c.frame_id c.sequence) _ _ (apply_fails s b) (λ left.
        FailsWith-bind (Concerns c.frame_id c.sequence) _ _ (run_stages_fails (suc order) ss left.0)
          (λ rest. tt))

module _ (f : CsiFrame) where
  abbrev About : CalibrationError → Type 0
  About = Concerns (Raw.frame_id f) (Raw.sequence f)

  check_stages_fails :
      (seen : List CalibrationStageId) (ss : List StageConfig)
      → FailsWith About (check_stages seen ss)
  unfolding check_stages check_parameters Normalize.try_new Errors.frame_id Errors.sequence
  check_stages_fails seen [] = tt
  check_stages_fails seen (s ∷ ss) = ground (arith, check_stages_fails (stage_id s ∷ seen) ss)

  configure_stages_fails : (ss : List StageConfig) → FailsWith About (configure_stages ss)
  unfolding configure_stages from_config Normalize.try_new Errors.frame_id Errors.sequence
  configure_stages_fails [] = tt
  configure_stages_fails (s ∷ ss) = ground (arith, configure_stages_fails ss)

  build_stages_fails : (p : CalibrationProfile) → FailsWith About (build_stages p)
  unfolding build_stages validate Errors.frame_id Errors.sequence
  build_stages_fails p =
      ground (arith, check_stages_fails [] p.stages, configure_stages_fails p.stages)

  check_samples_fails :
      (index : ℕ) (ss : List ComplexSample) → FailsWith About (check_samples f index ss)
  unfolding check_samples Errors.frame_id Errors.sequence
  check_samples_fails index [] = tt
  check_samples_fails index (s ∷ ss) = ground (arith, check_samples_fails (suc index) ss)

  check_reports_fails : (idx : ℕ) (rs : List StageReport) → FailsWith About (check_reports f idx rs)
  unfolding check_reports Errors.frame_id Errors.sequence
  check_reports_fails idx [] = tt
  check_reports_fails idx (r ∷ rs) = ground (arith, check_reports_fails (suc idx) rs)

  validate_output_fails :
      (samples : List ComplexSample) (indices : List ℤ) (reports : List StageReport) (n : ℕ)
      → FailsWith About (validate_output f samples indices reports n)
  unfolding validate_output Errors.frame_id Errors.sequence
  validate_output_fails samples indices reports n =
      ground (arith, check_samples_fails 0 samples, check_reports_fails 0 reports)

from_frame_context :
    ⦃o : F32⦄ (f : CsiFrame) (b : CalibrationBuffer)
    → from_frame f ≡ done b
    → (b.frame_id ≡ Raw.frame_id f) × (b.sequence ≡ Raw.sequence f)
unfolding from_frame
from_frame_context f b e = ground (arith, e)

-- An error of the calibration names no frame and no sequence number but those of the frame that it was
-- given.
pub calibrate-Concerns :
    ⦃d : F64⦄ ⦃o : F32⦄ (stage_duration : CalibrationStageId → ℕ)
    (started_at completed_at : Timestamp) (duration_ns : ℕ) (pipeline : CalibrationPipeline)
    (f : CsiFrame) (e : CalibrationError)
    → calibrate stage_duration started_at completed_at duration_ns pipeline f ≡ failed e
    → Concerns (Raw.frame_id f) (Raw.sequence f) e
unfolding calibrate
calibrate-Concerns stage_duration started completed duration pipeline f e failure =
    let P = Concerns (Raw.frame_id f) (Raw.sequence f) in
    let whole : FailsWith P (calibrate stage_duration started completed duration pipeline f) =
      elim (Outcome-cases (from_frame f)) [
        | inr (inl (x, made)) ↦ rw made (subst (FailsWith P) made (from_frame_fails f))
        | inr (inr made) ↦ rw made tt
        | inl (b, made) ↦
            let (id, sequence) = from_frame_context f b made in
            rw made (
              FailsWith-bind P _ _ (build_stages_fails f pipeline.profile) (λ stages.
                FailsWith-bind P _ _
                  (rw (sym id, sym sequence)
                    (run_stages_fails stage_duration (context b) 0 stages b))
                  (λ ran.
                    FailsWith-bind P _ _
                      (validate_output_fails f ran.0.samples f.subcarrier_indices ran.1 _)
                      (λ _. tt))))
      ] in
    subst (FailsWith P) failure whole
