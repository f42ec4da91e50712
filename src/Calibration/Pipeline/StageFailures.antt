-- ===== src/Calibration/Pipeline/StageFailures.antt =====
-- The errors of the stages on one link are about the frame of the context.
use aeryon.Base.{ℕ, suc, refl, inl, inr, List, [], ◌∷◌, ℤ, length, drop, f64_zero, arith}
use aeryon.Base.Text.{Str}
use aeryon.Base.Outcomes.{Outcome, done, failed, panicked, Outcome-cases}
use aeryon.Base.Floats.{F64}
use aeryon.Base.Singles.{F32}
use aeryon.Csi.Frame.{ComplexSample}
use aeryon.Calibration.Report.{AntennaLink}
use aeryon.Calibration.Errors as Errors
use aeryon.Calibration.Errors.{CalibrationError}
use aeryon.Calibration.Stage.{CalibrationContext}
use aeryon.Calibration.Unwrap.{wrap_delta, sample_phase, sample_magnitude, unwrap_from, unwrap_link}
use aeryon.Calibration.Detrend.{fit_affine, map_failure, collect, residuals, fit_link, detrend_link}
use aeryon.Calibration.Normalize.{square_sum, divide, normalize_link}
use aeryon.Calibration.Pipeline.Failing.{Concerns, FailsWith, FailsWith-bind, refuse_fails}

module _ ⦃d : F64⦄ ⦃o : F32⦄ (c : CalibrationContext) (link : AntennaLink) where
  abbrev Here : CalibrationError → Type 0
  Here = Concerns c.frame_id c.sequence

  pub sample_magnitude_fails :
      (s : ComplexSample) (offset : ℕ) → FailsWith Here (sample_magnitude s c offset link)
  unfolding sample_magnitude Errors.frame_id Errors.sequence
  sample_magnitude_fails s offset = ground arith

  pub sample_phase_fails :
      (s : ComplexSample) (offset : ℕ) → FailsWith Here (sample_phase s c offset link)
  unfolding sample_phase Errors.frame_id Errors.sequence
  sample_phase_fails s offset = ground arith

  pub wrap_delta_fails : (delta wraps : ℕ) → FailsWith Here (wrap_delta delta wraps)
  unfolding wrap_delta
  wrap_delta_fails delta wraps = ground arith

  pub unwrap_from_fails :
      (offset previous : ℕ) (ss : List ComplexSample) (wraps : ℕ)
      → FailsWith Here (unwrap_from c link offset previous ss wraps)
  unfolding unwrap_from Errors.frame_id Errors.sequence
  unwrap_from_fails offset previous [] wraps = tt
  unwrap_from_fails offset previous (s ∷ ss) wraps =
      FailsWith-bind Here _ _ (sample_magnitude_fails s offset) (λ magnitude.
        FailsWith-bind Here _ _ (sample_phase_fails s offset) (λ wrapped.
          FailsWith-bind Here _ _ (wrap_delta_fails (o.sub wrapped previous) wraps) (λ turned.
            FailsWith-bind Here _ _ (refuse_fails Here _ _ (refl, refl)) (λ _.
              FailsWith-bind Here _ _
                (unwrap_from_fails (suc offset) (o.add previous turned.0) ss turned.1)
                (λ rest. tt)))))

  pub unwrap_link_fails :
      (ss : List ComplexSample) (ps : List ℕ) → FailsWith Here (unwrap_link c link ss ps)
  unfolding unwrap_link sample_magnitude Errors.frame_id Errors.sequence
  unwrap_link_fails [] ps = tt
  unwrap_link_fails (s ∷ ss) [] = ground arith
  unwrap_link_fails (s ∷ ss) (p ∷ ps) = ground (arith, unwrap_from_fails 1 p ss 0)

  pub square_sum_fails :
      (offset : ℕ) (ss : List ComplexSample) (sum : ℕ)
      → FailsWith Here (square_sum c link offset ss sum)
  unfolding square_sum Errors.frame_id Errors.sequence
  square_sum_fails offset [] sum = tt
  square_sum_fails offset (s ∷ ss) sum =
      FailsWith-bind Here _ _ (refuse_fails Here _ _ (refl, refl))
        (λ _. square_sum_fails (suc offset) ss _)

  pub divide_fails :
      (rms offset : ℕ) (ss : List ComplexSample) (ps : List ℕ)
      → FailsWith Here (divide c link rms offset ss ps)
  unfolding divide Errors.frame_id Errors.sequence
  divide_fails rms offset [] ps = tt
  divide_fails rms offset (s ∷ ss) ps = ground (arith, divide_fails rms (suc offset) ss (drop 1 ps))

  pub normalize_link_fails :
      (epsilon : ℕ) (ss : List ComplexSample) (ps : List ℕ)
      → FailsWith Here (normalize_link epsilon c link ss ps)
  unfolding normalize_link Errors.frame_id Errors.sequence
  normalize_link_fails epsilon [] ps = (refl, refl)
  normalize_link_fails epsilon (s ∷ ss) ps =
      let summed = square_sum_fails 0 (s ∷ ss) f64_zero in
      elim (Outcome-cases (square_sum c link 0 (s ∷ ss) f64_zero)) [
        | inr other ↦ ground (arith, other, summed)
        | inl (sum, e) ↦
            let rms = o.of_f64 (d.sqrt (d.div sum (d.of_nat (length (s ∷ ss))))) in
            ground (arith, e, divide_fails rms 0 (s ∷ ss) ps)
      ]

  pub collect_fails :
      (offset : ℕ) (ss : List ComplexSample) (ps : List ℕ) (indices : List ℤ)
      → FailsWith Here (collect c link offset ss ps indices)
  unfolding collect Errors.frame_id Errors.sequence
  collect_fails offset [] ps indices = tt
  collect_fails offset (s ∷ ss) ps indices =
      ground (arith, collect_fails (suc offset) ss (drop 1 ps) (drop 1 indices))

  pub residuals_fails :
      (slope intercept offset : ℕ) (ss : List ComplexSample) (xs ys ms : List ℕ)
      → FailsWith Here (residuals c link slope intercept offset ss xs ys ms)
  unfolding residuals Errors.frame_id Errors.sequence
  residuals_fails slope intercept offset [] xs ys ms = tt
  residuals_fails slope intercept offset (s ∷ ss) xs ys ms =
      ground
        (arith, residuals_fails slope intercept (suc offset) ss (drop 1 xs) (drop 1 ys) (drop 1 ms))

  pub map_failure_fails :
      {A : Type 0} (f : Str → CalibrationError) (m : Outcome Str A)
      → ((e : Str) → Here (f e))
      → FailsWith Here (map_failure f m)
  map_failure_fails f (done a) h = tt
  map_failure_fails f (failed e) h = h e
  map_failure_fails f panicked h = tt

  pub fit_link_fails :
      (ss : List ComplexSample) (ps : List ℕ) (indices : List ℤ)
      → FailsWith Here (fit_link ss ps indices c link)
  unfolding fit_link Errors.frame_id Errors.sequence
  fit_link_fails ss ps indices = FailsWith-bind Here _ _ (collect_fails 0 ss ps indices) (λ values.
      FailsWith-bind Here _ _
        (map_failure_fails _ (fit_affine values.0 values.1) (λ message. (refl, refl)))
        (λ fit.
          FailsWith-bind Here _ _ (residuals_fails fit.0 fit.1 0 ss values.0 values.1 values.2)
            (λ left. tt)))

  pub detrend_link_fails :
      (ss : List ComplexSample) (ps : List ℕ) (indices : List ℤ)
      → FailsWith Here (detrend_link ss ps indices c link)
  unfolding detrend_link Errors.frame_id Errors.sequence
  detrend_link_fails ss ps indices = ground (arith, fit_link_fails ss ps indices)
