-- ===== src/Calibration/Detrend.antt =====
-- core/calibration/src/stages/linear_phase_detrend.rs: an affine fit of the phases of each link is taken off.
pub mod Totality
use aeryon.Base.{
  ℕ, suc, ◌%◌, ◌+◌, ℤ, Bool, true, false, not, ◌||◌, Option, none, some, List, [], ◌∷◌, ◌++◌,
  length, get_elem?, drop, ltb, ◌==◌, is_finite32, is_finite64, f64_zero, u32_max, saturating_add32,
  Result, ok, err, if◌then◌else◌,
}
use aeryon.Base.Text.{Str, codes}
use aeryon.Base.Outcomes.{Outcome, done, failed, ◌>>=◌, ◌>>◌, refuse, or_panic}
use aeryon.Base.Floats.{F64, f64_le, f64_abs, f64_epsilon}
use aeryon.Base.Singles.{F32}
use aeryon.Csi.Frame.{ComplexSample, is_finite}
use aeryon.Calibration.Report.{
  AntennaLink, StageReport, CalibrationStageId, StageDiagnostics, CalibrationWarning,
  single_subcarrier_link_unchanged,
}
use aeryon.Calibration.Errors.{
  CalibrationError, malformed_frame, non_finite_sample, degenerate_regression, plain,
}
use aeryon.Calibration.Stage.{
  CalibrationContext, CalibrationBuffer, display_name, for_each_link_mut,
}

abbrev pub non_finite : CalibrationContext → AntennaLink → (offset : ℕ) → CalibrationError
non_finite c link offset =
    non_finite_sample c.frame_id c.sequence (some CalibrationStageId.linear_phase_detrend)
      (some offset) (some link)

pub record DetrendResult : Type 0 where
  pub slope : ℕ
  pub intercept : ℕ
  pub unchanged : Bool

-- What the closure of `apply` captures.
pub record Tally : Type 0 where
  pub links_processed : ℕ
  pub links_unchanged : ℕ
  pub abs_slope_sum : ℕ
  pub abs_intercept_sum : ℕ
  pub fitted : ℕ
  pub warnings : List CalibrationWarning

module _ ⦃d : F64⦄ where
  -- The sums of the regression over the paired values.
  unfoldable pub deviations : (mean_x mean_y : ℕ) → (xs ys : List ℕ) → (ss_xx ss_xy : ℕ) → ℕ × ℕ
  deviations mean_x mean_y (x ∷ xs) (y ∷ ys) ss_xx ss_xy =
      let dx = d.sub x mean_x in
      deviations mean_x mean_y xs ys (d.add ss_xx (d.mul dx dx))
        (d.add ss_xy (d.mul dx (d.sub y mean_y)))
  deviations mean_x mean_y _ _ ss_xx ss_xy = (ss_xx, ss_xy)

  unfoldable pub fit_affine : (xs ys : List ℕ) → Outcome Str (ℕ × ℕ)
  fit_affine xs ys = do
    refuse (not (length xs == length ys) || ltb (length xs) 2)
        (codes "need at least two samples for affine fit")
    let n_f = d.of_nat (length xs)
    let mean_x = d.div (d.sum xs) n_f
    let mean_y = d.div (d.sum ys) n_f
    let sums = deviations mean_x mean_y xs ys f64_zero f64_zero
    refuse (not (is_finite64 sums.0) || not (is_finite64 sums.1))
        (codes "non-finite sums during regression")
    refuse (f64_le sums.0 f64_epsilon) (codes "insufficient variation in subcarrier indices")
    let slope = d.div sums.1 sums.0
    let intercept = d.sub mean_y (d.mul slope mean_x)
    refuse (not (is_finite64 slope) || not (is_finite64 intercept))
        (codes "non-finite slope or intercept")
    done (slope, intercept)

abbrev pub map_failure :
    {A : Type 0} → (Str → CalibrationError) → Outcome Str A → Outcome CalibrationError A
map_failure f (Outcome.done a) = done a
map_failure f (Outcome.failed e) = failed (f e)
map_failure f Outcome.panicked = Outcome.panicked

module _ ⦃d : F64⦄ ⦃o : F32⦄ where
  -- The loop that collects `xs`, `ys` and `magnitudes`, from the sample at `offset` on.
  unfoldable pub collect :
      CalibrationContext
      → AntennaLink
      → (offset : ℕ) → List ComplexSample
      → (phases : List ℕ) → (indices : List ℤ) → Outcome CalibrationError (List ℕ × List ℕ × List ℕ)
  collect c link offset [] phases indices = done ([], [], [])
  collect c link offset (s ∷ ss) phases indices = do
    refuse (not (is_finite s)) (non_finite c link offset)
    let magnitude = o.norm s.re s.im
    phase ← or_panic (get_elem? phases 0)
    refuse (not (is_finite32 magnitude) || not (is_finite32 phase)) (non_finite c link offset)
    index ← or_panic (get_elem? indices 0)
    rest ← collect c link (suc offset) ss (drop 1 phases) (drop 1 indices)
    done (d.of_int index ∷ rest.0, d.of_f32 phase ∷ rest.1, magnitude ∷ rest.2)

  -- The loop that writes the residuals, over what is left of the samples and of the collected values.
  unfoldable pub residuals :
      CalibrationContext
      → AntennaLink
      → (slope intercept offset : ℕ) → List ComplexSample
      → (xs ys magnitudes : List ℕ) → Outcome CalibrationError (List ComplexSample × List ℕ)
  residuals c link slope intercept offset [] xs ys magnitudes = done ([], [])
  residuals c link slope intercept offset (s ∷ ss) xs ys magnitudes = do
    y ← or_panic (get_elem? ys 0)
    x ← or_panic (get_elem? xs 0)
    let residual = o.of_f64 (d.sub y (d.add (d.mul slope x) intercept))
    refuse (not (is_finite32 residual)) (non_finite c link offset)
    magnitude ← or_panic (get_elem? magnitudes 0)
    rest ←
        residuals c link slope intercept (suc offset) ss (drop 1 xs) (drop 1 ys) (drop 1 magnitudes)
    done (
      record { re = o.polar_re magnitude residual; im = o.polar_im magnitude residual } ∷ rest.0,
      residual ∷ rest.1,
    )

  -- From the loop that collects the values on.
  unfoldable pub fit_link :
      List ComplexSample
      → (phases : List ℕ) → (indices : List ℤ) → CalibrationContext
      → AntennaLink
      → Outcome CalibrationError (List ComplexSample × List ℕ × DetrendResult)
  fit_link samples phases indices c link = do
    values ← collect c link 0 samples phases indices
    fit ←
        map_failure
          (λ message.
            degenerate_regression c.frame_id c.sequence CalibrationStageId.linear_phase_detrend link
              (plain message))
          (fit_affine values.0 values.1)
    left ← residuals c link fit.0 fit.1 0 samples values.0 values.1 values.2
    done (left.0, left.1, record { slope = fit.0; intercept = fit.1; unchanged = false })

  unfoldable pub detrend_link :
      List ComplexSample
      → (phases : List ℕ) → (indices : List ℤ) → CalibrationContext
      → AntennaLink
      → Outcome CalibrationError (List ComplexSample × List ℕ × DetrendResult)
  detrend_link samples phases indices c link = do
    refuse (not (length samples == length indices) || not (length samples == length phases)) (
        malformed_frame (some c.frame_id) (some c.sequence)
          (plain (codes "subcarrier index count does not match link samples")))
    (if ltb (length samples) 2
        then done
            (samples, phases, record { slope = f64_zero; intercept = f64_zero; unchanged = true })
        else fit_link samples phases indices c link)

  -- What the closure adds to its tally.
  unfoldable pub tally_link : AntennaLink → DetrendResult → Tally → Tally
  tally_link link r t =
      let processed = saturating_add32 t.links_processed 1 in
      if r.unchanged
      then record t {
        links_processed = processed;
        links_unchanged = saturating_add32 t.links_unchanged 1;
        warnings =
            t.warnings
            ++ (single_subcarrier_link_unchanged CalibrationStageId.linear_phase_detrend link.rx
                  link.tx
                ∷ []);
      }
      else record t {
        links_processed = processed;
        abs_slope_sum = d.add t.abs_slope_sum (f64_abs r.slope);
        abs_intercept_sum = d.add t.abs_intercept_sum (f64_abs r.intercept);
        fitted = saturating_add32 t.fitted 1;
      }

  unfoldable pub detrend_update :
      List ℤ
      → CalibrationContext
      → AntennaLink
      → List ComplexSample
      → List ℕ
      → Tally
      → Outcome CalibrationError (List ComplexSample × List ℕ × Tally)
  detrend_update indices c link samples phases t = do
    left ← detrend_link samples phases indices c link
    done (left.0, left.1, tally_link link left.2 t)

  abbrev pub mean_of : (sum fitted : ℕ) → ℕ
  mean_of sum fitted = if fitted == 0 then f64_zero else d.div sum (d.of_nat fitted)

  unfoldable pub apply_detrend :
      (duration_ns : ℕ)
      → CalibrationContext
      → CalibrationBuffer
      → Outcome CalibrationError (CalibrationBuffer × StageReport)
  apply_detrend duration c buffer = do
    left ← for_each_link_mut (detrend_update buffer.subcarrier_indices c) buffer (record {
      links_processed = 0;
      links_unchanged = 0;
      abs_slope_sum = f64_zero;
      abs_intercept_sum = f64_zero;
      fitted = 0;
      warnings = [];
    })
    let t = left.1
    done (
      left.0,
      record {
        stage_id = CalibrationStageId.linear_phase_detrend;
        stage_name = display_name CalibrationStageId.linear_phase_detrend;
        order = 0;
        duration_ns = duration;
        success = true;
        warning_count = length t.warnings % (u32_max + 1);
        warnings = t.warnings;
        diagnostics =
            StageDiagnostics.linear_phase_detrend t.links_processed t.links_unchanged
              (mean_of t.abs_slope_sum t.fitted) (mean_of t.abs_intercept_sum t.fitted);
      },
    )
