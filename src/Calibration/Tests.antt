-- ===== src/Calibration/Tests.antt =====
-- A run of the calibration on a small frame, over an arithmetic that rounds everything to one value.
use aeryon.Base.{
  ℕ, Option, eqℤ, length, ◌≡◌, ◌↔◌, refl, some, [], ◌∷◌, none, is_finite32, is_finite64, f64_lt,
  arith,
}
use aeryon.Base.Text.{is_blank, blank_after}
use aeryon.Base.Outcomes.{Outcome, done, failed, panicked, Returns}
use aeryon.Base.Floats.{f64_le}
use aeryon.Base.Singles.{f32_lt, f32_le, is_nan32}
use aeryon.Csi.Frame.{CsiFrame, is_finite, expected_samples}
use aeryon.Calibration.Profile.{
  build_stages, configure_stages, from_config, check_stages, check_parameters, contains,
  baseline_csi_v1_with, baseline_csi_v1, enabled_stages, is_enabled, stage_id, validate,
}
use aeryon.Calibration.Profile.Validity.{IsProfile, validate-IsProfile_iff}
use aeryon.Calibration.Report.{AntennaLink}
use aeryon.Calibration.Errors.{CalibrationError, non_finite_sample}
use aeryon.Calibration.Pipeline.Failing.{Concerns}
use aeryon.Calibration.Pipeline.Failures.{calibrate-Concerns}
use aeryon.Calibration.Frame.{CalibratedCsiFrame}
use aeryon.Calibration.Stage.{
  CalibrationContext, initial_phases, from_frame, slice, copy_from_slice, update_link, update_links,
  for_each_link_mut,
}
use aeryon.Calibration.Unwrap.{
  lower, raise, wrap_delta, sample_phase, sample_magnitude, unwrap_from, unwrap_link, unwrap_update,
  apply_unwrap,
}
use aeryon.Calibration.Unwrap.Turns.{HaveLength, unwrap_link_total}
use aeryon.Calibration.Detrend.{
  deviations, fit_affine, collect, residuals, fit_link, detrend_link, detrend_update, tally_link,
  apply_detrend,
}
use aeryon.Calibration.Normalize as Normalize
use aeryon.Calibration.Normalize.{
  square_sum, divide, normalize_link, normalize_update, apply_normalize,
}
use aeryon.Calibration.Pipeline.{
  calibrate, skipped, same_indices, check_samples, check_reports, validate_output, apply,
  run_stages,
}
use aeryon.Calibration.Pipeline.Calibrated.{IsCalibrated, calibrate-IsCalibrated}
use aeryon.Csi.Samples.{value, four_samples}
use aeryon.Calibration.Samples.{
  baseline-UnwrapsFirst, doubles, singles, zero-IsBetween, singles-IsIeee, at_noon,
}

-- A frame with a sample that is not finite.
abbrev not_finite : CsiFrame
not_finite = record four_samples { samples = value 1 ∷ value 0x7f80_0000 ∷ value 3 ∷ value 4 ∷ [] }

abbrev the_error : CalibrationError
the_error = non_finite_sample 1 1 none (some 1) none

not_finite_lem :
    calibrate (λ s. 5) at_noon at_noon 20 (record { profile = baseline_csi_v1 }) not_finite
    ≡ failed the_error
unfolding calibrate from_frame initial_phases expected_samples is_finite is_finite32
not_finite_lem = refl

calibrate-Concerns_example : Concerns 1 1 the_error
calibrate-Concerns_example =
    calibrate-Concerns (λ s. 5) at_noon at_noon 20 (record { profile = baseline_csi_v1 }) not_finite
      the_error not_finite_lem

calibrate-IsCalibrated_example :
    Returns
      (IsCalibrated four_samples baseline_csi_v1)
      (calibrate (λ s. 5) at_noon at_noon 20 (record { profile = baseline_csi_v1 }) four_samples)
calibrate-IsCalibrated_example =
    calibrate-IsCalibrated (λ s. 5) singles-IsIeee at_noon at_noon 20 baseline_csi_v1 four_samples
      (omega arith) (omega arith) baseline-UnwrapsFirst

validate-IsProfile_iff_example : (validate baseline_csi_v1 ≡ done tt) ↔ IsProfile baseline_csi_v1
validate-IsProfile_iff_example = validate-IsProfile_iff baseline_csi_v1

abbrev the_context : CalibrationContext
the_context = record { frame_id = 1; sensor_id = 7; sequence = 1 }

abbrev first_link : AntennaLink
first_link = record { rx = 0; tx = 0 }

unwrap_link_total_example :
    Returns
      (HaveLength singles-IsIeee 2)
      (unwrap_link the_context first_link (value 1 ∷ value 2 ∷ []) (0 ∷ 0 ∷ []))
unwrap_link_total_example =
    unwrap_link_total singles-IsIeee the_context first_link (value 1 ∷ value 2 ∷ []) (0 ∷ 0 ∷ [])
      (omega arith) refl (zero-IsBetween 4, (zero-IsBetween 4, tt))

abbrev reports_of : Outcome CalibrationError CalibratedCsiFrame → Option ℕ
reports_of (done c) = some (length c.report.stages)
reports_of (failed e) = none
reports_of panicked = none

-- The calibration of the frame returns one, on which all three stages have reported.
three_stages :
    reports_of
      (calibrate (λ s. 5) at_noon at_noon 20 (record { profile = baseline_csi_v1 }) four_samples)
    ≡ some 3
unfolding calibrate from_frame initial_phases expected_samples is_finite is_finite32 is_finite64
    build_stages configure_stages from_config validate check_stages check_parameters contains
    stage_id is_enabled enabled_stages baseline_csi_v1 baseline_csi_v1_with is_blank blank_after
    Normalize.try_new f32_le f32_lt is_nan32 f64_lt run_stages apply apply_unwrap unwrap_update
    unwrap_link unwrap_from wrap_delta lower raise sample_phase sample_magnitude for_each_link_mut
    update_links update_link slice copy_from_slice apply_detrend detrend_update detrend_link
    fit_link collect fit_affine deviations residuals tally_link apply_normalize normalize_update
    normalize_link square_sum divide validate_output check_samples check_reports same_indices
    skipped f64_le eqℤ
three_stages = refl
