-- ===== src/Calibration/Pipeline/Calibrated.antt =====
-- What the calibration pipeline returns for a valid frame.
use mathlib.Core.Path.{subst}
use aeryon.Base.{
  ℕ, suc, ◌*◌, ◌^◌, ◌≤◌, ◌≡◌, ℤ, refl, sym, ap, ◌∙◌, true, List, [], ◌∷◌, ◌++◌, map, length, All,
  inl, inr, u32_max, arith,
}
use aeryon.Base.Outcomes.{Returns, Outcome-cases}
use aeryon.Base.Floats.{F64}
use aeryon.Base.Singles.{F32, IsBetween, IsIeee}
use aeryon.Domain.Frame.{Timestamp}
use aeryon.Csi.Frame.{CsiFrame, ComplexSample, is_finite, expected_samples}
use aeryon.Calibration.Report.{CalibrationStageId, StageReport}
use aeryon.Calibration.Frame.{CalibratedCsiFrame}
use aeryon.Calibration.Stage.{CalibrationBuffer, context, initial_phases, from_frame}
use aeryon.Calibration.Profile.{
  CalibrationProfile, StageConfig, stage_id, is_enabled, enabled_stages, from_config,
  configure_stages, build_stages,
}
use aeryon.Calibration.Pipeline.{
  run_stages, skipped, check_samples, check_reports, validate_output, calibrate,
}
use aeryon.Calibration.Pipeline.Applied.{
  id_of, IsShaped, ReportsAll, warnings_of, UnwrapsFirst, Ran,
}
use aeryon.Calibration.Pipeline.Outputs.{run_stages_total}
use aeryon.Calibration.Normalize as Normalize
use aeryon.Calibration.Profile.Validity.{validate_total}

-- A calibrated frame with its report: the raw frame is kept, each of its samples has a finite
-- calibrated one, and the enabled stages have run in their order, each over all links.
pub record IsCalibrated (f : CsiFrame) (p : CalibrationProfile) (c : CalibratedCsiFrame)
    : Type 0 where
  pub raw : c.raw ≡ f
  pub profile : (c.profile_id ≡ p.id) × (c.profile_version ≡ p.version)
  pub count : length c.samples ≡ length f.samples
  pub finite : All (λ s. is_finite s ≡ true) c.samples
  pub stages :
      ReportsAll 0
        (f.receive_antennas * f.transmit_antennas)
        (map stage_id (enabled_stages p.stages))
        c.report.stages
  pub warnings : c.report.warnings ≡ skipped 0 p.stages ++ warnings_of c.report.stages

configure_stages_lem :
    (ss : List StageConfig)
    → Returns (λ cs. map id_of cs ≡ map stage_id (enabled_stages ss)) (configure_stages ss)
unfolding configure_stages enabled_stages from_config stage_id is_enabled Normalize.try_new
configure_stages_lem [] = refl
configure_stages_lem (s ∷ ss) = ground (arith, configure_stages_lem ss)

build_stages_lem :
    (p : CalibrationProfile)
    → Returns (λ cs. map id_of cs ≡ map stage_id (enabled_stages p.stages)) (build_stages p)
unfolding build_stages
build_stages_lem p = ground (arith, validate_total p, configure_stages_lem p.stages)

check_samples_lem :
    (raw : CsiFrame) (index : ℕ) (ss : List ComplexSample)
    → Returns (λ (t : Unit {0}). All (λ s. is_finite s ≡ true) ss) (check_samples raw index ss)
unfolding check_samples
check_samples_lem raw index [] = tt
check_samples_lem raw index (s ∷ ss) = ground (arith, check_samples_lem raw (suc index) ss)

check_reports_total :
    (raw : CsiFrame) (idx : ℕ) (rs : List StageReport)
    → Returns (λ (t : Unit {0}). Unit {0}) (check_reports raw idx rs)
unfolding check_reports
check_reports_total raw idx [] = tt
check_reports_total raw idx (r ∷ rs) = ground (arith, check_reports_total raw (suc idx) rs)

module _ ⦃o : F32⦄ (ieee : IsIeee) where
  initial_phases_lem :
      (f : CsiFrame) (index : ℕ) (ss : List ComplexSample)
      → Returns (λ ps. (length ps ≡ length ss) × All (IsBetween 4) ps) (initial_phases f index ss)
  unfolding initial_phases is_finite
  initial_phases_lem f index [] = (refl, tt)
  initial_phases_lem f index (s ∷ ss) =
      ground (arith, initial_phases_lem f (suc index) ss, ieee.arg_bounds s.re s.im)

  -- The buffer of a frame has its dimensions, and phases between -4 and 4.
  abbrev IsBufferOf : CsiFrame → CalibrationBuffer → Type 0
  IsBufferOf f b =
      (b.receive_antennas ≡ f.receive_antennas)
      × (b.transmit_antennas ≡ f.transmit_antennas)
      × (b.subcarrier_indices ≡ f.subcarrier_indices)
      × (length b.samples ≡ f.receive_antennas * f.transmit_antennas * length f.subcarrier_indices)
      × (length b.phases ≡ length b.samples)
      × All (IsBetween 4) b.phases

  from_frame_lem : (f : CsiFrame) → Returns (IsBufferOf f) (from_frame f)
  unfolding from_frame expected_samples
  from_frame_lem f = ground (arith, initial_phases_lem f 0 f.samples)

validate_output_lem :
    (raw : CsiFrame) (samples : List ComplexSample) (indices : List ℤ) (reports : List StageReport)
    (n : ℕ)
    → Returns
        (λ (t : Unit {0}).
          (length samples ≡ length raw.samples) × All (λ s. is_finite s ≡ true) samples)
        (validate_output raw samples indices reports n)
unfolding validate_output
validate_output_lem raw samples indices reports n =
    ground (arith, check_samples_lem raw 0 samples, check_reports_total raw 0 reports)

module _ ⦃d : F64⦄ ⦃o : F32⦄ (stage_duration : CalibrationStageId → ℕ) (ieee : IsIeee) where
  -- By the facts of IEEE 754, for a frame of at most 2^20 subcarriers, and 2^32 - 1 links, and a
  -- profile that unwraps first if it does: the calibration ends and does not panic; and a frame that it
  -- returns keeps the raw one, has a finite sample for each of its samples, and reports the enabled
  -- stages in their order, numbered, each successful and over all links, with a warning for each
  -- disabled stage before the warnings of the others.
  pub calibrate-IsCalibrated :
      (started_at completed_at : Timestamp) (duration_ns : ℕ) (p : CalibrationProfile)
      (f : CsiFrame)
      → f.receive_antennas * f.transmit_antennas ≤ u32_max
      → length f.subcarrier_indices ≤ 2 ^ 20
      → UnwrapsFirst (map stage_id (enabled_stages p.stages))
      → Returns
          (IsCalibrated f p)
          (calibrate stage_duration started_at completed_at duration_ns (record { profile = p }) f)
  unfolding calibrate
  calibrate-IsCalibrated started completed duration p f links few first =
      let loaded = from_frame_lem ieee f in
      elim (Outcome-cases (from_frame f)) [
        | inr x ↦ ground (arith, x, loaded)
        | inl (b, made) ↦
            let buffer : IsBufferOf ieee f b = subst (Returns (IsBufferOf ieee f)) made loaded in
            let (rx, tx, indices, samples, phases, inside) = buffer in
            let stages = build_stages_lem p in
            elim (Outcome-cases (build_stages p)) [
              | inr x ↦ ground (arith, made, x, stages)
              | inl (cs, chosen) ↦
                  let ids : map id_of cs ≡ map stage_id (enabled_stages p.stages) =
                    subst (Returns (λ cs. map id_of cs ≡ map stage_id (enabled_stages p.stages)))
                      chosen stages in
                  let shape : IsShaped b =
                    ground (arith, rx, tx, indices, samples, phases, links) in
                  let ran =
                    run_stages_total stage_duration ieee cs (context b) b
                      (subst UnwrapsFirst (sym ids) first) shape
                      (omega (arith, few, ap length indices)) inside in
                  elim (Outcome-cases (run_stages stage_duration 0 cs (context b) b)) [
                    | inr x ↦ ground (arith, made, chosen, x, ran)
                    | inl ((u, rs, ws), went) ↦
                        let (same, reports, warnings) : Ran 0 cs b (u, rs, ws) =
                          subst (Returns (Ran 0 cs b)) went ran in
                        let checked =
                          validate_output_lem f u.samples f.subcarrier_indices rs
                            (length (enabled_stages p.stages)) in
                        let reports' =
                          subst (λ l. ReportsAll 0 (b.receive_antennas * b.transmit_antennas) l rs)
                            ids reports in
                        elim (Outcome-cases (
                          validate_output f u.samples f.subcarrier_indices rs
                            (length (enabled_stages p.stages)))) [
                              | inr x ↦ ground (arith, made, chosen, went, x, checked)
                              | inl (done_, valid) ↦
                                  let (count, finite) : (length u.samples ≡ length f.samples)
                                      × All (λ s. is_finite s ≡ true) u.samples =
                                    ground (arith, valid, checked) in
                                  rw (made, chosen, went, valid)
                                    (record {
                                      raw = refl;
                                      profile = (refl, refl);
                                      count = count;
                                      finite = finite;
                                      stages =
                                          subst
                                            (λ n.
                                              ReportsAll 0 n
                                                (map stage_id (enabled_stages p.stages)) rs)
                                            (ap (λ m. m * b.transmit_antennas) rx
                                              ∙ ap (λ m. f.receive_antennas * m) tx)
                                            reports';
                                      warnings = ap (λ l. skipped 0 p.stages ++ l) warnings;
                                    })
                            ]
                  ]
            ]
      ]
