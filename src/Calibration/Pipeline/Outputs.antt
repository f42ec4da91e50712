-- ===== src/Calibration/Pipeline/Outputs.antt =====
-- What the stages of the calibration pipeline leave, where the phase unwrapping comes first.
use mathlib.Core.Path.{subst}
use aeryon.Base.{
  ℕ, suc, ◌*◌, ◌^◌, ◌≤◌, ◌≡◌, refl, ap, ◌∙◌, List, [], ◌∷◌, ◌++◌, map, length, All, inl, inr, arith,
}
use aeryon.Base.Outcomes.{Returns, Outcome-cases}
use aeryon.Base.Floats.{F64}
use aeryon.Base.Singles.{F32, IsBetween, IsIeee}
use aeryon.Calibration.Report.{CalibrationStageId}
use aeryon.Calibration.Stage.{CalibrationContext, CalibrationBuffer}
use aeryon.Calibration.Stage.Links.{SameShape, SameShape-trans}
use aeryon.Calibration.Profile.{ConfiguredStage}
use aeryon.Calibration.Pipeline.{apply, run_stages}
use aeryon.Calibration.Pipeline.Applied.{
  id_of, IsShaped, ReportsAll, IsOther, UnwrapsFirst, Ran, Applied, unwrap-Applied, affine-Applied,
}

module _ ⦃d : F64⦄ ⦃o : F32⦄ (stage_duration : CalibrationStageId → ℕ) where
  SameShape-IsShaped : (b c : CalibrationBuffer) → SameShape b c → IsShaped b → IsShaped c
  SameShape-IsShaped b c same shape = ground (arith, same, shape)

  -- The rest of the stages after one that has been applied.
  Ran-first :
      (order : ℕ) (s : ConfiguredStage) (ss : List ConfiguredStage) (c : CalibrationContext)
      (b : CalibrationBuffer)
      → Returns (Applied s b) (apply stage_duration s c b)
      → ((u : CalibrationBuffer)
          → SameShape b u
          → Returns (Ran (suc order) ss u) (run_stages stage_duration (suc order) ss c u))
      → Returns (Ran order (s ∷ ss) b) (run_stages stage_duration order (s ∷ ss) c b)
  unfolding run_stages
  Ran-first order s ss c b first later = elim (Outcome-cases (apply stage_duration s c b)) [
    | inr x ↦ ground (arith, x, first)
    | inl ((u, r), made) ↦
        let (same, report) : Applied s b (u, r) = subst (Returns (Applied s b)) made first in
        let rest = later u same in
        let links : u.receive_antennas * u.transmit_antennas
            ≡ b.receive_antennas * b.transmit_antennas =
          ap (λ m. m * u.transmit_antennas) same.receives
          ∙ ap (λ m. b.receive_antennas * m) same.transmits in
        elim (Outcome-cases (run_stages stage_duration (suc order) ss c u)) [
          | inr x ↦ ground (arith, made, x, rest)
          | inl ((v, rs, ws), went) ↦
              let (same', reports, warnings) : Ran (suc order) ss u (v, rs, ws) =
                subst (Returns (Ran (suc order) ss u)) went rest in
              rw (made, went)
                (
                  SameShape-trans b u v same same',
                  (
                    record { stage = report.stage; success = report.success; links = report.links },
                    refl,
                    subst (λ n. ReportsAll (suc order) n (map id_of ss) rs) links reports,
                  ),
                  ap (λ l. r.warnings ++ l) warnings,
                )
        ]
  ]

  run_affine :
      (order : ℕ) (ss : List ConfiguredStage) (c : CalibrationContext) (b : CalibrationBuffer)
      → All IsOther (map id_of ss)
      → IsShaped b
      → Returns (Ran order ss b) (run_stages stage_duration order ss c b)
  unfolding run_stages
  run_affine order [] c b affine shape = (
    record { receives = refl; transmits = refl; indices = refl; samples = refl; phases = refl },
    tt,
    refl,
  )
  run_affine order (s ∷ ss) c b affine shape =
      Ran-first order s ss c b (affine-Applied stage_duration s c b affine.0 shape)
        (λ u same. run_affine (suc order) ss c u affine.1 (SameShape-IsShaped b u same shape))

  pub run_stages_total :
      (ieee : IsIeee) (ss : List ConfiguredStage) (c : CalibrationContext) (b : CalibrationBuffer)
      → UnwrapsFirst (map id_of ss)
      → IsShaped b
      → length b.subcarrier_indices ≤ 2 ^ 20
      → All (IsBetween 4) b.phases
      → Returns (Ran 0 ss b) (run_stages stage_duration 0 ss c b)
  unfolding apply
  run_stages_total ieee [] c b first shape few all = run_affine 0 [] c b first shape
  run_stages_total ieee (ConfiguredStage.phase_unwrap ∷ ss) c b first shape few all =
      Ran-first 0 ConfiguredStage.phase_unwrap ss c b
        (unwrap-Applied ieee (stage_duration CalibrationStageId.phase_unwrap) c b shape few all)
        (λ u same. run_affine 1 ss c u first (SameShape-IsShaped b u same shape))
  run_stages_total ieee (ConfiguredStage.linear_phase_detrend ∷ ss) c b first shape few all =
      run_affine 0 (ConfiguredStage.linear_phase_detrend ∷ ss) c b (tt, first) shape
  run_stages_total ieee (ConfiguredStage.rms_amplitude_normalize e ∷ ss) c b first shape few all =
      run_affine 0 (ConfiguredStage.rms_amplitude_normalize e ∷ ss) c b (tt, first) shape
