-- ===== src/Calibration/Pipeline/Applied.antt =====
-- What a stage, and a list of stages, leaves of the working buffer.
use Prim.Native.Nat.{min}
use aeryon.Base.{
  ℕ, suc, ◌*◌, ◌%◌, ◌^◌, ◌≤◌, ◌≡◌, refl, sym, ◌∙◌, true, List, [], ◌∷◌, ◌++◌, map, length,
  length-append, All, inl, inr, u32_max, f64_zero, arith,
}
use aeryon.Base.Outcomes.{Returns, Outcome-cases}
use aeryon.Base.Floats.{F64}
use aeryon.Base.Singles.{F32, IsBetween, IsIeee}
use aeryon.Calibration.Report.{
  CalibrationStageId, StageReport, StageDiagnostics, CalibrationWarning,
}
use aeryon.Calibration.Stage.{CalibrationContext, CalibrationBuffer, link_at, for_each_link_mut}
use aeryon.Calibration.Stage.Links.{SameShape, for_each_link_mut_keeps}
use aeryon.Calibration.Unwrap.{unwrap_update, apply_unwrap}
use aeryon.Calibration.Unwrap.Turns.{unwrap_link_total}
use aeryon.Calibration.Detrend.{detrend_update, tally_link, apply_detrend, Tally}
use aeryon.Calibration.Detrend.Totality.{detrend_link_total}
use aeryon.Calibration.Normalize.{normalize_link, normalize_update, apply_normalize}
use aeryon.Calibration.Normalize.Totality.{normalize_link_total}
use aeryon.Calibration.Profile.{ConfiguredStage}
use aeryon.Calibration.Pipeline.{apply}

-- The links that the diagnostics of a report count.
abbrev pub links_counted : StageDiagnostics → ℕ
links_counted StageDiagnostics.none = 0
links_counted (StageDiagnostics.phase_unwrap links wraps) = links
links_counted (StageDiagnostics.linear_phase_detrend links unchanged slope intercept) = links
links_counted (StageDiagnostics.rms_amplitude_normalize links rms) = links

abbrev pub id_of : ConfiguredStage → CalibrationStageId
id_of ConfiguredStage.phase_unwrap = CalibrationStageId.phase_unwrap
id_of ConfiguredStage.linear_phase_detrend = CalibrationStageId.linear_phase_detrend
id_of (ConfiguredStage.rms_amplitude_normalize epsilon) = CalibrationStageId.rms_amplitude_normalize

-- A report of a stage that has run over `n` links.
pub record Reports (s : CalibrationStageId) (n : ℕ) (r : StageReport) : Type 0 where
  pub stage : r.stage_id ≡ s
  pub success : r.success ≡ true
  pub links : links_counted r.diagnostics ≡ n

-- Each sample of the buffer has a phase.
pub record IsShaped (b : CalibrationBuffer) : Type 0 where
  pub samples :
      length b.samples ≡ b.receive_antennas * b.transmit_antennas * length b.subcarrier_indices
  pub phases :
      length b.phases ≡ b.receive_antennas * b.transmit_antennas * length b.subcarrier_indices
  pub few : b.receive_antennas * b.transmit_antennas ≤ u32_max

-- The reports of stages that have run over `n` links, numbered from `order` on.
abbrev pub ReportsAll : (order n : ℕ) → List CalibrationStageId → List StageReport → Type 0
ReportsAll order n [] [] = Unit
ReportsAll order n (s ∷ ss) (r ∷ rs) =
    Reports s n r × (r.order ≡ order % 2 ^ 16) × ReportsAll (suc order) n ss rs
ReportsAll order n _ _ = ⊥

abbrev pub warnings_of : List StageReport → List CalibrationWarning
warnings_of [] = []
warnings_of (r ∷ rs) = r.warnings ++ warnings_of rs

-- Any stage but the phase unwrapping.
abbrev pub IsOther : CalibrationStageId → Type 0
IsOther CalibrationStageId.phase_unwrap = ⊥
IsOther _ = Unit

-- The phase unwrapping comes first, if it comes.
abbrev pub UnwrapsFirst : List CalibrationStageId → Type 0
UnwrapsFirst [] = Unit
UnwrapsFirst (s ∷ ss) = All IsOther ss

abbrev pub IsAffine : ConfiguredStage → Type 0
IsAffine s = IsOther (id_of s)

abbrev pub Ran :
    (order : ℕ)
    → List ConfiguredStage
    → CalibrationBuffer
    → CalibrationBuffer × List StageReport × List CalibrationWarning
    → Type 0
Ran order ss b (u, rs, ws) =
    SameShape b u
    × ReportsAll order (b.receive_antennas * b.transmit_antennas) (map id_of ss) rs
    × (ws ≡ warnings_of rs)

module _ ⦃d : F64⦄ ⦃o : F32⦄ where
  abbrev pub Applied :
      ConfiguredStage → CalibrationBuffer → CalibrationBuffer × StageReport → Type 0
  Applied s b (c, r) =
      SameShape b c × Reports (id_of s) (b.receive_antennas * b.transmit_antennas) r

  everywhere : (xs : List ℕ) → All (λ (x : ℕ). Unit {0}) xs
  everywhere [] = tt
  everywhere (x ∷ xs) = (tt, everywhere xs)

  pub unwrap-Applied :
      (ieee : IsIeee) (duration : ℕ) (c : CalibrationContext) (b : CalibrationBuffer)
      → IsShaped b
      → length b.subcarrier_indices ≤ 2 ^ 20
      → All (IsBetween 4) b.phases
      → Returns (Applied ConfiguredStage.phase_unwrap b) (apply_unwrap duration c b)
  unfolding apply_unwrap unwrap_update
  unwrap-Applied ieee duration c b shape few all =
      let kept =
        for_each_link_mut_keeps (unwrap_update c) (IsBetween 4) (λ i t. t.0 ≡ min i u32_max) b
          (0, 0)
          (λ i xs ps t lx lp inside counted.
            let left =
              unwrap_link_total ieee c (link_at b.transmit_antennas i) xs ps
                (omega (arith, lx, few)) (lp ∙ sym lx) inside in
            ground (arith, left, lx, counted))
          shape.samples shape.phases all (omega arith) in
      elim (Outcome-cases (for_each_link_mut (unwrap_update c) b (0, 0))) [
        | inr x ↦ ground (arith, x, kept)
        | inl ((u, t), made) ↦
            let (same, counted) : SameShape b u
                × (t.0 ≡ min (b.receive_antennas * b.transmit_antennas) u32_max) =
              ground (arith, made, kept) in
            rw made (
              same,
              record { stage = refl; success = refl; links = omega (arith, counted, shape.few) },
            )
      ]

  detrend-Applied :
      (duration : ℕ) (c : CalibrationContext) (b : CalibrationBuffer)
      → IsShaped b
      → Returns (Applied ConfiguredStage.linear_phase_detrend b) (apply_detrend duration c b)
  unfolding apply_detrend detrend_update tally_link
  detrend-Applied duration c b shape =
      let none_yet : Tally = record {
        links_processed = 0;
        links_unchanged = 0;
        abs_slope_sum = f64_zero;
        abs_intercept_sum = f64_zero;
        fitted = 0;
        warnings = [];
      } in
      let kept =
        for_each_link_mut_keeps (detrend_update b.subcarrier_indices c) (λ _. Unit {0})
          (λ i (t : Tally). t.links_processed ≡ min i u32_max) b none_yet
          (λ i xs ps t lx lp inside counted.
            let left =
              detrend_link_total xs ps b.subcarrier_indices c (link_at b.transmit_antennas i) in
            ground (arith, left, lx, counted))
          shape.samples shape.phases (everywhere b.phases) (omega arith) in
      elim (Outcome-cases (for_each_link_mut (detrend_update b.subcarrier_indices c) b none_yet)) [
        | inr x ↦ ground (arith, x, kept)
        | inl ((u, t), made) ↦
            let (same, counted) : SameShape b u
                × (t.links_processed ≡ min (b.receive_antennas * b.transmit_antennas) u32_max) =
              ground (arith, made, kept) in
            rw made (
              same,
              record { stage = refl; success = refl; links = omega (arith, counted, shape.few) },
            )
      ]

  normalize-Applied :
      (epsilon duration : ℕ) (c : CalibrationContext) (b : CalibrationBuffer)
      → IsShaped b
      → Returns
          (Applied (ConfiguredStage.rms_amplitude_normalize epsilon) b)
          (apply_normalize epsilon duration c b)
  unfolding apply_normalize normalize_update
  normalize-Applied epsilon duration c b shape =
      let kept =
        for_each_link_mut_keeps (normalize_update epsilon c) (λ _. Unit {0})
          (λ i (rms : List ℕ). length rms ≡ i) b []
          (λ i xs ps t lx lp inside counted.
            let left =
              normalize_link_total epsilon c (link_at b.transmit_antennas i) xs ps (lp ∙ sym lx) in
            elim (Outcome-cases (normalize_link epsilon c (link_at b.transmit_antennas i) xs ps)) [
              | inr x ↦ ground (arith, x, left)
              | inl ((ys, qs, rms), made) ↦
                  ground (arith, made, left, lx, counted, length-append t (rms ∷ []))
            ])
          shape.samples shape.phases (everywhere b.phases) refl in
      elim (Outcome-cases (for_each_link_mut (normalize_update epsilon c) b [])) [
        | inr x ↦ ground (arith, x, kept)
        | inl ((u, t), made) ↦
            let (same, counted) : SameShape b u
                × (length t ≡ b.receive_antennas * b.transmit_antennas) =
              ground (arith, made, kept) in
            rw made (
              same,
              record { stage = refl; success = refl; links = omega (arith, counted, shape.few) },
            )
      ]

  module _ (stage_duration : CalibrationStageId → ℕ) where
    pub affine-Applied :
        (s : ConfiguredStage) (c : CalibrationContext) (b : CalibrationBuffer)
        → IsAffine s
        → IsShaped b
        → Returns (Applied s b) (apply stage_duration s c b)
    unfolding apply
    affine-Applied ConfiguredStage.phase_unwrap c b affine shape = absurd affine
    affine-Applied ConfiguredStage.linear_phase_detrend c b affine shape =
        detrend-Applied (stage_duration CalibrationStageId.linear_phase_detrend) c b shape
    affine-Applied (ConfiguredStage.rms_amplitude_normalize epsilon) c b affine shape =
        normalize-Applied epsilon (stage_duration CalibrationStageId.rms_amplitude_normalize) c b
          shape
