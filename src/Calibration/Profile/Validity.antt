-- ===== src/Calibration/Profile/Validity.antt =====
-- What the validation of a calibration profile, and of the configuration, accepts.
use aeryon.Base.{
  ◌<◌, ◌≡◌, refl, ap, ◌∙◌, true, false, ◌||◌, List, [], ◌∷◌, length, map, All, ◌↔◌, is_finite32,
  list_eq, list_eq→eq, list_eq_refl, arith,
}
use aeryon.Base.Text.{is_blank, blank_after}
use aeryon.Base.Outcomes.{done, Returns}
use aeryon.Base.Singles.{f32_le}
use aeryon.Calibration.Report.{CalibrationStageId}
use aeryon.Calibration.Normalize as Normalize
use aeryon.Calibration.Profile.{
  StageConfig, CalibrationProfile, CalibrationConfig, BaselineCsiV1Config, stage_id, is_enabled,
  enabled_stages, same_stage, contains, check_parameters, check_stages, validate,
  baseline_csi_v1_id, baseline_csi_v1_with, resolve_profile, validate_config,
}

-- The identities are pairwise different.
abbrev pub Distinct : List CalibrationStageId → Type 0
Distinct [] = Unit
Distinct (x ∷ xs) = All (λ y. same_stage x y ≡ false) xs × Distinct xs

-- An epsilon is positive and finite, also where its stage is disabled.
abbrev pub HasParameters : StageConfig → Type 0
HasParameters (StageConfig.phase_unwrap e) = Unit
HasParameters (StageConfig.linear_phase_detrend e) = Unit
HasParameters (StageConfig.rms_amplitude_normalize e epsilon) =
    (is_finite32 epsilon ≡ true) × (f32_le epsilon 0 ≡ false)

-- No identity of the second list stands in the first.
abbrev Apart : List CalibrationStageId → List CalibrationStageId → Type 0
Apart seen [] = Unit
Apart seen (x ∷ xs) = (contains x seen ≡ false) × Apart seen xs

Apart-cons :
    (x : CalibrationStageId) (seen xs : List CalibrationStageId)
    → Apart (x ∷ seen) xs ↔ (All (λ y. same_stage x y ≡ false) xs × Apart seen xs)
unfolding contains
Apart-cons x seen [] = (λ _. (tt, tt), λ _. tt)
Apart-cons x seen (y ∷ ys) = ground (arith, Apart-cons x seen ys)

check_parameters_iff : (s : StageConfig) → (check_parameters s ≡ done tt) ↔ HasParameters s
unfolding check_parameters Normalize.try_new
check_parameters_iff s = ground arith

check_stages_iff :
    (seen : List CalibrationStageId) (ss : List StageConfig)
    → (check_stages seen ss ≡ done tt)
      ↔ (Apart seen (map stage_id ss) × Distinct (map stage_id ss) × All HasParameters ss)
unfolding check_stages
check_stages_iff seen [] = (λ _. (tt, tt, tt), λ _. refl)
check_stages_iff seen (s ∷ ss) = ground (
  arith,
  check_parameters_iff s,
  check_stages_iff (stage_id s ∷ seen) ss,
  Apart-cons (stage_id s) seen (map stage_id ss),
)

pub record IsProfile (p : CalibrationProfile) : Type 0 where
  pub id : is_blank p.id ≡ false
  pub version : 0 < p.version
  pub enabled : 0 < length (enabled_stages p.stages)
  pub distinct : Distinct (map stage_id p.stages)
  pub parameters : All HasParameters p.stages

Apart-nil : (xs : List CalibrationStageId) → Apart [] xs
unfolding contains
Apart-nil [] = tt
Apart-nil (x ∷ xs) = (refl, Apart-nil xs)

-- `validate` accepts just the profiles with an identity that is not blank, a version from 1 on, an
-- enabled stage, no stage twice, and a positive finite epsilon, also where its stage is disabled.
pub validate-IsProfile_iff : (p : CalibrationProfile) → (validate p ≡ done tt) ↔ IsProfile p
unfolding validate
validate-IsProfile_iff p =
    ground (arith, check_stages_iff [] p.stages, Apart-nil (map stage_id p.stages))

check_stages_total :
    (seen : List CalibrationStageId) (ss : List StageConfig)
    → Returns (λ (t : Unit {0}). Unit {0}) (check_stages seen ss)
unfolding check_stages check_parameters Normalize.try_new
check_stages_total seen [] = tt
check_stages_total seen (s ∷ ss) = ground (arith, check_stages_total (stage_id s ∷ seen) ss)

pub validate_total : (p : CalibrationProfile) → Returns (λ (t : Unit {0}). Unit {0}) (validate p)
unfolding validate
validate_total p = ground (arith, check_stages_total [] p.stages)

pub record IsConfig (c : CalibrationConfig) : Type 0 where
  pub queue : 0 < c.queue_capacity
  pub active :
      c.enabled ≡ true
      → (c.profile ≡ baseline_csi_v1_id)
        × ((c.baseline_csi_v1.phase_unwrap_enabled || c.baseline_csi_v1.linear_phase_detrend_enabled
              || c.baseline_csi_v1.rms_amplitude_normalize_enabled)
            ≡ true)
        × (is_finite32 c.baseline_csi_v1.epsilon ≡ true)
        × (f32_le c.baseline_csi_v1.epsilon 0 ≡ false)

baseline_not_blank : is_blank baseline_csi_v1_id ≡ false
unfolding is_blank blank_after
baseline_not_blank = refl

baseline_profile_iff :
    (b : BaselineCsiV1Config)
    → (validate (baseline_csi_v1_with b) ≡ done tt) ↔ (
        ((b.phase_unwrap_enabled || b.linear_phase_detrend_enabled
            || b.rms_amplitude_normalize_enabled)
          ≡ true)
        × (is_finite32 b.epsilon ≡ true)
        × (f32_le b.epsilon 0 ≡ false))
unfolding validate baseline_csi_v1_with check_stages check_parameters contains stage_id
    enabled_stages is_enabled Normalize.try_new
baseline_profile_iff b = ground (arith, baseline_not_blank)

-- The configuration is accepted just if the queue has room and, where the calibration is enabled, the
-- profile is the baseline with a stage enabled and a positive finite epsilon.
pub validate_config_iff : (c : CalibrationConfig) → (validate_config c ≡ done tt) ↔ IsConfig c
unfolding validate_config resolve_profile
validate_config_iff c =
    let same = list_eq→eq c.profile baseline_csi_v1_id in
    let back : c.profile ≡ baseline_csi_v1_id → list_eq c.profile baseline_csi_v1_id ≡ true =
      λ e. ap (λ s. list_eq s baseline_csi_v1_id) e ∙ list_eq_refl baseline_csi_v1_id in
    ground (arith, same, back, baseline_profile_iff c.baseline_csi_v1)
