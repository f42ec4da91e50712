-- ===== src/Calibration/Profile.antt =====
-- core/calibration/src/profile.rs: the profiles and the configuration of the calibration.
pub mod Validity
use aeryon.Base.{
  ℕ, Bool, true, false, not, ◌||◌, List, [], ◌∷◌, length, map, ◌==◌, list_eq, if◌then◌else◌,
}
use aeryon.Base.Text.{Str, codes, is_blank}
use aeryon.Base.Outcomes.{Outcome, done, failed, ◌>>=◌, ◌>>◌, refuse}
use aeryon.Calibration.Report.{CalibrationStageId}
use aeryon.Calibration.Errors.{
  CalibrationError, invalid_profile, plain, duplicate_stage, unsupported_profile,
}
use aeryon.Calibration.Stage.{as_str}
use aeryon.Calibration.Normalize as Normalize

pub data StageConfig : Type 0 where
  phase_unwrap linear_phase_detrend : (enabled : Bool) → StageConfig
  rms_amplitude_normalize : (enabled : Bool) (epsilon : ℕ) → StageConfig

unfoldable pub stage_id : StageConfig → CalibrationStageId
stage_id (phase_unwrap e) = CalibrationStageId.phase_unwrap
stage_id (linear_phase_detrend e) = CalibrationStageId.linear_phase_detrend
stage_id (rms_amplitude_normalize e x) = CalibrationStageId.rms_amplitude_normalize

unfoldable pub is_enabled : StageConfig → Bool
is_enabled (phase_unwrap e) = e
is_enabled (linear_phase_detrend e) = e
is_enabled (rms_amplitude_normalize e x) = e

pub record CalibrationProfile : Type 0 where
  pub id : Str
  pub version : ℕ
  pub description : Str
  pub stages : List StageConfig

-- `==` on stage identities.
abbrev pub same_stage : CalibrationStageId → CalibrationStageId → Bool
same_stage CalibrationStageId.phase_unwrap CalibrationStageId.phase_unwrap = true
same_stage CalibrationStageId.linear_phase_detrend CalibrationStageId.linear_phase_detrend = true
same_stage CalibrationStageId.rms_amplitude_normalize CalibrationStageId.rms_amplitude_normalize =
    true
same_stage _ _ = false

-- `iter().filter(|stage| stage.enabled()).collect()`.
unfoldable pub enabled_stages : List StageConfig → List StageConfig
enabled_stages [] = []
enabled_stages (s ∷ ss) = if is_enabled s then s ∷ enabled_stages ss else enabled_stages ss

unfoldable pub contains : CalibrationStageId → List CalibrationStageId → Bool
contains id [] = false
contains id (s ∷ ss) = same_stage s id || contains id ss

-- What the loop of `validate` asks of the parameters of a stage.
unfoldable pub check_parameters : StageConfig → Outcome CalibrationError (Unit {0})
check_parameters (phase_unwrap e) = done tt
check_parameters (linear_phase_detrend e) = done tt
check_parameters (rms_amplitude_normalize e epsilon) = Normalize.try_new epsilon >>= λ _. done tt

-- The loop over the stages. `seen` has the latest identity first; only membership in it is tested.
unfoldable pub check_stages :
    (seen : List CalibrationStageId) → List StageConfig → Outcome CalibrationError (Unit {0})
check_stages seen [] = done tt
check_stages seen (s ∷ ss) = do
  refuse (contains (stage_id s) seen) (invalid_profile (duplicate_stage (stage_id s)))
  check_parameters s
  check_stages (stage_id s ∷ seen) ss

unfoldable pub validate : CalibrationProfile → Outcome CalibrationError (Unit {0})
validate p = do
  refuse (is_blank p.id) (invalid_profile (plain (codes "profile id must not be empty")))
  refuse (p.version == 0) (invalid_profile (plain (codes "profile version must be >= 1")))
  refuse (length (enabled_stages p.stages) == 0)
      (invalid_profile (plain (codes "enabled profile must contain at least one enabled stage")))
  check_stages [] p.stages

unfoldable pub enabled_stage_names : CalibrationProfile → List Str
enabled_stage_names p = map (λ s. as_str (stage_id s)) (enabled_stages p.stages)

pub data ConfiguredStage : Type 0 where
  phase_unwrap linear_phase_detrend : ConfiguredStage
  rms_amplitude_normalize : (epsilon : ℕ) → ConfiguredStage

unfoldable pub from_config : StageConfig → Outcome CalibrationError ConfiguredStage
from_config (StageConfig.phase_unwrap e) = done ConfiguredStage.phase_unwrap
from_config (StageConfig.linear_phase_detrend e) = done ConfiguredStage.linear_phase_detrend
from_config (StageConfig.rms_amplitude_normalize e epsilon) =
    Normalize.try_new epsilon >>= λ x. done (ConfiguredStage.rms_amplitude_normalize x)

-- The loop of `build_stages`.
unfoldable pub configure_stages : List StageConfig → Outcome CalibrationError (List ConfiguredStage)
configure_stages [] = done []
configure_stages (s ∷ ss) =
    let rest = configure_stages ss in
    if not (is_enabled s)
    then rest
    else from_config s >>= λ first. rest >>= λ others. done (first ∷ others)

unfoldable pub build_stages : CalibrationProfile → Outcome CalibrationError (List ConfiguredStage)
build_stages p = validate p >> configure_stages p.stages

pub record BaselineCsiV1Config : Type 0 where
  pub phase_unwrap_enabled : Bool
  pub linear_phase_detrend_enabled : Bool
  pub rms_amplitude_normalize_enabled : Bool
  pub epsilon : ℕ

abbrev pub baseline_csi_v1_id : Str
baseline_csi_v1_id = codes "baseline-csi-v1"

unfoldable pub baseline_csi_v1_with : BaselineCsiV1Config → CalibrationProfile
baseline_csi_v1_with c = record {
  id = baseline_csi_v1_id;
  version = 1;
  description =
      codes
        "Deterministic baseline CSI sanitization for development fixtures (spatial unwrap, affine phase detrend, RMS normalize). Not hardware calibration.";
  stages =
      StageConfig.phase_unwrap c.phase_unwrap_enabled
      ∷ StageConfig.linear_phase_detrend c.linear_phase_detrend_enabled
      ∷ StageConfig.rms_amplitude_normalize c.rms_amplitude_normalize_enabled c.epsilon
      ∷ [];
}

-- The defaults enable all stages; the epsilon is 1.0e-8.
abbrev pub default_baseline : BaselineCsiV1Config
default_baseline = record {
  phase_unwrap_enabled = true;
  linear_phase_detrend_enabled = true;
  rms_amplitude_normalize_enabled = true;
  epsilon = 0x322b_cc77;
}

unfoldable pub baseline_csi_v1 : CalibrationProfile
unfolding baseline_csi_v1_with
baseline_csi_v1 = baseline_csi_v1_with default_baseline

pub record CalibrationConfig : Type 0 where
  pub enabled : Bool
  pub profile : Str
  pub queue_capacity : ℕ
  pub baseline_csi_v1 : BaselineCsiV1Config

unfoldable pub resolve_profile : CalibrationConfig → Outcome CalibrationError CalibrationProfile
resolve_profile c =
    if list_eq c.profile baseline_csi_v1_id
    then validate (baseline_csi_v1_with c.baseline_csi_v1)
      >> done (baseline_csi_v1_with c.baseline_csi_v1)
    else failed (invalid_profile (unsupported_profile c.profile))

unfoldable pub validate_config : CalibrationConfig → Outcome CalibrationError (Unit {0})
validate_config c = do
  refuse (c.queue_capacity == 0)
      (invalid_profile (plain (codes "calibration.queue_capacity must be greater than zero")))
  if not c.enabled then done tt else resolve_profile c >>= validate
