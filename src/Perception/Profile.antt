-- ===== src/Perception/Profile.antt =====
-- core/perception/src/profile.rs: the profile and the configuration of the observation; errors.rs.
use aeryon.Base.{
  ℕ, Bool, not, ◌||◌, none, some, List, [], ◌∷◌, ◌++◌, Result, ok, err, ◌>>=◌, ◌>>◌, refuse, ◌==◌,
  list_eq, is_finite64, f64_lt, f64_zero, if◌then◌else◌,
}
use aeryon.Base.Text.{Str, codes, is_blank}
use aeryon.Base.Floats.{f64_le}
use aeryon.Features.Ids.{FeatureId, as_str, motion_energy_rms, motion_energy_p95}
use aeryon.Features.Schema.{csi_channel_features_v1_id, csi_channel_features_v1, definition}

-- The messages, with the values that they print.
pub data Message : Type 0 where
  plain : Str → Message
  unsupported_schema : (id : Str) (version : ℕ) → Message
  other_schema : (vector_id : Str) (vector_version : ℕ) (id : Str) (version : ℕ) → Message
  not_in_schema not_in_vector must_be_finite is_non_finite : (name : Str) → Message
  unsupported_profile unknown_profile : (profile : Str) → Message

pub data PerceptionError : Type 0 where
  incompatible_feature_schema missing_features invalid_profile : Message → PerceptionError
  non_finite output_validation service_failure : Message → PerceptionError

abbrev pub channel_change_v1_id : Str
channel_change_v1_id = codes "channel-change-v1"

pub record ChannelChangeProfile : Type 0 where
  pub id : Str
  pub version : ℕ
  pub feature_schema_id : Str
  pub feature_schema_version : ℕ
  pub feature_ids : List FeatureId
  pub motion_energy_rms_scale : ℕ
  pub motion_energy_p95_scale : ℕ
  pub stable_threshold : ℕ
  pub high_change_threshold : ℕ
  pub minimum_margin : ℕ
  pub maximum_timestamp_jitter : ℕ
  pub description : Str

-- The loop of `validate` over the features.
unfoldable pub check_defined : List FeatureId → Result PerceptionError (Unit {0})
check_defined [] = ok tt
check_defined (f ∷ fs) = elim (definition csi_channel_features_v1 f) [
  | none ↦ err (missing_features (not_in_schema (as_str f)))
  | some d ↦ check_defined fs
]

-- The loops over named values that refuse the first one that is not finite.
unfoldable pub check_finite :
    (Str → PerceptionError) → List (Str × ℕ) → Result PerceptionError (Unit {0})
check_finite e [] = ok tt
check_finite e ((name, value) ∷ rest) =
    refuse (not (is_finite64 value)) (e name) >> check_finite e rest

abbrev pub profile_error : Str → PerceptionError
profile_error s = invalid_profile (plain s)

abbrev pub named_values : ChannelChangeProfile → List (Str × ℕ)
named_values p =
    (codes "motion_energy_rms_scale", p.motion_energy_rms_scale)
    ∷ (codes "motion_energy_p95_scale", p.motion_energy_p95_scale)
    ∷ (codes "stable_threshold", p.stable_threshold)
    ∷ (codes "high_change_threshold", p.high_change_threshold)
    ∷ (codes "minimum_margin", p.minimum_margin)
    ∷ (codes "maximum_timestamp_jitter", p.maximum_timestamp_jitter)
    ∷ []

-- `ChannelChangeProfile::validate`.
unfoldable pub validate : ChannelChangeProfile → Result PerceptionError (Unit {0})
validate p = do
  refuse (is_blank p.id) (profile_error (codes "observation profile id must not be empty"))
  refuse (p.version == 0) (profile_error (codes "observation profile version must be >= 1"))
  refuse
      (not (list_eq p.feature_schema_id csi_channel_features_v1_id)
        || not (p.feature_schema_version == 1))
      (incompatible_feature_schema
        (unsupported_schema p.feature_schema_id p.feature_schema_version))
  check_defined p.feature_ids
  check_finite (λ name. invalid_profile (must_be_finite name)) (named_values p)
  refuse (f64_le p.motion_energy_rms_scale f64_zero || f64_le p.motion_energy_p95_scale f64_zero)
      (profile_error (codes "normalization scales must be positive"))
  refuse (f64_lt p.stable_threshold f64_zero || f64_lt p.high_change_threshold f64_zero)
      (profile_error (codes "thresholds must be non-negative"))
  refuse (f64_le p.high_change_threshold p.stable_threshold)
      (profile_error (codes "stable_threshold must be strictly less than high_change_threshold"))
  refuse (f64_lt p.minimum_margin f64_zero)
      (profile_error (codes "minimum_margin must be non-negative"))
  refuse (f64_lt p.maximum_timestamp_jitter f64_zero)
      (profile_error (codes "maximum_timestamp_jitter must be non-negative"))

pub record ChannelChangeV1Config : Type 0 where
  pub motion_energy_rms_scale : ℕ
  pub motion_energy_p95_scale : ℕ
  pub stable_threshold : ℕ
  pub high_change_threshold : ℕ
  pub minimum_margin : ℕ
  pub maximum_timestamp_jitter : ℕ

-- 0.35, 0.55, 0.22, 0.55, 0.0 and 0.10.
abbrev pub default_config : ChannelChangeV1Config
default_config = record {
  motion_energy_rms_scale = 0x3fd6_6666_6666_6666;
  motion_energy_p95_scale = 0x3fe1_9999_9999_999a;
  stable_threshold = 0x3fcc_28f5_c28f_5c29;
  high_change_threshold = 0x3fe1_9999_9999_999a;
  minimum_margin = 0;
  maximum_timestamp_jitter = 0x3fb9_9999_9999_999a;
}

unfoldable pub to_profile : ChannelChangeV1Config → ChannelChangeProfile
to_profile c = record {
  id = channel_change_v1_id;
  version = 1;
  feature_schema_id = csi_channel_features_v1_id;
  feature_schema_version = 1;
  feature_ids = motion_energy_rms ∷ motion_energy_p95 ∷ [];
  motion_energy_rms_scale = c.motion_energy_rms_scale;
  motion_energy_p95_scale = c.motion_energy_p95_scale;
  stable_threshold = c.stable_threshold;
  high_change_threshold = c.high_change_threshold;
  minimum_margin = c.minimum_margin;
  maximum_timestamp_jitter = c.maximum_timestamp_jitter;
  description =
      codes
        "Heuristic WiFi channel-change intensity from motion-energy RMS and p95. Development baseline thresholds"
      ++ (32 ∷ 226 ∷ 128 ∷ 148 ∷ 32 ∷ [])
      ++ codes "not a learned model, not a probability, and not human-presence detection.";
}

pub record PerceptionConfig : Type 0 where
  pub enabled : Bool
  pub profile : Str
  pub queue_capacity : ℕ
  pub channel_change_v1 : ChannelChangeV1Config

unfoldable pub resolve_profile : PerceptionConfig → Result PerceptionError ChannelChangeProfile
resolve_profile c = do
  refuse (not (list_eq c.profile channel_change_v1_id))
      (invalid_profile (unknown_profile c.profile))
  validate (to_profile c.channel_change_v1)
  ok (to_profile c.channel_change_v1)

-- From the test of `enabled` on.
unfoldable pub validate_enabled : PerceptionConfig → Result PerceptionError (Unit {0})
validate_enabled c = do
  refuse (not (list_eq c.profile channel_change_v1_id))
      (invalid_profile (unsupported_profile c.profile))
  refuse (c.queue_capacity == 0)
      (profile_error (codes "perception.queue_capacity must be greater than zero"))
  profile ← resolve_profile c
  validate profile

unfoldable pub validate_config : PerceptionConfig → Result PerceptionError (Unit {0})
validate_config c = if not c.enabled then ok tt else validate_enabled c
