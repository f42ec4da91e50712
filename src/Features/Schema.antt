-- ===== src/Features/Schema.antt =====
-- core/features/src/schema.rs: the schema of a feature vector; errors.rs: the errors of the features
-- that the schema and the vector make.
use aeryon.Base.{
  ℕ, suc, Bool, false, ◌||◌, Option, none, some, List, [], ◌∷◌, length, map, Result, ok, ◌>>◌,
  refuse, not, ◌==◌, list_eq, if◌then◌else◌,
}
use aeryon.Base.Text.{Str, codes, is_blank}
use aeryon.Calibration.Report.{AntennaLink}
use aeryon.Features.Ids.{FeatureId, as_str, same_feature, all_features}
use aeryon.Features.Definitions.{FeatureDefinition, definition_for}

-- The messages, with the values that they print.
pub data Message : Type 0 where
  plain : Str → Message
  duplicate_feature : Str → Message
  other_schema : (expected_id : Str) (expected_version : ℕ) (id : Str) (version : ℕ) → Message
  aggregate_length : (found expected : ℕ) → Message
  aggregate_non_finite : (index : ℕ) → Message
  link_length : (link : AntennaLink) (found expected : ℕ) → Message
  link_non_finite : (link : AntennaLink) (index : ℕ) → Message

-- A context is the suffix that a message ends with.
pub data FeatureError : Type 0 where
  incompatible_dsp_profile mismatched_link_data invalid_profile : Message → FeatureError
  missing_motion_energy missing_spectrum empty_signal zero_total_power :
      (context : Str) → FeatureError
  non_finite_input invalid_power : (context : Str) → Message → FeatureError
  schema_mismatch output_validation service_failure : Message → FeatureError

pub record FeatureSchema : Type 0 where
  pub id : Str
  pub version : ℕ
  pub description : Str
  pub features : List FeatureDefinition

abbrev pub csi_channel_features_v1_id : Str
csi_channel_features_v1_id = codes "csi-channel-features-v1"

unfoldable pub schema_length : FeatureSchema → ℕ
schema_length s = length s.features

unfoldable pub ordered_names : FeatureSchema → List Str
ordered_names s = map (λ f. as_str f.id) s.features

-- `iter().find` and `iter().position`.
unfoldable pub find_feature : FeatureId → List FeatureDefinition → Option FeatureDefinition
find_feature id [] = none
find_feature id (f ∷ fs) = if same_feature f.id id then some f else find_feature id fs

unfoldable pub position_from : (index : ℕ) → FeatureId → List FeatureDefinition → Option ℕ
position_from index id [] = none
position_from index id (f ∷ fs) =
    if same_feature f.id id then some index else position_from (suc index) id fs

unfoldable pub definition : FeatureSchema → FeatureId → Option FeatureDefinition
definition s id = find_feature id s.features

unfoldable pub index_of : FeatureSchema → FeatureId → Option ℕ
index_of s id = position_from 0 id s.features

unfoldable pub contains : FeatureId → List FeatureId → Bool
contains id [] = false
contains id (f ∷ fs) = same_feature f id || contains id fs

-- The loop of `validate`. `seen` has the latest identity first; only membership in it is tested.
unfoldable pub check_features :
    (seen : List FeatureId) → List FeatureDefinition → Result FeatureError (Unit {0})
check_features seen [] = ok tt
check_features seen (f ∷ fs) =
    refuse (contains f.id seen) (schema_mismatch (duplicate_feature (as_str f.id)))
    >> check_features (f.id ∷ seen) fs

unfoldable pub validate : FeatureSchema → Result FeatureError (Unit {0})
validate s = do
  refuse (is_blank s.id) (schema_mismatch (plain (codes "feature schema id must not be empty")))
  refuse (s.version == 0) (schema_mismatch (plain (codes "feature schema version must be >= 1")))
  refuse (schema_length s == 0)
      (schema_mismatch (plain (codes "feature schema must define at least one feature")))
  check_features [] s.features

unfoldable pub assert_compatible : FeatureSchema → Str → ℕ → Result FeatureError (Unit {0})
assert_compatible s id version =
    refuse (not (list_eq s.id id) || not (s.version == version))
      (schema_mismatch (other_schema s.id s.version id version))

unfoldable pub csi_channel_features_v1 : FeatureSchema
csi_channel_features_v1 = record {
  id = csi_channel_features_v1_id;
  version = 1;
  description =
      codes
        "Deterministic CSI channel-change descriptors derived from DSP motion-energy and non-DC spectra. Not human presence, occupancy, or activity labels.";
  features = map definition_for all_features;
}
