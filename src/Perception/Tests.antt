-- ===== src/Perception/Tests.antt =====
-- A feature vector with a value of one half for each feature, and its observation with the default profile.
use aeryon.Base.{
  ℕ, zero, suc, ◌≡◌, ◌↔◌, refl, none, some, true, arith, List, [], ◌∷◌, ok, list_eq, is_finite64,
  f64_lt, is_nan64,
}
use aeryon.Base.Text.{codes, is_blank, blank_after}
use aeryon.Base.Floats.{F64, f64_half, f64_le, all_finite64, all_finite64_iff}
use aeryon.Features.Ids.{
  all_features, discriminant, same_feature, as_str, parse, find_named, timestamp_jitter,
}
use aeryon.Features.Schema as Schema
use aeryon.Features.Definitions.{definition_for}
use aeryon.Features.Schema.{
  csi_channel_features_v1_id, csi_channel_features_v1, index_of, position_from, schema_length,
  check_features, contains,
}
use aeryon.Features.Vector.{FeatureVector, success, try_new}
use aeryon.Features.Vector.Validity.{IsFeatureVector, try_new-IsFeatureVector_iff}
use aeryon.Perception.Profile.{
  ChannelChangeProfile, channel_change_v1_id, validate_config, validate_enabled, resolve_profile,
  default_config, to_profile,
}
use aeryon.Perception.Observation.{Readings, changing, as_u32}
use aeryon.Perception.Judging.{state_of, observe_channel_change}
use aeryon.Perception.Validity.{IsChangeProfile, validate-IsChangeProfile_iff}
use aeryon.Perception.Reading.{IsVector, Reads}
use aeryon.Perception.Verdict.{Judges, observe-Judges}

-- Every operation rounds to one half.
instance abbrev halves : F64
halves = record {
  add = λ x y. f64_half;
  sub = λ x y. f64_half;
  mul = λ x y. f64_half;
  div = λ x y. f64_half;
  sqrt = λ x. f64_half;
  cos = λ x. f64_half;
  sum = λ xs. f64_half;
  of_nat = λ n. f64_half;
  of_f32 = λ x. f64_half;
  of_int = λ z. f64_half;
}

abbrev copies : ℕ → List ℕ
copies zero = []
copies (suc n) = f64_half ∷ copies n

-- Its timestamp jitter is beyond the maximum of the profile.
abbrev vector : FeatureVector
vector = record {
  feature_vector_id = 4;
  sensor_id = 7;
  window_id = 3;
  first_sequence = 0;
  last_sequence = 15;
  first_capture_timestamp = record { nanos = 0 };
  last_capture_timestamp = record { nanos = 100 };
  feature_schema_id = csi_channel_features_v1_id;
  feature_schema_version = 1;
  feature_profile_id = codes "baseline-features-v1";
  feature_profile_version = 1;
  dsp_profile_id = codes "baseline-dsp-v1";
  dsp_profile_version = 1;
  dsp_backend_id = codes "rust";
  dsp_backend_version = codes "1";
  dsp_backend_abi_version = none;
  calibration_profile_id = codes "baseline-csi-v1";
  calibration_profile_version = 1;
  values = copies 25;
  link_features = [];
  extracted_at = record { nanos = 120 };
  processing_duration_ns = 9;
  warnings = [];
  status = success;
}

abbrev profile : ChannelChangeProfile
profile = to_profile default_config

profile-IsChangeProfile : IsChangeProfile profile
unfolding to_profile is_blank blank_after is_finite64 f64_le f64_lt is_nan64
profile-IsChangeProfile = record {
  id = refl;
  version = omega arith;
  schema_id = refl;
  schema_version = refl;
  rms_finite = refl;
  p95_finite = refl;
  stable_finite = refl;
  high_finite = refl;
  margin_finite = refl;
  jitter_finite = refl;
  rms_positive = refl;
  p95_positive = refl;
  stable_sign = refl;
  high_sign = refl;
  rises = refl;
  margin_sign = refl;
  jitter_sign = refl;
}

vector-IsVector : IsVector vector profile
unfolding to_profile all_finite64 is_finite64 schema_length csi_channel_features_v1 all_features
vector-IsVector = record {
  schema_id = refl;
  schema_version = refl;
  covers = refl;
  finite = (all_finite64_iff (copies 25)).0 refl;
}

observe-Judges_example :
    (r : Readings) × Reads vector r
    × Judges vector profile r 8 (observe_channel_change 8 (record { nanos = 130 }) vector profile)
observe-Judges_example =
    observe-Judges 8 (record { nanos = 130 }) vector profile profile-IsChangeProfile vector-IsVector

try_new-IsFeatureVector_iff_example :
    (try_new vector 25 ≡ ok vector)
    ↔ (IsFeatureVector vector 25 × (record vector { status = success } ≡ vector))
try_new-IsFeatureVector_iff_example = try_new-IsFeatureVector_iff vector vector 25

between_thresholds : state_of [] profile f64_half ≡ changing
unfolding state_of to_profile f64_lt is_nan64 is_finite64
between_thresholds = refl

truncated : as_u32 0x4030_8000_0000_0000 ≡ 16
unfolding as_u32 is_nan64
truncated = refl

parsed : parse (codes "timestamp_jitter") ≡ some timestamp_jitter
unfolding parse find_named all_features as_str list_eq
parsed = refl

schema_accepted : Schema.validate csi_channel_features_v1 ≡ ok tt
unfolding Schema.validate check_features contains csi_channel_features_v1 all_features
    definition_for same_feature discriminant schema_length is_blank blank_after
schema_accepted = refl

default_accepted :
    validate_config (record {
      enabled = true;
      profile = channel_change_v1_id;
      queue_capacity = 64;
      channel_change_v1 = default_config;
    })
    ≡ ok tt
unfolding validate_config validate_enabled resolve_profile to_profile list_eq
default_accepted = ground (arith, (validate-IsChangeProfile_iff profile).1 profile-IsChangeProfile)
