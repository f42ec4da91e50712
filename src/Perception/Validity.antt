-- ===== src/Perception/Validity.antt =====
-- What the profile of the observation has to satisfy.
use aeryon.Base.{
  ◌<◌, ◌≡◌, ◌↔◌, refl, ap, ◌∙◌, true, false, some, List, [], ◌∷◌, ok, arith, list_eq, list_eq→eq,
  list_eq_refl, is_finite64, f64_lt, f64_zero,
}
use aeryon.Base.Text.{is_blank}
use aeryon.Base.Floats.{f64_le}
use aeryon.Features.Ids.{FeatureId, discriminant, same_feature, all_features}
use aeryon.Features.Definitions.{definition_for}
use aeryon.Features.Schema.{
  csi_channel_features_v1, csi_channel_features_v1_id, definition, find_feature, schema_length,
}
use aeryon.Perception.Profile.{ChannelChangeProfile, check_defined, check_finite, validate}

-- The schema defines every feature.
definition-csi_channel_features_v1 :
    (f : FeatureId) → definition csi_channel_features_v1 f ≡ some (definition_for f)
unfolding definition find_feature csi_channel_features_v1 all_features same_feature discriminant
    definition_for
definition-csi_channel_features_v1 f = ground arith

check_defined_total : (fs : List FeatureId) → check_defined fs ≡ ok tt
unfolding check_defined
check_defined_total [] = refl
check_defined_total (f ∷ fs) =
    ground (arith, definition-csi_channel_features_v1 f, check_defined_total fs)

pub schema_length-csi_channel_features_v1 : schema_length csi_channel_features_v1 ≡ 25
unfolding schema_length csi_channel_features_v1 all_features
schema_length-csi_channel_features_v1 = refl

pub record IsChangeProfile (p : ChannelChangeProfile) : Type 0 where
  pub id : is_blank p.id ≡ false
  pub version : 0 < p.version
  pub schema_id : p.feature_schema_id ≡ csi_channel_features_v1_id
  pub schema_version : p.feature_schema_version ≡ 1
  pub rms_finite : is_finite64 p.motion_energy_rms_scale ≡ true
  pub p95_finite : is_finite64 p.motion_energy_p95_scale ≡ true
  pub stable_finite : is_finite64 p.stable_threshold ≡ true
  pub high_finite : is_finite64 p.high_change_threshold ≡ true
  pub margin_finite : is_finite64 p.minimum_margin ≡ true
  pub jitter_finite : is_finite64 p.maximum_timestamp_jitter ≡ true
  pub rms_positive : f64_le p.motion_energy_rms_scale f64_zero ≡ false
  pub p95_positive : f64_le p.motion_energy_p95_scale f64_zero ≡ false
  pub stable_sign : f64_lt p.stable_threshold f64_zero ≡ false
  pub high_sign : f64_lt p.high_change_threshold f64_zero ≡ false
  pub rises : f64_le p.high_change_threshold p.stable_threshold ≡ false
  pub margin_sign : f64_lt p.minimum_margin f64_zero ≡ false
  pub jitter_sign : f64_lt p.maximum_timestamp_jitter f64_zero ≡ false

-- `validate` accepts just the profiles that satisfy the conditions.
pub validate-IsChangeProfile_iff :
    (p : ChannelChangeProfile) → (validate p ≡ ok tt) ↔ IsChangeProfile p
unfolding validate check_finite
validate-IsChangeProfile_iff p =
    let same = list_eq→eq p.feature_schema_id csi_channel_features_v1_id in
    let back : p.feature_schema_id ≡ csi_channel_features_v1_id
        → list_eq p.feature_schema_id csi_channel_features_v1_id ≡ true =
      λ e.
        ap (λ s. list_eq s csi_channel_features_v1_id) e
        ∙ list_eq_refl csi_channel_features_v1_id in
    ground (arith, same, back, check_defined_total p.feature_ids)
