-- ===== src/Features/Vector.antt =====
-- core/features/src/vector.rs: the feature vector of a window.
pub mod Validity
use aeryon.Base.{
  ℕ, suc, ◌||◌, Option, none, some, List, [], ◌∷◌, length, get_elem?, Result, ok, ◌>>◌, refuse, not,
  ◌==◌, is_finite64,
}
use aeryon.Base.Text.{Str, codes, is_blank}
use aeryon.Domain.Frame.{Timestamp}
use aeryon.Calibration.Report.{AntennaLink}
use aeryon.Features.Ids.{FeatureId}
use aeryon.Features.Schema.{
  Message, FeatureError, plain, aggregate_length, aggregate_non_finite, link_length,
  link_non_finite, output_validation,
}

pub data FeatureVectorStatus : Type 0 where
  success failed : FeatureVectorStatus

unfoldable pub status_name : FeatureVectorStatus → Str
status_name success = codes "success"
status_name failed = codes "failed"

pub record LinkFeatureValues : Type 0 where
  pub link : AntennaLink
  pub values : List ℕ

pub record FeatureVector : Type 0 where
  pub feature_vector_id : ℕ
  pub sensor_id : ℕ
  pub window_id : ℕ
  pub first_sequence : ℕ
  pub last_sequence : ℕ
  pub first_capture_timestamp : Timestamp
  pub last_capture_timestamp : Timestamp
  pub feature_schema_id : Str
  pub feature_schema_version : ℕ
  pub feature_profile_id : Str
  pub feature_profile_version : ℕ
  pub dsp_profile_id : Str
  pub dsp_profile_version : ℕ
  pub dsp_backend_id : Str
  pub dsp_backend_version : Str
  pub dsp_backend_abi_version : Option ℕ
  pub calibration_profile_id : Str
  pub calibration_profile_version : ℕ
  pub values : List ℕ
  pub link_features : List LinkFeatureValues
  pub extracted_at : Timestamp
  pub processing_duration_ns : ℕ
  pub warnings : List Str
  pub status : FeatureVectorStatus

-- The loop over the values, with the message for an index.
unfoldable pub check_values : (ℕ → Message) → (index : ℕ) → List ℕ → Result FeatureError (Unit {0})
check_values at index [] = ok tt
check_values at index (x ∷ xs) =
    refuse (not (is_finite64 x)) (output_validation (at index)) >> check_values at (suc index) xs

unfoldable pub check_links :
    (expected_length : ℕ) → List LinkFeatureValues → Result FeatureError (Unit {0})
check_links expected_length [] = ok tt
check_links expected_length (l ∷ ls) = do
  refuse (not (length l.values == expected_length))
      (output_validation (link_length l.link (length l.values) expected_length))
  check_values (link_non_finite l.link) 0 l.values
  check_links expected_length ls

-- `FeatureVector::try_new` on the parts of the vector `v`, whose status it sets.
unfoldable pub try_new : FeatureVector → (expected_length : ℕ) → Result FeatureError FeatureVector
try_new v expected_length = do
  refuse (not (length v.values == expected_length))
      (output_validation (aggregate_length (length v.values) expected_length))
  check_values aggregate_non_finite 0 v.values
  check_links expected_length v.link_features
  refuse
      (is_blank v.feature_schema_id
        || is_blank v.feature_profile_id
        || is_blank v.dsp_profile_id
        || is_blank v.calibration_profile_id
        || is_blank v.dsp_backend_id)
      (output_validation (plain (codes "feature vector provenance fields must not be empty")))
  ok (record v { status = success })

unfoldable pub value_at : FeatureVector → ℕ → Option ℕ
value_at v index = get_elem? v.values index

unfoldable pub value_by_id : FeatureVector → FeatureId → (FeatureId → Option ℕ) → Option ℕ
value_by_id v id index_of = elim (index_of id) [ none ↦ none | some index ↦ value_at v index ]
