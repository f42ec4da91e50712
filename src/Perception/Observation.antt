-- ===== src/Perception/Observation.antt =====
-- core/perception/src: the observation (observation.rs, evidence.rs) and how it is made from a feature
-- vector (channel_change.rs).
use aeryon.Base.{
  ℕ, ◌||◌, Option, none, some, List, [], ◌∷◌, length, Result, ok, err, ◌>>=◌, ◌>>◌, is_nan64,
  f64_lt, f64_zero, f64_one, u32_max, if◌then◌else◌, leb, ltb, ◌/◌, ◌*◌, ◌+◌, ◌-◌, ◌%◌, ◌^◌,
}
use Prim.Native.Nat.{min}
use aeryon.Base.Text.{Str, codes}
use aeryon.Base.Floats.{F64, f64_min, f64_max, f64_half, f64_epsilon}
use aeryon.Domain.Frame.{Timestamp}
use aeryon.Features.Ids.{
  FeatureId, as_str, motion_energy_rms, motion_energy_p95, timestamp_jitter, frame_count,
  link_count,
}
use aeryon.Features.Schema.{csi_channel_features_v1, index_of}
use aeryon.Features.Vector.{FeatureVector, value_at}
use aeryon.Perception.Profile.{
  PerceptionError, not_in_schema, not_in_vector, is_non_finite, non_finite, missing_features,
  ChannelChangeProfile, check_finite,
}

pub data ChannelChangeState : Type 0 where
  stable changing highly_changing indeterminate : ChannelChangeState

unfoldable pub state_name : ChannelChangeState → Str
state_name stable = codes "stable"
state_name changing = codes "changing"
state_name highly_changing = codes "highly_changing"
state_name indeterminate = codes "indeterminate"

-- A warning of the vector, or a reason for which the state is not determined.
pub data Warning : Type 0 where
  of_vector : Str → Warning
  jitter_exceeds : (jitter maximum : ℕ) → Warning
  extraction_warned : (count : ℕ) → Warning
  margin_below : (margin minimum : ℕ) → Warning

pub record FeatureEvidence : Type 0 where
  pub feature_id : FeatureId
  pub value : ℕ
  pub normalized_contribution : Option ℕ

pub record ObservationEvidence : Type 0 where
  pub features : List FeatureEvidence
  pub activity_score : ℕ
  pub stable_threshold : ℕ
  pub high_change_threshold : ℕ
  pub threshold_margin : ℕ
  pub data_quality_warnings : List Str

pub record ObservationUncertainty : Type 0 where
  pub threshold_margin : ℕ
  pub normalized_threshold_margin : ℕ
  pub timestamp_jitter : ℕ
  pub warning_count : ℕ
  pub supporting_frame_count : ℕ
  pub valid_antenna_links : ℕ
  pub reliability_score : ℕ
  pub reliability_provenance : Str

pub record ChannelChangeObservation : Type 0 where
  pub observation_id : ℕ
  pub sensor_id : ℕ
  pub feature_vector_id : ℕ
  pub window_id : ℕ
  pub first_sequence : ℕ
  pub last_sequence : ℕ
  pub first_capture_timestamp : Timestamp
  pub last_capture_timestamp : Timestamp
  pub state : ChannelChangeState
  pub activity_score : ℕ
  pub score_semantics : Str
  pub threshold_profile_id : Str
  pub threshold_profile_version : ℕ
  pub evidence : ObservationEvidence
  pub uncertainty : ObservationUncertainty
  pub feature_schema_id : Str
  pub feature_schema_version : ℕ
  pub feature_profile_id : Str
  pub feature_profile_version : ℕ
  pub dsp_profile_id : Str
  pub dsp_profile_version : ℕ
  pub dsp_backend_id : Str
  pub dsp_backend_version : Str
  pub created_at : Timestamp
  pub warnings : List Warning

-- `as u32` on a double: towards zero, and at the ends of the range where it lies beyond.
unfoldable pub as_u32 : ℕ → ℕ
as_u32 x =
    let exponent = x / 2 ^ 52 % 2 ^ 11 in
    if is_nan64 x || leb (2 ^ 63) x || ltb exponent 1023
    then 0
    else if leb 1055 exponent
    then u32_max
    else min u32_max ((2 ^ 52 + x % 2 ^ 52) * 2 ^ (exponent - 1023) / 2 ^ 52)

-- `value.clamp(0.0, 1.0)`: a NaN stays one.
unfoldable pub clamp01 : ℕ → ℕ
clamp01 x = if f64_lt x f64_zero then f64_zero else if f64_lt f64_one x then f64_one else x

module _ ⦃o : F64⦄ where
  unfoldable pub threshold_margin : (score low high : ℕ) → ℕ
  threshold_margin score low high =
      if f64_lt score low
      then o.sub low score
      else if f64_lt score high
      then f64_min (o.sub score low) (o.sub high score)
      else o.sub score high

  unfoldable pub normalize_margin : (margin : ℕ) → ChannelChangeProfile → ℕ
  normalize_margin margin p =
      clamp01
        (o.div margin (f64_max (o.sub p.high_change_threshold p.stable_threshold) f64_epsilon))

  -- The constants are 0.1, 0.25, 16.0, 4.0, 0.35, 0.45, 0.20 and 0.85.
  unfoldable pub heuristic_reliability :
      (margin : ℕ)
      → (warnings : List Warning) → (frames links jitter : ℕ) → ChannelChangeProfile
      → ℕ
  heuristic_reliability margin warnings frames links jitter p =
      let margin_term = normalize_margin margin p in
      let warning_penalty =
        f64_min (o.mul (o.of_nat (length warnings)) 0x3fb9_9999_9999_999a) f64_half in
      let jitter_penalty =
        if f64_lt f64_zero p.maximum_timestamp_jitter
        then o.mul (clamp01 (o.div jitter p.maximum_timestamp_jitter)) 0x3fd0_0000_0000_0000
        else f64_zero in
      let support = clamp01 (
        o.add (o.mul (f64_min (o.div frames 0x4030_0000_0000_0000) f64_one) f64_half)
          (o.mul (f64_min (o.div links 0x4010_0000_0000_0000) f64_one) f64_half)) in
      let gains =
        o.add (o.add 0x3fd6_6666_6666_6666 (o.mul 0x3fdc_cccc_cccc_cccd margin_term))
          (o.mul 0x3fc9_9999_9999_999a support) in
      f64_min (clamp01 (o.sub (o.sub gains warning_penalty) jitter_penalty)) 0x3feb_3333_3333_3333

  -- `0.5 * clamp01(value / scale)`.
  unfoldable pub contribution : (value scale : ℕ) → ℕ
  contribution value scale = o.mul f64_half (clamp01 (o.div value scale))

-- What `observe_channel_change` reads of the vector.
pub record Readings : Type 0 where
  pub rms : ℕ
  pub p95 : ℕ
  pub jitter : ℕ
  pub frames : ℕ
  pub links : ℕ

unfoldable pub lookup : FeatureVector → FeatureId → Result PerceptionError ℕ
lookup v id = elim (index_of csi_channel_features_v1 id) [
  | none ↦ err (missing_features (not_in_schema (as_str id)))
  | some index ↦ elim (value_at v index) [
    | none ↦ err (missing_features (not_in_vector (as_str id)))
    | some x ↦ ok x
  ]
]

-- From the lookups to the test that three of the values are finite.
unfoldable pub read_features : FeatureVector → Result PerceptionError Readings
read_features v = do
  rms ← lookup v motion_energy_rms
  p95 ← lookup v motion_energy_p95
  jitter ← lookup v timestamp_jitter
  frames ← lookup v frame_count
  links ← lookup v link_count
  check_finite (λ name. non_finite (is_non_finite name))
      ((codes "motion_energy_rms", rms)
        ∷ (codes "motion_energy_p95", p95)
        ∷ (codes "timestamp_jitter", jitter)
        ∷ [])
  ok (record { rms = rms; p95 = p95; jitter = jitter; frames = frames; links = links })
