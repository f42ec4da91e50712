-- ===== src/Perception/Judging.antt =====
-- core/perception/src/channel_change.rs: `observe_channel_change`.
use aeryon.Base.{
  ℕ, Bool, not, ◌&&◌, ◌||◌, some, List, [], ◌∷◌, ◌++◌, map, length, ◌%◌, ◌^◌, Result, ok, err,
  ◌>>=◌, ◌>>◌, refuse, ◌==◌, list_eq, is_finite64, f64_lt, f64_zero, f64_one, fetch_add,
  if◌then◌else◌,
}
use aeryon.Base.Text.{Str, codes}
use aeryon.Base.Floats.{F64, f64_le, f64_max}
use aeryon.Domain.Frame.{Timestamp}
use aeryon.Features.Ids.{motion_energy_rms, motion_energy_p95}
use aeryon.Features.Vector.{FeatureVector}
use aeryon.Perception.Profile.{
  PerceptionError, plain, other_schema, non_finite, incompatible_feature_schema, output_validation,
  ChannelChangeProfile, validate,
}
use aeryon.Perception.Observation.{
  ChannelChangeState, stable, changing, highly_changing, indeterminate, Warning, of_vector,
  jitter_exceeds, extraction_warned, margin_below, ObservationEvidence, ObservationUncertainty,
  ChannelChangeObservation, as_u32, threshold_margin, normalize_margin, heuristic_reliability,
  contribution, Readings, read_features,
}

abbrev pub reliability_provenance : Str
reliability_provenance = codes "heuristic-threshold-reliability-v1"

-- The two tests of a schema against the profile.
unfoldable pub is_compatible : FeatureVector → ChannelChangeProfile → Bool
is_compatible v p =
    list_eq v.feature_schema_id p.feature_schema_id
    && v.feature_schema_version == p.feature_schema_version

-- `if test { reasons.push(reason); }`
unfoldable pub push_if : Bool → Warning → List Warning → List Warning
push_if test reason reasons = if test then reasons ++ (reason ∷ []) else reasons

unfoldable pub has_any : List Str → Bool
has_any ws = not (length ws == 0)

unfoldable pub indeterminate_reasons :
    FeatureVector → ChannelChangeProfile → (jitter margin : ℕ) → List Warning
indeterminate_reasons v p jitter margin =
    let jittered =
      push_if (f64_lt p.maximum_timestamp_jitter jitter)
        (jitter_exceeds jitter p.maximum_timestamp_jitter) [] in
    let warned = push_if (has_any v.warnings) (extraction_warned (length v.warnings)) jittered in
    push_if (f64_lt margin p.minimum_margin) (margin_below margin p.minimum_margin) warned

unfoldable pub state_of :
    (reasons : List Warning) → ChannelChangeProfile → (score : ℕ) → ChannelChangeState
state_of reasons p score =
    if not (length reasons == 0)
    then indeterminate
    else if f64_lt score p.stable_threshold
    then stable
    else if f64_lt score p.high_change_threshold
    then changing
    else highly_changing

-- The range test on the finished observation.
unfoldable pub check_output :
    ChannelChangeObservation → Result PerceptionError ChannelChangeObservation
check_output o =
    refuse
      (not (is_finite64 o.activity_score)
        || not (f64_le f64_zero o.activity_score && f64_le o.activity_score f64_one))
      (output_validation (plain (codes "activity score must be finite and within [0, 1]")))
    >> ok o

module _ ⦃o : F64⦄ where
  unfoldable pub score_of : Readings → ChannelChangeProfile → ℕ
  score_of r p =
      o.add (contribution r.rms p.motion_energy_rms_scale)
        (contribution r.p95 p.motion_energy_p95_scale)

  unfoldable pub evidence_of :
      FeatureVector → ChannelChangeProfile → Readings → (margin : ℕ) → ObservationEvidence
  evidence_of v p r margin = record {
    features =
        (record {
          feature_id = motion_energy_rms;
          value = r.rms;
          normalized_contribution = some (contribution r.rms p.motion_energy_rms_scale);
        })
        ∷ (record {
          feature_id = motion_energy_p95;
          value = r.p95;
          normalized_contribution = some (contribution r.p95 p.motion_energy_p95_scale);
        })
        ∷ [];
    activity_score = score_of r p;
    stable_threshold = p.stable_threshold;
    high_change_threshold = p.high_change_threshold;
    threshold_margin = margin;
    data_quality_warnings = v.warnings;
  }

  unfoldable pub uncertainty_of :
      (margin : ℕ) → ChannelChangeProfile → Readings → List Warning → ObservationUncertainty
  uncertainty_of margin p r warnings = record {
    threshold_margin = margin;
    normalized_threshold_margin = normalize_margin margin p;
    timestamp_jitter = r.jitter;
    warning_count = length warnings % 2 ^ 32;
    supporting_frame_count = as_u32 (f64_max r.frames f64_zero);
    valid_antenna_links = as_u32 (f64_max r.links f64_zero);
    reliability_score = heuristic_reliability margin warnings r.frames r.links r.jitter p;
    reliability_provenance = reliability_provenance;
  }

  -- The observation, with the next identifier and the time that the clock shows.
  unfoldable pub observation_of :
      (id : ℕ)
      → (now : Timestamp) → FeatureVector
      → ChannelChangeProfile
      → Readings
      → ChannelChangeObservation
  observation_of id now v p r =
      let score = score_of r p in
      let margin = threshold_margin score p.stable_threshold p.high_change_threshold in
      let reasons = indeterminate_reasons v p r.jitter margin in
      let warnings = map of_vector v.warnings ++ reasons in
      record {
        observation_id = id;
        sensor_id = v.sensor_id;
        feature_vector_id = v.feature_vector_id;
        window_id = v.window_id;
        first_sequence = v.first_sequence;
        last_sequence = v.last_sequence;
        first_capture_timestamp = v.first_capture_timestamp;
        last_capture_timestamp = v.last_capture_timestamp;
        state = state_of reasons p score;
        activity_score = score;
        score_semantics = codes "heuristic_channel_change_intensity_v1";
        threshold_profile_id = p.id;
        threshold_profile_version = p.version;
        evidence = evidence_of v p r margin;
        uncertainty = uncertainty_of margin p r warnings;
        feature_schema_id = v.feature_schema_id;
        feature_schema_version = v.feature_schema_version;
        feature_profile_id = v.feature_profile_id;
        feature_profile_version = v.feature_profile_version;
        dsp_profile_id = v.dsp_profile_id;
        dsp_profile_version = v.dsp_profile_version;
        dsp_backend_id = v.dsp_backend_id;
        dsp_backend_version = v.dsp_backend_version;
        created_at = now;
        warnings = warnings;
      }

  -- The checks before an identifier is taken.
  unfoldable pub prepare : FeatureVector → ChannelChangeProfile → Result PerceptionError Readings
  prepare v p = do
    validate p
    refuse (not (is_compatible v p)) (
        incompatible_feature_schema
          (other_schema v.feature_schema_id v.feature_schema_version p.id p.version))
    r ← read_features v
    refuse (not (is_finite64 (score_of r p)))
        (non_finite (plain (codes "activity score is non-finite")))
    ok r

  -- `next_id` is the value of the shared counter before the call; the one after it comes with the result.
  unfoldable pub observe_channel_change :
      (next_id : ℕ)
      → (now : Timestamp) → FeatureVector
      → ChannelChangeProfile
      → ℕ × Result PerceptionError ChannelChangeObservation
  observe_channel_change next_id now v p = elim (prepare v p) [
    | err e ↦ (next_id, err e)
    | ok r ↦ (fetch_add next_id 1, check_output (observation_of next_id now v p r))
  ]
