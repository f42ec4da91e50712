-- ===== src/Features/Ids.antt =====
-- core/features/src/schema.rs: the identities of the features.
use aeryon.Base.{ℕ, Bool, Option, none, some, List, [], ◌∷◌, ◌==◌, list_eq, if◌then◌else◌}
use aeryon.Base.Text.{Str, codes}

pub data FeatureAggregationScope : Type 0 where
  aggregate per_link window_metadata : FeatureAggregationScope

unfoldable pub scope_name : FeatureAggregationScope → Str
scope_name aggregate = codes "aggregate"
scope_name per_link = codes "per_link"
scope_name window_metadata = codes "window_metadata"

pub data FeatureId : Type 0 where
  motion_energy_mean motion_energy_standard_deviation motion_energy_rms : FeatureId
  motion_energy_minimum motion_energy_maximum motion_energy_median motion_energy_p90 : FeatureId
  motion_energy_p95 motion_energy_range motion_energy_mean_absolute_delta : FeatureId
  motion_energy_peak_to_mean_ratio total_non_dc_power dominant_non_dc_frequency_hz : FeatureId
  dominant_non_dc_power spectral_centroid_hz spectral_bandwidth_hz spectral_entropy : FeatureId
  spectral_flatness low_frequency_power_ratio middle_frequency_power_ratio : FeatureId
  high_frequency_power_ratio effective_sample_rate_hz timestamp_jitter frame_count : FeatureId
  link_count : FeatureId

unfoldable pub as_str : FeatureId → Str
as_str motion_energy_mean = codes "motion_energy_mean"
as_str motion_energy_standard_deviation = codes "motion_energy_standard_deviation"
as_str motion_energy_rms = codes "motion_energy_rms"
as_str motion_energy_minimum = codes "motion_energy_minimum"
as_str motion_energy_maximum = codes "motion_energy_maximum"
as_str motion_energy_median = codes "motion_energy_median"
as_str motion_energy_p90 = codes "motion_energy_p90"
as_str motion_energy_p95 = codes "motion_energy_p95"
as_str motion_energy_range = codes "motion_energy_range"
as_str motion_energy_mean_absolute_delta = codes "motion_energy_mean_absolute_delta"
as_str motion_energy_peak_to_mean_ratio = codes "motion_energy_peak_to_mean_ratio"
as_str total_non_dc_power = codes "total_non_dc_power"
as_str dominant_non_dc_frequency_hz = codes "dominant_non_dc_frequency_hz"
as_str dominant_non_dc_power = codes "dominant_non_dc_power"
as_str spectral_centroid_hz = codes "spectral_centroid_hz"
as_str spectral_bandwidth_hz = codes "spectral_bandwidth_hz"
as_str spectral_entropy = codes "spectral_entropy"
as_str spectral_flatness = codes "spectral_flatness"
as_str low_frequency_power_ratio = codes "low_frequency_power_ratio"
as_str middle_frequency_power_ratio = codes "middle_frequency_power_ratio"
as_str high_frequency_power_ratio = codes "high_frequency_power_ratio"
as_str effective_sample_rate_hz = codes "effective_sample_rate_hz"
as_str timestamp_jitter = codes "timestamp_jitter"
as_str frame_count = codes "frame_count"
as_str link_count = codes "link_count"

-- The discriminant, which the derived `==` compares.
unfoldable pub discriminant : FeatureId → ℕ
discriminant motion_energy_mean = 0
discriminant motion_energy_standard_deviation = 1
discriminant motion_energy_rms = 2
discriminant motion_energy_minimum = 3
discriminant motion_energy_maximum = 4
discriminant motion_energy_median = 5
discriminant motion_energy_p90 = 6
discriminant motion_energy_p95 = 7
discriminant motion_energy_range = 8
discriminant motion_energy_mean_absolute_delta = 9
discriminant motion_energy_peak_to_mean_ratio = 10
discriminant total_non_dc_power = 11
discriminant dominant_non_dc_frequency_hz = 12
discriminant dominant_non_dc_power = 13
discriminant spectral_centroid_hz = 14
discriminant spectral_bandwidth_hz = 15
discriminant spectral_entropy = 16
discriminant spectral_flatness = 17
discriminant low_frequency_power_ratio = 18
discriminant middle_frequency_power_ratio = 19
discriminant high_frequency_power_ratio = 20
discriminant effective_sample_rate_hz = 21
discriminant timestamp_jitter = 22
discriminant frame_count = 23
discriminant link_count = 24

unfoldable pub same_feature : FeatureId → FeatureId → Bool
same_feature a b = discriminant a == discriminant b

-- `FeatureId::ALL`.
unfoldable pub all_features : List FeatureId
all_features =
    motion_energy_mean ∷ motion_energy_standard_deviation ∷ motion_energy_rms
    ∷ motion_energy_minimum ∷ motion_energy_maximum ∷ motion_energy_median ∷ motion_energy_p90
    ∷ motion_energy_p95 ∷ motion_energy_range ∷ motion_energy_mean_absolute_delta
    ∷ motion_energy_peak_to_mean_ratio ∷ total_non_dc_power ∷ dominant_non_dc_frequency_hz
    ∷ dominant_non_dc_power ∷ spectral_centroid_hz ∷ spectral_bandwidth_hz ∷ spectral_entropy
    ∷ spectral_flatness ∷ low_frequency_power_ratio ∷ middle_frequency_power_ratio
    ∷ high_frequency_power_ratio ∷ effective_sample_rate_hz ∷ timestamp_jitter ∷ frame_count
    ∷ link_count ∷ []

-- The search of `FeatureId::parse`.
unfoldable pub find_named : Str → List FeatureId → Option FeatureId
find_named name [] = none
find_named name (f ∷ fs) = if list_eq (as_str f) name then some f else find_named name fs

unfoldable pub parse : Str → Option FeatureId
parse name = find_named name all_features
