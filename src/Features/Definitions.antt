-- ===== src/Features/Definitions.antt =====
-- core/features/src/schema.rs: what the schema says of each feature.
use aeryon.Base.{Bool, true, false, [], ◌∷◌, ◌++◌}
use aeryon.Base.Text.{Str, codes}
use aeryon.Features.Ids.{
  FeatureAggregationScope, aggregate, window_metadata, FeatureId, motion_energy_mean,
  motion_energy_standard_deviation, motion_energy_rms, motion_energy_minimum, motion_energy_maximum,
  motion_energy_median, motion_energy_p90, motion_energy_p95, motion_energy_range,
  motion_energy_mean_absolute_delta, motion_energy_peak_to_mean_ratio, total_non_dc_power,
  dominant_non_dc_frequency_hz, dominant_non_dc_power, spectral_centroid_hz, spectral_bandwidth_hz,
  spectral_entropy, spectral_flatness, low_frequency_power_ratio, middle_frequency_power_ratio,
  high_frequency_power_ratio, effective_sample_rate_hz, timestamp_jitter, frame_count, link_count,
}

pub record FeatureDefinition : Type 0 where
  pub id : FeatureId
  pub unit : Str
  pub description : Str
  pub scope : FeatureAggregationScope
  pub data_type : Str
  pub requires_dsp_provenance : Bool

-- A character beyond ASCII is written as its bytes in UTF-8.
unfoldable pub definition_for : FeatureId → FeatureDefinition
definition_for motion_energy_mean = record {
  id = motion_energy_mean;
  unit = codes "normalized_complex_difference";
  description = codes "Mean of the motion-energy channel-change proxy series.";
  scope = aggregate;
  data_type = codes "f64";
  requires_dsp_provenance = true;
}
definition_for motion_energy_standard_deviation = record {
  id = motion_energy_standard_deviation;
  unit = codes "normalized_complex_difference";
  description = codes "Population standard deviation of the motion-energy series.";
  scope = aggregate;
  data_type = codes "f64";
  requires_dsp_provenance = true;
}
definition_for motion_energy_rms = record {
  id = motion_energy_rms;
  unit = codes "normalized_complex_difference";
  description = codes "Root-mean-square of the motion-energy series.";
  scope = aggregate;
  data_type = codes "f64";
  requires_dsp_provenance = true;
}
definition_for motion_energy_minimum = record {
  id = motion_energy_minimum;
  unit = codes "normalized_complex_difference";
  description = codes "Minimum motion-energy sample in the window.";
  scope = aggregate;
  data_type = codes "f64";
  requires_dsp_provenance = true;
}
definition_for motion_energy_maximum = record {
  id = motion_energy_maximum;
  unit = codes "normalized_complex_difference";
  description = codes "Maximum motion-energy sample in the window.";
  scope = aggregate;
  data_type = codes "f64";
  requires_dsp_provenance = true;
}
definition_for motion_energy_median = record {
  id = motion_energy_median;
  unit = codes "normalized_complex_difference";
  description = codes "Median motion-energy sample in the window.";
  scope = aggregate;
  data_type = codes "f64";
  requires_dsp_provenance = true;
}
definition_for motion_energy_p90 = record {
  id = motion_energy_p90;
  unit = codes "normalized_complex_difference";
  description = codes "Linear-interpolated 90th percentile of motion energy.";
  scope = aggregate;
  data_type = codes "f64";
  requires_dsp_provenance = true;
}
definition_for motion_energy_p95 = record {
  id = motion_energy_p95;
  unit = codes "normalized_complex_difference";
  description = codes "Linear-interpolated 95th percentile of motion energy.";
  scope = aggregate;
  data_type = codes "f64";
  requires_dsp_provenance = true;
}
definition_for motion_energy_range = record {
  id = motion_energy_range;
  unit = codes "normalized_complex_difference";
  description = codes "Motion-energy maximum minus minimum.";
  scope = aggregate;
  data_type = codes "f64";
  requires_dsp_provenance = true;
}
definition_for motion_energy_mean_absolute_delta = record {
  id = motion_energy_mean_absolute_delta;
  unit = codes "normalized_complex_difference";
  description = codes "Mean absolute consecutive difference of motion energy.";
  scope = aggregate;
  data_type = codes "f64";
  requires_dsp_provenance = true;
}
definition_for motion_energy_peak_to_mean_ratio = record {
  id = motion_energy_peak_to_mean_ratio;
  unit = codes "ratio";
  description =
      codes "Motion-energy maximum divided by mean (zero mean "
      ++ (226 ∷ 134 ∷ 146 ∷ [])
      ++ codes " 0).";
  scope = aggregate;
  data_type = codes "f64";
  requires_dsp_provenance = true;
}
definition_for total_non_dc_power = record {
  id = total_non_dc_power;
  unit = codes "normalized_power";
  description = codes "Sum of one-sided periodogram power excluding DC.";
  scope = aggregate;
  data_type = codes "f64";
  requires_dsp_provenance = true;
}
definition_for dominant_non_dc_frequency_hz = record {
  id = dominant_non_dc_frequency_hz;
  unit = codes "hertz";
  description = codes "Frequency of the strongest non-DC spectral bin.";
  scope = aggregate;
  data_type = codes "f64";
  requires_dsp_provenance = true;
}
definition_for dominant_non_dc_power = record {
  id = dominant_non_dc_power;
  unit = codes "normalized_power";
  description = codes "Power at the dominant non-DC frequency bin.";
  scope = aggregate;
  data_type = codes "f64";
  requires_dsp_provenance = true;
}
definition_for spectral_centroid_hz = record {
  id = spectral_centroid_hz;
  unit = codes "hertz";
  description = codes "Power-weighted centroid of non-DC spectral bins.";
  scope = aggregate;
  data_type = codes "f64";
  requires_dsp_provenance = true;
}
definition_for spectral_bandwidth_hz = record {
  id = spectral_bandwidth_hz;
  unit = codes "hertz";
  description = codes "Power-weighted second-moment bandwidth around the centroid.";
  scope = aggregate;
  data_type = codes "f64";
  requires_dsp_provenance = true;
}
definition_for spectral_entropy = record {
  id = spectral_entropy;
  unit = codes "normalized_entropy";
  description = codes "Normalized spectral entropy over non-DC power (tonal vs broadband).";
  scope = aggregate;
  data_type = codes "f64";
  requires_dsp_provenance = true;
}
definition_for spectral_flatness = record {
  id = spectral_flatness;
  unit = codes "ratio";
  description = codes "Spectral flatness of non-DC power (geometric/arithmetic mean).";
  scope = aggregate;
  data_type = codes "f64";
  requires_dsp_provenance = true;
}
definition_for low_frequency_power_ratio = record {
  id = low_frequency_power_ratio;
  unit = codes "ratio";
  description = codes "Non-DC power fraction in the first third of available frequencies.";
  scope = aggregate;
  data_type = codes "f64";
  requires_dsp_provenance = true;
}
definition_for middle_frequency_power_ratio = record {
  id = middle_frequency_power_ratio;
  unit = codes "ratio";
  description = codes "Non-DC power fraction in the middle third of available frequencies.";
  scope = aggregate;
  data_type = codes "f64";
  requires_dsp_provenance = true;
}
definition_for high_frequency_power_ratio = record {
  id = high_frequency_power_ratio;
  unit = codes "ratio";
  description = codes "Non-DC power fraction in the final third of available frequencies.";
  scope = aggregate;
  data_type = codes "f64";
  requires_dsp_provenance = true;
}
definition_for effective_sample_rate_hz = record {
  id = effective_sample_rate_hz;
  unit = codes "hertz";
  description = codes "Capture-time effective sample rate (1 / median interval).";
  scope = window_metadata;
  data_type = codes "f64";
  requires_dsp_provenance = true;
}
definition_for timestamp_jitter = record {
  id = timestamp_jitter;
  unit = codes "relative";
  description = codes "Capture-time relative timestamp jitter metric from DSP sampling analysis.";
  scope = window_metadata;
  data_type = codes "f64";
  requires_dsp_provenance = true;
}
definition_for frame_count = record {
  id = frame_count;
  unit = codes "count";
  description = codes "Number of CSI frames in the source DSP window.";
  scope = window_metadata;
  data_type = codes "f64";
  requires_dsp_provenance = false;
}
definition_for link_count = record {
  id = link_count;
  unit = codes "count";
  description =
      codes "Number of RX"
      ++ (226 ∷ 128 ∷ 147 ∷ [])
      ++ codes "TX antenna links contributing features.";
  scope = window_metadata;
  data_type = codes "f64";
  requires_dsp_provenance = false;
}
