-- ===== src/Dsp/ConfigTests.antt =====
-- The DSP configuration on the default dimensions.
use aeryon.Base.{[], ◌∷◌, list_eq, is_finite64, f64_lt, true, false, ◌≡◌, ◌↔◌, refl, ok}
use aeryon.Base.Text.{codes, is_blank, blank_after}
use aeryon.Base.Floats.{f64_half}
use aeryon.Dsp.Errors.{rust}
use aeryon.Dsp.Assembler as Assembler
use aeryon.Dsp.Assembler.{WindowAssembler, try_new}
use aeryon.Dsp.Config.{
  DspConfig, assembler_config, baseline_dsp_v1, resolve_profile, validate, validate_enabled,
  validate_profile,
}
use aeryon.Dsp.Config.Validity.{IsUsable, validate_accepts_iff}
use aeryon.Dsp.Config.Windows.{HasDimensions, IsCut, usable_config_slides}
use aeryon.Dsp.Report.{DspProfile}
use aeryon.Dsp.Samples.{at}
use aeryon.Dsp.Assembler.Sliding.{push_all}

-- The queue is shorter than the window: the assembler's is as long.
abbrev config : DspConfig
config = record {
  enabled = true;
  profile = codes "baseline-dsp-v1";
  backend = rust;
  queue_capacity = 2;
  window_size_frames = 16;
  hop_size_frames = 4;
  maximum_sequence_gap = 1;
  timestamp_jitter_tolerance = f64_half;
}

config_accepted : validate false config ≡ ok tt
unfolding validate validate_enabled resolve_profile assembler_config validate_profile
    baseline_dsp_v1 Assembler.validate is_blank blank_after is_finite64 f64_lt list_eq
config_accepted = refl

validate_accepts_iff_example :
    (validate false config ≡ ok tt) ↔ (true ≡ true → IsUsable false config)
validate_accepts_iff_example = validate_accepts_iff false config

config-IsUsable : IsUsable false config
config-IsUsable = (validate_accepts_iff false config).0 config_accepted refl

usable_config_slides_example :
    ((p : DspProfile) × (resolve_profile config ≡ ok p) × HasDimensions config p)
    × ((a : WindowAssembler) × (try_new (assembler_config config) ≡ ok a)
        × IsCut 16 4 (push_all a (at 1 10 ∷ at 2 20 ∷ [])))
usable_config_slides_example =
    usable_config_slides false config (at 1 10 ∷ at 2 20 ∷ []) config-IsUsable
