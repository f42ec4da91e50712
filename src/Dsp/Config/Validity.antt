-- ===== src/Dsp/Config/Validity.antt =====
-- What the validation of the DSP configuration accepts.
use aeryon.Base.{
  refl, ap, ◌∙◌, ℕ, ◌<◌, ◌≤◌, Bool, true, false, ◌≡◌, ◌↔◌, ok, arith, list_eq, list_eq_refl,
  list_eq→eq, is_finite64, f64_lt, f64_zero,
}
use aeryon.Dsp.Assembler as Assembler
use aeryon.Base.Text.{is_blank, blank_after}
use aeryon.Dsp.Errors.{DspBackendKind}
use aeryon.Dsp.Config.{
  baseline_dsp_v1_id, is_compiled, validate_profile, baseline_dsp_v1, DspConfig, assembler_config,
  resolve_profile, validate_enabled, validate,
}

-- The configuration can be run in a build with or without the C++ backend.
pub record IsUsable (cpp_dsp : Bool) (c : DspConfig) : Type 0 where
  pub profile : c.profile ≡ baseline_dsp_v1_id
  pub backend : is_compiled cpp_dsp c.backend ≡ true
  pub queue : 0 < c.queue_capacity
  pub window : 1 < c.window_size_frames
  pub advance : 0 < c.hop_size_frames
  pub overlap : c.hop_size_frames ≤ c.window_size_frames
  pub tolerance_finite : is_finite64 c.timestamp_jitter_tolerance ≡ true
  pub tolerance_sign : f64_lt c.timestamp_jitter_tolerance f64_zero ≡ false

baseline_not_blank : is_blank baseline_dsp_v1_id ≡ false
unfolding is_blank blank_after
baseline_not_blank = refl

-- The baseline profile passes its own validation, if its dimensions do.
pub validate_profile-baseline_dsp_v1 :
    (window hop tolerance : ℕ) (backend : DspBackendKind)
    → 1 < window
    → 0 < hop
    → hop ≤ window
    → is_finite64 tolerance ≡ true
    → f64_lt tolerance f64_zero ≡ false
    → validate_profile (baseline_dsp_v1 window hop tolerance backend) ≡ ok tt
unfolding validate_profile baseline_dsp_v1 Assembler.validate
validate_profile-baseline_dsp_v1 window hop tolerance backend w h o finite sign =
    ground (arith, baseline_not_blank)

-- `validate` accepts just the configurations that are disabled or can be run in this build: the baseline
-- profile, a backend that is compiled in, a queue, a window of at least two frames, a hop from one frame
-- to a window, and a tolerance that is finite and not negative. Neither the assembler's nor the
-- profile's own validation refuses what these conditions admit.
pub validate_accepts_iff :
    (cpp_dsp : Bool) (c : DspConfig)
    → (validate cpp_dsp c ≡ ok tt) ↔ (c.enabled ≡ true → IsUsable cpp_dsp c)
unfolding validate validate_enabled resolve_profile assembler_config Assembler.validate
validate_accepts_iff cpp_dsp c =
    let same = list_eq→eq c.profile baseline_dsp_v1_id in
    let back : c.profile ≡ baseline_dsp_v1_id → list_eq c.profile baseline_dsp_v1_id ≡ true =
      λ e. ap (λ s. list_eq s baseline_dsp_v1_id) e ∙ list_eq_refl baseline_dsp_v1_id in
    let own =
      validate_profile-baseline_dsp_v1 c.window_size_frames c.hop_size_frames
        c.timestamp_jitter_tolerance c.backend in
    ground (arith, same, back, own)
