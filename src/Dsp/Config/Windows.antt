-- ===== src/Dsp/Config/Windows.antt =====
-- The windows that a usable configuration makes.
use aeryon.Base.{
  refl, ap, ◌∙◌, ℕ, ◌*◌, ◌<◌, Bool, ◌≡◌, List, map, length, drop, ok, arith, list_eq, list_eq_refl,
}
use aeryon.Calibration.Frame.{CalibratedCsiFrame}
use aeryon.Dsp.Assembler.{WindowAssembler, fresh, try_new}
use aeryon.Dsp.Assembler.Invariant.{IsConfig, validate_iff}
use aeryon.Dsp.Assembler.Preserve.{fresh-Inv}
use aeryon.Dsp.Assembler.Sliding.{Run, sliding, push_all, push_all_sliding}
use aeryon.Dsp.Report.{DspProfile}
use aeryon.Dsp.Config.{
  DspConfig, baseline_dsp_v1_id, baseline_dsp_v1, assembler_config, resolve_profile,
}
use aeryon.Dsp.Config.Validity.{IsUsable, validate_profile-baseline_dsp_v1}

-- What a stream leaves is cut into windows of `size` frames that start `step` frames apart.
pub record IsCut (size step : ℕ) (r : Run) : Type 0 where
  pub frames : map (λ w. w.frames) r.windows ≡ sliding size step (length r.windows) r.accepted
  pub rest : r.final.buffer ≡ drop (length r.windows * step) r.accepted
  pub short : length r.final.buffer < size

-- The profile that is reported names the dimensions.
pub record HasDimensions (c : DspConfig) (p : DspProfile) : Type 0 where
  pub id : p.id ≡ baseline_dsp_v1_id
  pub window : p.window_size_frames ≡ c.window_size_frames
  pub advance : p.hop_size_frames ≡ c.hop_size_frames
  pub tolerance : p.timestamp_jitter_tolerance ≡ c.timestamp_jitter_tolerance

module _ (cpp_dsp : Bool) (c : DspConfig) (usable : IsUsable cpp_dsp c) where
  assembler_config-IsConfig : IsConfig (assembler_config c)
  unfolding assembler_config
  assembler_config-IsConfig = record {
    window = usable.window;
    advance = usable.advance;
    overlap = usable.overlap;
    room = omega arith;
    tolerance_finite = usable.tolerance_finite;
    tolerance_sign = usable.tolerance_sign;
  }

  try_new-assembler_config : try_new (assembler_config c) ≡ ok (fresh (assembler_config c))
  unfolding try_new
  try_new-assembler_config =
      ground (arith, (validate_iff (assembler_config c)).1 assembler_config-IsConfig)

  resolved : (p : DspProfile) × (resolve_profile c ≡ ok p) × HasDimensions c p
  unfolding resolve_profile baseline_dsp_v1
  resolved =
      let same =
        ap (λ s. list_eq s baseline_dsp_v1_id) usable.profile ∙ list_eq_refl baseline_dsp_v1_id in
      let own =
        validate_profile-baseline_dsp_v1 c.window_size_frames c.hop_size_frames
          c.timestamp_jitter_tolerance c.backend usable.window usable.advance usable.overlap
          usable.tolerance_finite usable.tolerance_sign in
      (
        baseline_dsp_v1 c.window_size_frames c.hop_size_frames c.timestamp_jitter_tolerance
            c.backend,
        ground (arith, same, own),
        record { id = refl; window = refl; advance = refl; tolerance = refl },
      )

  fresh-IsCut :
      (fs : List CalibratedCsiFrame)
      → IsCut c.window_size_frames c.hop_size_frames (push_all (fresh (assembler_config c)) fs)
  unfolding fresh assembler_config
  fresh-IsCut fs =
      let (slides, short) =
        push_all_sliding (fresh (assembler_config c)) fs
          (fresh-Inv (assembler_config c) assembler_config-IsConfig) in
      record { frames = slides.frames; rest = slides.rest; short = short }

-- For every configuration that can be run in this build (the baseline profile, a backend that is compiled
-- in, a queue, a window of at least two frames, a hop from one frame to a window, and a tolerance that is
-- finite and not negative): the profile resolves to the baseline with the dimensions of the
-- configuration, also where the queue is shorter than a window the assembler can be made, and for every
-- stream of frames the windows that it emits are the sliding windows, of the size and the hop of the
-- configuration, of the frames that it accepted, with fewer frames than a window left.
pub usable_config_slides :
    (cpp_dsp : Bool) (c : DspConfig) (fs : List CalibratedCsiFrame)
    → IsUsable cpp_dsp c
    → ((p : DspProfile) × (resolve_profile c ≡ ok p) × HasDimensions c p)
      × ((a : WindowAssembler) × (try_new (assembler_config c) ≡ ok a)
          × IsCut c.window_size_frames c.hop_size_frames (push_all a fs))
usable_config_slides cpp_dsp c fs usable = (
  resolved cpp_dsp c usable,
  (
    fresh (assembler_config c),
    try_new-assembler_config cpp_dsp c usable,
    fresh-IsCut cpp_dsp c usable fs,
  ),
)
