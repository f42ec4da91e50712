-- ===== src/Dsp/Tests.antt =====
-- Runs of the window assembler on small frames.
use aeryon.Base.{
  u64_max, ◌≤◌, eqℤ, list_eq, is_finite32, is_finite64, f64_lt, ℕ, pos, ◌↔◌, ◌≡◌, refl, none, some,
  List, [], ◌∷◌, map, ok, length, ◌<◌, arith, All, last?,
}
use aeryon.Base.Text.{codes}
use aeryon.Csi.Frame as Raw
use aeryon.Calibration.Frame.{CalibratedCsiFrame}
use aeryon.Dsp.Samples.{at, settings}
use aeryon.Dsp.Window
use aeryon.Dsp.Window.{CsiWindow, window_of}
use aeryon.Dsp.Window.Validity.{Fits, Follows, Chain, Matches, AllFinite, try_new_iff, Matches-refl}
use aeryon.Dsp.Assembler.{
  WindowAssembler, validate, fresh, push, validate_candidate, all_finite, check_sensor,
  check_antennas, check_subcarriers, check_profile, check_sequence, check_timestamp, enqueue, hop,
  emit, count_rejected,
}
use aeryon.Dsp.Assembler.Invariant.{
  IsConfig, Inv, Near?, Matches?, validate_iff, validate_candidate_iff,
}
use aeryon.Dsp.Assembler.Push.{Pushed, push_effect}
use aeryon.Dsp.Assembler.Preserve.{fresh-Inv}
use aeryon.Dsp.Assembler.Sliding.{Slides, push_all, push_all_sliding, push_all-Inv}
use aeryon.Dsp.Assembler.Counters.{Counts, push_all-Counts}
use aeryon.Dsp.Assembler.Tumbling.{tumbling_accepts}

-- The third repeats the second, and is refused.
abbrev five_frames : List CalibratedCsiFrame
five_frames = at 1 10 ∷ at 2 20 ∷ at 2 20 ∷ at 3 30 ∷ at 4 40 ∷ []

emitted_frames :
    map
      (λ w. map (λ f. f.raw.metadata.sequence) w.frames)
      (push_all (fresh (settings 3 1)) five_frames).windows
    ≡ (1 ∷ 2 ∷ 3 ∷ []) ∷ (2 ∷ 3 ∷ 4 ∷ []) ∷ []
unfolding push_all fresh push validate_candidate all_finite Raw.is_finite is_finite32 check_sensor
    check_antennas check_subcarriers check_profile check_sequence check_timestamp enqueue
    Window.eq_indices eqℤ list_eq hop emit Window.try_new Window.check_frames Window.check_frame
    Window.check_samples Window.check_order Window.window_of count_rejected
emitted_frames = refl

settings-IsConfig : IsConfig (settings 3 1)
unfolding validate is_finite64 f64_lt
settings-IsConfig = (validate_iff (settings 3 1)).0 refl

tumbling-IsConfig : IsConfig (settings 2 2)
unfolding validate is_finite64 f64_lt
tumbling-IsConfig = (validate_iff (settings 2 2)).0 refl

abbrev ready : WindowAssembler
ready = fresh (settings 3 1)

ready-Inv : Inv ready
ready-Inv = fresh-Inv (settings 3 1) settings-IsConfig

push_all_sliding_example :
    Slides ready (push_all ready five_frames)
    × (length (push_all ready five_frames).final.buffer < ready.config.window_size_frames)
push_all_sliding_example = push_all_sliding ready five_frames ready-Inv

push_all-Inv_example : Inv (push_all ready five_frames).final
push_all-Inv_example = push_all-Inv ready five_frames ready-Inv

push_effect_example : Pushed ready (at 1 10)
push_effect_example = push_effect ready (at 1 10) ready-Inv

ready_small :
    (ready.counters.frames_accepted ≤ u64_max)
    × (ready.counters.frames_rejected ≤ u64_max)
    × (ready.counters.windows_emitted ≤ u64_max)
unfolding fresh
ready_small = omega arith

push_all-Counts_example : Counts ready (length five_frames) (push_all ready five_frames)
push_all-Counts_example = push_all-Counts ready five_frames ready-Inv ready_small

validate_candidate_iff_example : (validate_candidate ready (at 1 10) ≡ ok tt) ↔ (
    AllFinite (at 1 10)
    × Matches? ready-Inv.source.0 (at 1 10)
    × Near? ready.config.maximum_sequence_gap (last? ready.buffer) (at 1 10))
validate_candidate_iff_example = validate_candidate_iff ready (at 1 10) ready-Inv

abbrev pair_window : CsiWindow
pair_window = window_of 1 (at 1 10) (at 2 20 ∷ [])

try_new_iff_example : (Window.try_new 1 (at 1 10 ∷ at 2 20 ∷ []) ≡ ok pair_window) ↔ (
    (pair_window ≡ window_of 1 (at 1 10) (at 2 20 ∷ []))
    × All (Fits (at 1 10)) (at 1 10 ∷ at 2 20 ∷ [])
    × Chain Follows none (at 1 10 ∷ at 2 20 ∷ []))
try_new_iff_example = try_new_iff 1 (at 1 10) (at 2 20 ∷ []) pair_window

-- One frame is buffered, the next completes a window of two with a hop of two.
abbrev half : WindowAssembler
half = record {
  config = settings 2 2;
  buffer = at 8 80 ∷ [];
  next_window_id = 1;
  expected_sensor = some 7;
  expected_rx = some 1;
  expected_tx = some 1;
  expected_subcarriers = some (pos 1 ∷ []);
  expected_profile_id = some (codes "indoor");
  expected_profile_version = some 1;
  last_sequence = some 8;
  last_capture_nanos = some 80;
  counters = record { frames_accepted = 1; frames_rejected = 0; windows_emitted = 0 };
}

at-AllFinite : (s n : ℕ) → AllFinite (at s n)
unfolding Raw.is_finite is_finite32
at-AllFinite s n = (refl, tt)

at-Matches : (s n s' n' : ℕ) → Matches (at s n) (at s' n')
at-Matches s n s' n' = record {
  sensor = refl;
  receive = refl;
  transmit = refl;
  indices = refl;
  profile = refl;
  version = refl;
}

abbrev half-Inv : Inv half
half-Inv = record {
  config = tumbling-IsConfig;
  short = omega arith;
  source = (
    some (at 8 80),
    (refl, refl, refl, refl, refl, refl, ((Matches-refl (at 8 80), at-AllFinite 8 80), tt)),
  );
  chain = tt;
  last_sequence = refl;
  last_nanos = refl;
}

half_accepts : validate_candidate half (at 9 90) ≡ ok tt
half_accepts =
    (validate_candidate_iff half (at 9 90) half-Inv).1
      (at-AllFinite 9 90, at-Matches 8 80 9 90, ((omega arith, omega arith), omega arith))

tumbling_accepts_example : validate_candidate (push half (at 9 90)).0 (at 3 30) ≡ ok tt
tumbling_accepts_example =
    tumbling_accepts half (at 9 90) (at 3 30) half-Inv refl refl half_accepts (at-AllFinite 3 30)
      (at-Matches 8 80 3 30)
