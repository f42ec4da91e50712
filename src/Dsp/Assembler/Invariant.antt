-- ===== src/Dsp/Assembler/Invariant.antt =====
-- What holds of the assembler between two frames, and what `push` does then.
use aeryon.Base.{
  ℕ, ◌+◌, ◌≤◌, ◌<◌, true, false, ◌≡◌, refl, ◌↔◌, Option, none, some, List, [], ◌∷◌, ◌++◌, ok,
  length, last?, All, All-append, arith, list_eq→eq, list_eq_refl, saturating_add, is_finite64,
  f64_lt, f64_zero,
}
use aeryon.Csi.Frame.{ComplexSample, is_finite}
use aeryon.Calibration.Frame as Frame
use aeryon.Calibration.Frame.{CalibratedCsiFrame}
use aeryon.Dsp.Window.Validity.{
  Matches-refl, Matches, AllFinite, Fits, Follows, Chain, eq_indices_iff,
}
use aeryon.Dsp.Window.Chain.{After, Chain-snoc}
use aeryon.Dsp.Assembler.{
  AssemblerConfig, WindowAssembler, validate, all_finite, check_sensor, check_antennas,
  check_subcarriers, check_profile, check_sequence, check_timestamp, validate_candidate, sequence?,
  nanos?,
}

pub record IsConfig (c : AssemblerConfig) : Type 0 where
  pub window : 1 < c.window_size_frames
  pub advance : 0 < c.hop_size_frames
  pub overlap : c.hop_size_frames ≤ c.window_size_frames
  pub room : c.window_size_frames ≤ c.queue_capacity
  pub tolerance_finite : is_finite64 c.timestamp_jitter_tolerance ≡ true
  pub tolerance_sign : f64_lt c.timestamp_jitter_tolerance f64_zero ≡ false

-- `validate` accepts just the configurations with a window of at least two frames, a hop from one frame
-- to a window, room for a window, and a tolerance that is finite and not negative.
pub validate_iff : (c : AssemblerConfig) → (validate c ≡ ok tt) ↔ IsConfig c
unfolding validate
validate_iff c = ground arith

-- `f` follows `p`, and at most `gap` frames are missing between them.
abbrev pub Near : ℕ → CalibratedCsiFrame → CalibratedCsiFrame → Type 0
Near gap p f = Follows p f × (Frame.sequence f ≤ Frame.sequence p + saturating_add gap 1)

abbrev pub Near? : ℕ → Option CalibratedCsiFrame → CalibratedCsiFrame → Type 0
Near? gap = After (Near gap)

abbrev pub Matches? : Option CalibratedCsiFrame → CalibratedCsiFrame → Type 0
Matches? none f = Unit
Matches? (some g) f = Matches g f

-- What later frames are held to comes from the frame `r`: none has been seen, or the buffer's frames
-- fit it.
abbrev pub Expects : Option CalibratedCsiFrame → WindowAssembler → Type 0
Expects none s =
    (s.expected_sensor ≡ none)
    × (s.expected_rx ≡ none)
    × (s.expected_tx ≡ none)
    × (s.expected_subcarriers ≡ none)
    × (s.expected_profile_id ≡ none)
    × (s.expected_profile_version ≡ none)
    × (s.buffer ≡ [])
Expects (some g) s =
    (s.expected_sensor ≡ some (Frame.sensor_id g))
    × (s.expected_rx ≡ some (Frame.receive_antennas g))
    × (s.expected_tx ≡ some (Frame.transmit_antennas g))
    × (s.expected_subcarriers ≡ some (Frame.subcarrier_indices g))
    × (s.expected_profile_id ≡ some g.profile_id)
    × (s.expected_profile_version ≡ some g.profile_version)
    × All (Fits g) s.buffer

pub record Inv (s : WindowAssembler) : Type 0 where
  pub config : IsConfig s.config
  pub short : length s.buffer < s.config.window_size_frames
  pub source : (r : Option CalibratedCsiFrame) × Expects r s
  pub chain : Chain (Near s.config.maximum_sequence_gap) none s.buffer
  pub last_sequence : s.last_sequence ≡ sequence? (last? s.buffer)
  pub last_nanos : s.last_capture_nanos ≡ nanos? (last? s.buffer)

all_finite_iff :
    (xs : List ComplexSample) → (all_finite xs ≡ true) ↔ All (λ s. is_finite s ≡ true) xs
unfolding all_finite
all_finite_iff [] = (λ _. tt, λ _. refl)
all_finite_iff (x ∷ xs) = ground (arith, all_finite_iff xs)

matches_iff :
    (s : WindowAssembler) (f : CalibratedCsiFrame) (r : Option CalibratedCsiFrame)
    → Expects r s
    → ((check_sensor s.expected_sensor f ≡ ok tt)
        × (check_antennas s.expected_rx s.expected_tx f ≡ ok tt)
        × (check_subcarriers s.expected_subcarriers f ≡ ok tt)
        × (check_profile s.expected_profile_id s.expected_profile_version f ≡ ok tt))
      ↔ Matches? r f
unfolding check_sensor check_antennas check_subcarriers check_profile
matches_iff s f none x = ground arith
matches_iff s f (some g) x = ground (
  arith,
  eq_indices_iff (Frame.subcarrier_indices f) (Frame.subcarrier_indices g),
  list_eq→eq f.profile_id g.profile_id,
  list_eq_refl g.profile_id,
)

near_iff :
    (gap : ℕ) (l : Option CalibratedCsiFrame) (f : CalibratedCsiFrame)
    → ((check_sequence gap (sequence? l) f ≡ ok tt) × (check_timestamp (nanos? l) f ≡ ok tt))
      ↔ Near? gap l f
unfolding check_sequence check_timestamp
near_iff gap none f = ground arith
near_iff gap (some p) f = ground arith

-- A candidate is accepted just if its samples are finite, it matches the frames that were seen, and
-- it comes near after the last frame that is retained.
pub validate_candidate_iff :
    (s : WindowAssembler) (f : CalibratedCsiFrame) (i : Inv s)
    → (validate_candidate s f ≡ ok tt) ↔ (
        AllFinite f
        × Matches? i.source.0 f
        × Near? s.config.maximum_sequence_gap (last? s.buffer) f)
unfolding validate_candidate
validate_candidate_iff s f i =
    rw (i.last_sequence, i.last_nanos)
      (ground (
        arith,
        all_finite_iff f.samples,
        matches_iff s f i.source.0 i.source.1,
        near_iff s.config.maximum_sequence_gap (last? s.buffer) f,
      ))

-- The frame that later frames are held to, once `f` was seen.
abbrev pub source_after : Option CalibratedCsiFrame → CalibratedCsiFrame → CalibratedCsiFrame
source_after none f = f
source_after (some g) f = g

pub Follows-of_Near : (gap : ℕ) (p f : CalibratedCsiFrame) → Near gap p f → Follows p f
Follows-of_Near gap p f h = h.0

-- The buffer with the new frame.
abbrev pub extended : WindowAssembler → CalibratedCsiFrame → List CalibratedCsiFrame
extended s f = s.buffer ++ (f ∷ [])

-- The buffer with the new frame is in order, and fits the source.
pub extended-Fits :
    (s : WindowAssembler) (f : CalibratedCsiFrame) (i : Inv s)
    → validate_candidate s f ≡ ok tt
    → All (Fits (source_after i.source.0 f)) (extended s f)
      × Chain (Near s.config.maximum_sequence_gap) none (extended s f)
extended-Fits s f i h =
    let (finite, matches, near) = (validate_candidate_iff s f i).0 h in
    (
      fits i.source.0 i.source.1 matches finite,
      Chain-snoc (Near s.config.maximum_sequence_gap) s.buffer f i.chain near,
    )
  where
    fits :
        (r : Option CalibratedCsiFrame)
        → Expects r s
        → Matches? r f
        → AllFinite f
        → All (Fits (source_after r f)) (extended s f)
    fits none x m a = rw x.6 ((Matches-refl f, a), tt)
    fits (some g) x m a = All-append (Fits g) s.buffer (f ∷ []) x.6 ((m, a), tt)
