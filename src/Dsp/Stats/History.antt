-- ===== src/Dsp/Stats/History.antt =====
-- The statistics against the history of the calls that record something.
use aeryon.Base.{ℕ, suc, ◌+◌, ◌≤◌, length, ◌≡◌, refl, Option, some, List, [], ◌∷◌, u64_max, arith}
use aeryon.Base.Text.{Str}
use aeryon.Base.Floats.{F64}
use aeryon.Dsp.Stats.{
  DspWorkerState, worker_state_to_u64, u64_to_worker_state, DspStats, set_worker_state,
  get_worker_state, record_frame_received, record_window_failure, set_last_error, set_last_warning,
  record_window_success, update_average_duration, latest_sequence_range, latest_dominant_non_dc_hz,
}

-- The worker's state is read as it was set.
pub get_worker_state-set_worker_state :
    (w : DspWorkerState) (s : DspStats) → get_worker_state (set_worker_state w s) ≡ w
unfolding get_worker_state set_worker_state worker_state_to_u64 u64_to_worker_state
get_worker_state-set_worker_state w s = ground arith

-- A call that records something.
pub data Entry : Type 0 where
  frame : Entry
  success : (first last time duration rate jitter : ℕ) (dominant : Option ℕ) → Entry
  failure warning : Str → Entry

abbrev pub frames_in : List Entry → ℕ
frames_in [] = 0
frames_in (frame ∷ es) = suc (frames_in es)
frames_in (_ ∷ es) = frames_in es

abbrev pub successes_in : List Entry → ℕ
successes_in [] = 0
successes_in (success f l t d r j x ∷ es) = suc (successes_in es)
successes_in (_ ∷ es) = successes_in es

abbrev pub failures_in : List Entry → ℕ
failures_in [] = 0
failures_in (failure e ∷ es) = suc (failures_in es)
failures_in (_ ∷ es) = failures_in es

-- The failures since the last success, of which there were `n` before the entries.
abbrev pub failing_run : ℕ → List Entry → ℕ
failing_run n [] = n
failing_run n (failure e ∷ es) = failing_run (suc n) es
failing_run n (success f l t d r j x ∷ es) = failing_run 0 es
failing_run n (_ ∷ es) = failing_run n es

-- The range of the last success, `o` if there is none.
abbrev pub last_range : Option (ℕ × ℕ) → List Entry → Option (ℕ × ℕ)
last_range o [] = o
last_range o (success f l t d r j x ∷ es) = last_range (some (f, l)) es
last_range o (_ ∷ es) = last_range o es

abbrev pub last_dominant : Option ℕ → List Entry → Option ℕ
last_dominant o [] = o
last_dominant o (success f l t d r j x ∷ es) = last_dominant x es
last_dominant o (_ ∷ es) = last_dominant o es

module _ ⦃o : F64⦄ where
  abbrev pub record_entry : Entry → DspStats → DspStats
  record_entry frame s = record_frame_received s
  record_entry (success f l t d r j x) s = record_window_success f l t d r j x s
  record_entry (failure e) s = record_window_failure e s
  record_entry (warning w) s = set_last_warning w s

  abbrev pub record_all : List Entry → DspStats → DspStats
  record_all [] s = s
  record_all (e ∷ es) s = record_all es (record_entry e s)

  -- The counters of `t` are those of `s` and of the entries.
  pub record Counted (s : DspStats) (es : List Entry) (t : DspStats) : Type 0 where
    pub frames : t.calibrated_frames_received ≡ s.calibrated_frames_received + frames_in es
    pub emitted : t.windows_emitted ≡ s.windows_emitted + successes_in es
    pub rejected : t.windows_rejected ≡ s.windows_rejected + failures_in es
    pub failing : t.consecutive_failures ≡ failing_run s.consecutive_failures es
    pub range : latest_sequence_range t ≡ last_range (latest_sequence_range s) es
    pub dominant : latest_dominant_non_dc_hz t ≡ last_dominant (latest_dominant_non_dc_hz s) es

  -- No counter reaches the end of the `u64` range with `n` more entries.
  abbrev pub HasRoom : DspStats → ℕ → Type 0
  HasRoom s n =
      (s.calibrated_frames_received + n ≤ u64_max)
      × (s.windows_emitted + n ≤ u64_max)
      × (s.windows_rejected + n ≤ u64_max)
      × (s.consecutive_failures + n ≤ u64_max)

  entry_effect :
      (e : Entry) (s : DspStats) (n : ℕ)
      → HasRoom s (suc n)
      → HasRoom (record_entry e s) n × Counted s (e ∷ []) (record_entry e s)
  unfolding record_frame_received record_window_success update_average_duration
      record_window_failure set_last_error set_last_warning latest_sequence_range
      latest_dominant_non_dc_hz
  entry_effect frame s n room = ground arith
  entry_effect (success f l t d r j x) s n room = ground arith
  entry_effect (failure e) s n room = ground arith
  entry_effect (warning w) s n room = ground arith

  -- While no counter reaches the end of its range: after any recording calls the counters count the
  -- frames, the successes and the failures; the consecutive failures are those since the last success;
  -- and the sequence range and the dominant frequency are those of the last success.
  pub record_all-Counted :
      (es : List Entry) (s : DspStats) → HasRoom s (length es) → Counted s es (record_all es s)
  record_all-Counted [] s room = record {
    frames = omega arith;
    emitted = omega arith;
    rejected = omega arith;
    failing = refl;
    range = refl;
    dominant = refl;
  }
  record_all-Counted (frame ∷ es) s room =
      ground
        (arith, entry_effect frame s (length es) room, record_all-Counted es (record_entry frame s))
  record_all-Counted (success f l t d r j x ∷ es) s room = ground (
    arith,
    entry_effect (success f l t d r j x) s (length es) room,
    record_all-Counted es (record_entry (success f l t d r j x) s),
  )
  record_all-Counted (failure e ∷ es) s room = ground (
    arith,
    entry_effect (failure e) s (length es) room,
    record_all-Counted es (record_entry (failure e) s),
  )
  record_all-Counted (warning w ∷ es) s room = ground (
    arith,
    entry_effect (warning w) s (length es) room,
    record_all-Counted es (record_entry (warning w) s),
  )
