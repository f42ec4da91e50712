-- ===== src/Runtime/CalibrationService/Answers.antt =====
-- What the calibration worker does with the frames of its queue.
use mathlib.Core.Path.{subst}
use mathlib.Core.List.{append-nil}
use aeryon.Base.{
  ℕ, ◌+◌, ◌≤◌, ◌≡◌, refl, sym, false, List, [], ◌∷◌, ◌++◌, map, length, All, u64_max, arith,
}
use aeryon.Base.Text.{Str}
use aeryon.Base.Outcomes.{done}
use aeryon.Base.Floats.{F64}
use aeryon.Base.Singles.{F32, IsIeee}
use aeryon.Domain.Frame.{Timestamp}
use aeryon.Csi.Frame.{CsiFrame}
use aeryon.Calibration.Report.{CalibrationStageId}
use aeryon.Calibration.Errors.{CalibrationError}
use aeryon.Calibration.Frame.{CalibratedCsiFrame}
use aeryon.Calibration.Profile.{CalibrationProfile, stage_id, enabled_stages}
use aeryon.Calibration.Pipeline.Applied.{UnwrapsFirst}
use aeryon.Runtime.CalibrationStats as Stats
use aeryon.Runtime.CalibrationStats.{CalibrationStats, CalibrationWorkerState, get_worker_state}
use aeryon.Runtime.CalibrationService.{Worker, handle_all, announce, finish, run_worker}
use aeryon.Runtime.CalibrationService.Accounts.{
  Calibrates-append, Progress-start, announced-append, answered-append, Calibrates, ended, Fits,
  forwarded_none, Progress, Progress-trans, Room,
}
use aeryon.Runtime.CalibrationService.Steps.{pipeline_of, handle_frame_answers}

module _ ⦃d : F64⦄ ⦃o : F32⦄ {V O E : Type 0} (clock : ℕ → Timestamp) (elapsed : ℕ → ℕ)
    (stage_elapsed : ℕ → CalibrationStageId → ℕ) (to_string : CalibrationError → Str)
    (ieee : IsIeee) (p : CalibrationProfile)
    (first : UnwrapsFirst (map stage_id (enabled_stages p.stages))) where
  handle_all_answers :
      (fs : List CsiFrame) (w : Worker V O E)
      → All Fits fs
      → Room w (length fs)
      → (v : Worker V O E) × (cs : List CalibratedCsiFrame) × (handle_all clock elapsed
            stage_elapsed to_string
            (pipeline_of p)
            fs
            w
          ≡ done v)
        × Calibrates p fs cs
        × Progress w fs cs v
  unfolding handle_all
  handle_all_answers [] w fit room = (w, [], refl, ended, Progress-start w)
  handle_all_answers (f ∷ fs) w (fit, fits) room =
      let (u, cs, e, made, progress, left) =
        handle_frame_answers clock elapsed stage_elapsed to_string ieee p first f w (length fs) fit
          room in
      let (v, ds, e', later, progress') = handle_all_answers fs u fits left in
      (
        v,
        cs ++ ds,
        rw (e, handle_all) e',
        Calibrates-append p made later,
        Progress-trans w u v (f ∷ []) fs cs ds progress progress',
      )

  announce_lem :
      (w : Worker V O E)
      → let u = announce clock elapsed stage_elapsed to_string (pipeline_of p) w in
        Progress w [] [] u × (u.stats ≡ w.stats)
  unfolding announce
  announce_lem w = (
    record {
      answers = answered-append w.published _;
      announces = announced-append w.published _;
      sent = forwarded_none w.forwards w.sent;
      forwards = refl;
      submitted = omega arith;
      successes = omega arith;
      failures = refl;
    },
    refl,
  )

  finish_lem :
      (w : Worker V O E)
      → let v = finish clock elapsed stage_elapsed to_string w in
        Progress w [] [] v
        × (get_worker_state v.stats ≡ CalibrationWorkerState.stopped)
        × (v.alive ≡ false)
  unfolding finish Stats.set_worker_state get_worker_state Stats.calibration_state_to_u64
      Stats.u64_to_calibration_state
  finish_lem w = (
    record {
      answers = answered-append w.published _;
      announces = announced-append w.published _;
      sent = forwarded_none w.forwards w.sent;
      forwards = refl;
      submitted = omega arith;
      successes = omega arith;
      failures = refl;
    },
    refl,
    refl,
  )

  -- By the facts of IEEE 754, for frames of at most 2^20 subcarriers and 2^32 - 1 links and a profile that
  -- unwraps first if it does, and while no counter reaches the end of its range: the worker ends, without
  -- a panic or an error. It has then answered each frame once, in order, as calibrated or as failed; the
  -- frames announced as calibrated are calibrated frames of the raw ones, in order, and they are handed
  -- to the queue of the DSP where there is one; each frame is counted once as submitted, and once as a
  -- success or as a failure; and its state is stopped.
  pub run_worker_answers :
      (fs : List CsiFrame) (w : Worker V O E)
      → All Fits fs
      → w.stats.raw_frames_submitted + length fs ≤ u64_max
      → w.stats.frames_calibrated + length fs ≤ u64_max
      → w.stats.calibration_failures + length fs ≤ u64_max
      → (v : Worker V O E) × (cs : List CalibratedCsiFrame) × (run_worker clock elapsed
            stage_elapsed to_string
            (record { profile = p })
            fs
            w
          ≡ done v)
        × Calibrates p fs cs
        × Progress w fs cs v
        × (get_worker_state v.stats ≡ CalibrationWorkerState.stopped)
        × (v.alive ≡ false)
  unfolding run_worker
  run_worker_answers fs w fit r1 r2 r3 =
      let u = announce clock elapsed stage_elapsed to_string (pipeline_of p) w in
      let (start, same) = announce_lem w in
      let room : Room u (length fs) =
        subst
          (λ s.
            (s.raw_frames_submitted + length fs ≤ u64_max)
            × (s.frames_calibrated + length fs ≤ u64_max)
            × (s.calibration_failures + length fs ≤ u64_max))
          (sym same) (r1, r2, r3) in
      let (v, cs, e, made, progress) = handle_all_answers fs u fit room in
      let (ended_, state, alive) = finish_lem v in
      let left = finish clock elapsed stage_elapsed to_string v in
      let both = Progress-trans w u v [] fs [] cs start progress in
      (
        left,
        cs,
        rw (e, run_worker) refl,
        made,
        subst (λ l. Progress w l cs left) (append-nil fs)
            (subst (λ l. Progress w (fs ++ []) l left) (append-nil cs)
              (Progress-trans w v left fs [] cs [] both ended_)),
        state,
        alive,
      )
