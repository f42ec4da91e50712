-- ===== src/Dsp/Service/Delivery.antt =====
-- What the worker delivers: every window is announced and answered once, and every frame is counted.
use mathlib.Core.Path.{subst}
use mathlib.Core.List.{append-nil}
use aeryon.Base.{
  ℕ, ◌+◌, ◌≤◌, ◌≡◌, refl, sym, ◌∙◌, Bool, List, [], ◌∷◌, ◌++◌, map, length, if◌then◌else◌, u64_max,
  arith,
}
use aeryon.Base.Text.{Str}
use aeryon.Base.Outcomes.{done}
use aeryon.Base.Floats.{F64}
use aeryon.Domain.Frame.{Timestamp}
use aeryon.Calibration.Frame.{CalibratedCsiFrame}
use aeryon.Dsp.Errors.{DspError}
use aeryon.Dsp.Assembler.{push}
use aeryon.Dsp.Assembler.Invariant.{Inv}
use aeryon.Dsp.Assembler.Preserve.{push-Inv}
use aeryon.Dsp.Assembler.Sliding.{push_all}
use aeryon.Dsp.Backend.{DspKernelBackend, IsSound}
use aeryon.Dsp.Report.{DspProfile}
use aeryon.Dsp.Stats as Stats
use aeryon.Dsp.Stats.{DspStats, get_worker_state, completed, idle}
use aeryon.Dsp.Stats.History.{get_worker_state-set_worker_state}
use aeryon.Dsp.Service.{
  Worker, handle_frame, handle_all, received_any, finish, start_event, run_worker,
}
use aeryon.Dsp.Service.Accounts.{
  announced-append, answered-append, Progress, Progress-trans, Room, Delivers, Finished, add_result,
}
use aeryon.Dsp.Service.Steps.{after_push}

module _ ⦃o : F64⦄ (fft : List (ℕ × ℕ) → List (ℕ × ℕ))
    (in_place : (xs : List (ℕ × ℕ)) → length (fft xs) ≡ length xs) (clock : ℕ → Timestamp)
    (elapsed : ℕ → ℕ) (to_string : DspError → Str) (p : DspProfile) (b : DspKernelBackend)
    (sound : IsSound b) where
  handle_all-Delivers :
      (fs : List CalibratedCsiFrame) (w : Worker)
      → Inv w.assembler
      → Room w (length fs) (length fs)
      → (v : Worker) × (handle_all fft clock elapsed to_string p b fs w ≡ done v)
        × Delivers w (length fs) (push_all w.assembler fs) v
  unfolding handle_all handle_frame push_all
  handle_all-Delivers [] w i room = (
    w,
    refl,
    (
      record {
        announces = sym (append-nil _);
        answers = sym (append-nil _);
        received = omega arith;
        counted = omega arith;
        stores = refl;
      },
      refl,
    ),
  )
  handle_all-Delivers (f ∷ fs) w i room =
      let (s, result) = push w.assembler f in
      let (u, e, progress, left, same) =
        after_push fft in_place clock elapsed to_string p b sound w (length fs) (push w.assembler f)
          room in
      let (v, e', later) =
        handle_all-Delivers fs u (subst Inv (sym same) (push-Inv w.assembler f i)) left in
      (
        v,
        rw (e, handle_all) e',
        add_result f result (push_all s fs) w u v (length fs) progress
            (subst (λ x. Delivers u (length fs) (push_all x fs) v) same later),
      )

  start_event_lem :
      (w : Worker)
      → let u = start_event fft clock elapsed to_string p b w in
        Progress w [] 0 0 u × (u.assembler ≡ w.assembler) × (u.stats ≡ w.stats)
  unfolding start_event
  start_event_lem w = (
    record {
      announces = announced-append w.published _;
      answers = answered-append w.published _;
      received = omega arith;
      counted = omega arith;
      stores = refl;
    },
    refl,
    refl,
  )

  finish_lem :
      (finite : Bool) (w : Worker)
      → let v = finish fft clock elapsed to_string finite w in
        Progress w [] 0 0 v
        × (v.assembler ≡ w.assembler)
        × (get_worker_state v.stats ≡ (if finite then completed else idle))
  unfolding finish Stats.set_worker_state
  finish_lem finite w = (
    record {
      announces =
          announced-append (w.published ++ (_ ∷ [])) _
          ∙ append-nil _
          ∙ announced-append w.published _;
      answers =
          answered-append (w.published ++ (_ ∷ [])) _
          ∙ append-nil _
          ∙ answered-append w.published _;
      received = omega arith;
      counted = omega arith;
      stores = refl;
    },
    refl,
    get_worker_state-set_worker_state (if finite then completed else idle) w.stats,
  )

  -- With a transform that works in place and a sound backend, from an assembler in order and while no
  -- counter reaches the end of its range: the worker ends, without a panic or an error. It then has
  -- announced just the windows that the assembler emits for the frames, in order, and answered each
  -- once, in the same order, as processed or as failed; it has counted every frame as received, and
  -- each rejected frame and each window once; it stored one result for each window counted as emitted;
  -- and its state is completed if there was a frame, else idle.
  pub run_worker_delivers :
      (fs : List CalibratedCsiFrame) (w : Worker)
      → Inv w.assembler
      → w.stats.calibrated_frames_received + length fs ≤ u64_max
      → w.stats.windows_emitted + length fs ≤ u64_max
      → w.stats.windows_rejected + length fs ≤ u64_max
      → (v : Worker) × (run_worker fft clock elapsed to_string p b fs w ≡ done v) × Finished w fs v
  unfolding run_worker
  run_worker_delivers fs w i r1 r2 r3 =
      let u = start_event fft clock elapsed to_string p b w in
      let (begun, same, stats) = start_event_lem w in
      let (v, e, delivered) =
        handle_all-Delivers fs u (subst Inv (sym same) i)
          (omega (arith, begun.received, begun.counted, r1, r2, r3)) in
      let (ended, kept, state) = finish_lem (received_any fs) v in
      let run = push_all w.assembler fs in
      let ids = map (λ c. c.window_id) run.windows in
      let size = length fs in
      let accepted = length run.accepted in
      let (first, assembler) : Delivers u size run v =
        subst (λ s. Delivers u size (push_all s fs) v) same delivered in
      let both =
        Progress-trans w u v [] ids 0 0 size accepted size accepted begun first (omega arith)
          (omega arith) in
      let left = finish fft clock elapsed to_string (received_any fs) v in
      (
        left,
        rw (e, run_worker) refl,
        record {
          progress =
              subst (λ l. Progress w l size accepted left) (append-nil ids)
                (Progress-trans w v left ids [] size accepted 0 0 size accepted both ended
                  (omega arith) (omega arith));
          assembler = kept ∙ assembler;
          state = state;
        },
      )
