-- ===== src/Dsp/Service/Steps.antt =====
-- One frame of the worker's loop.
use mathlib.Core.List.{append-nil}
use aeryon.Base.{
  ℕ, suc, ◌+◌, ◌≡◌, refl, sym, ap, ◌∙◌, inl, inr, Option, none, some, List, [], ◌∷◌, ◌++◌, Result,
  ok, err, length, length-append, arith,
}
use aeryon.Base.Text.{Str}
use aeryon.Base.Outcomes.{done, Outcome-cases}
use aeryon.Base.Floats.{F64}
use aeryon.Domain.Frame.{Timestamp}
use aeryon.Dsp.Errors as Errors
use aeryon.Dsp.Errors.{DspError}
use aeryon.Dsp.Window.{CsiWindow}
use aeryon.Dsp.Assembler.{WindowAssembler}
use aeryon.Dsp.Backend.{DspKernelBackend, IsSound}
use aeryon.Dsp.Report.{DspProfile, DspWindowResult, process_window}
use aeryon.Dsp.Report.Shape.{Describes, process_window-Describes}
use aeryon.Dsp.Stats as Stats
use aeryon.Dsp.Stats.{DspStats, get_worker_state, completed, idle}
use aeryon.Dsp.Service.{Worker, warn, succeed, fail, announce, handle_window, handle_pushed}
use aeryon.Dsp.Service.Accounts.{
  announced, in_front, answered, announced-append, answered-append, Progress, Room, Handled,
  received_by,
}

module _ ⦃o : F64⦄ (fft : List (ℕ × ℕ) → List (ℕ × ℕ))
    (in_place : (xs : List (ℕ × ℕ)) → length (fft xs) ≡ length xs) (clock : ℕ → Timestamp)
    (elapsed : ℕ → ℕ) (to_string : DspError → Str) (p : DspProfile) (b : DspKernelBackend)
    (sound : IsSound b) where
  fail_lem :
      (id : Option ℕ) (sensor first last : Option ℕ) (e : DspError) (w : Worker) (n : ℕ)
      → Room w n (suc n)
      → let v = fail fft clock elapsed to_string id sensor first last e w in
        (announced v.published ≡ announced w.published)
        × (answered v.published ≡ answered w.published ++ in_front id [])
        × (v.stats.calibrated_frames_received ≡ w.stats.calibrated_frames_received)
        × (v.stats.windows_emitted ≡ w.stats.windows_emitted)
        × (v.stats.windows_rejected ≡ w.stats.windows_rejected + 1)
        × (length v.stored ≡ length w.stored)
        × (v.assembler ≡ w.assembler)
  unfolding fail Stats.record_window_failure Stats.set_last_error
  fail_lem id sensor first last e w n room = (
    announced-append w.published _ ∙ append-nil _,
    answered-append w.published _,
    refl,
    refl,
    omega arith,
    refl,
    refl,
  )

  warn_lem :
      (ws : List Str) (s : DspStats)
      → let t = warn ws s in
        (t.calibrated_frames_received ≡ s.calibrated_frames_received)
        × (t.windows_emitted ≡ s.windows_emitted)
        × (t.windows_rejected ≡ s.windows_rejected)
  unfolding warn Stats.set_last_warning
  warn_lem [] s = (refl, refl, refl)
  warn_lem (x ∷ ws) s = (refl, refl, refl)

  succeed_lem :
      (r : DspWindowResult) (w : Worker) (n : ℕ)
      → Room w n (suc n)
      → let v = succeed fft clock elapsed to_string r w in
        (announced v.published ≡ announced w.published)
        × (answered v.published ≡ answered w.published ++ (r.window_id ∷ []))
        × (v.stats.calibrated_frames_received ≡ w.stats.calibrated_frames_received)
        × (v.stats.windows_emitted ≡ w.stats.windows_emitted + 1)
        × (v.stats.windows_rejected ≡ w.stats.windows_rejected)
        × (length v.stored ≡ length w.stored + 1)
        × (v.assembler ≡ w.assembler)
  unfolding succeed Stats.record_window_success Stats.update_average_duration
  succeed_lem r w n room =
      let same = warn_lem r.warnings w.stats in
      (
        announced-append w.published _ ∙ append-nil _,
        answered-append w.published _,
        same.0,
        omega (arith, same.1),
        same.2,
        length-append w.stored (r ∷ []),
        refl,
      )

  announce_lem :
      (c : CsiWindow) (w : Worker)
      → let v = announce fft clock elapsed to_string c w in
        (announced v.published ≡ announced w.published ++ (c.window_id ∷ []))
        × (answered v.published ≡ answered w.published)
        × (v.stats ≡ w.stats)
        × (v.stored ≡ w.stored)
        × (v.assembler ≡ w.assembler)
  unfolding announce
  announce_lem c w = (
    announced-append w.published _,
    answered-append w.published _ ∙ append-nil _,
    refl,
    refl,
    refl,
  )

  abbrev Window : CsiWindow → Worker → ℕ → Worker → Type 0
  Window c w n v = Progress w (c.window_id ∷ []) 0 0 v × Room v n n × (v.assembler ≡ w.assembler)

  -- The branch for a window announces it and answers it.
  pub handle_window_step :
      (c : CsiWindow) (w : Worker) (n : ℕ)
      → Room w n (suc n)
      → (v : Worker) × (handle_window fft clock elapsed to_string p b c w ≡ done v) × Window c w n v
  unfolding handle_window
  handle_window_step c w n room =
      let a = announce fft clock elapsed to_string c w in
      let u : Worker = record a { ticks = suc a.ticks } in
      let said = announce_lem c w in
      let shape =
        process_window-Describes fft in_place b sound (clock a.ticks) (elapsed a.ticks) c p in
      elim (Outcome-cases (process_window fft (clock a.ticks) (elapsed a.ticks) c p b)) [
        | inl (r, e) ↦
            let described : Describes c r = ground (arith, e, shape) in
            let end = succeed_lem r u n (ground (arith, said)) in
            let v = succeed fft clock elapsed to_string r u in
            let progress : Progress w (c.window_id ∷ []) 0 0 v = record {
              announces = end.0 ∙ said.0;
              answers =
                  end.1
                  ∙ ap (λ l. l ++ (r.window_id ∷ [])) said.1
                  ∙ ap (λ i. answered w.published ++ (i ∷ [])) described.identity.0;
              received = omega (arith, end.2);
              counted = omega (arith, end.3, end.4);
              stores = omega (arith, end.3, end.5);
            } in
            (v, rw (e, handle_window) refl, (progress, omega (arith, end.2, end.3, end.4), end.6))
        | inr (inl (x, e)) ↦
            let v =
              fail fft clock elapsed to_string (some c.window_id) (some c.sensor_id)
                (some c.first_sequence) (some c.last_sequence) x u in
            let end =
              fail_lem (some c.window_id) (some c.sensor_id) (some c.first_sequence)
                (some c.last_sequence) x u n (ground (arith, said)) in
            let progress : Progress w (c.window_id ∷ []) 0 0 v = record {
              announces = end.0 ∙ said.0;
              answers = end.1 ∙ ap (λ l. l ++ (c.window_id ∷ [])) said.1;
              received = omega (arith, end.2);
              counted = omega (arith, end.3, end.4);
              stores = omega (arith, end.3, end.5);
            } in
            (v, rw (e, handle_window) refl, (progress, omega (arith, end.2, end.3, end.4), end.6))
        | inr (inr e) ↦ absurd (ground (arith, e, shape))
      ]

  pub after_push :
      (w : Worker) (n : ℕ) (out : WindowAssembler × Result DspError (Option CsiWindow))
      → Room w (suc n) (suc n)
      → Handled w n out (handle_pushed fft clock elapsed to_string p b w out)
  unfolding handle_pushed Stats.record_frame_received
  after_push w n (s, err e) room =
      let u = received_by w s in
      let v =
        fail fft clock elapsed to_string none (Errors.sensor_id e) (Errors.sequence e)
          (Errors.sequence e) e u in
      let end =
        fail_lem none (Errors.sensor_id e) (Errors.sequence e) (Errors.sequence e) e u n
          (omega arith) in
      (
        v,
        refl,
        record {
          announces = end.0 ∙ sym (append-nil _);
          answers = end.1;
          received = omega (arith, end.2);
          counted = omega (arith, end.3, end.4);
          stores = omega (arith, end.3, end.5);
        },
        omega (arith, end.2, end.3, end.4),
        end.6,
      )
  after_push w n (s, ok none) room = (
    received_by w s,
    refl,
    record {
      announces = sym (append-nil _);
      answers = sym (append-nil _);
      received = omega arith;
      counted = omega arith;
      stores = refl;
    },
    omega arith,
    refl,
  )
  after_push w n (s, ok (some c)) room =
      let u = received_by w s in
      let (v, e, (progress, left, same)) = handle_window_step c u n (omega arith) in
      (
        v,
        e,
        record {
          announces = progress.announces;
          answers = progress.answers;
          received = omega (arith, progress.received);
          counted = omega (arith, progress.counted);
          stores = progress.stores;
        },
        left,
        same,
      )
