-- ===== src/Runtime/CalibrationService/Steps.antt =====
-- One frame of the worker's loop.
use mathlib.Core.Path.{subst}
use mathlib.Core.List.{append-nil}
use aeryon.Base.{
  ℕ, suc, ◌≡◌, refl, sym, ap, ◌∙◌, Bool, true, false, Option, none, some, inl, inr, if◌then◌else◌,
  List, [], ◌∷◌, ◌++◌, map, arith,
}
use aeryon.Base.Text.{Str}
use aeryon.Base.Outcomes.{done, Returns, Outcome-cases}
use aeryon.Base.Floats.{F64}
use aeryon.Base.Singles.{F32, IsIeee}
use aeryon.Domain.Frame.{Timestamp}
use aeryon.Csi.Frame as Raw
use aeryon.Csi.Frame.{CsiFrame}
use aeryon.Calibration.Report.{CalibrationStageId}
use aeryon.Calibration.Errors as Errors
use aeryon.Calibration.Errors.{CalibrationError}
use aeryon.Calibration.Frame as Frame
use aeryon.Calibration.Frame.{CalibratedCsiFrame}
use aeryon.Calibration.Warnings.{warning_summary}
use aeryon.Calibration.Profile.{CalibrationProfile, stage_id, enabled_stages}
use aeryon.Calibration.Pipeline.{CalibrationPipeline, calibrate}
use aeryon.Calibration.Pipeline.Applied.{UnwrapsFirst}
use aeryon.Calibration.Pipeline.Calibrated.{IsCalibrated, calibrate-IsCalibrated}
use aeryon.Calibration.Pipeline.Failing.{IsOf}
use aeryon.Calibration.Pipeline.Failures.{calibrate-Concerns}
use aeryon.Runtime.CalibrationStats as Stats
use aeryon.Runtime.CalibrationStats.{CalibrationStats, CalibrationWorkerState, get_worker_state}
use aeryon.Runtime.CalibrationService.{Worker, warn, or_else, tick, succeed, fail, handle_frame}
use aeryon.Runtime.CalibrationService.Accounts.{
  answered, in_front, announced-append, answered-append, Calibrates, ended, refused, calibrated,
  Fits, forwarded, forwarded_none, Progress, Room,
}

-- An identifier that an error may name, or else the frame's, is the frame's.
or_else_lem : (n : ℕ) (x : Option ℕ) → IsOf n x → or_else x (some n) ≡ some n
or_else_lem n none h = refl
or_else_lem n (some m) h = ap some h

forwarded_one :
    (b : Bool) (sent : List CalibratedCsiFrame) (c : CalibratedCsiFrame)
    → (if b then sent ++ (c ∷ []) else sent) ≡ sent ++ forwarded b (c ∷ [])
forwarded_one true sent c = refl
forwarded_one false sent c = sym (append-nil sent)

warn_lem :
    (x : Option Str) (s : CalibrationStats)
    → let t = warn x s in
      (t.raw_frames_submitted ≡ s.raw_frames_submitted)
      × (t.frames_calibrated ≡ s.frames_calibrated)
      × (t.calibration_failures ≡ s.calibration_failures)
unfolding warn Stats.set_last_warning
warn_lem none s = (refl, refl, refl)
warn_lem (some x) s = (refl, refl, refl)

-- The worker when the calibration of its next frame begins.
abbrev begun : {V O E : Type 0} → Worker V O E → Worker V O E
begun w = tick (record w { stats = Stats.record_submitted w.stats })

abbrev pub pipeline_of : CalibrationProfile → CalibrationPipeline
pipeline_of p = record { profile = p }

module _ ⦃d : F64⦄ ⦃o : F32⦄ {V O E : Type 0} (clock : ℕ → Timestamp) (elapsed : ℕ → ℕ)
    (stage_elapsed : ℕ → CalibrationStageId → ℕ) (to_string : CalibrationError → Str)
    (ieee : IsIeee) (p : CalibrationProfile)
    (first : UnwrapsFirst (map stage_id (enabled_stages p.stages))) where
  succeed_lem :
      (f : CsiFrame) (c : CalibratedCsiFrame) (w : Worker V O E) (n : ℕ)
      → IsCalibrated f p c
      → Room w (suc n)
      → let v = succeed clock elapsed stage_elapsed to_string c (tick (begun w)) in
        Progress w (f ∷ []) (c ∷ []) v × Room v n
  unfolding succeed Stats.record_success Stats.record_submitted
  succeed_lem f c w n made room =
      let t =
        Stats.record_success (Frame.sequence c) c.calibrated_at.nanos c.report.duration_ns
          (Stats.record_submitted w.stats) in
      let (submitted, successes, failures) = warn_lem (warning_summary c.report) t in
      (
        record {
          answers =
              answered-append w.published _
              ∙ ap (λ x. answered w.published ++ (Raw.frame_id x ∷ [])) made.raw;
          announces = announced-append w.published _;
          sent = forwarded_one w.forwards w.sent c;
          forwards = refl;
          submitted = omega (arith, submitted, room);
          successes = omega (arith, successes, room);
          failures = omega (arith, failures, room);
        },
        (
          omega (arith, submitted, room),
          omega (arith, successes, room),
          omega (arith, failures, room),
        ),
      )

  fail_lem :
      (f : CsiFrame) (e : CalibrationError) (w : Worker V O E) (n : ℕ)
      → IsOf (Raw.frame_id f) (Errors.frame_id e)
      → Room w (suc n)
      → let v = fail clock elapsed stage_elapsed to_string f e (begun w) in
        Progress w (f ∷ []) [] v × Room v n
  unfolding fail Stats.record_failure Stats.set_last_error Stats.record_submitted
  fail_lem f e w n about room = (
    record {
      answers =
          answered-append w.published _
          ∙ ap (λ x. answered w.published ++ in_front x [])
              (or_else_lem (Raw.frame_id f) (Errors.frame_id e) about);
      announces = announced-append w.published _;
      sent = forwarded_none w.forwards w.sent;
      forwards = refl;
      submitted = omega (arith, room);
      successes = omega (arith, room);
      failures = omega (arith, room);
    },
    (omega (arith, room), omega (arith, room), omega (arith, room)),
  )

  pub handle_frame_answers :
      (f : CsiFrame) (w : Worker V O E) (n : ℕ)
      → Fits f
      → Room w (suc n)
      → (v : Worker V O E) × (cs : List CalibratedCsiFrame) × (handle_frame clock elapsed
            stage_elapsed to_string
            (pipeline_of p)
            f
            w
          ≡ done v)
        × Calibrates p (f ∷ []) cs
        × Progress w (f ∷ []) cs v
        × Room v n
  unfolding handle_frame
  handle_frame_answers f w n (links, few) room =
      let run =
        calibrate (stage_elapsed w.ticks) (clock w.ticks) (clock (suc w.ticks)) (elapsed w.ticks)
          (pipeline_of p) f in
      let returns : Returns (IsCalibrated f p) run =
        calibrate-IsCalibrated (stage_elapsed w.ticks) ieee (clock w.ticks) (clock (suc w.ticks))
          (elapsed w.ticks) p f links few first in
      elim (Outcome-cases run) [
        | inl (c, e) ↦
            let made : IsCalibrated f p c = subst (Returns (IsCalibrated f p)) e returns in
            let (progress, left) = succeed_lem f c w n made room in
            (_, c ∷ [], rw (e, handle_frame) refl, calibrated made ended, progress, left)
        | inr (inl (x, e)) ↦
            let (id, _) =
              calibrate-Concerns (stage_elapsed w.ticks) (clock w.ticks) (clock (suc w.ticks))
                (elapsed w.ticks) (pipeline_of p) f x e in
            let (progress, left) = fail_lem f x w n id room in
            (_, [], rw (e, handle_frame) refl, refused ended, progress, left)
        | inr (inr e) ↦ absurd (subst (Returns (IsCalibrated f p)) e returns)
      ]
