-- ===== src/Flow.antt =====
-- The way of a recording: the frames that the replay has put in the queue of the calibration worker
-- (core/runtime/src/calibration_service.rs), and what that hands on to the worker of the DSP
-- (core/dsp/src/service.rs).
mod Tests
use mathlib.Core.Path.{subst}
use aeryon.Base.{
  ℕ, zero, suc, ◌+◌, ◌<◌, ◌≤◌, ◌≡◌, refl, sym, ap, ◌∙◌, Bool, true, false, Option, none, some, List,
  [], ◌∷◌, ◌++◌, map, length, All, u64_max, arith,
}
use aeryon.Base.Text.{Str}
use aeryon.Base.Outcomes.{done}
use aeryon.Base.Floats.{F64}
use aeryon.Base.Singles.{F32, IsIeee}
use aeryon.Domain.Frame.{Timestamp}
use aeryon.Csi.Frame as Raw
use aeryon.Csi.Frame.{CsiFrame}
use aeryon.Csi.Fixture.{FixtureHeader}
use aeryon.Csi.Fixture.Calls.{IsLater, IsFrameOf}
use aeryon.Csi.Fixture.Order.{Ascends}
use aeryon.Calibration.Report.{CalibrationStageId}
use aeryon.Calibration.Errors.{CalibrationError}
use aeryon.Calibration.Frame.{CalibratedCsiFrame}
use aeryon.Calibration.Profile.{CalibrationProfile, stage_id, enabled_stages}
use aeryon.Calibration.Pipeline.Applied.{UnwrapsFirst}
use aeryon.Calibration.Pipeline.Calibrated.{IsCalibrated}
use aeryon.Dsp.Errors.{DspError}
use aeryon.Dsp.Backend.{DspKernelBackend, IsSound}
use aeryon.Dsp.Report.{DspProfile}
use aeryon.Dsp.Assembler.Invariant.{Inv}
use aeryon.Dsp.Service as Dsp
use aeryon.Dsp.Service.Accounts.{Finished}
use aeryon.Dsp.Service.Delivery.{run_worker_delivers}
use aeryon.Runtime.CalibrationService as Calibration
use aeryon.Runtime.CalibrationService.Accounts.{
  Calibrates, ended, refused, calibrated, Fits, forwarded,
}
use aeryon.Runtime.CalibrationService.Answers.{run_worker_answers}

IsLater-trans : (q : Option ℕ) (m n : ℕ) → IsLater q m → m < n → IsLater q n
IsLater-trans none m n a b = tt
IsLater-trans (some k) m n a b = omega (arith, a, b)

-- What rises from `m` on rises from what comes before `m`.
Ascends-mono :
    (h : FixtureHeader) (q : Option ℕ) (m : ℕ) (fs : List CsiFrame)
    → IsLater q m
    → Ascends h (some m) fs
    → Ascends h q fs
Ascends-mono h q m [] later rise = tt
Ascends-mono h q m (f ∷ fs) later (of, next, rise) =
    (of, IsLater-trans q m (Raw.sequence f) later next, rise)

Calibrates-Ascends :
    (p : CalibrationProfile) (h : FixtureHeader) (q : Option ℕ) {fs : List CsiFrame}
    {cs : List CalibratedCsiFrame}
    → Calibrates p fs cs
    → Ascends h q fs
    → Ascends h q (map (λ c. c.raw) cs)
Calibrates-Ascends p h q ended rise = tt
Calibrates-Ascends p h q (refused {f = f} rest) (of, later, rise) =
    Ascends-mono h q (Raw.sequence f) _ later
      (Calibrates-Ascends p h (some (Raw.sequence f)) rest rise)
Calibrates-Ascends p h q (calibrated {f = f} {c = c} {cs = cs} made rest) (of, later, rise) =
    subst
      (λ g.
        IsFrameOf h g
        × IsLater q (Raw.sequence g)
        × Ascends h (some (Raw.sequence g)) (map (λ (c : CalibratedCsiFrame). c.raw) cs))
      (sym made.raw) (of, later, Calibrates-Ascends p h (some (Raw.sequence f)) rest rise)

Calibrates-length :
    (p : CalibrationProfile) {fs : List CsiFrame} {cs : List CalibratedCsiFrame}
    → Calibrates p fs cs
    → length cs ≤ length fs
Calibrates-length p ended = omega arith
Calibrates-length p (refused rest) = omega (arith, Calibrates-length p rest)
Calibrates-length p (calibrated made rest) = omega (arith, Calibrates-length p rest)

module _ ⦃d : F64⦄ ⦃o : F32⦄ (clock : ℕ → Timestamp) (elapsed : ℕ → ℕ)
    (stage_elapsed : ℕ → CalibrationStageId → ℕ) (message : CalibrationError → Str) (ieee : IsIeee)
    (p : CalibrationProfile) (first : UnwrapsFirst (map stage_id (enabled_stages p.stages)))
    (fft : List (ℕ × ℕ) → List (ℕ × ℕ))
    (in_place : (xs : List (ℕ × ℕ)) → length (fft xs) ≡ length xs) (dsp_message : DspError → Str)
    (profile : DspProfile) (backend : DspKernelBackend) (sound : IsSound backend) where
  -- The frames that reach the DSP: calibrated ones of `fs`, valid, of the header's sensor, and in rising
  -- order; and what the worker of the DSP has done with them.
  abbrev pub Reaches :
      FixtureHeader → List CsiFrame → Dsp.Worker → List CalibratedCsiFrame → Dsp.Worker → Type 0
  Reaches h fs x cs y =
      Calibrates p fs cs
      × Ascends h none (map (λ c. c.raw) cs)
      × (Dsp.run_worker fft clock elapsed dsp_message profile backend cs x ≡ done y)
      × Finished x cs y

  -- By the facts of IEEE 754, with a transform that works in place and a sound backend, for frames of a
  -- recording in rising order, of at most 2^20 subcarriers and 2^32 - 1 links, and a profile that unwraps
  -- first if it does, from a calibration worker that has handed on nothing yet, and while no counter
  -- reaches the end of its range: both workers end without a panic or an error. The calibration hands on just calibrated frames of the
  -- recording, which are valid, of its sensor and in rising order; and the DSP has received each of them,
  -- and has announced and answered just the windows that the assembler cuts from them.
  pub recording-Reaches :
      {V O E : Type 0} (h : FixtureHeader) (fs : List CsiFrame) (w : Calibration.Worker V O E)
      (x : Dsp.Worker)
      → Ascends h none fs
      → All Fits fs
      → w.forwards ≡ true
      → w.sent ≡ []
      → w.stats.raw_frames_submitted + length fs ≤ u64_max
      → w.stats.frames_calibrated + length fs ≤ u64_max
      → w.stats.calibration_failures + length fs ≤ u64_max
      → Inv x.assembler
      → x.stats.calibrated_frames_received + length fs ≤ u64_max
      → x.stats.windows_emitted + length fs ≤ u64_max
      → x.stats.windows_rejected + length fs ≤ u64_max
      → (v : Calibration.Worker V O E) × (y : Dsp.Worker) × (Calibration.run_worker clock elapsed
            stage_elapsed message
            (record { profile = p })
            fs
            w
          ≡ done v)
        × Reaches h fs x v.sent y
  recording-Reaches h fs w x rise fit forwards unsent r1 r2 r3 i s1 s2 s3 =
      let (v, cs, ran, made, progress, _, _) =
        run_worker_answers clock elapsed stage_elapsed message ieee p first fs w fit r1 r2 r3 in
      let few = Calibrates-length p made in
      let (y, ran', finished) =
        run_worker_delivers fft in_place clock elapsed dsp_message profile backend sound cs x i
          (omega (arith, few, s1)) (omega (arith, few, s2)) (omega (arith, few, s3)) in
      let sent : cs ≡ v.sent = sym (
        progress.sent
        ∙ ap (λ l. l ++ forwarded w.forwards cs) unsent
        ∙ ap (λ b. forwarded b cs) forwards) in
      (
        v,
        y,
        ran,
        subst (λ l. Reaches h fs x l y) sent
            (made, Calibrates-Ascends p h none made rise, ran', finished),
      )
