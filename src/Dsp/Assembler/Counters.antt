-- ===== src/Dsp/Assembler/Counters.antt =====
-- The counters and the window identifiers over a stream of frames.
use mathlib.Core.Path.{subst}
use aeryon.Base.{
  ℕ, zero, suc, ◌+◌, ◌≤◌, ◌≡◌, refl, sym, ap, ◌∙◌, List, [], ◌∷◌, map, Result, length,
  saturating_add, u64_max, Option, arith,
}
use aeryon.Calibration.Frame.{CalibratedCsiFrame}
use aeryon.Dsp.Errors.{DspError}
use aeryon.Dsp.Window.{CsiWindow}
use aeryon.Dsp.Assembler.{AssemblerCounters, WindowAssembler, enqueue, hop, push, count_rejected}
use aeryon.Dsp.Assembler.Invariant.{Inv}
use aeryon.Dsp.Assembler.Push.{cut, enqueue_fields, rejected, buffered, emitted, push_effect}
use aeryon.Dsp.Assembler.Preserve.{push-Inv}
use aeryon.Dsp.Assembler.Sliding.{Run, push_all, record_result}

-- Identifiers that count up from `n`, and stay at the greatest `u64`.
abbrev pub ids_from : ℕ → ℕ → List ℕ
ids_from n zero = []
ids_from n (suc k) = n ∷ ids_from (saturating_add n 1) k

abbrev pub Small : AssemblerCounters → Type 0
Small c =
    (c.frames_accepted ≤ u64_max) × (c.frames_rejected ≤ u64_max) × (c.windows_emitted ≤ u64_max)

-- The counters of `r.final` are those of `s`, with the `n` frames of the stream and the windows of `r`.
pub record Counts (s : WindowAssembler) (n : ℕ) (r : Run) : Type 0 where
  pub accepted :
      r.final.counters.frames_accepted
      ≡ saturating_add s.counters.frames_accepted (length r.accepted)
  pub partition :
      (rejections : ℕ) × (n ≡ length r.accepted + rejections)
      × (r.final.counters.frames_rejected ≡ saturating_add s.counters.frames_rejected rejections)
  pub emitted :
      r.final.counters.windows_emitted
      ≡ saturating_add s.counters.windows_emitted (length r.windows)
  pub ids : map (λ w. w.window_id) r.windows ≡ ids_from s.next_window_id (length r.windows)

rejected_fields :
    (s : WindowAssembler)
    → let t = count_rejected s in
      (t.counters.frames_accepted ≡ s.counters.frames_accepted)
      × (t.counters.frames_rejected ≡ saturating_add s.counters.frames_rejected 1)
      × (t.counters.windows_emitted ≡ s.counters.windows_emitted)
      × (t.next_window_id ≡ s.next_window_id)
unfolding count_rejected
rejected_fields s = (refl, refl, refl, refl)

enqueue_counters :
    (s : WindowAssembler) (f : CalibratedCsiFrame)
    → let t = enqueue s f in
      (t.counters.frames_accepted ≡ saturating_add s.counters.frames_accepted 1)
      × (t.counters.frames_rejected ≡ s.counters.frames_rejected)
      × (t.counters.windows_emitted ≡ s.counters.windows_emitted)
unfolding enqueue
enqueue_counters s f = ground arith

cut_counters :
    (s : WindowAssembler) (f : CalibratedCsiFrame)
    → let t = cut s f in
      (t.counters.frames_accepted ≡ saturating_add s.counters.frames_accepted 1)
      × (t.counters.frames_rejected ≡ s.counters.frames_rejected)
      × (t.counters.windows_emitted ≡ saturating_add s.counters.windows_emitted 1)
      × (t.next_window_id ≡ saturating_add s.next_window_id 1)
unfolding hop
cut_counters s f =
    let c = enqueue_counters s f in
    (
      c.0,
      c.1,
      ap (λ n. saturating_add n 1) c.2,
      ap (λ n. saturating_add n 1) (enqueue_fields s f).2,
    )

module _ (s : WindowAssembler) (f : CalibratedCsiFrame) (n : ℕ) where
  Counts-rejected : (r : Run) → Counts (count_rejected s) n r → Counts s (suc n) r
  Counts-rejected r c =
      let t = rejected_fields s in
      let (k, total, count) = c.partition in
      record {
        accepted = omega (arith, c.accepted, t);
        partition = (suc k, omega arith, omega (arith, count, t));
        emitted = omega (arith, c.emitted, t);
        ids = c.ids ∙ ap (λ m. ids_from m (length r.windows)) t.3;
      }

  Counts-buffered :
      (r : Run)
      → Counts (enqueue s f) n r
      → Counts s (suc n) (record r { accepted = f ∷ r.accepted })
  Counts-buffered r c =
      let t = enqueue_counters s f in
      let (k, total, count) = c.partition in
      record {
        accepted = omega (arith, c.accepted, t);
        partition = (k, omega arith, omega (arith, count, t));
        emitted = omega (arith, c.emitted, t);
        ids = c.ids ∙ ap (λ m. ids_from m (length r.windows)) (enqueue_fields s f).2;
      }

  Counts-emitted :
      (r : Run) (w : CsiWindow)
      → w.window_id ≡ s.next_window_id
      → Counts (cut s f) n r
      → Counts s (suc n) (record r { accepted = f ∷ r.accepted; windows = w ∷ r.windows })
  Counts-emitted r w id c =
      let t = cut_counters s f in
      let (k, total, count) = c.partition in
      record {
        accepted = omega (arith, c.accepted, t);
        partition = (k, omega arith, omega (arith, count, t));
        emitted = omega (arith, c.emitted, t);
        ids = λ i. id i ∷ (c.ids ∙ ap (λ m. ids_from m (length r.windows)) t.3) i;
      }

abbrev After :
    WindowAssembler
    → CalibratedCsiFrame
    → List CalibratedCsiFrame
    → WindowAssembler × Result DspError (Option CsiWindow)
    → Type 0
After s f fs (t, result) = Counts s (suc (length fs)) (record_result f result (push_all t fs))

abbrev Later :
    List CalibratedCsiFrame → WindowAssembler × Result DspError (Option CsiWindow) → Type 0
Later fs (t, result) = Small t.counters → Counts t (length fs) (push_all t fs)

-- Over a stream of frames, from counters below the greatest `u64`: each frame is counted once, as
-- accepted or as rejected; each window is counted; and the windows are numbered without a gap from
-- the next identifier on. All counting stops at the greatest `u64`.
pub push_all-Counts :
    (s : WindowAssembler) (fs : List CalibratedCsiFrame)
    → Inv s
    → Small s.counters
    → Counts s (length fs) (push_all s fs)
unfolding push_all
push_all-Counts s [] i small = record {
  accepted = omega arith;
  partition = (0, omega arith, omega arith);
  emitted = omega arith;
  ids = refl;
}
push_all-Counts s (f ∷ fs) i small =
    let later = push_all-Counts (push s f).0 fs (push-Inv s f i) in
    elim (push_effect s f i) [
      | rejected e h p ↦ subst (After s f fs) (sym p) (
          Counts-rejected s f (length fs) (push_all (count_rejected s) fs)
            (subst (Later fs) p later (omega (arith, rejected_fields s))))
      | buffered h k p ↦ subst (After s f fs) (sym p) (
          Counts-buffered s f (length fs) (push_all (enqueue s f) fs)
            (subst (Later fs) p later (omega (arith, enqueue_counters s f))))
      | emitted w h full frames id p ↦ subst (After s f fs) (sym p) (
          Counts-emitted s f (length fs) (push_all (cut s f) fs) w id
            (subst (Later fs) p later (omega (arith, cut_counters s f))))
    ]
