-- ===== src/Dsp/Assembler/Sliding.antt =====
-- The assembler against its specification: the windows that it emits are the sliding windows of the
-- frames that it accepts.
use mathlib.Core.Path.{ap₂, subst}
use mathlib.Core.List.{append_assoc, append-nil}
use aeryon.Base.{
  ℕ, zero, suc, ◌+◌, ◌*◌, ◌≤◌, ◌<◌, ◌≡◌, refl, sym, ap, ◌∙◌, Option, none, some, List, [], ◌∷◌,
  ◌++◌, map, Result, ok, err, length, length-append, take, take_all, take-append, drop, drop-append,
  drop-drop, arith,
}
use aeryon.Calibration.Frame.{CalibratedCsiFrame}
use aeryon.Dsp.Errors.{DspError}
use aeryon.Dsp.Window.{CsiWindow}
use aeryon.Dsp.Assembler.{AssemblerConfig, WindowAssembler, enqueue, hop, push, count_rejected}
use aeryon.Dsp.Assembler.Invariant.{Inv, extended}
use aeryon.Dsp.Assembler.Push.{cut, enqueue_fields, rejected, buffered, emitted, push_effect}
use aeryon.Dsp.Assembler.Preserve.{push-Inv}

-- The first `n` windows of `size` frames, each `step` frames after the one before.
abbrev pub sliding : (size step n : ℕ) → List CalibratedCsiFrame → List (List CalibratedCsiFrame)
sliding size step zero fs = []
sliding size step (suc n) fs = take size fs ∷ sliding size step n (drop step fs)

-- What a stream of calls of `push` leaves: the assembler, the frames that it accepted, and the windows.
pub record Run : Type 0 where
  pub final : WindowAssembler
  pub accepted : List CalibratedCsiFrame
  pub windows : List CsiWindow

abbrev pub record_result : CalibratedCsiFrame → Result DspError (Option CsiWindow) → Run → Run
record_result f (err e) r = r
record_result f (ok none) r = record r { accepted = f ∷ r.accepted }
record_result f (ok (some w)) r = record r { accepted = f ∷ r.accepted; windows = w ∷ r.windows }

unfoldable pub push_all : WindowAssembler → List CalibratedCsiFrame → Run
push_all s [] = record { final = s; accepted = []; windows = [] }
push_all s (f ∷ fs) = let (s', result) = push s f in record_result f result (push_all s' fs)

-- The windows are the sliding windows of what was retained and what was accepted; what follows the
-- last window is retained.
pub record Slides (s : WindowAssembler) (r : Run) : Type 0 where
  pub frames :
      map (λ w. w.frames) r.windows
      ≡ sliding s.config.window_size_frames s.config.hop_size_frames
          (length r.windows)
          (s.buffer ++ r.accepted)
  pub rest :
      r.final.buffer ≡ drop (length r.windows * s.config.hop_size_frames) (s.buffer ++ r.accepted)
  pub config : r.final.config ≡ s.config

module _ (s t : WindowAssembler) (f : CalibratedCsiFrame) (r : Run) (later : Slides t r) where
  Slides-rejected : t ≡ count_rejected s → Slides s r
  unfolding count_rejected
  Slides-rejected e = record {
    frames =
        later.frames
        ∙ ap₂
            (λ (c : AssemblerConfig) l.
              sliding c.window_size_frames c.hop_size_frames (length r.windows) l)
            (ap (λ x. x.config) e) (ap (λ x. x.buffer ++ r.accepted) e);
    rest =
        later.rest
        ∙ ap₂ (λ (c : AssemblerConfig) l. drop (length r.windows * c.hop_size_frames) l)
            (ap (λ x. x.config) e) (ap (λ x. x.buffer ++ r.accepted) e);
    config = later.config ∙ ap (λ x. x.config) e;
  }

  Slides-buffered :
      t.config ≡ s.config
      → t.buffer ≡ extended s f
      → Slides s (record r { accepted = f ∷ r.accepted })
  Slides-buffered ce be =
      let joined : t.buffer ++ r.accepted ≡ s.buffer ++ (f ∷ r.accepted) =
        ap (λ l. l ++ r.accepted) be ∙ append_assoc s.buffer (f ∷ []) r.accepted in
      record {
        frames =
            later.frames
            ∙ ap₂
                (λ (c : AssemblerConfig) l.
                  sliding c.window_size_frames c.hop_size_frames (length r.windows) l)
                ce joined;
        rest =
            later.rest
            ∙ ap₂ (λ (c : AssemblerConfig) l. drop (length r.windows * c.hop_size_frames) l) ce
                joined;
        config = later.config ∙ ce;
      }

  Slides-emitted :
      (w : CsiWindow)
      → t.config ≡ s.config
      → t.buffer ≡ drop s.config.hop_size_frames (extended s f)
      → w.frames ≡ extended s f
      → length (extended s f) ≡ s.config.window_size_frames
      → s.config.hop_size_frames ≤ s.config.window_size_frames
      → Slides s (record r { accepted = f ∷ r.accepted; windows = w ∷ r.windows })
  Slides-emitted w ce be we size le =
      let whole = s.buffer ++ (f ∷ r.accepted) in
      let regroup : extended s f ++ r.accepted ≡ whole =
        append_assoc s.buffer (f ∷ []) r.accepted in
      let h = s.config.hop_size_frames in
      let n = length r.windows in
      let joined : t.buffer ++ r.accepted ≡ drop h whole =
        ap (λ l. l ++ r.accepted) be
        ∙ sym (drop-append h (extended s f) r.accepted (omega arith))
        ∙ ap (drop h) regroup in
      let first : extended s f ≡ take s.config.window_size_frames whole =
        sym (take_all s.config.window_size_frames (extended s f) (omega arith))
        ∙ sym (take-append s.config.window_size_frames (extended s f) r.accepted (omega arith))
        ∙ ap (take s.config.window_size_frames) regroup in
      record {
        frames = ap₂ ◌∷◌ (we ∙ first) (
            later.frames
            ∙ ap₂ (λ (c : AssemblerConfig) l. sliding c.window_size_frames c.hop_size_frames n l) ce
                joined);
        rest =
            later.rest
            ∙ ap₂ (λ (c : AssemblerConfig) l. drop (n * c.hop_size_frames) l) ce joined
            ∙ drop-drop h (n * h) whole
            ∙ ap (λ m. drop m whole) (let e : h + n * h ≡ suc n * h = grind arith in e);
        config = later.config ∙ ce;
      }

pub cut_fields :
    (s : WindowAssembler) (f : CalibratedCsiFrame)
    → ((cut s f).config ≡ s.config)
      × ((cut s f).buffer ≡ drop s.config.hop_size_frames (extended s f))
unfolding hop
cut_fields s f =
    let t = enqueue_fields s f in
    (t.0, ap₂ (λ (c : AssemblerConfig) l. drop c.hop_size_frames l) t.0 t.1)

abbrev After :
    WindowAssembler
    → CalibratedCsiFrame
    → List CalibratedCsiFrame
    → WindowAssembler × Result DspError (Option CsiWindow)
    → Type 0
After s f fs (t, result) = Slides s (record_result f result (push_all t fs))

abbrev Later :
    List CalibratedCsiFrame → WindowAssembler × Result DspError (Option CsiWindow) → Type 0
Later fs (t, result) = Slides t (push_all t fs)

push_all-Slides :
    (s : WindowAssembler) (fs : List CalibratedCsiFrame) → Inv s → Slides s (push_all s fs)
unfolding push_all
push_all-Slides s [] i = record {
  frames = refl;
  rest =
      sym (append-nil s.buffer)
      ∙ ap (λ m. drop m (s.buffer ++ []))
          (let e : 0 ≡ 0 * s.config.hop_size_frames = omega arith in e);
  config = refl;
}
push_all-Slides s (f ∷ fs) i =
    let later = push_all-Slides (push s f).0 fs (push-Inv s f i) in
    elim (push_effect s f i) [
      | rejected e h p ↦ subst (After s f fs) (sym p) (
          Slides-rejected s (count_rejected s) f (push_all (count_rejected s) fs)
            (subst (Later fs) p later) refl)
      | buffered h k p ↦
          let t = enqueue s f in
          let fields = enqueue_fields s f in
          subst (After s f fs) (sym p)
            (Slides-buffered s t f (push_all t fs) (subst (Later fs) p later) fields.0 fields.1)
      | emitted w h full frames id p ↦
          let t = cut s f in
          let fields = cut_fields s f in
          subst (After s f fs) (sym p) (
            Slides-emitted s t f (push_all t fs) (subst (Later fs) p later) w fields.0 fields.1
              frames (omega (arith, length-append s.buffer (f ∷ []), full)) i.config.overlap)
    ]

record_result-final :
    (f : CalibratedCsiFrame) (result : Result DspError (Option CsiWindow)) (r : Run)
    → (record_result f result r).final ≡ r.final
record_result-final f (err e) r = refl
record_result-final f (ok none) r = refl
record_result-final f (ok (some w)) r = refl

-- No stream of frames brings the assembler out of order.
pub push_all-Inv :
    (s : WindowAssembler) (fs : List CalibratedCsiFrame) → Inv s → Inv (push_all s fs).final
unfolding push_all
push_all-Inv s [] i = i
push_all-Inv s (f ∷ fs) i =
    subst Inv (sym (record_result-final f (push s f).1 (push_all (push s f).0 fs)))
      (push_all-Inv (push s f).0 fs (push-Inv s f i))

-- On an assembler in order, for every stream of frames: the windows that are emitted are the sliding
-- windows, of the configured size and hop, of the frames retained at the start followed by those
-- accepted; afterwards the frames behind the last window's hop are retained, fewer than a window.
pub push_all_sliding :
    (s : WindowAssembler) (fs : List CalibratedCsiFrame)
    → Inv s
    → Slides s (push_all s fs) × (length (push_all s fs).final.buffer < s.config.window_size_frames)
push_all_sliding s fs i =
    let slides = push_all-Slides s fs i in
    (
      slides,
      omega (arith, (push_all-Inv s fs i).short, ap (λ c. c.window_size_frames) slides.config),
    )
