-- ===== src/Dsp/Assembler/Push.antt =====
-- What `push` does on each branch, and that it keeps the invariant.
use mathlib.Core.Path.{subst}
use aeryon.Base.{
  ℕ, ◌+◌, ◌<◌, ◌≡◌, sym, ap, ◌∙◌, inl, inr, Option, none, some, [], ◌∷◌, ok, err, length,
  length-append, take, take_all, All, arith, saturating_add, Result-cases, Bool-cases, ltb, ltb→lt,
}
use aeryon.Calibration.Frame as Frame
use aeryon.Calibration.Frame.{CalibratedCsiFrame}
use aeryon.Dsp.Errors.{DspError}
use aeryon.Dsp.Window
use aeryon.Dsp.Window.{CsiWindow}
use aeryon.Dsp.Window.Validity.{Fits, Follows, try_new_of_Fits}
use aeryon.Dsp.Window.Chain.{Chain-mono}
use aeryon.Dsp.Assembler.{
  WindowAssembler, validate_candidate, count_rejected, enqueue, hop, emit, push,
}
use aeryon.Dsp.Assembler.Invariant.{
  Near, Expects, Inv, source_after, Follows-of_Near, extended, extended-Fits,
}

-- The assembler after a candidate was accepted and before a window is cut.
pub enqueue_fields :
    (s : WindowAssembler) (f : CalibratedCsiFrame)
    → let t = enqueue s f in
      (t.config ≡ s.config)
      × (t.buffer ≡ extended s f)
      × (t.next_window_id ≡ s.next_window_id)
      × (t.last_sequence ≡ some (Frame.sequence f))
      × (t.last_capture_nanos ≡ some (Frame.capture_timestamp f).nanos)
unfolding enqueue
enqueue_fields s f = ground arith

enqueue_first :
    (s : WindowAssembler) (f : CalibratedCsiFrame)
    → s.expected_sensor ≡ none
    → let t = enqueue s f in
      (t.expected_sensor ≡ some (Frame.sensor_id f))
      × (t.expected_rx ≡ some (Frame.receive_antennas f))
      × (t.expected_tx ≡ some (Frame.transmit_antennas f))
      × (t.expected_subcarriers ≡ some (Frame.subcarrier_indices f))
      × (t.expected_profile_id ≡ some f.profile_id)
      × (t.expected_profile_version ≡ some f.profile_version)
unfolding enqueue
enqueue_first s f h = ground arith

enqueue_later :
    (s : WindowAssembler) (f : CalibratedCsiFrame) {sensor : ℕ}
    → s.expected_sensor ≡ some sensor
    → let t = enqueue s f in
      (t.expected_sensor ≡ s.expected_sensor)
      × (t.expected_rx ≡ s.expected_rx)
      × (t.expected_tx ≡ s.expected_tx)
      × (t.expected_subcarriers ≡ s.expected_subcarriers)
      × (t.expected_profile_id ≡ s.expected_profile_id)
      × (t.expected_profile_version ≡ s.expected_profile_version)
unfolding enqueue
enqueue_later s f h = ground arith

pub enqueue-Expects :
    (s : WindowAssembler) (f : CalibratedCsiFrame) (r : Option CalibratedCsiFrame)
    → Expects r s
    → All (Fits (source_after r f)) (extended s f)
    → Expects (some (source_after r f)) (enqueue s f)
enqueue-Expects s f none x a =
    let e = enqueue_first s f x.0 in
    (e.0, e.1, e.2, e.3, e.4, e.5, subst (All (Fits f)) (sym (enqueue_fields s f).1) a)
enqueue-Expects s f (some g) x a =
    let e = enqueue_later s f x.0 in
    (
      e.0 ∙ x.0,
      e.1 ∙ x.1,
      e.2 ∙ x.2,
      e.3 ∙ x.3,
      e.4 ∙ x.4,
      e.5 ∙ x.5,
      subst (All (Fits g)) (sym (enqueue_fields s f).1) a,
    )

-- The assembler after a window was cut.
abbrev pub cut : WindowAssembler → CalibratedCsiFrame → WindowAssembler
cut s f =
    hop (record (enqueue s f) { next_window_id = saturating_add (enqueue s f).next_window_id 1 })

-- The three branches of `push` that a call can take. In particular the capacity test and the window's
-- own validation never refuse.
pub data Pushed (s : WindowAssembler) (f : CalibratedCsiFrame) : Type 0 where
  rejected :
      (e : DspError)
      → validate_candidate s f ≡ err e
      → push s f ≡ (count_rejected s, err e)
      → Pushed s f
  buffered :
      validate_candidate s f ≡ ok tt
      → length s.buffer + 1 < s.config.window_size_frames
      → push s f ≡ (enqueue s f, ok none)
      → Pushed s f
  emitted :
      (w : CsiWindow)
      → validate_candidate s f ≡ ok tt
      → length s.buffer + 1 ≡ s.config.window_size_frames
      → w.frames ≡ extended s f
      → w.window_id ≡ s.next_window_id
      → push s f ≡ (cut s f, ok (some w))
      → Pushed s f

emit_ok :
    (t : WindowAssembler) {w : CsiWindow}
    → Window.try_new t.next_window_id (take t.config.window_size_frames t.buffer) ≡ ok w
    → emit t ≡ (hop (record t { next_window_id = saturating_add t.next_window_id 1 }), ok (some w))
unfolding emit
emit_ok t h = rw (h, emit)

pub enqueue_sizes :
    (s : WindowAssembler) (f : CalibratedCsiFrame)
    → (length (enqueue s f).buffer ≡ length s.buffer + 1)
      × ((enqueue s f).config.window_size_frames ≡ s.config.window_size_frames)
enqueue_sizes s f =
    let t = enqueue_fields s f in
    (
      ap length t.1
          ∙ (let e : length (extended s f) ≡ length s.buffer + 1 =
                omega (arith, length-append s.buffer (f ∷ [])) in
              e),
      ap (λ c. c.window_size_frames) t.0,
    )

push_short :
    (s : WindowAssembler) (f : CalibratedCsiFrame)
    → Inv s
    → validate_candidate s f ≡ ok tt
    → length s.buffer + 1 < s.config.window_size_frames
    → push s f ≡ (enqueue s f, ok none)
unfolding push
push_short s f i h k = ground (arith, enqueue_sizes s f, i.short, i.config.room)

push_full :
    (s : WindowAssembler) (f : CalibratedCsiFrame)
    → Inv s
    → validate_candidate s f ≡ ok tt
    → length s.buffer + 1 ≡ s.config.window_size_frames
    → push s f ≡ emit (enqueue s f)
unfolding push
push_full s f i h k = ground (arith, enqueue_sizes s f, i.short, i.config.room)

-- On an assembler in order, every call of `push` takes one of the three branches.
pub push_effect : (s : WindowAssembler) (f : CalibratedCsiFrame) → Inv s → Pushed s f
push_effect s f i = elim (Result-cases (validate_candidate s f)) [
  | inr (e, h) ↦ rejected e h (unfold push in rw (h, push))
  | inl (u, h) ↦ elim (Bool-cases (ltb (length s.buffer + 1) s.config.window_size_frames)) [
    | inl k ↦ buffered h (ltb→lt _ _ k) (push_short s f i h (ltb→lt _ _ k))
    | inr k ↦
        let full : length s.buffer + 1 ≡ s.config.window_size_frames = ground (arith, i.short) in
        let t = enqueue_fields s f in
        let size : length (extended s f) ≡ s.config.window_size_frames =
          omega (arith, length-append s.buffer (f ∷ [])) in
        let (fits, chain) = extended-Fits s f i h in
        let gap = s.config.maximum_sequence_gap in
        let ordered =
          Chain-mono (Near gap) Follows (Follows-of_Near gap) none (extended s f) chain in
        let source = source_after i.source.0 f in
        let (w, made, frames, id) =
          try_new_of_Fits s.next_window_id source (extended s f) (omega arith) fits ordered in
        emitted w h full frames id (
          push_full s f i h full
          ∙ emit_ok (enqueue s f) (
              rw (t.0, t.1, t.2)
                (rw (take_all s.config.window_size_frames (extended s f) (omega arith)) made)))
  ]
]

-- Where the accepted frame completes a window, `push` leaves the assembler that cut it.
pub push-cut :
    (s : WindowAssembler) (f : CalibratedCsiFrame)
    → Inv s
    → validate_candidate s f ≡ ok tt
    → length s.buffer + 1 ≡ s.config.window_size_frames
    → (push s f).0 ≡ cut s f
push-cut s f i h full = elim (push_effect s f i) [
  | rejected e k p ↦ cc (let impossible : ok tt ≡ err e = sym h ∙ k in impossible)
  | buffered k short p ↦ absurd (omega arith)
  | emitted w k size frames id p ↦ ap (λ o. o.0) p
]
