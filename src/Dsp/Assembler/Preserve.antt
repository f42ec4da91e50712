-- ===== src/Dsp/Assembler/Preserve.antt =====
-- `push` and `reset` keep the assembler's invariant, and a new assembler has it.
use aeryon.Base.{
  ℕ, ◌+◌, ◌≡◌, refl, sym, ◌∙◌, Option, none, some, ok, length, length-drop, last?-append, All-drop,
  arith, saturating_add,
}
use aeryon.Calibration.Frame.{CalibratedCsiFrame}
use aeryon.Dsp.Window.Validity.{Fits, Chain}
use aeryon.Dsp.Window.Chain.{Chain-drop}
use aeryon.Dsp.Assembler.{
  AssemblerConfig, WindowAssembler, fresh, reset, validate_candidate, count_rejected, enqueue, hop,
  push,
}
use aeryon.Dsp.Assembler.Invariant.{
  IsConfig, Near, Expects, Inv, source_after, extended, extended-Fits,
}
use aeryon.Dsp.Assembler.Push.{
  cut, enqueue_fields, enqueue_sizes, enqueue-Expects, rejected, buffered, emitted, push_effect,
}

count_rejected-Inv : (s : WindowAssembler) → Inv s → Inv (count_rejected s)
unfolding count_rejected
count_rejected-Inv s i = record {
  config = i.config;
  short = i.short;
  source = (i.source.0, same i.source.0 i.source.1);
  chain = i.chain;
  last_sequence = i.last_sequence;
  last_nanos = i.last_nanos;
}
  where
    same : (r : Option CalibratedCsiFrame) → Expects r s → Expects r (count_rejected s)
    same none x = x
    same (some g) x = x

-- Cutting a window from a full buffer.
hop-Expects :
    (t : WindowAssembler) (g : CalibratedCsiFrame) (n : ℕ)
    → Expects (some g) t
    → Expects (some g) (hop (record t { next_window_id = n }))
unfolding hop
hop-Expects t g n x =
    (x.0, x.1, x.2, x.3, x.4, x.5, All-drop (Fits g) t.config.hop_size_frames t.buffer x.6)

hop-Inv :
    (t : WindowAssembler) (g : CalibratedCsiFrame) (n : ℕ)
    → IsConfig t.config
    → Expects (some g) t
    → Chain (Near t.config.maximum_sequence_gap) none t.buffer
    → length t.buffer ≡ t.config.window_size_frames
    → (j : Inv (hop (record t { next_window_id = n }))) × (j.source.0 ≡ some g)
unfolding hop
hop-Inv t g n c x chain full = (
  record {
    config = c;
    short =
        omega
          (arith, length-drop t.config.hop_size_frames t.buffer, c.advance, c.overlap, c.window);
    source = (some g, hop-Expects t g n x);
    chain = Chain-drop (Near t.config.maximum_sequence_gap) t.config.hop_size_frames t.buffer chain;
    last_sequence = refl;
    last_nanos = refl;
  },
  refl,
)

enqueue-IsConfig :
    (s : WindowAssembler) (f : CalibratedCsiFrame)
    → IsConfig s.config
    → IsConfig (enqueue s f).config
enqueue-IsConfig s f c = rw (enqueue_fields s f).0 c

enqueue-Chain :
    (s : WindowAssembler) (f : CalibratedCsiFrame)
    → Chain (Near s.config.maximum_sequence_gap) none (extended s f)
    → Chain (Near (enqueue s f).config.maximum_sequence_gap) none (enqueue s f).buffer
enqueue-Chain s f c = rw ((enqueue_fields s f).0, (enqueue_fields s f).1) c

-- The assembler after a window was cut is in order, and holds later frames to the same frame.
pub cut-Inv :
    (s : WindowAssembler) (f : CalibratedCsiFrame) (i : Inv s)
    → validate_candidate s f ≡ ok tt
    → length s.buffer + 1 ≡ s.config.window_size_frames
    → (j : Inv (cut s f)) × (j.source.0 ≡ some (source_after i.source.0 f))
cut-Inv s f i h full =
    hop-Inv (enqueue s f) (source_after i.source.0 f)
      (saturating_add (enqueue s f).next_window_id 1) (enqueue-IsConfig s f i.config)
      (enqueue-Expects s f i.source.0 i.source.1 (extended-Fits s f i h).0)
      (enqueue-Chain s f (extended-Fits s f i h).1) (omega (arith, enqueue_sizes s f, full))

-- `push` keeps the assembler in order, whether it accepts the frame or not.
pub push-Inv : (s : WindowAssembler) (f : CalibratedCsiFrame) → Inv s → Inv (push s f).0
push-Inv s f i = elim (push_effect s f i) [
  | rejected e h p ↦ rw p (count_rejected-Inv s i)
  | buffered h k p ↦ rw p (record {
    config = enqueue-IsConfig s f i.config;
    short = omega (arith, enqueue_sizes s f);
    source = (
      some (source_after i.source.0 f),
      enqueue-Expects s f i.source.0 i.source.1 (extended-Fits s f i h).0,
    );
    chain = enqueue-Chain s f (extended-Fits s f i h).1;
    last_sequence =
        (enqueue_fields s f).3 ∙ sym (rw (enqueue_fields s f).1 (rw (last?-append s.buffer f)));
    last_nanos =
        (enqueue_fields s f).4 ∙ sym (rw (enqueue_fields s f).1 (rw (last?-append s.buffer f)));
  })
  | emitted w h full frames id p ↦ rw p (cut-Inv s f i h full).0
]

pub fresh-Inv : (c : AssemblerConfig) → IsConfig c → Inv (fresh c)
unfolding fresh
fresh-Inv c h = record {
  config = h;
  short = omega (arith, h.window);
  source = (none, (refl, refl, refl, refl, refl, refl, refl));
  chain = tt;
  last_sequence = refl;
  last_nanos = refl;
}

pub reset-Inv : (s : WindowAssembler) → Inv s → Inv (reset s)
unfolding reset
reset-Inv s i = record {
  config = i.config;
  short = omega (arith, i.config.window);
  source = (none, (refl, refl, refl, refl, refl, refl, refl));
  chain = tt;
  last_sequence = refl;
  last_nanos = refl;
}
