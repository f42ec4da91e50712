-- ===== src/Dsp/Assembler/Tumbling.antt =====
-- Windows that do not overlap: the hop is the whole window.
use aeryon.Base.{◌+◌, ◌≡◌, ◌∙◌, [], ◌∷◌, ok, length, length-append, drop_all, last?, arith}
use aeryon.Calibration.Frame.{CalibratedCsiFrame}
use aeryon.Dsp.Window.Validity.{Matches, AllFinite}
use aeryon.Dsp.Assembler.{WindowAssembler, validate_candidate, push}
use aeryon.Dsp.Assembler.Invariant.{
  Inv, Near?, Matches?, source_after, extended, validate_candidate_iff,
}
use aeryon.Dsp.Assembler.Push.{cut, push-cut}
use aeryon.Dsp.Assembler.Preserve.{cut-Inv}
use aeryon.Dsp.Assembler.Sliding.{cut_fields}

-- If the hop is the whole window and `f` completes a window, then the next frame that matches and is
-- finite is accepted whatever its sequence number and timestamp are.
pub tumbling_accepts :
    (s : WindowAssembler) (f g : CalibratedCsiFrame) (i : Inv s)
    → s.config.hop_size_frames ≡ s.config.window_size_frames
    → length s.buffer + 1 ≡ s.config.window_size_frames
    → validate_candidate s f ≡ ok tt
    → AllFinite g
    → Matches (source_after i.source.0 f) g
    → validate_candidate (push s f).0 g ≡ ok tt
tumbling_accepts s f g i whole full valid finite matches =
    let (j, source) = cut-Inv s f i valid full in
    let fields = cut_fields s f in
    let size : length (extended s f) ≡ s.config.window_size_frames =
      omega (arith, length-append s.buffer (f ∷ [])) in
    let empty : (cut s f).buffer ≡ [] =
      fields.1 ∙ drop_all s.config.hop_size_frames (extended s f) (omega arith) in
    let near : Near? (cut s f).config.maximum_sequence_gap (last? (cut s f).buffer) g =
      rw empty tt in
    let matches_cut : Matches? j.source.0 g = rw source matches in
    rw (push-cut s f i valid full)
      ((validate_candidate_iff (cut s f) g j).1 (finite, matches_cut, near))
