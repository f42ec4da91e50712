-- ===== src/Csi/Fixture/Order.antt =====
-- What the calls of `next_frame` on an opened reader give.
use mathlib.Core.Path.{subst}
use aeryon.Base.{
  saturating_add, zero, if◌then◌else◌, ℕ, suc, ◌<◌, ◌≤◌, true, false, Option, none, some, List, [],
  ◌∷◌, length, Result, ok, err, ◌≡◌, refl, ◌⊎◌, inl, inr, arith,
}
use aeryon.Base.Outcomes.{Outcome, done, failed, panicked, Returns, Returns_mono, Outcome-cases}
use aeryon.Base.Text.{Str, is_blank}
use aeryon.Csi.Frame as Frame
use aeryon.Csi.Frame.{CsiFrame, replay}
use aeryon.Csi.Fixture.{
  unknown, frame, FixtureHeader, RawRecord, RawHeader, FixtureError, FixtureReader, next_frame,
  check_header, handle_header, read_header, new,
}
use aeryon.Csi.Fixture.Calls.{IsLater, IsFrameOf, Gave, next_frame-Gave}

-- The frames are those of the header, and their sequence numbers rise strictly.
abbrev pub Ascends : FixtureHeader → Option ℕ → List CsiFrame → Type 0
Ascends h last [] = Unit
Ascends h last (c ∷ cs) =
    IsFrameOf h c × IsLater last (Frame.sequence c) × Ascends h (some (Frame.sequence c)) cs

check_header_returns :
    (Io Json : Type 0) (from_str : Str → Result Json RawRecord) (n : ℕ) (h : RawHeader)
    → Returns (λ (g : FixtureHeader). Unit {0}) (check_header {Io = Io} from_str n h)
unfolding check_header
check_header_returns Io Json from_str n h = ground arith

module _ {Io Json : Type 0} (from_str : Str → Result Json RawRecord) where
  -- The reader after `n` calls, and the frames that they return.
  pub reader_after : ℕ → FixtureReader Io → FixtureReader Io
  reader_after zero r = r
  reader_after (suc n) r = reader_after n (next_frame from_str r).0

  abbrev with_frame :
      Outcome (FixtureError Io Json) (Option CsiFrame) → List CsiFrame → List CsiFrame
  with_frame (done none) rest = rest
  with_frame (done (some c)) rest = c ∷ rest
  with_frame (failed e) rest = rest
  with_frame panicked rest = rest

  pub frames : ℕ → FixtureReader Io → List CsiFrame
  frames zero r = []
  frames (suc n) r = let (u, o) = next_frame from_str r in with_frame o (frames n u)

  pub frames_none : (r : FixtureReader Io) → frames zero r ≡ []
  unfolding frames
  frames_none r = refl

  pub frames_first :
      (n : ℕ) (r u : FixtureReader Io) (c : CsiFrame)
      → next_frame from_str r ≡ (u, done (some c))
      → frames (suc n) r ≡ c ∷ frames n u
  unfolding frames
  frames_first n r u c e = rw e refl

  with_frame-Ascends :
      (h : FixtureHeader) (r u : FixtureReader Io)
      (o : Outcome (FixtureError Io Json) (Option CsiFrame)) (rest : List CsiFrame)
      → Gave from_str h r u o
      → Ascends h u.last_sequence rest
      → Ascends h r.last_sequence (with_frame o rest)
  with_frame-Ascends h r u (done none) rest g later = subst (λ q. Ascends h q rest) g.1 later
  with_frame-Ascends h r u (done (some c)) rest (of, after, same, _) later =
      (of, after, subst (λ q. Ascends h q rest) same later)
  with_frame-Ascends h r u (failed x) rest g later = subst (λ q. Ascends h q rest) g.0 later
  with_frame-Ascends h r u panicked rest g later = absurd g

  pub frames-Ascends :
      (h : FixtureHeader) (n : ℕ) (r : FixtureReader Io)
      → r.header ≡ some h
      → Ascends h r.last_sequence (frames n r)
  unfolding frames
  frames-Ascends h zero r e = tt
  frames-Ascends h (suc n) r e =
      let (u, o) = next_frame from_str r in
      let (kept, given) = next_frame-Gave from_str h r e in
      with_frame-Ascends h r u o (frames n u) given (frames-Ascends h n u kept)

  moves_on :
      (h : FixtureHeader) (r u : FixtureReader Io)
      (o : Outcome (FixtureError Io Json) (Option CsiFrame))
      → Gave from_str h r u o
      → (u.finished ≡ true) ⊎ (length u.reads < length r.reads)
  moves_on h r u (done none) g = inl g.0
  moves_on h r u (done (some c)) (_, _, _, less) = inr less
  moves_on h r u (failed x) g = inr g.1
  moves_on h r u panicked g = absurd g

  reader_after_finished :
      (n : ℕ) (r : FixtureReader Io) → r.finished ≡ true → (reader_after n r).finished ≡ true
  unfolding reader_after next_frame
  reader_after_finished zero r e = e
  reader_after_finished (suc n) r e =
      let stays = reader_after_finished n r e in ground (arith, e, stays)

  -- After as many calls as there are reads left and one more, the reader is at its end.
  reader_after_ends :
      (h : FixtureHeader) (n : ℕ) (r : FixtureReader Io)
      → r.header ≡ some h
      → length r.reads < n
      → (reader_after n r).finished ≡ true
  unfolding reader_after
  reader_after_ends h zero r e less = absurd (omega (arith, less))
  reader_after_ends h (suc n) r e less =
      let (u, o) = next_frame from_str r in
      let (kept, given) = next_frame-Gave from_str h r e in
      elim (moves_on h r u o given) [
        | inl ended ↦ reader_after_finished n u ended
        | inr fewer ↦ reader_after_ends h n u kept (omega (arith, less, fewer))
      ]

  -- A reader that `new` has made of the stream `reads`.
  abbrev IsOpened : List (Result Io Str) → FixtureReader Io → Type 0
  IsOpened reads r =
      ((h : FixtureHeader) × (r.header ≡ some h))
      × (r.last_sequence ≡ none)
      × (length r.reads < length reads)

  handle_header-IsOpened :
      (all : List (Result Io Str)) (d : Result Json RawRecord) (u : FixtureReader Io)
      → u.last_sequence ≡ none
      → length u.reads < length all
      → Returns (IsOpened all) (handle_header from_str d u)
  unfolding handle_header
  handle_header-IsOpened all (err x) u e less = tt
  handle_header-IsOpened all (ok (frame f)) u e less = tt
  handle_header-IsOpened all (ok (unknown t)) u e less = tt
  handle_header-IsOpened all (ok (RawRecord.header x)) u e less =
      let given = check_header_returns Io Json from_str u.line x in
      elim (Outcome-cases (check_header {Io = Io} from_str u.line x)) [
        | inl (h, made) ↦ ground (arith, e, less, made)
        | inr (inl (x, refused)) ↦ ground (arith, refused)
        | inr (inr stuck) ↦ ground (arith, stuck, given)
      ]

  read_header-IsOpened :
      (all reads : List (Result Io Str)) (r : FixtureReader Io)
      → r.last_sequence ≡ none
      → length reads ≤ length all
      → Returns (IsOpened all) (read_header from_str reads r)
  unfolding read_header
  read_header-IsOpened all [] r e less = tt
  read_header-IsOpened all (err x ∷ reads) r e less = tt
  read_header-IsOpened all (ok s ∷ reads) r e less =
      let u : FixtureReader Io = record r { reads = reads; line = saturating_add r.line 1 } in
      let later = read_header-IsOpened all reads u e (omega (arith, less)) in
      elim (is_blank s)
        as (λ b.
          Returns (IsOpened all)
            (if b then read_header from_str reads u else handle_header from_str (from_str s) u)) [
              | true ↦ later
              | false ↦ handle_header-IsOpened all (from_str s) u e (omega (arith, less))
            ]

  -- For every stream, `new` fails or makes a reader with a header. From then on, for any number of
  -- calls of `next_frame`, whether they return frames or errors: the frames returned are valid replay
  -- frames of the header's sensor, and their sequence numbers rise strictly; and after as many calls as
  -- the stream has reads, the reader is finished.
  pub new_reads_in_order :
      (reads : List (Result Io Str)) (n : ℕ)
      → Returns
          (λ r.
            (h : FixtureHeader) × (r.header ≡ some h)
            × Ascends h none (frames n r)
            × (length reads ≤ n → (reader_after n r).finished ≡ true))
          (new from_str reads)
  unfolding new
  new_reads_in_order reads n =
      let start : FixtureReader Io = record {
        reads = reads;
        header = none;
        line = 0;
        last_sequence = none;
        finished = false;
      } in
      Returns_mono (read_header from_str reads start)
        (λ r ((h, e), first, fewer). (
          h,
          e,
          subst (λ q. Ascends h q (frames n r)) first (frames-Ascends h n r e),
          λ enough. reader_after_ends h n r e (omega (arith, fewer, enough)),
        ))
        (read_header-IsOpened reads reads start refl (omega arith))
