-- ===== src/Csi/Fixture/Calls.antt =====
-- What one call of `next_frame` on a reader gives.
use mathlib.Core.Path.{subst}
use aeryon.Base.{
  saturating_add, if◌then◌else◌, ℕ, ◌<◌, ◌≤◌, true, false, Option, none, some, List, [], ◌∷◌,
  length, Result, ok, err, ◌≡◌, refl, sym, Result-cases, inl, inr, arith,
}
use aeryon.Base.Outcomes.{Outcome, done, failed, panicked, Returns}
use aeryon.Base.Text.{Str, is_blank}
use aeryon.Csi.Frame as Frame
use aeryon.Csi.Frame.{CsiFrame, replay}
use aeryon.Csi.Frame.Validity.{IsValid, build, build_iff}
use aeryon.Csi.Fixture.{
  unknown, frame, FixtureHeader, FixtureFrameRecord, RawRecord, FixtureError, FixtureReader,
  metadata_of, radio_of, convert, frame_record_to_csi, handle_record, next_from, next_frame,
}

-- The sequence number comes after the last one.
abbrev pub IsLater : Option ℕ → ℕ → Type 0
IsLater none n = Unit
IsLater (some m) n = m < n

-- A valid frame of the header's sensor, from a replay.
abbrev pub IsFrameOf : FixtureHeader → CsiFrame → Type 0
IsFrameOf h c = IsValid c × (Frame.sensor_id c ≡ h.sensor_id) × (c.source ≡ replay)

abbrev parts_of : FixtureHeader → FixtureFrameRecord → CsiFrame
parts_of h f = record {
  metadata = metadata_of h.sensor_id f;
  receive_timestamp = record { nanos = f.capture_timestamp_nanos };
  center_frequency_hz = f.center_frequency_hz;
  bandwidth_hz = f.bandwidth_hz;
  receive_antennas = f.receive_antennas;
  transmit_antennas = f.transmit_antennas;
  subcarrier_indices = f.subcarrier_indices;
  samples = f.samples;
  source = replay;
  radio = radio_of f.radio;
}

built :
    (h : FixtureHeader) (f : FixtureFrameRecord) (c : CsiFrame)
    → build (parts_of h f) ≡ ok c
    → IsFrameOf h c × (Frame.sequence c ≡ f.sequence)
unfolding metadata_of
built h f c e =
    let (same, valid) = (build_iff (parts_of h f) c).0 e in
    subst (λ x. IsFrameOf h x × (Frame.sequence x ≡ f.sequence)) (sym same)
      ((valid, refl, refl), refl)

module _ {Io Json : Type 0} (from_str : Str → Result Json RawRecord) where
  -- What a call on `r` that leaves `u` returns.
  abbrev pub Gave :
      FixtureHeader
      → (r u : FixtureReader Io) → Outcome (FixtureError Io Json) (Option CsiFrame)
      → Type 0
  Gave h r u (done none) = (u.finished ≡ true) × (u.last_sequence ≡ r.last_sequence)
  Gave h r u (done (some c)) =
      IsFrameOf h c
      × IsLater r.last_sequence (Frame.sequence c)
      × (u.last_sequence ≡ some (Frame.sequence c))
      × (length u.reads < length r.reads)
  Gave h r u (failed e) = (u.last_sequence ≡ r.last_sequence) × (length u.reads < length r.reads)
  Gave h r u panicked = ⊥

  -- The header stays.
  abbrev pub Kept :
      FixtureHeader
      → FixtureReader Io
      → FixtureReader Io × Outcome (FixtureError Io Json) (Option CsiFrame)
      → Type 0
  Kept h r (u, o) = (u.header ≡ some h) × Gave h r u o

  abbrev IsOf : FixtureFrameRecord → FixtureHeader → FixtureReader Io → CsiFrame → Type 0
  IsOf f h r c =
      IsFrameOf h c × IsLater r.last_sequence f.sequence × (Frame.sequence c ≡ f.sequence)

  convert-IsOf :
      (f : FixtureFrameRecord) (h : FixtureHeader) (r : FixtureReader Io)
      → r.header ≡ some h
      → Returns (IsOf f h r) (convert from_str f r)
  unfolding convert
  convert-IsOf f h r e = elim (Result-cases (build (parts_of h f))) [
    | inl (c, made) ↦ ground (arith, e, made, built h f c made)
    | inr (_, refused) ↦ ground (arith, e, refused)
  ]

  handle_record-Gave :
      (d : Result Json RawRecord) (h : FixtureHeader) (r u : FixtureReader Io)
      → u.header ≡ some h
      → u.last_sequence ≡ r.last_sequence
      → length u.reads < length r.reads
      → Kept h r (handle_record from_str d u)
  unfolding handle_record frame_record_to_csi
  handle_record-Gave (err x) h r u e same less = (e, (same, less))
  handle_record-Gave (ok (RawRecord.header x)) h r u e same less = (e, (same, less))
  handle_record-Gave (ok (unknown x)) h r u e same less = (e, (same, less))
  handle_record-Gave (ok (frame f)) h r u e same less =
      let given = convert-IsOf f h u e in ground (arith, e, same, less, given)

  next_from-Gave :
      (reads : List (Result Io Str)) (h : FixtureHeader) (r u : FixtureReader Io)
      → u.header ≡ some h
      → u.last_sequence ≡ r.last_sequence
      → length reads ≤ length r.reads
      → Kept h r (next_from from_str reads u)
  unfolding next_from
  next_from-Gave [] h r u e same less = (e, (refl, same))
  next_from-Gave (err x ∷ reads) h r u e same less = (e, (same, omega (arith, less)))
  next_from-Gave (ok s ∷ reads) h r u e same less =
      let v : FixtureReader Io = record u { reads = reads; line = saturating_add u.line 1 } in
      let later = next_from-Gave reads h r v e same (omega (arith, less)) in
      let now = handle_record-Gave (from_str s) h r v e same (omega (arith, less)) in
      elim (is_blank s)
        as (λ b.
          Kept h r
            (if b then next_from from_str reads v else handle_record from_str (from_str s) v)) [
              | true ↦ later
              | false ↦ now
            ]

  -- A call on a reader with a header returns what it may, and never panics.
  pub next_frame-Gave :
      (h : FixtureHeader) (r : FixtureReader Io)
      → r.header ≡ some h
      → Kept h r (next_frame from_str r)
  unfolding next_frame
  next_frame-Gave h r e =
      let given = next_from-Gave r.reads h r r e refl (omega arith) in ground (arith, e, given)
