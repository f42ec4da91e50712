-- ===== src/Replay/Producer/Sound.antt =====
-- The task does not panic: its reader has a header.
use mathlib.Core.Path.{subst}
use aeryon.Base.{
  ℕ, ◌≡◌, Bool-cases, Option, none, some, inl, inr, List, [], ◌∷◌, Result, Bool, not, ◌&&◌, ◌||◌,
  ◌==◌, ltb, ok, err,
}
use aeryon.Base.Text.{Str}
use aeryon.Base.Outcomes.{Outcome, done, failed, panicked, Returns, Returns_mono, Outcome-cases}
use aeryon.Domain.Frame.{Timestamp}
use aeryon.Csi.Frame.{CsiFrame}
use aeryon.Csi.Fixture.{RawRecord, FixtureError, FixtureHeader, FixtureReader, new, next_frame}
use aeryon.Csi.Fixture.Calls.{Gave, next_frame-Gave}
use aeryon.Csi.Fixture.Order.{new_reads_in_order}
use aeryon.Replay.Config.{CsiReplayConfig}
use aeryon.Replay.Producer.{
  Observation, Producer, Loop, running, ended, aborted, go_on, open_fixture, accept, deliver,
  handle_read, read_next, open_next, step, produce, conclude_ended, run_producer, is_enough, leaves,
}

abbrev pub HasHeader : {Io : Type 0} → Option (FixtureReader Io) → Type 0
HasHeader none = Unit
HasHeader (some r) = (h : FixtureHeader) × (r.header ≡ some h)

-- The task goes on with such a reader, or it has ended.
abbrev pub Stands : {Io : Type 0} → Producer Io × Loop → Type 0
Stands (q, running) = HasHeader q.reader
Stands (q, ended clean) = Unit
Stands (q, aborted) = ⊥

module _ {Io Json : Type 0} (clock : ℕ → Timestamp) (from_str : Str → Result Json RawRecord)
    (to_string : FixtureError Io Json → Str) (config : CsiReplayConfig) where
  accept-Stands :
      (o : Observation Io) (f : CsiFrame) (p : Producer Io)
      → HasHeader p.reader
      → Stands (accept clock from_str to_string config o f p)
  unfolding accept
  accept-Stands o f p h = elim (Bool-cases (leaves o.wake)) [
    | inl left ↦ rw left tt
    | inr stays ↦ rw stays h
  ]

  deliver-Stands :
      (o : Observation Io) (f : CsiFrame) (p : Producer Io)
      → HasHeader p.reader
      → Stands (deliver clock from_str to_string config o f p)
  unfolding deliver
  deliver-Stands o f p h = elim (Bool-cases o.publishes) [
    | inr quiet ↦ rw (quiet, deliver) tt
    | inl heard ↦ elim (Bool-cases (p.frame_tx && not o.delivers)) [
      | inl shut ↦ rw (heard, deliver, shut) tt
      | inr ready ↦ rw (heard, deliver, ready) (accept-Stands o f _ h)
    ]
  ]

  handle_read-Stands :
      (o : Observation Io) (h : FixtureHeader) (r u : FixtureReader Io)
      (out : Outcome (FixtureError Io Json) (Option CsiFrame)) (p : Producer Io)
      → u.header ≡ some h
      → Gave from_str h r u out
      → Stands (handle_read clock from_str to_string config o out (record p { reader = some u }))
  unfolding handle_read
  handle_read-Stands o h r u (done none) p kept g =
      elim (Bool-cases (
        config.loop_playback
        && ((config.maximum_frames == 0) || ltb p.emitted config.maximum_frames))) [
          | inl again ↦ rw again tt
          | inr over ↦ rw over tt
        ]
  handle_read-Stands o h r u (done (some f)) p kept g = deliver-Stands o f _ (h, kept)
  handle_read-Stands o h r u (failed x) p kept g = tt
  handle_read-Stands o h r u panicked p kept g = absurd g

  read_next-Stands :
      (o : Observation Io) (h : FixtureHeader) (r : FixtureReader Io) (p : Producer Io)
      → r.header ≡ some h
      → Stands (read_next clock from_str to_string config o r p)
  unfolding read_next
  read_next-Stands o h r p e =
      let (kept, given) = next_frame-Gave from_str h r e in
      let call = next_frame from_str r in
      elim (Bool-cases o.cancelled) [
        | inl stop ↦ rw (stop, read_next) tt
        | inr on ↦ elim (Bool-cases (is_enough clock from_str to_string config p)) [
          | inl enough ↦ rw (on, read_next, enough) tt
          | inr more ↦
              rw (on, read_next, more) (handle_read-Stands o h r call.0 call.1 p kept given)
        ]
      ]

  open_fixture-HasHeader :
      (file : Result Io (List (Result Io Str)))
      → Returns (λ r. HasHeader (some r)) (open_fixture clock from_str to_string config file)
  unfolding open_fixture
  open_fixture-HasHeader (err e) = tt
  open_fixture-HasHeader (ok reads) =
      Returns_mono (new from_str reads) (λ r (h, e, _, _). (h, e))
        (new_reads_in_order from_str reads 0)

  open_next-Stands :
      (o : Observation Io) (p : Producer Io)
      → Stands (open_next clock from_str to_string config o p)
  unfolding open_next
  open_next-Stands o p =
      let opened = open_fixture-HasHeader o.file in
      elim (Outcome-cases (open_fixture clock from_str to_string config o.file)) [
        | inl (r, e) ↦ rw (e, open_next) (subst (Returns (λ r. HasHeader (some r))) e opened)
        | inr (inl (x, e)) ↦ rw (e, open_next) tt
        | inr (inr e) ↦ absurd (subst (Returns (λ r. HasHeader (some r))) e opened)
      ]

  step-Stands :
      (o : Observation Io) (p : Producer Io)
      → HasHeader p.reader
      → Stands (step clock from_str to_string config o p)
  unfolding step
  step-Stands o p h =
      elim p.reader
          as (λ x.
            HasHeader x
            → Stands (elim x as (λ _. Producer Io × Loop) [
              | none ↦ open_next clock from_str to_string config o p
              | some r ↦ read_next clock from_str to_string config o r p
            ])) [ none ↦ λ _. open_next-Stands o p | some r ↦ λ (g, e). read_next-Stands o g r p e ]
        h

  go_on-Stands :
      (rest : Producer Io → Producer Io × Loop) (out : Producer Io × Loop)
      → ((q : Producer Io) → HasHeader q.reader → Stands (rest q))
      → Stands out
      → Stands (go_on rest out)
  go_on-Stands rest (q, running) later h = later q h
  go_on-Stands rest (q, ended clean) later h = tt
  go_on-Stands rest (q, aborted) later h = absurd h

  produce-Stands :
      (os : List (Observation Io)) (p : Producer Io)
      → HasHeader p.reader
      → Stands (produce clock from_str to_string config os p)
  unfolding produce
  produce-Stands [] p h = h
  produce-Stands (o ∷ os) p h =
      go_on-Stands (produce clock from_str to_string config os)
        (step clock from_str to_string config o p) (λ q g. produce-Stands os q g)
        (step-Stands o p h)

  conclude_ended-Stands :
      (cancelled : Bool) (out : Producer Io × Loop)
      → Stands out
      → Stands (conclude_ended clock from_str to_string config cancelled out)
  conclude_ended-Stands cancelled (q, running) h = h
  conclude_ended-Stands cancelled (q, ended clean) h = tt
  conclude_ended-Stands cancelled (q, aborted) h = absurd h

  pub run_producer-Stands :
      (os : List (Observation Io)) (cancelled : Bool) (p : Producer Io)
      → HasHeader p.reader
      → Stands (run_producer clock from_str to_string config os cancelled p)
  unfolding run_producer
  run_producer-Stands os cancelled p h =
      conclude_ended-Stands cancelled (produce clock from_str to_string config os p)
        (produce-Stands os p h)
