-- ===== src/Replay/Producer/Order.antt =====
-- Which frames the producer hands on, and when it ends.
use mathlib.Core.Path.{subst}
use aeryon.Base.{
  ℕ, u64_max, ◌≤◌, ◌<◌, ◌≡◌, ◌⊎◌, refl, sym, ap, ◌∙◌, Bool, true, false, none, some, inl, inr, List,
  [], ◌∷◌, length, Result, ok, err,
}
use aeryon.Base.Text.{Str}
use aeryon.Base.Outcomes.{done, failed, Returns, Returns_mono, Outcome-cases}
use aeryon.Domain.Frame.{Timestamp}
use aeryon.Csi.Fixture.{RawRecord, FixtureError, FixtureHeader, FixtureReader, new}
use aeryon.Csi.Fixture.Order.{Ascends, frames, new_reads_in_order}
use aeryon.Replay.Config.{CsiReplayConfig}
use aeryon.Replay.Producer.{
  Observation, Producer, Loop, running, ended, go_on, fail, open_fixture, read_next, open_next,
  not_opened, step, produce, conclude_ended, run_producer,
}
use aeryon.Replay.Producer.Leading.{admitted, limited, leading, leading-frames}
use aeryon.Replay.Producer.Loops.{Finished, concluded, produce_replays, conclude_sent}

module _ {Io Json : Type 0} (clock : ℕ → Timestamp) (from_str : Str → Result Json RawRecord)
    (to_string : FixtureError Io Json → Str) (config : CsiReplayConfig)
    (once : config.loop_playback ≡ false) (width : config.maximum_frames ≤ u64_max) where
  step_open :
      (o : Observation Io) (p : Producer Io)
      → p.reader ≡ none
      → step clock from_str to_string config o p ≡ open_next clock from_str to_string config o p
  unfolding step
  step_open o p e =
      subst
        (λ x.
          elim x as (λ _. Producer Io × Loop) [
            | none ↦ open_next clock from_str to_string config o p
            | some r ↦ read_next clock from_str to_string config o r p
          ]
          ≡ open_next clock from_str to_string config o p)
        (sym e) refl

  -- Where the fixture is opened: the leading frames of the reader were sent, as many as the rounds and
  -- the limit let through.
  abbrev pub SendsInOrder :
      FixtureReader Io → List (Observation Io) → (emitted : ℕ) → Producer Io × Loop → Type 0
  SendsInOrder r os emitted (q, l) =
      (h : FixtureHeader) × (r.header ≡ some h)
      × Ascends h none q.shared.sent
      × (q.shared.sent ≡ leading from_str (limited config.maximum_frames emitted (admitted os)) r)
      × (length r.reads < length os → (clean : Bool) × (l ≡ ended clean))

  -- Where the fixture cannot be opened: nothing was sent, and the task has ended.
  abbrev pub SendsNothing : Producer Io × Loop → Type 0
  SendsNothing (q, l) = (q.shared.sent ≡ []) × (l ≡ ended false)

  abbrev HasFrames : ℕ → FixtureReader Io → Type 0
  HasFrames k r = (h : FixtureHeader) × (r.header ≡ some h) × Ascends h none (frames from_str k r)

  opened_lem :
      (file : Result Io (List (Result Io Str))) (k : ℕ)
      → Returns (HasFrames k) (open_fixture clock from_str to_string config file)
  unfolding open_fixture
  opened_lem (err e) k = tt
  opened_lem (ok reads) k =
      Returns_mono (new from_str reads) (λ r (h, e, rise, _). (h, e, rise))
        (new_reads_in_order from_str reads k)

  run_first :
      (o : Observation Io) (os : List (Observation Io)) (cancelled : Bool) (p : Producer Io)
      (out : Producer Io × Loop)
      → p.reader ≡ none
      → open_next clock from_str to_string config o p ≡ out
      → run_producer clock from_str to_string config (o ∷ os) cancelled p
        ≡ conclude_ended clock from_str to_string config cancelled
            (go_on (produce clock from_str to_string config os) out)
  unfolding run_producer produce
  run_first o os cancelled p out reader e =
      ap
        (λ x.
          conclude_ended clock from_str to_string config cancelled
            (go_on (produce clock from_str to_string config os) x))
        (step_open o p reader ∙ e)

  open_done :
      (o : Observation Io) (p : Producer Io) (r : FixtureReader Io)
      → open_fixture clock from_str to_string config o.file ≡ done r
      → open_next clock from_str to_string config o p ≡ (record p { reader = some r }, running)
  unfolding open_next
  open_done o p r e = rw (e, open_next) refl

  open_failed :
      (o : Observation Io) (p : Producer Io) (x : FixtureError Io Json)
      → open_fixture clock from_str to_string config o.file ≡ failed x
      → open_next clock from_str to_string config o p
        ≡ (not_opened clock from_str to_string config x p, ended false)
  unfolding open_next
  open_failed o p x e = rw (e, open_next) refl

  not_opened_sent :
      (x : FixtureError Io Json) (p : Producer Io)
      → (not_opened clock from_str to_string config x p).shared.sent ≡ p.shared.sent
  unfolding fail
  not_opened_sent x p = refl

  Finished-SendsInOrder :
      (o : Observation Io) (r : FixtureReader Io) (os : List (Observation Io)) (emitted : ℕ)
      (out : Producer Io × Loop)
      → open_fixture clock from_str to_string config o.file ≡ done r
      → Finished clock from_str to_string config once width r os emitted out
      → SendsInOrder r os emitted out
  Finished-SendsInOrder o r os emitted (q, l) e (sent, ends) =
      let (k, same) =
        leading-frames from_str (limited config.maximum_frames emitted (admitted os)) r in
      let (h, header, rise) = subst (Returns (HasFrames k)) e (opened_lem o.file k) in
      (h, header, subst (Ascends h none) (sym (sent ∙ same)) rise, sent, ends)

  -- Without looping, with a queue for the frames, and from a task that has sent nothing: whatever the
  -- task meets, it does not panic. Where the fixture cannot be opened it sends nothing and ends. Else what
  -- it has sent are the first frames that the reader returns, up to its end or its first error: exactly
  -- as many as are let through by the rounds before the first one that is cancelled or in which the
  -- frame reaches no subscriber or no queue, or up to the one in which the wait is broken off, and by the
  -- limit. They are valid frames of the sensor in the header of this reader, whose sequence numbers rise
  -- strictly; and the task has ended once it has met more rounds than the fixture has reads.
  pub replay_in_order :
      (o : Observation Io) (os : List (Observation Io)) (cancelled : Bool) (p : Producer Io)
      → p.reader ≡ none
      → p.frame_tx ≡ true
      → p.shared.sent ≡ []
      → let out = run_producer clock from_str to_string config (o ∷ os) cancelled p in
        ((e : FixtureError Io Json) × (open_fixture clock from_str to_string config o.file
            ≡ failed e)
          × SendsNothing out)
        ⊎ ((r : FixtureReader Io) × (open_fixture clock from_str to_string config o.file ≡ done r)
            × SendsInOrder r os p.emitted out)
  replay_in_order o os cancelled p reader tx sent =
      elim (Outcome-cases (open_fixture clock from_str to_string config o.file)) [
        | inl (r, e) ↦
            let q : Producer Io = record p { reader = some r } in
            let (_, header, _) = subst (Returns (HasFrames 0)) e (opened_lem o.file 0) in
            let out =
              conclude_ended clock from_str to_string config cancelled
                (produce clock from_str to_string config os q) in
            let finished =
              concluded clock from_str to_string config once width cancelled r os q
                (produce clock from_str to_string config os q) sent
                (produce_replays clock from_str to_string config once width os _ r q header refl
                  tx) in
            let run = run_first o os cancelled p (q, running) reader (open_done o p r e) in
            inr (
              r,
              e,
              subst (SendsInOrder r os p.emitted) (sym run)
                  (Finished-SendsInOrder o r os p.emitted out e finished),
            )
        | inr (inl (x, e)) ↦
            let q = not_opened clock from_str to_string config x p in
            let opened = open_failed o p x e in
            let same = not_opened_sent x p in
            let run = run_first o os cancelled p (q, ended false) reader opened in
            inl (
              x,
              e,
              subst SendsNothing (sym run) (
                conclude_sent clock from_str to_string config once width cancelled false q.shared
                    ∙ same
                    ∙ sent,
                refl,
              ),
            )
        | inr (inr e) ↦ absurd (subst (Returns (HasFrames 0)) e (opened_lem o.file 0))
      ]
