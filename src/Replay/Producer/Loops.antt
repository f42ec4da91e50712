-- ===== src/Replay/Producer/Loops.antt =====
-- Which frames the loops of the producer hand on.
use mathlib.Core.Path.{subst}
use mathlib.Core.List.{append_assoc}
use aeryon.Base.{
  ℕ, suc, u64_max, ◌≤◌, ◌<◌, ◌≡◌, refl, sym, ap, ◌∙◌, Bool, true, false, some, List, [], ◌∷◌, ◌++◌,
  length, Result, arith,
}
use aeryon.Base.Text.{Str}
use aeryon.Base.Outcomes.{done}
use aeryon.Domain.Frame.{Timestamp}
use aeryon.Csi.Frame.{CsiFrame}
use aeryon.Csi.Fixture.{RawRecord, FixtureError, FixtureHeader, FixtureReader, next_frame}
use aeryon.Csi.Fixture.Calls.{Kept, next_frame-Gave}
use aeryon.Replay.Config.{CsiReplayConfig}
use aeryon.Replay.Producer.{
  Observation, Shared, Producer, Loop, running, ended, aborted, go_on, fail, step, produce,
  conclude, conclude_ended,
}
use aeryon.Replay.Producer.Leading.{admits, admitted, limited, leading, leading_first}
use aeryon.Replay.Producer.Rounds.{Went, none_left, room_zero, step-Went}

module _ {Io Json : Type 0} (clock : ℕ → Timestamp) (from_str : Str → Result Json RawRecord)
    (to_string : FixtureError Io Json → Str) (config : CsiReplayConfig)
    (once : config.loop_playback ≡ false) (width : config.maximum_frames ≤ u64_max) where
  abbrev room_for : Producer Io → List (Observation Io) → ℕ
  room_for p os = limited config.maximum_frames p.emitted (admitted os)

  -- What the loops leave from the reader `r` on, over the rounds `os`.
  abbrev Replayed :
      FixtureReader Io → List (Observation Io) → Producer Io → Producer Io × Loop → Type 0
  Replayed r os p (q, running) =
      (q.shared.sent ≡ p.shared.sent ++ leading from_str (room_for p os) r)
      × (length os ≤ length r.reads)
  Replayed r os p (q, ended clean) =
      q.shared.sent ≡ p.shared.sent ++ leading from_str (room_for p os) r
  Replayed r os p (q, aborted) = ⊥

  -- A frame in front of what a later reader gives.
  longer :
      (r u : FixtureReader Io) (f : CsiFrame) (xs ys zs : List CsiFrame) (m n : ℕ)
      → next_frame from_str r ≡ (u, done (some f))
      → ys ≡ xs ++ (f ∷ [])
      → m ≡ suc n
      → zs ≡ ys ++ leading from_str n u
      → zs ≡ xs ++ leading from_str m r
  longer r u f xs ys zs m n e first more later =
      later
      ∙ ap (λ l. l ++ leading from_str n u) first
      ∙ append_assoc xs (f ∷ []) (leading from_str n u)
      ∙ ap (λ l. xs ++ l) (sym (leading_first from_str n r u f e))
      ∙ ap (λ k. xs ++ leading from_str k r) (sym more)

  Replayed-step :
      (o : Observation Io) (os : List (Observation Io)) (r u : FixtureReader Io) (f : CsiFrame)
      (p q : Producer Io) (out : Producer Io × Loop)
      → next_frame from_str r ≡ (u, done (some f))
      → length u.reads < length r.reads
      → q.shared.sent ≡ p.shared.sent ++ (f ∷ [])
      → room_for p (o ∷ os) ≡ suc (room_for q os)
      → Replayed u os q out
      → Replayed r (o ∷ os) p out
  Replayed-step o os r u f p q (v, running) e less first more (later, fits) = (
    longer r u f p.shared.sent q.shared.sent v.shared.sent _ _ e first more later,
    omega (arith, less, fits),
  )
  Replayed-step o os r u f p q (v, ended clean) e less first more later =
      longer r u f p.shared.sent q.shared.sent v.shared.sent _ _ e first more later
  Replayed-step o os r u f p q (v, aborted) e less first more stuck = absurd stuck

  go_on_replays :
      (rest : Producer Io → Producer Io × Loop) (o : Observation Io) (os : List (Observation Io))
      (h : FixtureHeader) (r : FixtureReader Io) (p : Producer Io) (out : Producer Io × Loop)
      → ((u : FixtureReader Io) (q : Producer Io)
          → u.header ≡ some h
          → q.reader ≡ some u
          → q.frame_tx ≡ true
          → Replayed u os q (rest q))
      → r.header ≡ some h
      → Went clock from_str to_string config once width (admits o) r p out
      → Replayed r (o ∷ os) p (go_on rest out)
  go_on_replays rest o os h r p (q, running) later e (u, f, called, reader, tx, sent, more) =
      let (kept, given) : Kept from_str h r (u, done (some f)) =
        subst (Kept from_str h r) called (next_frame-Gave from_str h r e) in
      let (_, _, _, less) = given in
      Replayed-step o os r u f p q (rest q) called less sent (more (admitted os))
        (later u q kept reader tx)
  go_on_replays rest o os h r p (q, ended clean) later e went = went (admitted os)
  go_on_replays rest o os h r p (q, aborted) later e went = absurd went

  pub produce_replays :
      (os : List (Observation Io)) (h : FixtureHeader) (r : FixtureReader Io) (p : Producer Io)
      → r.header ≡ some h
      → p.reader ≡ some r
      → p.frame_tx ≡ true
      → Replayed r os p (produce clock from_str to_string config os p)
  unfolding produce
  produce_replays [] h r p e reader tx = (
    none_left clock from_str to_string config once width r p.shared.sent _
        (room_zero clock from_str to_string config once width p),
    omega arith,
  )
  produce_replays (o ∷ os) h r p e reader tx =
      go_on_replays (produce clock from_str to_string config os) o os h r p
        (step clock from_str to_string config o p)
        (λ u q e' reader' tx'. produce_replays os h u q e' reader' tx') e
        (step-Went clock from_str to_string config once width o h r p e reader tx)

  pub conclude_sent :
      (cancelled clean : Bool) (s : Shared)
      → (conclude clock from_str to_string config cancelled clean s).sent ≡ s.sent
  unfolding conclude fail
  conclude_sent cancelled clean s = ground arith

  -- After the task.
  abbrev pub Finished :
      FixtureReader Io → List (Observation Io) → (emitted : ℕ) → Producer Io × Loop → Type 0
  Finished r os emitted (q, l) =
      (q.shared.sent ≡ leading from_str (limited config.maximum_frames emitted (admitted os)) r)
      × (length r.reads < length os → (clean : Bool) × (l ≡ ended clean))

  pub concluded :
      (cancelled : Bool) (r : FixtureReader Io) (os : List (Observation Io)) (p : Producer Io)
      (out : Producer Io × Loop)
      → p.shared.sent ≡ []
      → Replayed r os p out
      → Finished r os p.emitted (conclude_ended clock from_str to_string config cancelled out)
  concluded cancelled r os p (q, running) none_sent (e, fits) = (
    e ∙ ap (λ l. l ++ leading from_str (room_for p os) r) none_sent,
    λ enough. absurd (omega (arith, fits, enough)),
  )
  concluded cancelled r os p (q, ended clean) none_sent e = (
    conclude_sent cancelled clean q.shared
        ∙ e
        ∙ ap (λ l. l ++ leading from_str (room_for p os) r) none_sent,
    λ enough. (clean, refl),
  )
  concluded cancelled r os p (q, aborted) none_sent stuck = absurd stuck
