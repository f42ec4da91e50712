-- ===== src/Replay/Producer/Accounts.antt =====
-- What the producer counts, and how it ends.
use aeryon.Base.{
  ℕ, ◌+◌, ◌≤◌, ◌≡◌, Bool, false, List, [], ◌∷◌, length, Result, if◌then◌else◌, u64_max, arith,
}
use aeryon.Base.Text.{Str}
use aeryon.Domain.Frame.{Timestamp}
use aeryon.Csi.Fixture.{RawRecord, FixtureError}
use aeryon.Replay.Config.{CsiReplayConfig}
use aeryon.Replay.Stats as Stats
use aeryon.Replay.Stats.{CsiReplayStats, CsiReplayCompletion}
use aeryon.Replay.Producer.{
  Observation, Producer, Loop, running, ended, aborted, go_on, fail, step, produce, conclude,
  conclude_ended, run_producer,
}
use aeryon.Replay.Producer.Counts.{Going, Tally, Counts, step-Counts}

module _ {Io Json : Type 0} (clock : ℕ → Timestamp) (from_str : Str → Result Json RawRecord)
    (to_string : FixtureError Io Json → Str) (config : CsiReplayConfig) where
  abbrev Counted : Producer Io × Loop → Type 0
  Counted (q, running) = Going clock from_str to_string config q
  Counted (q, ended clean) = Tally clock from_str to_string config q
  Counted (q, aborted) = Unit

  go_on-Counts :
      (rest : Producer Io → Producer Io × Loop) (n : ℕ) (out : Producer Io × Loop)
      → ((q : Producer Io)
          → Going clock from_str to_string config q
          → q.emitted + n ≤ u64_max
          → Counted (rest q))
      → Counts clock from_str to_string config n out
      → Counted (go_on rest out)
  go_on-Counts rest n (q, running) later (g, room) = later q g room
  go_on-Counts rest n (q, ended clean) later t = t
  go_on-Counts rest n (q, aborted) later t = t

  produce_counts :
      (os : List (Observation Io)) (p : Producer Io)
      → Going clock from_str to_string config p
      → p.emitted + length os ≤ u64_max
      → Counted (produce clock from_str to_string config os p)
  unfolding produce
  produce_counts [] p g room = g
  produce_counts (o ∷ os) p g room =
      go_on-Counts (produce clock from_str to_string config os) (length os)
        (step clock from_str to_string config o p) (λ q g' room'. produce_counts os q g' room')
        (step-Counts clock from_str to_string config o p (length os) g room)

  -- What the task leaves: while it runs every frame that it read was accepted; when it has ended it has
  -- counted at most one more, and its completion says how it ended.
  pub record Concluded (cancelled : Bool) (q : Producer Io) : Type 0 where
    pub tally : Tally clock from_str to_string config q
    pub alive : q.shared.producer_alive ≡ false
    pub completion : Stats.get_completion q.shared.stats ≡ (
        if q.shared.failed
        then CsiReplayCompletion.failed
        else if cancelled
        then CsiReplayCompletion.stopped
        else CsiReplayCompletion.completed)

  abbrev pub Accounted : Bool → Producer Io × Loop → Type 0
  Accounted cancelled (q, running) = Going clock from_str to_string config q
  Accounted cancelled (q, ended clean) = Concluded cancelled q
  Accounted cancelled (q, aborted) = Unit

  conclude_counts :
      (cancelled clean : Bool) (q : Producer Io)
      → Tally clock from_str to_string config q
      → Concluded cancelled
          (record q { shared = conclude clock from_str to_string config cancelled clean q.shared })
  unfolding conclude fail Stats.set_completion Stats.completion_to_u64 Stats.get_completion
      Stats.u64_to_completion Stats.set_last_error
  conclude_counts cancelled clean q t =
      ground (arith, t.accepted, t.least, t.most, t.rejected, t.within, t.whole, t.broken)

  conclude_ended_counts :
      (cancelled : Bool) (out : Producer Io × Loop)
      → Counted out
      → Accounted cancelled (conclude_ended clock from_str to_string config cancelled out)
  conclude_ended_counts cancelled (q, running) g = g
  conclude_ended_counts cancelled (q, ended clean) t = conclude_counts cancelled clean q t
  conclude_ended_counts cancelled (q, aborted) t = tt

  -- From a task that goes on, while no counter reaches the end of its range: the frames emitted are those
  -- accepted, and at most the limit; while it runs, each frame that was read was accepted; and when it has
  -- ended, at most one more frame was read or rejected, the task is no longer alive, and its completion
  -- is failed just if it failed, else stopped if it was cancelled, else completed, with each frame that
  -- was read accepted.
  pub run_producer_accounts :
      (os : List (Observation Io)) (cancelled : Bool) (p : Producer Io)
      → Going clock from_str to_string config p
      → p.emitted + length os ≤ u64_max
      → Accounted cancelled (run_producer clock from_str to_string config os cancelled p)
  unfolding run_producer
  run_producer_accounts os cancelled p g room =
      conclude_ended_counts cancelled (produce clock from_str to_string config os p)
        (produce_counts os p g room)
