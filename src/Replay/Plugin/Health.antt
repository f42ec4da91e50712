-- ===== src/Replay/Plugin/Health.antt =====
-- The health of the plugin while its task runs and after it has ended.
use mathlib.Core.Path.{subst}
use aeryon.Base.{
  ℕ, ◌≤◌, ◌≡◌, refl, true, false, none, some, List, length, Result, if◌then◌else◌, u64_max, arith,
}
use aeryon.Base.Text.{Str}
use aeryon.Base.Outcomes.{done}
use aeryon.Domain.Frame.{Timestamp}
use aeryon.Csi.Fixture.{RawRecord, FixtureError}
use aeryon.Plugins.Types.{HealthStatus, healthy, unhealthy}
use aeryon.Replay.Config.{CsiReplayConfig}
use aeryon.Replay.Stats as Stats
use aeryon.Replay.Stats.{CsiReplayStats, CsiReplayCompletion}
use aeryon.Replay.Producer.{Observation, Producer, Loop, running, ended, aborted, run_producer}
use aeryon.Replay.Producer.Counts.{Going}
use aeryon.Replay.Producer.Accounts.{Accounted, run_producer_accounts}
use aeryon.Replay.Producer.Sound.{Stands, run_producer-Stands}
use aeryon.Replay.Plugin.{CsiReplayPlugin, health, shutdown, spawn, initialize}

module _ {Io Json : Type 0} (clock : ℕ → Timestamp) (from_str : Str → Result Json RawRecord)
    (to_string : FixtureError Io Json → Str) (config : CsiReplayConfig) where
  -- The plugin that sees what its task has left. The handle of a task that has ended stays in it until it
  -- is shut down.
  abbrev pub after_task : CsiReplayPlugin Io → Producer Io → CsiReplayPlugin Io
  after_task p q = record p { shared = q.shared }

  abbrev pub after_shutdown : CsiReplayPlugin Io → Producer Io → CsiReplayPlugin Io
  after_shutdown p q = (shutdown clock (after_task p q)).0

  abbrev pub verdict : Producer Io → HealthStatus
  verdict q = if q.shared.failed then unhealthy else healthy

  -- The health after the task's rounds, and after a shutdown that follows them.
  abbrev pub Shows : CsiReplayPlugin Io → Producer Io × Loop → Type 0
  Shows p (q, running) =
      (health (after_task p q) ≡ healthy) × (health (after_shutdown p q) ≡ unhealthy)
  Shows p (q, ended clean) =
      (health (after_task p q) ≡ verdict q) × (health (after_shutdown p q) ≡ verdict q)
  Shows p (q, aborted) = ⊥

  Accounted-Shows :
      (p : CsiReplayPlugin Io) (out : Producer Io × Loop)
      → p.task ≡ true
      → Accounted clock from_str to_string config false out
      → Stands out
      → Shows p out
  unfolding health shutdown Stats.get_completion Stats.set_completion Stats.completion_to_u64
      Stats.u64_to_completion
  Accounted-Shows p (q, running) task g s =
      (ground (arith, task, g.well, g.active, g.alive), ground (arith, g.well, g.active))
  Accounted-Shows p (q, ended clean) task c s =
      let e = c.completion in (ground (arith, task, e, c.alive), ground (arith, e))
  Accounted-Shows p (q, aborted) task c s = absurd s

  spawn-Going :
      (p : CsiReplayPlugin Io)
      → (t : Producer Io) × ((spawn clock from_str to_string config p).started ≡ some t)
        × Going clock from_str to_string config t
        × (t.emitted ≡ 0)
        × (t.reader ≡ none)
  unfolding spawn Stats.set_completion Stats.completion_to_u64 Stats.reset
  spawn-Going p = (
    _,
    refl,
    record {
      accepted = refl;
      read = refl;
      rejected = refl;
      well = refl;
      active = refl;
      alive = refl;
      within = λ limit. omega arith;
    },
    refl,
    refl,
  )

  spawned_health :
      (p : CsiReplayPlugin Io) (os : List (Observation Io))
      → length os ≤ u64_max
      → let q = spawn clock from_str to_string config p in
        (t : Producer Io) × (q.started ≡ some t)
        × Shows q (run_producer clock from_str to_string config os false t)
  unfolding spawn
  spawned_health p os room =
      let (t, e, going, zero_emitted, fresh) = spawn-Going p in
      (
        t,
        e,
        Accounted-Shows (spawn clock from_str to_string config p) _ refl
            (run_producer_accounts clock from_str to_string config os false t going
              (omega (arith, zero_emitted, room)))
            (run_producer-Stands clock from_str to_string config os false t (rw fresh tt)),
      )

  initialize_spawns :
      (file : Result Io (List (Result Io Str))) (p q : CsiReplayPlugin Io)
      → initialize clock from_str to_string config file p ≡ (q, done tt)
      → (spawn clock from_str to_string config p ≡ q)
  unfolding initialize
  initialize_spawns file p q e = ground (arith, e)

  -- After `initialize` has succeeded and until the plugin is shut down, so that the cancel signal is not
  -- set, whatever the task meets and while no counter reaches the end of its range: the task does not
  -- panic; while it runs, the plugin is healthy, and a shutdown then makes it unhealthy; when the task
  -- has ended, the plugin is unhealthy just if the task failed, else healthy, and a shutdown keeps that.
  -- It is degraded in none of these states.
  pub health_after_initialize :
      (file : Result Io (List (Result Io Str))) (p q : CsiReplayPlugin Io)
      (os : List (Observation Io))
      → initialize clock from_str to_string config file p ≡ (q, done tt)
      → length os ≤ u64_max
      → (t : Producer Io) × (q.started ≡ some t)
        × Shows q (run_producer clock from_str to_string config os false t)
  health_after_initialize file p q os e room =
      let same = initialize_spawns file p q e in
      subst
        (λ q.
          (t : Producer Io) × (q.started ≡ some t)
          × Shows q (run_producer clock from_str to_string config os false t))
        same (spawned_health p os room)
