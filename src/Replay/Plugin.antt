-- ===== src/Replay/Plugin.antt =====
-- `CsiReplayPlugin` of plugins/csi-replay/src/plugin.rs. What opening the fixture gives, and a reading of the
-- clock, are parameters.
pub mod Health
use aeryon.Base.{
  ℕ, zero, suc, Bool, true, false, not, ◌&&◌, ◌||◌, Option, none, some, List, [], ◌∷◌, ◌++◌, Result,
  if◌then◌else◌,
}
use aeryon.Base.Text.{Str, codes}
use aeryon.Base.Outcomes.{Outcome, done, failed, panicked}
use aeryon.Domain.Frame.{Timestamp}
use aeryon.Csi.Fixture.{RawRecord, FixtureError}
use aeryon.Plugins.Types.{
  PluginId, PluginError, lifecycle, LifecycleError, LifecycleState, HealthStatus, healthy, degraded,
  unhealthy,
}
use aeryon.Replay.Config.{CsiReplayConfig}
use aeryon.Replay.Events.{replay_started, replay_stopped}
use aeryon.Replay.Stats as Stats
use aeryon.Replay.Stats.{CsiReplayStats, CsiReplayCompletion}
use aeryon.Replay.Producer.{Shared, Producer, open_fixture}

abbrev pub plugin_id : PluginId
plugin_id = codes "aeryon.csi-replay"

-- `frame_tx`, `cancel_tx` and `task` tell whether there is one; `started` is the task as it was spawned.
pub record CsiReplayPlugin (Io : Type 0) : Type 0 where
  pub shared : Shared
  pub frame_tx : Bool
  pub cancel_tx : Bool
  pub task : Bool
  pub started : Option (Producer Io)

abbrev pub with_stats_and_frame_tx :
    {Io : Type 0} → CsiReplayStats → (frame_tx : Bool) → CsiReplayPlugin Io
with_stats_and_frame_tx stats frame_tx = record {
  shared = record {
    stats = stats;
    failed = false;
    producer_alive = false;
    ticks = 0;
    published = [];
    sent = [];
  };
  frame_tx = frame_tx;
  cancel_tx = false;
  task = false;
  started = none;
}

abbrev pub same_completion : CsiReplayCompletion → CsiReplayCompletion → Bool
same_completion CsiReplayCompletion.completed CsiReplayCompletion.completed = true
same_completion CsiReplayCompletion.failed CsiReplayCompletion.failed = true
same_completion _ _ = false

module _ {Io : Type 0} where
  unfoldable pub health : CsiReplayPlugin Io → HealthStatus
  health p =
      let completion = Stats.get_completion p.shared.stats in
      if p.shared.failed || same_completion completion CsiReplayCompletion.failed
      then unhealthy
      else if same_completion completion CsiReplayCompletion.completed
      then healthy
      else if p.task && p.shared.producer_alive
      then healthy
      else if p.task
      then degraded
      else unhealthy

  -- The task is aborted, and the cancel signal is set before that.
  unfoldable pub shutdown :
      (clock : ℕ → Timestamp)
      → CsiReplayPlugin Io
      → CsiReplayPlugin Io × Outcome PluginError (Unit {0})
  shutdown clock p =
      let s = p.shared in
      let keeps =
        s.failed || same_completion (Stats.get_completion s.stats) CsiReplayCompletion.completed in
      (
        record p {
          cancel_tx = false;
          task = false;
          shared = record s {
            producer_alive = false;
            stats =
                if keeps then s.stats else Stats.set_completion CsiReplayCompletion.stopped s.stats;
            ticks = suc s.ticks;
            published = s.published ++ (replay_stopped (clock s.ticks) ∷ []);
          };
        },
        done tt,
      )

  module _ {Json : Type 0} (clock : ℕ → Timestamp) (from_str : Str → Result Json RawRecord)
      (to_string : FixtureError Io Json → Str) (config : CsiReplayConfig) where
    -- From the successful check of the fixture on.
    unfoldable pub spawn : CsiReplayPlugin Io → CsiReplayPlugin Io
    spawn p =
        let s = p.shared in
        let t : Shared = record s {
          failed = false;
          stats = Stats.set_completion CsiReplayCompletion.active (Stats.reset s.stats);
          ticks = suc s.ticks;
          published = s.published ++ (replay_started (clock s.ticks) ∷ []);
          producer_alive = true;
        } in
        record {
          shared = t;
          frame_tx = false;
          cancel_tx = true;
          task = true;
          started = some (record { shared = t; reader = none; emitted = 0; frame_tx = p.frame_tx });
        }

    unfoldable pub initialize :
        (file : Result Io (List (Result Io Str)))
        → CsiReplayPlugin Io
        → CsiReplayPlugin Io × Outcome PluginError (Unit {0})
    initialize file p = elim p.task [
      | true ↦ (
        p,
        failed (
            lifecycle (
              LifecycleError.invalid_transition plugin_id LifecycleState.running
                LifecycleState.initialized)),
      )
      | false ↦ elim (open_fixture clock from_str to_string config file) [
        | done r ↦ (spawn p, done tt)
        | failed e ↦ (
          record p {
            shared = record p.shared {
              failed = true;
              stats =
                  Stats.set_last_error (to_string e)
                    (Stats.set_completion CsiReplayCompletion.failed p.shared.stats);
            };
          },
          failed (lifecycle (LifecycleError.initialization_failed plugin_id)),
        )
        | panicked ↦ (p, panicked)
      ]
    ]
