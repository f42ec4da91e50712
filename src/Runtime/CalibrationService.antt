-- ===== src/Runtime/CalibrationService.antt =====
-- core/runtime/src/calibration_service.rs: the worker that takes raw frames from its queue until the
-- queue is closed, and hands the calibrated ones on. The clock and the measured durations are parameters;
-- what is published, and what is handed to the queue of the DSP, are the worker's output: an event that
-- nobody receives, and a frame for a queue that is closed, are dropped without an error.
pub mod Accounts
pub mod Steps
pub mod Answers
use aeryon.Base.{
  ℕ, zero, suc, ◌+◌, ◌%◌, ◌^◌, ◌==◌, Bool, true, false, Option, none, some, List, [], ◌∷◌, ◌++◌,
  length, if◌then◌else◌,
}
use aeryon.Base.Text.{Str, codes}
use aeryon.Base.Outcomes.{Outcome, done, failed, panicked, ◌>>=◌, ◌>>◌, refuse}
use aeryon.Base.Floats.{F64}
use aeryon.Base.Singles.{F32}
use aeryon.Domain.Frame.{FrameId, SensorId, Timestamp}
use aeryon.Csi.Frame as Raw
use aeryon.Csi.Frame.{CsiFrame, CsiSourceKind}
use aeryon.Calibration.Report.{CalibrationStageId}
use aeryon.Calibration.Errors as Errors
use aeryon.Calibration.Errors.{CalibrationError}
use aeryon.Calibration.Frame as Frame
use aeryon.Calibration.Frame.{CalibratedCsiFrame}
use aeryon.Calibration.Stage.{as_str}
use aeryon.Calibration.Warnings.{warning_summary}
use aeryon.Calibration.Pipeline.{CalibrationPipeline, calibrate}
use aeryon.Runtime.SignalStore.{SignalSnapshotStore, store_calibrated}
use aeryon.Runtime.CalibrationStats as Stats
use aeryon.Runtime.CalibrationStats.{CalibrationStats, CalibrationWorkerState}
use aeryon.Runtime.CalibrationEvents.{
  CsiDataSource, CalibrationFailureCode, CalibrationStarted, CsiFrameCalibrated, CalibrationFailed,
  Event, calibration_started, csi_frame_calibrated, calibration_failed, calibration_service_stopped,
  map_failure_code, source_of,
}

-- `or`.
abbrev pub or_else : {A : Type 0} → Option A → Option A → Option A
or_else none y = y
or_else (some x) y = some x

abbrev pub stage_name : Option CalibrationStageId → Option Str
stage_name none = none
stage_name (some s) = some (as_str s)

unfoldable pub warn : Option Str → CalibrationStats → CalibrationStats
warn none s = s
warn (some warning) s = Stats.set_last_warning warning s

-- The handles of a service: the task that is not yet joined, the sender that is not yet taken, and the
-- flag that it shares with the worker.
pub record CalibrationService : Type 0 where
  pub task : Bool
  pub frame_tx : Bool
  pub worker_alive : Bool

-- Whether the caller gets the sender, and what it leaves.
unfoldable pub take_frame_tx : CalibrationService → CalibrationService × Bool
take_frame_tx s = (record s { frame_tx = false }, s.frame_tx)

-- The service it leaves, and whether it aborts the task.
unfoldable pub shutdown : CalibrationService → CalibrationService × Bool
shutdown s = (record { task = false; frame_tx = false; worker_alive = false }, s.task)

unfoldable pub is_alive : CalibrationService → Bool
is_alive s = s.worker_alive

-- What the worker has done: `ticks` readings of the clock, the events in order, and the frames handed
-- to the DSP's queue, where there is one.
pub record Worker (V O E : Type 0) : Type 0 where
  pub stats : CalibrationStats
  pub store : Option (SignalSnapshotStore V O E)
  pub ticks : ℕ
  pub published : List Event
  pub forwards : Bool
  pub sent : List CalibratedCsiFrame
  pub alive : Bool

module _ {V O E : Type 0} where
  abbrev pub publish : Event → Worker V O E → Worker V O E
  publish e w = record w { published = w.published ++ (e ∷ []) }

  abbrev pub tick : Worker V O E → Worker V O E
  tick w = record w { ticks = suc w.ticks }

  abbrev pub store_frame :
      CalibratedCsiFrame → Option (SignalSnapshotStore V O E) → Option (SignalSnapshotStore V O E)
  store_frame c none = none
  store_frame c (some store) = some (store_calibrated c store)

module _ ⦃d : F64⦄ ⦃o : F32⦄ {V O E : Type 0} (clock : ℕ → Timestamp) (elapsed : ℕ → ℕ)
    (stage_elapsed : ℕ → CalibrationStageId → ℕ) (to_string : CalibrationError → Str) where
  -- The branch of a calibrated frame.
  unfoldable pub succeed : CalibratedCsiFrame → Worker V O E → Worker V O E
  unfolding warn source_of
  succeed c w =
      let duration = c.report.duration_ns in
      publish
        (csi_frame_calibrated (record {
          raw_frame_id = Frame.raw_frame_id c;
          sensor_id = Frame.sensor_id c;
          sequence = Frame.sequence c;
          profile_id = c.profile_id;
          profile_version = c.profile_version;
          stage_count = length c.report.stages % 2 ^ 16;
          calibration_duration_ns = duration;
          receive_antennas = Frame.receive_antennas c;
          transmit_antennas = Frame.transmit_antennas c;
          subcarrier_count = Frame.subcarrier_count c % 2 ^ 16;
          source = source_of c.raw.source;
          calibrated_at = c.calibrated_at;
        }))
        (record w {
          stats =
              warn (warning_summary c.report)
                (Stats.record_success (Frame.sequence c) c.calibrated_at.nanos duration w.stats);
          store = store_frame c w.store;
          sent = if w.forwards then w.sent ++ (c ∷ []) else w.sent;
        })

  -- The branch of an error.
  unfoldable pub fail : CsiFrame → CalibrationError → Worker V O E → Worker V O E
  unfolding map_failure_code
  fail f e w = tick (
      publish
        (calibration_failed (record {
          raw_frame_id = or_else (Errors.frame_id e) (some (Raw.frame_id f));
          sensor_id = some (Raw.sensor_id f);
          sequence = or_else (Errors.sequence e) (some (Raw.sequence f));
          timestamp = clock w.ticks;
          failed_stage = stage_name (Errors.stage e);
          code = map_failure_code e;
          message = to_string e;
        }))
        (record w { stats = Stats.record_failure (to_string e) w.stats }))

  -- The body of the loop. The calibration reads the clock when it starts, and again when it succeeds.
  unfoldable pub handle_frame :
      CalibrationPipeline → CsiFrame → Worker V O E → Outcome CalibrationError (Worker V O E)
  handle_frame pipeline f w =
      let v = tick (record w { stats = Stats.record_submitted w.stats }) in
      elim (calibrate (stage_elapsed w.ticks) (clock w.ticks) (clock v.ticks) (elapsed w.ticks)
        pipeline f) [
          | done c ↦ done (succeed c (tick v))
          | failed e ↦ done (fail f e v)
          | panicked ↦ panicked
        ]

  -- The loop over the frames until the queue is closed.
  unfoldable pub handle_all :
      CalibrationPipeline → List CsiFrame → Worker V O E → Outcome CalibrationError (Worker V O E)
  handle_all pipeline [] w = done w
  handle_all pipeline (f ∷ fs) w = handle_frame pipeline f w >>= handle_all pipeline fs

  -- What follows the loop.
  unfoldable pub finish : Worker V O E → Worker V O E
  finish w = tick (
      publish (calibration_service_stopped (clock w.ticks)) (record w {
        alive = false;
        stats = Stats.set_worker_state CalibrationWorkerState.stopped w.stats;
      }))

  -- The first event.
  unfoldable pub announce : CalibrationPipeline → Worker V O E → Worker V O E
  announce pipeline w = tick (
      publish
        (calibration_started (record {
          timestamp = clock w.ticks;
          profile_id = pipeline.profile.id;
          profile_version = pipeline.profile.version;
        }))
        w)

  -- The task that `start` spawns.
  unfoldable pub run_worker :
      CalibrationPipeline → List CsiFrame → Worker V O E → Outcome CalibrationError (Worker V O E)
  run_worker pipeline fs w = handle_all pipeline fs (announce pipeline w) >>= λ v. done (finish v)

  -- `CalibrationService::start`: the worker that the task starts from, which reads the clock from
  -- `ticks` on.
  unfoldable pub start :
      CalibrationPipeline
      → CalibrationStats
      → (queue_capacity : ℕ) (calibrated_tx : Bool) → Option (SignalSnapshotStore V O E)
      → (ticks : ℕ) → Outcome CalibrationError (Worker V O E)
  start pipeline stats queue_capacity calibrated_tx store ticks =
      refuse (queue_capacity == 0) (
        Errors.invalid_profile
          (Errors.plain (codes "calibration.queue_capacity must be greater than zero")))
      >> done (record {
        stats = Stats.set_worker_state CalibrationWorkerState.running (
            Stats.configure true (some pipeline.profile.id) pipeline.profile.version
              (Stats.reset_counters stats));
        store = store;
        ticks = ticks;
        published = [];
        forwards = calibrated_tx;
        sent = [];
        alive = true;
      })
