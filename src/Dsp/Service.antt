-- ===== src/Dsp/Service.antt =====
-- The worker of `DspService::start` in core/dsp/src/service.rs: it takes calibrated frames from its
-- queue until the queue is closed. A reading of the clock is a parameter; what is published, what the
-- sink is given, and the statistics are the worker's output. Publishing never fails the worker.
pub mod Accounts
pub mod Steps
pub mod Delivery
use aeryon.Base.{
  ℕ, zero, suc, ◌+◌, ◌%◌, ◌^◌, Bool, true, false, Option, none, some, List, [], ◌∷◌, ◌++◌, Result,
  ok, err, length, if◌then◌else◌,
}
use aeryon.Base.Text.{Str, codes}
use aeryon.Base.Outcomes.{Outcome, done, failed, panicked, ◌>>=◌}
use aeryon.Base.Floats.{F64}
use aeryon.Domain.Frame.{SensorId, Timestamp}
use aeryon.Calibration.Frame.{CalibratedCsiFrame}
use aeryon.Dsp.Errors as Errors
use aeryon.Dsp.Errors.{DspError, DspFailureCode}
use aeryon.Dsp.Window.{CsiWindow}
use aeryon.Dsp.Assembler.{WindowAssembler, push}
use aeryon.Dsp.Backend.{DspKernelBackend}
use aeryon.Dsp.Report.{
  DspProfile, DspWindowResult, backend_name, process_window, dominant_non_dc_hz,
}
use aeryon.Dsp.Stats as Stats
use aeryon.Dsp.Stats.{DspStats, completed, idle}

pub record DspServiceStarted : Type 0 where
  pub timestamp : Timestamp
  pub profile_id : Str
  pub profile_version : ℕ
  pub window_size_frames : ℕ
  pub hop_size_frames : ℕ
  pub backend_id : Str
  pub backend_version : Str
  pub backend_abi_version : Option ℕ

pub record CsiWindowAssembled : Type 0 where
  pub window_id : ℕ
  pub sensor_id : SensorId
  pub first_sequence : ℕ
  pub last_sequence : ℕ
  pub frame_count : ℕ
  pub timestamp : Timestamp

pub record DspWindowProcessed : Type 0 where
  pub window_id : ℕ
  pub sensor_id : SensorId
  pub first_sequence : ℕ
  pub last_sequence : ℕ
  pub frame_count : ℕ
  pub profile_id : Str
  pub profile_version : ℕ
  pub processing_duration_ns : ℕ
  pub effective_sample_rate_hz : ℕ
  pub timestamp_jitter : ℕ
  pub dominant_non_dc_hz : Option ℕ
  pub processed_at : Timestamp

pub record DspProcessingFailed : Type 0 where
  pub window_id : Option ℕ
  pub sensor_id : Option SensorId
  pub first_sequence : Option ℕ
  pub last_sequence : Option ℕ
  pub timestamp : Timestamp
  pub code : DspFailureCode
  pub message : Str

-- The events that the worker publishes.
pub data Event : Type 0 where
  service_started : DspServiceStarted → Event
  window_assembled : CsiWindowAssembled → Event
  window_processed : DspWindowProcessed → Event
  processing_failed : DspProcessingFailed → Event
  service_idle : (timestamp : Timestamp) (completed : Bool) → Event
  service_stopped : (timestamp : Timestamp) → Event

-- What the worker has done: `ticks` readings of the clock, the events in order, and the results that
-- the sink was given.
pub record Worker : Type 0 where
  pub assembler : WindowAssembler
  pub stats : DspStats
  pub ticks : ℕ
  pub published : List Event
  pub stored : List DspWindowResult

unfoldable pub warn : List Str → DspStats → DspStats
warn [] s = s
warn (warning ∷ _) s = Stats.set_last_warning warning s

-- Whether there was a frame before the queue was closed.
abbrev pub received_any : List CalibratedCsiFrame → Bool
received_any [] = false
received_any (_ ∷ _) = true

-- `as u32`.
abbrev pub as_u32 : ℕ → ℕ
as_u32 n = n % 2 ^ 32

module _ ⦃o : F64⦄ (fft : List (ℕ × ℕ) → List (ℕ × ℕ)) (clock : ℕ → Timestamp) (elapsed : ℕ → ℕ)
    (to_string : DspError → Str) where
  abbrev pub publish : Event → Worker → Worker
  publish e w = record w { ticks = suc w.ticks; published = w.published ++ (e ∷ []) }

  unfoldable pub succeed : DspWindowResult → Worker → Worker
  unfolding warn
  succeed r w = record w {
    stats =
        Stats.record_window_success r.first_sequence r.last_sequence r.processed_at.nanos
          r.processing_duration_ns r.sampling.effective_sample_rate_hz r.sampling.timestamp_jitter
          (dominant_non_dc_hz r) (warn r.warnings w.stats);
    stored = w.stored ++ (r ∷ []);
    published =
        w.published
        ++ (window_processed (record {
          window_id = r.window_id;
          sensor_id = r.sensor_id;
          first_sequence = r.first_sequence;
          last_sequence = r.last_sequence;
          frame_count = as_u32 r.frame_count;
          profile_id = r.dsp_profile_id;
          profile_version = r.dsp_profile_version;
          processing_duration_ns = r.processing_duration_ns;
          effective_sample_rate_hz = r.sampling.effective_sample_rate_hz;
          timestamp_jitter = r.sampling.timestamp_jitter;
          dominant_non_dc_hz = dominant_non_dc_hz r;
          processed_at = r.processed_at;
        })
            ∷ []);
  }

  -- The domain's failure codes are those of the errors under the same names.
  unfoldable pub fail :
      (window_id : Option ℕ)
      → (sensor_id : Option SensorId) → (first_sequence last_sequence : Option ℕ) → DspError
      → Worker
      → Worker
  fail window sensor first last error w =
      publish
        (processing_failed (record {
          window_id = window;
          sensor_id = sensor;
          first_sequence = first;
          last_sequence = last;
          timestamp = clock w.ticks;
          code = Errors.code error;
          message = to_string error;
        }))
        (record w { stats = Stats.record_window_failure (to_string error) w.stats })

  unfoldable pub announce : CsiWindow → Worker → Worker
  announce window w =
      publish
        (window_assembled (record {
          window_id = window.window_id;
          sensor_id = window.sensor_id;
          first_sequence = window.first_sequence;
          last_sequence = window.last_sequence;
          frame_count = as_u32 (length window.frames);
          timestamp = clock w.ticks;
        }))
        w

  -- The branch for a window.
  unfoldable pub handle_window :
      DspProfile → DspKernelBackend → CsiWindow → Worker → Outcome DspError Worker
  unfolding announce
  handle_window profile backend window w =
      let v = announce window w in
      let u : Worker = record v { ticks = suc v.ticks } in
      elim (process_window fft (clock v.ticks) (elapsed v.ticks) window profile backend) [
        | done result ↦ done (succeed result u)
        | failed error ↦ done (
            fail (some window.window_id) (some window.sensor_id) (some window.first_sequence)
              (some window.last_sequence) error u)
        | panicked ↦ panicked
      ]

  -- What the body of the loop does with the outcome of `push`.
  unfoldable pub handle_pushed :
      DspProfile
      → DspKernelBackend
      → Worker
      → WindowAssembler × Result DspError (Option CsiWindow)
      → Outcome DspError Worker
  handle_pushed profile backend w (assembler, result) =
      let v : Worker = record w {
        assembler = assembler;
        stats = Stats.record_frame_received w.stats;
      } in
      elim result [
        | ok none ↦ done v
        | ok (some window) ↦ handle_window profile backend window v
        | err error ↦ done (
            fail none (Errors.sensor_id error) (Errors.sequence error) (Errors.sequence error) error
              v)
      ]

  unfoldable pub handle_frame :
      DspProfile → DspKernelBackend → CalibratedCsiFrame → Worker → Outcome DspError Worker
  unfolding handle_pushed
  handle_frame profile backend frame w = handle_pushed profile backend w (push w.assembler frame)

  -- The loop over the frames until the queue is closed.
  unfoldable pub handle_all :
      DspProfile → DspKernelBackend → List CalibratedCsiFrame → Worker → Outcome DspError Worker
  handle_all profile backend [] w = done w
  handle_all profile backend (frame ∷ frames) w =
      handle_frame profile backend frame w >>= handle_all profile backend frames

  -- What follows the loop.
  unfoldable pub finish : (completed : Bool) → Worker → Worker
  finish finite w =
      let v : Worker = record w {
        stats = Stats.set_worker_state (if finite then completed else idle) w.stats;
      } in
      let u = publish (service_idle (clock v.ticks) finite) v in
      publish (service_stopped (clock u.ticks)) u

  unfoldable pub start_event : DspProfile → DspKernelBackend → Worker → Worker
  start_event profile backend w =
      publish
        (service_started (record {
          timestamp = clock w.ticks;
          profile_id = profile.id;
          profile_version = profile.version;
          window_size_frames = as_u32 w.assembler.config.window_size_frames;
          hop_size_frames = as_u32 w.assembler.config.hop_size_frames;
          backend_id = backend_name backend.identity.kind;
          backend_version = backend.identity.implementation_version;
          backend_abi_version = backend.identity.abi_version;
        }))
        w

  unfoldable pub run_worker :
      DspProfile → DspKernelBackend → List CalibratedCsiFrame → Worker → Outcome DspError Worker
  unfolding start_event
  run_worker profile backend frames w =
      handle_all profile backend frames (start_event profile backend w) >>= λ v.
      done (finish (received_any frames) v)
