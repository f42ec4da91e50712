-- ===== src/Replay/Producer.antt =====
-- The task that `CsiReplayPlugin::initialize` of plugins/csi-replay/src/plugin.rs spawns. What it meets in one
-- round of its loops is an observation, and its run is a list of them.
pub mod Leading
pub mod Rounds
pub mod Loops
pub mod Order
pub mod Counts
pub mod Accounts
pub mod Sound
use aeryon.Base.{
  ℕ, zero, suc, ◌%◌, ◌^◌, Bool, true, false, not, ◌&&◌, ◌||◌, Option, none, some, List, [], ◌∷◌,
  ◌++◌, Result, ok, err, ◌==◌, leb, ltb, if◌then◌else◌, saturating_add,
}
use aeryon.Base.Text.{Str, codes}
use aeryon.Base.Outcomes.{Outcome, done, failed, panicked}
use aeryon.Domain.Frame.{FrameId, SensorId, Timestamp}
use aeryon.Csi.Frame as Frame
use aeryon.Csi.Frame.{CsiFrame}
use aeryon.Csi.Fixture.{RawRecord, FixtureError, io, FixtureReader, new, next_frame}
use aeryon.Replay.Config.{CsiReplayConfig}
use aeryon.Replay.Stats as Stats
use aeryon.Replay.Stats.{CsiReplayStats, CsiReplayCompletion}
use aeryon.Replay.Events.{
  CsiReplayFailureKind, fixture_error, malformed_frame, publish_failed, producer_exited,
  CsiFrameReceived, Event, replay_started, frame_received, replay_completed, replay_stopped,
  replay_failed,
}

-- How the wait between two frames ends: by the interval, by a new value of the cancel signal, or since its
-- sender was dropped.
pub data Wake : Type 0 where
  slept : Wake
  changed : (cancelled : Bool) → Wake
  dropped : (cancelled : Bool) → Wake

unfoldable pub leaves : Wake → Bool
leaves slept = false
leaves (changed cancelled) = cancelled
leaves (dropped cancelled) = true

-- `file` is what opening the fixture gives, `cancelled` the cancel signal, `publishes` whether the bus has a
-- subscriber, and `delivers` whether the queue for the frames is open.
pub record Observation (Io : Type 0) : Type 0 where
  pub file : Result Io (List (Result Io Str))
  pub cancelled : Bool
  pub publishes : Bool
  pub delivers : Bool
  pub wake : Wake

-- What the plugin and its task share, the readings of the clock, what was published, and the frames in the
-- queue.
pub record Shared : Type 0 where
  pub stats : CsiReplayStats
  pub failed : Bool
  pub producer_alive : Bool
  pub ticks : ℕ
  pub published : List Event
  pub sent : List CsiFrame

-- The task; there is no reader where the fixture is to be opened.
pub record Producer (Io : Type 0) : Type 0 where
  pub shared : Shared
  pub reader : Option (FixtureReader Io)
  pub emitted : ℕ
  pub frame_tx : Bool

-- Whether the loops go on; a panic aborts the task.
pub data Loop : Type 0 where
  running : Loop
  ended : (completed_cleanly : Bool) → Loop
  aborted : Loop

abbrev pub go_on :
    {Io : Type 0} → (Producer Io → Producer Io × Loop) → Producer Io × Loop → Producer Io × Loop
go_on rest (p, running) = rest p
go_on rest (p, ended clean) = (p, ended clean)
go_on rest (p, aborted) = (p, aborted)

module _ (clock : ℕ → Timestamp) where
  unfoldable pub fail : CsiReplayFailureKind → Shared → Shared
  fail kind s = record s {
    failed = true;
    stats = Stats.set_completion CsiReplayCompletion.failed s.stats;
    ticks = suc s.ticks;
    published = s.published ++ (replay_failed (clock s.ticks) kind ∷ []);
  }

  abbrev pub received_event : CsiFrame → Timestamp → Event
  received_event f time = frame_received (record {
    frame_id = Frame.frame_id f;
    sensor_id = Frame.sensor_id f;
    sequence = Frame.sequence f;
    capture_timestamp = Frame.capture_timestamp f;
    receive_timestamp = time;
    receive_antennas = f.receive_antennas;
    transmit_antennas = f.transmit_antennas;
    subcarrier_count = Frame.subcarrier_count f % 2 ^ 16;
    center_frequency_hz = f.center_frequency_hz;
    bandwidth_hz = f.bandwidth_hz;
  })

  module _ {Io Json : Type 0} (from_str : Str → Result Json RawRecord)
      (to_string : FixtureError Io Json → Str) (config : CsiReplayConfig) where
    -- `FixtureReader::open`.
    unfoldable pub open_fixture :
        Result Io (List (Result Io Str)) → Outcome (FixtureError Io Json) (FixtureReader Io)
    open_fixture (err e) = failed (io 0 e)
    open_fixture (ok reads) = new from_str reads

    -- The end of a round for a frame that was published and sent.
    unfoldable pub accept : Observation Io → CsiFrame → Producer Io → Producer Io × Loop
    accept o f p =
        let s = p.shared in
        (
          record p {
            emitted = saturating_add p.emitted 1;
            shared = record s {
              stats =
                  Stats.record_accepted (Frame.sequence f) (Frame.capture_timestamp f).nanos
                    f.receive_antennas f.transmit_antennas (Frame.subcarrier_count f)
                    f.center_frequency_hz f.bandwidth_hz s.stats;
              sent = if p.frame_tx then s.sent ++ (f ∷ []) else s.sent;
            };
          },
          if leaves o.wake then ended false else running,
        )

    abbrev pub give_up : Str → Producer Io → Producer Io × Loop
    give_up message p = (
      record p {
        shared =
            fail publish_failed
              (record p.shared { stats = Stats.set_last_error message p.shared.stats });
      },
      ended false,
    )

    -- A round from a frame on.
    unfoldable pub deliver : Observation Io → CsiFrame → Producer Io → Producer Io × Loop
    deliver o f p =
        let s = p.shared in
        let t : Shared = record s { ticks = suc s.ticks } in
        elim o.publishes [
          | false ↦ give_up (codes "failed to publish CSI frame event") (record p { shared = t })
          | true ↦
              let q : Producer Io = record p {
                shared = record t {
                  published = s.published ++ (received_event f (clock s.ticks) ∷ []);
                };
              } in
              elim (p.frame_tx && not o.delivers) [
                | true ↦ give_up (codes "CSI frame data-path channel closed unexpectedly") q
                | false ↦ accept o f q
              ]
        ]

    -- What a round makes of a call of `next_frame`.
    unfoldable pub handle_read :
        Observation Io
        → Outcome (FixtureError Io Json) (Option CsiFrame)
        → Producer Io
        → Producer Io × Loop
    handle_read o (done none) p =
        if config.loop_playback
          && ((config.maximum_frames == 0) || ltb p.emitted config.maximum_frames)
        then (record p { reader = none }, running)
        else (p, ended true)
    handle_read o (done (some f)) p =
        deliver o f
          (record p { shared = record p.shared { stats = Stats.record_read p.shared.stats } })
    handle_read o (failed e) p =
        let s = p.shared in
        (
          record p {
            shared = fail malformed_frame (record s {
              stats = Stats.record_rejected (to_string e) (Stats.record_read s.stats);
            });
          },
          ended false,
        )
    handle_read o panicked p = (p, aborted)

    abbrev pub is_enough : Producer Io → Bool
    is_enough p = ltb 0 config.maximum_frames && leb config.maximum_frames p.emitted

    -- A round of the inner loop on the reader `r`.
    unfoldable pub read_next : Observation Io → FixtureReader Io → Producer Io → Producer Io × Loop
    unfolding handle_read
    read_next o r p = elim o.cancelled [
      | true ↦ (p, ended false)
      | false ↦ elim (is_enough p) [
        | true ↦ (p, ended true)
        | false ↦
            let call = next_frame from_str r in
            handle_read o call.1 (record p { reader = some call.0 })
      ]
    ]

    abbrev pub not_opened : FixtureError Io Json → Producer Io → Producer Io
    not_opened e p = record p {
      shared =
          fail fixture_error
            (record p.shared { stats = Stats.set_last_error (to_string e) p.shared.stats });
    }

    -- A round of the outer loop where there is no reader.
    unfoldable pub open_next : Observation Io → Producer Io → Producer Io × Loop
    unfolding open_fixture
    open_next o p = elim (open_fixture o.file) [
      | done r ↦ (record p { reader = some r }, running)
      | failed e ↦ (not_opened e p, ended false)
      | panicked ↦ (p, aborted)
    ]

    unfoldable pub step : Observation Io → Producer Io → Producer Io × Loop
    unfolding open_next read_next
    step o p = elim p.reader [ none ↦ open_next o p | some r ↦ read_next o r p ]

    unfoldable pub produce : List (Observation Io) → Producer Io → Producer Io × Loop
    produce [] p = (p, running)
    produce (o ∷ os) p = go_on (produce os) (step o p)

    -- What follows the loops, for the cancel signal as it is then.
    unfoldable pub conclude : (cancelled completed_cleanly : Bool) → Shared → Shared
    conclude cancelled clean shared =
        let s : Shared = record shared { producer_alive = false } in
        elim s.failed [
          | true ↦ s
          | false ↦ elim cancelled [
            | true ↦ record s { stats = Stats.set_completion CsiReplayCompletion.stopped s.stats }
            | false ↦ elim clean [
              | true ↦ record s {
                stats = Stats.set_completion CsiReplayCompletion.completed s.stats;
                ticks = suc s.ticks;
                published =
                    s.published ++ (replay_completed (clock s.ticks) s.stats.frames_accepted ∷ []);
              }
              | false ↦ fail producer_exited (record s {
                stats =
                    Stats.set_last_error (codes "CSI replay producer exited unexpectedly") s.stats;
              })
            ]
          ]
        ]

    abbrev pub conclude_ended : (cancelled : Bool) → Producer Io × Loop → Producer Io × Loop
    conclude_ended cancelled (q, running) = (q, running)
    conclude_ended cancelled (q, ended clean) =
        (record q { shared = conclude cancelled clean q.shared }, ended clean)
    conclude_ended cancelled (q, aborted) = (q, aborted)

    -- The task: its state, and whether its loops go on.
    unfoldable pub run_producer :
        List (Observation Io) → (cancelled : Bool) → Producer Io → Producer Io × Loop
    run_producer os cancelled p = conclude_ended cancelled (produce os p)
