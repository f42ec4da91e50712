-- ===== src/Replay/Tests.antt =====
-- Runs of the producer on a recorded stream of two frames.
use aeryon.Base.{
  ℕ, ◌≡◌, ◌⊎◌, refl, true, false, none, some, List, [], ◌∷◌, length, ok, list_eq, is_finite32,
  arith,
}
use aeryon.Base.Text.{Str, codes, is_blank, blank_after}
use aeryon.Base.Outcomes.{done, failed}
use aeryon.Domain.Frame.{Timestamp}
use aeryon.Csi.Fixture.{
  FixtureError, FixtureReader, new, read_header, handle_header, check_header, parse_layout,
  parse_u64, parse_digits, next_frame, next_from, handle_record, frame_record_to_csi, convert,
  metadata_of,
}
use aeryon.Csi.Frame.{try_new, check_ascending, check_dimensions, check_finite, is_finite}
use aeryon.Csi.Recordings.{decode, stream}
use aeryon.Replay.Config.{CsiReplayConfig}
use aeryon.Replay.Stats as Stats
use aeryon.Replay.Stats.{new_stats}
use aeryon.Replay.Producer.{
  Observation, Producer, Loop, ended, slept, leaves, open_fixture, accept, deliver, handle_read,
  read_next, open_next, step, produce, conclude, run_producer,
}
use aeryon.Replay.Producer.Counts.{Going}
use aeryon.Replay.Producer.Accounts.{Accounted, run_producer_accounts}
use aeryon.Replay.Producer.Order.{SendsNothing, SendsInOrder, replay_in_order}
use aeryon.Replay.Plugin.{CsiReplayPlugin, with_stats_and_frame_tx, initialize, spawn}
use aeryon.Replay.Plugin.Health.{Shows, health_after_initialize}

abbrev at_noon : ℕ → Timestamp
at_noon n = record { nanos = 120 }

abbrev message : FixtureError Str Str → Str
message e = codes "failed"

abbrev config : CsiReplayConfig
config = record {
  enabled = true;
  path = codes "frames.ndjson";
  loop_playback = false;
  frame_interval_ms = 10;
  maximum_frames = 0;
}

abbrev calm : Observation Str
calm = record {
  file = ok stream;
  cancelled = false;
  publishes = true;
  delivers = true;
  wake = slept;
}

abbrev begun : Producer Str
begun = record {
  shared = record {
    stats = record new_stats { completion = 1 };
    failed = false;
    producer_alive = true;
    ticks = 0;
    published = [];
    sent = [];
  };
  reader = none;
  emitted = 0;
  frame_tx = true;
}

abbrev rounds : List (Observation Str)
rounds = calm ∷ calm ∷ calm ∷ calm ∷ calm ∷ []

-- Both frames are sent, and the task ends cleanly.
sends_both :
    ◌≡◌ {A = ℕ × Loop}
      (
        length
            (run_producer at_noon decode message config (calm ∷ rounds) false begun).0.shared.sent,
        (run_producer at_noon decode message config (calm ∷ rounds) false begun).1,
      )
      (2, ended true)
unfolding run_producer produce step open_next read_next handle_read deliver accept leaves conclude
    open_fixture new read_header handle_header check_header parse_layout parse_u64 parse_digits
    next_frame next_from handle_record frame_record_to_csi convert metadata_of try_new
    check_ascending check_dimensions check_finite is_finite is_finite32 is_blank blank_after list_eq
    Stats.record_read Stats.record_accepted Stats.set_completion Stats.completion_to_u64
sends_both = refl

replay_in_order_example :
    let out = run_producer at_noon decode message config (calm ∷ rounds) false begun in
    ((e : FixtureError Str Str) × (open_fixture at_noon decode message config calm.file ≡ failed e)
      × SendsNothing at_noon decode message config refl (omega arith) out)
    ⊎ ((r : FixtureReader Str) × (open_fixture at_noon decode message config calm.file ≡ done r)
        × SendsInOrder at_noon decode message config refl (omega arith) r rounds 0 out)
replay_in_order_example =
    replay_in_order at_noon decode message config refl (omega arith) calm rounds false begun refl
      refl refl

begun-Going : Going at_noon decode message config begun
begun-Going = record {
  accepted = refl;
  read = refl;
  rejected = refl;
  well = refl;
  active = refl;
  alive = refl;
  within = λ limit. omega arith;
}

run_producer_accounts_example :
    Accounted at_noon decode message config false
      (run_producer at_noon decode message config rounds false begun)
run_producer_accounts_example =
    run_producer_accounts at_noon decode message config rounds false begun begun-Going (omega arith)

abbrev plugin : CsiReplayPlugin Str
plugin = with_stats_and_frame_tx new_stats true

health_after_initialize_example :
    (t : Producer Str) × ((spawn at_noon decode message config plugin).started ≡ some t)
    × Shows at_noon decode message config
        (spawn at_noon decode message config plugin)
        (run_producer at_noon decode message config rounds false t)
unfolding initialize open_fixture new read_header handle_header check_header parse_layout parse_u64
    parse_digits is_blank blank_after list_eq
health_after_initialize_example =
    health_after_initialize at_noon decode message config (ok stream) plugin
      (spawn at_noon decode message config plugin) rounds refl (omega arith)
