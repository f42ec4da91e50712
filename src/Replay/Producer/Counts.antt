-- ===== src/Replay/Producer/Counts.antt =====
-- What one round of the producer counts.
use aeryon.Base.{
  ℕ, suc, ◌+◌, ◌≤◌, ◌<◌, ◌≡◌, refl, true, false, not, ◌&&◌, Bool-cases, Option, none, some, inl,
  inr, List, Result, u64_max, arith,
}
use aeryon.Base.Text.{Str}
use aeryon.Base.Outcomes.{Outcome, done, failed, panicked}
use aeryon.Domain.Frame.{Timestamp}
use aeryon.Csi.Frame.{CsiFrame}
use aeryon.Csi.Fixture.{RawRecord, FixtureError, FixtureReader, next_frame}
use aeryon.Replay.Events.{Event}
use aeryon.Replay.Config.{CsiReplayConfig}
use aeryon.Replay.Stats as Stats
use aeryon.Replay.Stats.{CsiReplayStats, CsiReplayCompletion}
use aeryon.Replay.Producer.{
  Observation, Producer, Loop, running, ended, aborted, fail, accept, give_up, deliver, handle_read,
  is_enough, read_next, open_next, step,
}

module _ {Io Json : Type 0} (clock : ℕ → Timestamp) (from_str : Str → Result Json RawRecord)
    (to_string : FixtureError Io Json → Str) (config : CsiReplayConfig) where
  -- At most as many frames as the limit, where there is one.
  abbrev pub Within : ℕ → Type 0
  Within emitted = 0 < config.maximum_frames → emitted ≤ config.maximum_frames

  -- The producer before a round: every frame that was read was accepted.
  pub record Going (p : Producer Io) : Type 0 where
    pub accepted : p.shared.stats.frames_accepted ≡ p.emitted
    pub read : p.shared.stats.frames_read ≡ p.emitted
    pub rejected : p.shared.stats.frames_rejected ≡ 0
    pub well : p.shared.failed ≡ false
    pub active : p.shared.stats.completion ≡ 1
    pub alive : p.shared.producer_alive ≡ true
    pub within : Within p.emitted

  -- The producer after its last round; the frame that failed was read and not accepted.
  pub record Tally (q : Producer Io) : Type 0 where
    pub accepted : q.shared.stats.frames_accepted ≡ q.emitted
    pub least : q.emitted ≤ q.shared.stats.frames_read
    pub most : q.shared.stats.frames_read ≤ q.emitted + 1
    pub rejected : q.emitted + q.shared.stats.frames_rejected ≤ q.shared.stats.frames_read
    pub within : Within q.emitted
    pub whole : q.shared.failed ≡ false → q.shared.stats.frames_read ≡ q.emitted
    pub broken : q.shared.failed ≡ true → q.shared.stats.completion ≡ 3

  Going-Tally : (p : Producer Io) → Going p → Tally p
  Going-Tally p g = record {
    accepted = g.accepted;
    least = omega (arith, g.read);
    most = omega (arith, g.read);
    rejected = omega (arith, g.read, g.rejected);
    within = g.within;
    whole = λ sound. g.read;
    broken = λ failure. ground (arith, failure, g.well);
  }

  -- What a round leaves, with room for `n` more frames.
  abbrev pub Counts : ℕ → Producer Io × Loop → Type 0
  Counts n (q, running) = Going q × (q.emitted + n ≤ u64_max)
  Counts n (q, ended clean) = Tally q
  Counts n (q, aborted) = Unit

  -- Before a frame is delivered: it was read, and it is within the limit.
  pub record HasRead (n : ℕ) (p : Producer Io) : Type 0 where
    pub accepted : p.shared.stats.frames_accepted ≡ p.emitted
    pub read : p.shared.stats.frames_read ≡ p.emitted + 1
    pub rejected : p.shared.stats.frames_rejected ≡ 0
    pub well : p.shared.failed ≡ false
    pub active : p.shared.stats.completion ≡ 1
    pub alive : p.shared.producer_alive ≡ true
    pub within : 0 < config.maximum_frames → p.emitted < config.maximum_frames
    pub room : p.emitted + suc n ≤ u64_max

  accept-Counts :
      (o : Observation Io) (f : CsiFrame) (p : Producer Io) (n : ℕ)
      → HasRead n p
      → Counts n (accept clock from_str to_string config o f p)
  unfolding accept Stats.record_accepted
  accept-Counts o f p n h =
      ground (arith, h.accepted, h.read, h.rejected, h.well, h.active, h.alive, h.within, h.room)

  give_up-Counts :
      (m : Str) (p : Producer Io) (n : ℕ)
      → HasRead n p
      → Counts n (give_up clock from_str to_string config m p)
  unfolding fail Stats.set_completion Stats.completion_to_u64 Stats.set_last_error
  give_up-Counts m p n h = record {
    accepted = h.accepted;
    least = omega (arith, h.read);
    most = omega (arith, h.read);
    rejected = omega (arith, h.read, h.rejected);
    within = λ limit. omega (arith, h.within limit);
    whole = λ sound. ground (arith, sound);
    broken = λ failure. refl;
  }

  deliver-Counts :
      (o : Observation Io) (f : CsiFrame) (p : Producer Io) (n : ℕ)
      → HasRead n p
      → Counts n (deliver clock from_str to_string config o f p)
  unfolding deliver
  deliver-Counts o f p n h =
      let same : (ticks : ℕ) (es : List Event)
          → HasRead n (record p { shared = record p.shared { ticks = ticks; published = es } }) =
        λ ticks es. record {
          accepted = h.accepted;
          read = h.read;
          rejected = h.rejected;
          well = h.well;
          active = h.active;
          alive = h.alive;
          within = h.within;
          room = h.room;
        } in
      elim (Bool-cases o.publishes) [
        | inr quiet ↦
            rw (quiet, deliver)
              (give_up-Counts _ _ n (same (suc p.shared.ticks) p.shared.published))
        | inl heard ↦ elim (Bool-cases (p.frame_tx && not o.delivers)) [
          | inl shut ↦
              rw (heard, deliver, shut) (give_up-Counts _ _ n (same (suc p.shared.ticks) _))
          | inr ready ↦
              rw (heard, deliver, ready) (accept-Counts o f _ n (same (suc p.shared.ticks) _))
        ]
      ]

  handle_read-Counts :
      (o : Observation Io) (out : Outcome (FixtureError Io Json) (Option CsiFrame))
      (p : Producer Io) (n : ℕ)
      → Going p
      → (0 < config.maximum_frames → p.emitted < config.maximum_frames)
      → p.emitted + suc n ≤ u64_max
      → Counts n (handle_read clock from_str to_string config o out p)
  unfolding handle_read fail Stats.set_completion Stats.completion_to_u64 Stats.record_read
      Stats.record_rejected Stats.set_last_error
  handle_read-Counts o (done none) p n g within room =
      let done_ = Going-Tally p g in
      ground
        (arith, g.accepted, g.read, g.rejected, g.well, g.active, g.alive, g.within, done_, room)
  handle_read-Counts o (done (some f)) p n g within room = deliver-Counts o f _ n (record {
    accepted = g.accepted;
    read = omega (arith, g.read, room);
    rejected = g.rejected;
    well = g.well;
    active = g.active;
    alive = g.alive;
    within = within;
    room = room;
  })
  handle_read-Counts o (failed e) p n g within room = record {
    accepted = g.accepted;
    least = omega (arith, g.read, room);
    most = omega (arith, g.read, room);
    rejected = omega (arith, g.read, g.rejected, room);
    within = g.within;
    whole = λ sound. ground (arith, sound);
    broken = λ failure. refl;
  }
  handle_read-Counts o panicked p n g within room = tt

  read_next-Counts :
      (o : Observation Io) (r : FixtureReader Io) (p : Producer Io) (n : ℕ)
      → Going p
      → p.emitted + suc n ≤ u64_max
      → Counts n (read_next clock from_str to_string config o r p)
  unfolding read_next
  read_next-Counts o r p n g room =
      let over = Going-Tally p g in
      let call = next_frame from_str r in
      let q : Producer Io = record p { reader = some call.0 } in
      elim (Bool-cases o.cancelled) [
        | inl stop ↦ rw (stop, read_next) over
        | inr on ↦ elim (Bool-cases (is_enough clock from_str to_string config p)) [
          | inl enough ↦ rw (on, read_next, enough) over
          | inr more ↦
              rw (on, read_next, more)
                (handle_read-Counts o call.1 q n
                  (record {
                    accepted = g.accepted;
                    read = g.read;
                    rejected = g.rejected;
                    well = g.well;
                    active = g.active;
                    alive = g.alive;
                    within = g.within;
                  })
                  (λ limit. ground (arith, more, limit)) room)
        ]
      ]

  open_next-Counts :
      (o : Observation Io) (p : Producer Io) (n : ℕ)
      → Going p
      → p.emitted + suc n ≤ u64_max
      → Counts n (open_next clock from_str to_string config o p)
  unfolding open_next fail Stats.set_completion Stats.completion_to_u64 Stats.set_last_error
  open_next-Counts o p n g room =
      ground (arith, g.accepted, g.read, g.rejected, g.well, g.active, g.alive, g.within, room)

  pub step-Counts :
      (o : Observation Io) (p : Producer Io) (n : ℕ)
      → Going p
      → p.emitted + suc n ≤ u64_max
      → Counts n (step clock from_str to_string config o p)
  unfolding step
  step-Counts o p n g room =
      elim p.reader
        as (λ x. Counts n (elim x as (λ _. Producer Io × Loop) [
          | none ↦ open_next clock from_str to_string config o p
          | some r ↦ read_next clock from_str to_string config o r p
        ])) [ none ↦ open_next-Counts o p n g room | some r ↦ read_next-Counts o r p n g room ]
