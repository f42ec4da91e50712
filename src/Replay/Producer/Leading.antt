-- ===== src/Replay/Producer/Leading.antt =====
-- How far a run of the producer gets: the frames that its reader gives, and those that its rounds let through.
use aeryon.Base.{
  ℕ, zero, suc, ◌-◌, ◌==◌, ◌||◌, ◌≡◌, refl, sym, ap, ◌∙◌, true, false, not, ◌&&◌, Option, none,
  some, if◌then◌else◌, List, [], ◌∷◌, Result,
}
use Prim.Native.Nat.{min}
use aeryon.Base.Text.{Str}
use aeryon.Base.Outcomes.{Outcome, done, failed, panicked}
use aeryon.Csi.Frame.{CsiFrame}
use aeryon.Csi.Fixture.{RawRecord, FixtureError, FixtureReader, next_frame}
use aeryon.Csi.Fixture.Order.{frames, frames_first, frames_none}
use aeryon.Replay.Producer.{Observation, leaves}

-- How many frames a round lets through, where those after it let `rest` through: none where the task is
-- cancelled or the frame reaches no subscriber or no queue, and only its own where the wait is broken off.
abbrev pub admits : {Io : Type 0} → Observation Io → (rest : ℕ) → ℕ
admits o rest =
    if o.cancelled || not (o.publishes && o.delivers)
    then 0
    else if leaves o.wake
    then 1
    else suc rest

-- `g` says how many frames the round lets through, given how many those after it do.
pub record Lets {Io : Type 0} (o : Observation Io) (g : ℕ → ℕ) : Type 0 where
  pub stopped : (o.cancelled || not (o.publishes && o.delivers)) ≡ true → (n : ℕ) → g n ≡ 0
  pub last :
      (o.cancelled || not (o.publishes && o.delivers)) ≡ false
      → leaves o.wake ≡ true
      → (n : ℕ) → g n ≡ 1
  pub more :
      (o.cancelled || not (o.publishes && o.delivers)) ≡ false
      → leaves o.wake ≡ false
      → (n : ℕ) → g n ≡ suc n

pub admits-Lets : {Io : Type 0} (o : Observation Io) → Lets o (admits o)
admits-Lets o = record {
  stopped = λ h n. rw h refl;
  last = λ h left n. rw (h, left) refl;
  more = λ h stays n. rw (h, stays) refl;
}

abbrev pub admitted : {Io : Type 0} → List (Observation Io) → ℕ
admitted [] = 0
admitted (o ∷ os) = admits o (admitted os)

-- As many of `n` frames as the limit of the configuration has room for.
abbrev pub limited : (maximum emitted n : ℕ) → ℕ
limited maximum emitted n = if maximum == 0 then n else min (maximum - emitted) n

module _ {Io Json : Type 0} (from_str : Str → Result Json RawRecord) where
  abbrev pub before_end :
      Outcome (FixtureError Io Json) (Option CsiFrame) → List CsiFrame → List CsiFrame
  before_end (done (some f)) rest = f ∷ rest
  before_end _ rest = []

  -- The frames of the first `n` calls of `next_frame`, before the first one that returns no frame.
  pub leading : ℕ → FixtureReader Io → List CsiFrame
  leading zero r = []
  leading (suc n) r = let (u, out) = next_frame from_str r in before_end out (leading n u)

  pub leading_none : (r : FixtureReader Io) → leading 0 r ≡ []
  unfolding leading
  leading_none r = refl

  pub leading_first :
      (n : ℕ) (r u : FixtureReader Io) (f : CsiFrame)
      → next_frame from_str r ≡ (u, done (some f))
      → leading (suc n) r ≡ f ∷ leading n u
  unfolding leading
  leading_first n r u f e = rw e refl

  pub leading_stop :
      (n : ℕ) (r u : FixtureReader Io) (out : Outcome (FixtureError Io Json) (Option CsiFrame))
      → next_frame from_str r ≡ (u, out)
      → ((rest : List CsiFrame) → before_end out rest ≡ [])
      → leading n r ≡ []
  unfolding leading
  leading_stop zero r u out e h = refl
  leading_stop (suc n) r u out e h = rw e (h _)

  -- They are frames of some first calls, of which no one skips an error.
  pub leading-frames :
      (n : ℕ) (r : FixtureReader Io) → (k : ℕ) × (leading n r ≡ frames from_str k r)
  unfolding leading
  leading-frames zero r = (0, sym (frames_none from_str r))
  leading-frames (suc n) r =
      let (u, out) = next_frame from_str r in
      elim (next_frame from_str r).1
          as (λ x.
            next_frame from_str r ≡ ((next_frame from_str r).0, x)
            → (k : ℕ) × (before_end x (leading n (next_frame from_str r).0)
                ≡ frames from_str k r)) [
                  | done none ↦ λ e. (0, sym (frames_none from_str r))
                  | done (some f) ↦ λ e.
                      let (k, same) = leading-frames n (next_frame from_str r).0 in
                      (
                        suc k,
                        ap (λ l. f ∷ l) same
                            ∙ sym (frames_first from_str k r (next_frame from_str r).0 f e),
                      )
                  | failed x ↦ λ e. (0, sym (frames_none from_str r))
                  | panicked ↦ λ e. (0, sym (frames_none from_str r))
                ]
        refl
