-- ===== src/Replay/Producer/Rounds.antt =====
-- What one round of the producer hands on.
use mathlib.Core.Path.{subst}
use mathlib.Core.List.{append-nil}
use aeryon.Base.{
  ℕ, suc, ◌≤◌, u64_max, saturating_add, arith, ◌||◌, ◌≡◌, refl, sym, ap, ◌∙◌, true, false, not,
  ◌&&◌, Bool-cases, Option, none, some, inl, inr, if◌then◌else◌, List, [], ◌∷◌, ◌++◌, Result,
}
use aeryon.Base.Text.{Str}
use aeryon.Base.Outcomes.{Outcome, done, failed, panicked}
use aeryon.Domain.Frame.{Timestamp}
use aeryon.Csi.Frame.{CsiFrame}
use aeryon.Csi.Fixture.{RawRecord, FixtureError, FixtureHeader, FixtureReader, next_frame}
use aeryon.Csi.Fixture.Calls.{Gave, next_frame-Gave}
use aeryon.Replay.Config.{CsiReplayConfig}
use aeryon.Replay.Producer.{
  Observation, Producer, Loop, running, ended, aborted, leaves, fail, accept, deliver, handle_read,
  is_enough, read_next, open_next, step,
}
use aeryon.Replay.Producer.Leading.{
  admits, Lets, admits-Lets, limited, leading, leading_none, leading_first, leading_stop,
}

module _ {Io Json : Type 0} (clock : ℕ → Timestamp) (from_str : Str → Result Json RawRecord)
    (to_string : FixtureError Io Json → Str) (config : CsiReplayConfig)
    (once : config.loop_playback ≡ false) (width : config.maximum_frames ≤ u64_max) where
  abbrev pub room : Producer Io → ℕ → ℕ
  room p n = limited config.maximum_frames p.emitted n

  -- What a round on the reader `r` leaves: a frame more in the queue, and the loops go on; or they have
  -- ended, with the frames that the round lets through, whatever follows it.
  abbrev pub Went : (ℕ → ℕ) → FixtureReader Io → Producer Io → Producer Io × Loop → Type 0
  Went g r p (q, running) =
      (u : FixtureReader Io) × (f : CsiFrame) × (next_frame from_str r ≡ (u, done (some f)))
      × (q.reader ≡ some u)
      × (q.frame_tx ≡ true)
      × (q.shared.sent ≡ p.shared.sent ++ (f ∷ []))
      × ((n : ℕ) → room p (g n) ≡ suc (room q n))
  Went g r p (q, ended clean) =
      (n : ℕ) → q.shared.sent ≡ p.shared.sent ++ leading from_str (room p (g n)) r
  Went g r p (q, aborted) = ⊥

  no_more :
      (r : FixtureReader Io) (sent : List CsiFrame) (m : ℕ)
      → leading from_str m r ≡ []
      → sent ≡ sent ++ leading from_str m r
  no_more r sent m e = sym (ap (λ l. sent ++ l) e ∙ append-nil sent)

  pub none_left :
      (r : FixtureReader Io) (sent : List CsiFrame) (m : ℕ)
      → m ≡ 0
      → sent ≡ sent ++ leading from_str m r
  none_left r sent m e =
      no_more r sent m (ap (λ n. leading from_str n r) e ∙ leading_none from_str r)

  first_frame :
      (r u : FixtureReader Io) (f : CsiFrame) (m : ℕ)
      → next_frame from_str r ≡ (u, done (some f))
      → m ≡ 1
      → f ∷ [] ≡ leading from_str m r
  first_frame r u f m e one = sym (
      ap (λ n. leading from_str n r) one
      ∙ leading_first from_str 0 r u f e
      ∙ ap (λ l. f ∷ l) (leading_none from_str u))

  -- The limit has room for a frame.
  abbrev HasRoom : Producer Io → Type 0
  HasRoom p = is_enough clock from_str to_string config p ≡ false

  room_one : (p : Producer Io) → HasRoom p → room p 1 ≡ 1
  room_one p h = ground arith

  pub room_zero : (p : Producer Io) → room p 0 ≡ 0
  room_zero p = ground arith

  room_full :
      (p : Producer Io) (n : ℕ) → is_enough clock from_str to_string config p ≡ true → room p n ≡ 0
  room_full p n h = ground arith

  room_suc :
      (p : Producer Io) (n : ℕ)
      → HasRoom p
      → room p (suc n) ≡ suc (limited config.maximum_frames (saturating_add p.emitted 1) n)
  room_suc p n h = ground (arith, width)

  accept-Went :
      (o : Observation Io) (g : ℕ → ℕ) (lets : Lets o g) (f : CsiFrame) (r u : FixtureReader Io)
      (p q : Producer Io)
      → next_frame from_str r ≡ (u, done (some f))
      → q.reader ≡ some u
      → q.frame_tx ≡ true
      → q.shared.sent ≡ p.shared.sent
      → q.emitted ≡ p.emitted
      → HasRoom p
      → (o.cancelled || not (o.publishes && o.delivers)) ≡ false
      → Went g r p (accept clock from_str to_string config o f q)
  unfolding accept
  accept-Went o g lets f r u p q e reader tx same emitted more free =
      let sent : (if q.frame_tx then q.shared.sent ++ (f ∷ []) else q.shared.sent)
          ≡ p.shared.sent ++ (f ∷ []) =
        rw (tx, same) refl in
      elim (Bool-cases (leaves o.wake)) [
        | inl left ↦ rw left (λ n.
            sent
            ∙ ap (λ l. p.shared.sent ++ l)
                (first_frame r u f _ e (ap (room p) (lets.last free left n) ∙ room_one p more)))
        | inr stays ↦ rw stays (
          u,
          f,
          e,
          reader,
          tx,
          sent,
          λ n.
              ap (room p) (lets.more free stays n)
              ∙ room_suc p n more
              ∙ ap (λ m. suc (limited config.maximum_frames (saturating_add m 1) n)) (sym emitted),
        )
      ]

  deliver-Went :
      (o : Observation Io) (g : ℕ → ℕ) (lets : Lets o g) (f : CsiFrame) (r u : FixtureReader Io)
      (p q : Producer Io)
      → next_frame from_str r ≡ (u, done (some f))
      → q.reader ≡ some u
      → q.frame_tx ≡ true
      → q.shared.sent ≡ p.shared.sent
      → q.emitted ≡ p.emitted
      → HasRoom p
      → o.cancelled ≡ false
      → Went g r p (deliver clock from_str to_string config o f q)
  unfolding deliver fail
  deliver-Went o g lets f r u p q e reader tx same emitted more on =
      let nothing : o.publishes && o.delivers ≡ false → (n : ℕ) → room p (g n) ≡ 0 =
        λ shut n. ap (room p) (lets.stopped (ground (arith, shut)) n) ∙ room_zero p in
      elim (Bool-cases o.publishes) [
        | inr quiet ↦
            rw (quiet, deliver)
              (λ n. same ∙ none_left r p.shared.sent _ (nothing (ground (arith, quiet)) n))
        | inl heard ↦ elim (Bool-cases (q.frame_tx && not o.delivers)) [
          | inl shut ↦
              rw (heard, deliver, shut)
                (λ n. same ∙ none_left r p.shared.sent _ (nothing (ground (arith, tx, shut)) n))
          | inr ready ↦
              rw (heard, deliver, ready)
                (accept-Went o g lets f r u p _ e reader tx same emitted more
                  (ground (arith, on, heard, tx, ready)))
        ]
      ]

  handle_read-Went :
      (o : Observation Io) (g : ℕ → ℕ) (lets : Lets o g) (h : FixtureHeader)
      (r u : FixtureReader Io) (out : Outcome (FixtureError Io Json) (Option CsiFrame))
      (p : Producer Io)
      → next_frame from_str r ≡ (u, out)
      → Gave from_str h r u out
      → p.frame_tx ≡ true
      → HasRoom p
      → o.cancelled ≡ false
      → Went g r p
          (handle_read clock from_str to_string config o out (record p { reader = some u }))
  unfolding handle_read fail
  handle_read-Went o g lets h r u (done none) p e v tx more on =
      rw once
        (λ n. no_more r p.shared.sent _ (leading_stop from_str _ r u (done none) e (λ l. refl)))
  handle_read-Went o g lets h r u (done (some f)) p e v tx more on =
      deliver-Went o g lets f r u p _ e refl tx refl refl more on
  handle_read-Went o g lets h r u (failed x) p e v tx more on =
      λ n. no_more r p.shared.sent _ (leading_stop from_str _ r u (failed x) e (λ l. refl))
  handle_read-Went o g lets h r u panicked p e v tx more on = absurd v

  read_next-Went :
      (o : Observation Io) (g : ℕ → ℕ) (lets : Lets o g) (h : FixtureHeader) (r : FixtureReader Io)
      (p : Producer Io)
      → r.header ≡ some h
      → p.frame_tx ≡ true
      → Went g r p (read_next clock from_str to_string config o r p)
  unfolding read_next
  read_next-Went o g lets h r p e tx =
      let (kept, given) = next_frame-Gave from_str h r e in
      let call = next_frame from_str r in
      elim (Bool-cases o.cancelled) [
        | inl stop ↦
            rw (stop, read_next)
              (λ n.
                none_left r p.shared.sent _
                  (ap (room p) (lets.stopped (ground (arith, stop)) n) ∙ room_zero p))
        | inr on ↦ elim (Bool-cases (is_enough clock from_str to_string config p)) [
          | inl enough ↦
              rw (on, read_next, enough)
                (λ n. none_left r p.shared.sent _ (room_full p (g n) enough))
          | inr more ↦
              rw (on, read_next, more)
                (handle_read-Went o g lets h r call.0 call.1 p refl given tx more on)
        ]
      ]

  pub step-Went :
      (o : Observation Io) (h : FixtureHeader) (r : FixtureReader Io) (p : Producer Io)
      → r.header ≡ some h
      → p.reader ≡ some r
      → p.frame_tx ≡ true
      → Went (admits o) r p (step clock from_str to_string config o p)
  unfolding step
  step-Went o h r p e reader tx =
      subst
        (λ x. Went (admits o) r p (elim x as (λ _. Producer Io × Loop) [
          | none ↦ open_next clock from_str to_string config o p
          | some r ↦ read_next clock from_str to_string config o r p
        ]))
        (sym reader) (read_next-Went o (admits o) (admits-Lets o) h r p e tx)
