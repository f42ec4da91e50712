-- ===== src/Dsp/Service/Accounts.antt =====
-- What the worker announces, answers and counts.
use mathlib.Core.List.{append_assoc}
use aeryon.Base.{
  ℕ, suc, ◌+◌, ◌≤◌, ◌≡◌, refl, ap, ◌∙◌, Option, none, some, List, [], ◌∷◌, ◌++◌, map, Result, ok,
  err, length, length-append, if◌then◌else◌, u64_max, arith,
}
use aeryon.Base.Outcomes.{Outcome, done}
use aeryon.Calibration.Frame.{CalibratedCsiFrame}
use aeryon.Dsp.Errors.{DspError}
use aeryon.Dsp.Window.{CsiWindow}
use aeryon.Dsp.Assembler.{WindowAssembler}
use aeryon.Dsp.Assembler.Sliding.{Run, push_all, record_result}
use aeryon.Dsp.Stats as Stats
use aeryon.Dsp.Stats.{DspStats, get_worker_state, completed, idle}
use aeryon.Dsp.Service.{
  Event, service_started, window_assembled, window_processed, processing_failed, service_idle,
  service_stopped, Worker, received_any,
}

-- The windows that the events announce.
abbrev pub announced : List Event → List ℕ
announced [] = []
announced (window_assembled e ∷ es) = e.window_id ∷ announced es
announced (_ ∷ es) = announced es

abbrev pub in_front : Option ℕ → List ℕ → List ℕ
in_front none ids = ids
in_front (some id) ids = id ∷ ids

-- The windows that the events answer, as processed or as failed.
abbrev pub answered : List Event → List ℕ
answered [] = []
answered (window_processed e ∷ es) = e.window_id ∷ answered es
answered (processing_failed e ∷ es) = in_front e.window_id (answered es)
answered (_ ∷ es) = answered es

pub announced-append : (xs ys : List Event) → announced (xs ++ ys) ≡ announced xs ++ announced ys
announced-append [] ys = refl
announced-append (window_assembled e ∷ xs) ys = ap (◌∷◌ e.window_id) (announced-append xs ys)
announced-append (service_started e ∷ xs) ys = announced-append xs ys
announced-append (window_processed e ∷ xs) ys = announced-append xs ys
announced-append (processing_failed e ∷ xs) ys = announced-append xs ys
announced-append (service_idle t c ∷ xs) ys = announced-append xs ys
announced-append (service_stopped t ∷ xs) ys = announced-append xs ys

in_front-append : (o : Option ℕ) (xs ys : List ℕ) → in_front o (xs ++ ys) ≡ in_front o xs ++ ys
in_front-append none xs ys = refl
in_front-append (some id) xs ys = refl

pub answered-append : (xs ys : List Event) → answered (xs ++ ys) ≡ answered xs ++ answered ys
answered-append [] ys = refl
answered-append (window_assembled e ∷ xs) ys = answered-append xs ys
answered-append (service_started e ∷ xs) ys = answered-append xs ys
answered-append (window_processed e ∷ xs) ys = ap (◌∷◌ e.window_id) (answered-append xs ys)
answered-append (processing_failed e ∷ xs) ys =
    ap (in_front e.window_id) (answered-append xs ys)
    ∙ in_front-append e.window_id (answered xs) (answered ys)
answered-append (service_idle t c ∷ xs) ys = answered-append xs ys
answered-append (service_stopped t ∷ xs) ys = answered-append xs ys

-- From `w` to `v` the windows `ids` were announced and answered, `frames` frames were received, and
-- `accepted` of them accepted.
pub record Progress (w : Worker) (ids : List ℕ) (frames accepted : ℕ) (v : Worker) : Type 0 where
  pub announces : announced v.published ≡ announced w.published ++ ids
  pub answers : answered v.published ≡ answered w.published ++ ids
  pub received : v.stats.calibrated_frames_received ≡ w.stats.calibrated_frames_received + frames
  pub counted :
      v.stats.windows_emitted + v.stats.windows_rejected + accepted
      ≡ w.stats.windows_emitted + w.stats.windows_rejected + length ids + frames
  pub stores : length v.stored + w.stats.windows_emitted ≡ length w.stored + v.stats.windows_emitted

pub Progress-trans :
    (w u v : Worker) (xs ys : List ℕ) (m a n b k l : ℕ)
    → Progress w xs m a u
    → Progress u ys n b v
    → k ≡ m + n
    → l ≡ a + b
    → Progress w (xs ++ ys) k l v
Progress-trans w u v xs ys m a n b k l p q ek el = record {
  announces =
      q.announces ∙ ap (λ l. l ++ ys) p.announces ∙ append_assoc (announced w.published) xs ys;
  answers = q.answers ∙ ap (λ l. l ++ ys) p.answers ∙ append_assoc (answered w.published) xs ys;
  received = omega (arith, p.received, q.received);
  counted = omega (arith, p.counted, q.counted, length-append xs ys);
  stores = omega (arith, p.stores, q.stores);
}

-- The counters that the worker moves stay in range for `m` more frames and `n` more windows.
abbrev pub Room : Worker → ℕ → ℕ → Type 0
Room w m n =
    (w.stats.calibrated_frames_received + m ≤ u64_max)
    × (w.stats.windows_emitted + n ≤ u64_max)
    × (w.stats.windows_rejected + n ≤ u64_max)

-- The windows and the number of accepted frames of one call of `push`.
abbrev pub windows_of : Result DspError (Option CsiWindow) → List ℕ
windows_of (err e) = []
windows_of (ok none) = []
windows_of (ok (some c)) = c.window_id ∷ []

abbrev pub accepted_of : Result DspError (Option CsiWindow) → ℕ
accepted_of (err e) = 0
accepted_of (ok _) = 1

abbrev pub Handled :
    Worker
    → ℕ
    → WindowAssembler × Result DspError (Option CsiWindow)
    → Outcome DspError Worker
    → Type 0
Handled w n (s, result) m =
    (v : Worker) × (m ≡ done v)
    × Progress w (windows_of result) 1 (accepted_of result) v
    × Room v n n
    × (v.assembler ≡ s)

-- The worker after `push` and before the result is looked at.
abbrev pub received_by : Worker → WindowAssembler → Worker
received_by w s = record w { assembler = s; stats = Stats.record_frame_received w.stats }

abbrev pub Delivers : Worker → ℕ → Run → Worker → Type 0
Delivers w n r v =
    Progress w (map (λ c. c.window_id) r.windows) n (length r.accepted) v × (v.assembler ≡ r.final)

-- What is left when the queue is closed after the frames `fs`, for a worker `w` that has not begun.
pub record Finished (w : Worker) (fs : List CalibratedCsiFrame) (v : Worker) : Type 0 where
  pub progress :
      Progress w
        (map (λ c. c.window_id) (push_all w.assembler fs).windows)
        (length fs)
        (length (push_all w.assembler fs).accepted)
        v
  pub assembler : v.assembler ≡ (push_all w.assembler fs).final
  pub state : get_worker_state v.stats ≡ (if received_any fs then completed else idle)

-- The run of `push` from the assembler that `push` left, with the first call's result in front.
pub add_result :
    (f : CalibratedCsiFrame) (result : Result DspError (Option CsiWindow)) (r : Run)
    (w u v : Worker) (n : ℕ)
    → Progress w (windows_of result) 1 (accepted_of result) u
    → Delivers u n r v
    → Delivers w (suc n) (record_result f result r) v
add_result f (err e) r w u v n p q = (
  Progress-trans w u v [] (map (λ c. c.window_id) r.windows) 1 0 n (length r.accepted) (suc n)
      (length r.accepted) p q.0 (omega arith) (omega arith),
  q.1,
)
add_result f (ok none) r w u v n p q = (
  Progress-trans w u v [] (map (λ c. c.window_id) r.windows) 1 1 n (length r.accepted) (suc n)
      (suc (length r.accepted)) p q.0 (omega arith) (omega arith),
  q.1,
)
add_result f (ok (some c)) r w u v n p q = (
  Progress-trans w u v (c.window_id ∷ []) (map (λ c. c.window_id) r.windows) 1 1 n
      (length r.accepted) (suc n) (suc (length r.accepted)) p q.0 (omega arith) (omega arith),
  q.1,
)
