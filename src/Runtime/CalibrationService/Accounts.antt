-- ===== src/Runtime/CalibrationService/Accounts.antt =====
-- What the calibration worker answers, hands on and counts.
use mathlib.Core.List.{append_assoc, append-nil, map-append}
use aeryon.Base.{
  ℕ, ◌+◌, ◌*◌, ◌^◌, ◌≤◌, ◌≡◌, refl, sym, ap, ◌∙◌, Bool, true, false, Option, none, some, List, [],
  ◌∷◌, ◌++◌, map, length, length-append, u32_max, u64_max, arith,
}
use aeryon.Domain.Frame.{FrameId}
use aeryon.Csi.Frame as Raw
use aeryon.Csi.Frame.{CsiFrame}
use aeryon.Calibration.Frame as Frame
use aeryon.Calibration.Frame.{CalibratedCsiFrame}
use aeryon.Calibration.Profile.{CalibrationProfile}
use aeryon.Calibration.Pipeline.Calibrated.{IsCalibrated}
use aeryon.Runtime.CalibrationEvents.{
  Event, calibration_started, csi_frame_calibrated, calibration_failed, calibration_service_stopped,
}
use aeryon.Runtime.CalibrationService.{calibration_service_stopped, Worker}

-- The frames that the events announce as calibrated.
abbrev pub announced : List Event → List FrameId
announced [] = []
announced (csi_frame_calibrated e ∷ es) = e.raw_frame_id ∷ announced es
announced (_ ∷ es) = announced es

abbrev pub in_front : Option FrameId → List FrameId → List FrameId
in_front none ids = ids
in_front (some id) ids = id ∷ ids

-- The frames that the events answer, as calibrated or as failed.
abbrev pub answered : List Event → List FrameId
answered [] = []
answered (csi_frame_calibrated e ∷ es) = e.raw_frame_id ∷ answered es
answered (calibration_failed e ∷ es) = in_front e.raw_frame_id (answered es)
answered (_ ∷ es) = answered es

pub announced-append : (xs ys : List Event) → announced (xs ++ ys) ≡ announced xs ++ announced ys
announced-append [] ys = refl
announced-append (csi_frame_calibrated e ∷ xs) ys = ap (◌∷◌ e.raw_frame_id) (announced-append xs ys)
announced-append (calibration_started e ∷ xs) ys = announced-append xs ys
announced-append (calibration_failed e ∷ xs) ys = announced-append xs ys
announced-append (calibration_service_stopped t ∷ xs) ys = announced-append xs ys

in_front-append :
    (o : Option FrameId) (xs ys : List FrameId) → in_front o (xs ++ ys) ≡ in_front o xs ++ ys
in_front-append none xs ys = refl
in_front-append (some id) xs ys = refl

pub answered-append : (xs ys : List Event) → answered (xs ++ ys) ≡ answered xs ++ answered ys
answered-append [] ys = refl
answered-append (csi_frame_calibrated e ∷ xs) ys = ap (◌∷◌ e.raw_frame_id) (answered-append xs ys)
answered-append (calibration_started e ∷ xs) ys = answered-append xs ys
answered-append (calibration_failed e ∷ xs) ys =
    ap (in_front e.raw_frame_id) (answered-append xs ys)
    ∙ in_front-append e.raw_frame_id (answered xs) (answered ys)
answered-append (calibration_service_stopped t ∷ xs) ys = answered-append xs ys

-- Calibrated frames of some of the raw ones, in their order.
pub data Calibrates (p : CalibrationProfile)
    : List CsiFrame → List CalibratedCsiFrame → Type 0 where
  ended : Calibrates p [] []
  refused :
      {f : CsiFrame} {fs : List CsiFrame} {cs : List CalibratedCsiFrame}
      → Calibrates p fs cs
      → Calibrates p (f ∷ fs) cs
  calibrated :
      {f : CsiFrame} {c : CalibratedCsiFrame} {fs : List CsiFrame} {cs : List CalibratedCsiFrame}
      → IsCalibrated f p c
      → Calibrates p fs cs
      → Calibrates p (f ∷ fs) (c ∷ cs)

pub Calibrates-append :
    (p : CalibrationProfile) {fs gs : List CsiFrame} {cs ds : List CalibratedCsiFrame}
    → Calibrates p fs cs
    → Calibrates p gs ds
    → Calibrates p (fs ++ gs) (cs ++ ds)
Calibrates-append p ended later = later
Calibrates-append p (refused rest) later = refused (Calibrates-append p rest later)
Calibrates-append p (calibrated made rest) later = calibrated made (Calibrates-append p rest later)

-- The dimensions that the calibration is proved for.
abbrev pub Fits : CsiFrame → Type 0
Fits f =
    (f.receive_antennas * f.transmit_antennas ≤ u32_max) × (length f.subcarrier_indices ≤ 2 ^ 20)

-- What is handed on where there is a queue for it.
abbrev pub forwarded : Bool → List CalibratedCsiFrame → List CalibratedCsiFrame
forwarded true cs = cs
forwarded false cs = []

forwarded-append :
    (b : Bool) (cs ds : List CalibratedCsiFrame)
    → forwarded b (cs ++ ds) ≡ forwarded b cs ++ forwarded b ds
forwarded-append true cs ds = refl
forwarded-append false cs ds = refl

pub forwarded_none : (b : Bool) (sent : List CalibratedCsiFrame) → sent ≡ sent ++ forwarded b []
forwarded_none true sent = sym (append-nil sent)
forwarded_none false sent = sym (append-nil sent)

extend : {A : Type 0} (l m r xs ys : List A) → m ≡ l ++ xs → r ≡ m ++ ys → r ≡ l ++ (xs ++ ys)
extend l m r xs ys e e' = e' ∙ ap (λ k. k ++ ys) e ∙ append_assoc l xs ys

module _ {V O E : Type 0} where
  -- From `w` to `v` the frames `fs` were answered, and `cs` are those of them that were calibrated.
  pub record Progress (w : Worker V O E) (fs : List CsiFrame) (cs : List CalibratedCsiFrame)
      (v : Worker V O E) : Type 0 where
    pub answers : answered v.published ≡ answered w.published ++ map Raw.frame_id fs
    pub announces : announced v.published ≡ announced w.published ++ map Frame.raw_frame_id cs
    pub sent : v.sent ≡ w.sent ++ forwarded w.forwards cs
    pub forwards : v.forwards ≡ w.forwards
    pub submitted : v.stats.raw_frames_submitted ≡ w.stats.raw_frames_submitted + length fs
    pub successes : v.stats.frames_calibrated ≡ w.stats.frames_calibrated + length cs
    pub failures :
        v.stats.calibration_failures + length cs ≡ w.stats.calibration_failures + length fs

  pub Progress-start : (w : Worker V O E) → Progress w [] [] w
  Progress-start w = record {
    answers = sym (append-nil _);
    announces = sym (append-nil _);
    sent = forwarded_none w.forwards w.sent;
    forwards = refl;
    submitted = omega arith;
    successes = omega arith;
    failures = refl;
  }

  pub Progress-trans :
      (w u v : Worker V O E) (fs gs : List CsiFrame) (cs ds : List CalibratedCsiFrame)
      → Progress w fs cs u
      → Progress u gs ds v
      → Progress w (fs ++ gs) (cs ++ ds) v
  Progress-trans w u v fs gs cs ds p q = record {
    answers =
        extend (answered w.published) (answered u.published) (answered v.published) _ _ p.answers
          q.answers
        ∙ ap (λ l. answered w.published ++ l) (sym (map-append Raw.frame_id fs gs));
    announces =
        extend (announced w.published) (announced u.published) (announced v.published) _ _
          p.announces q.announces
        ∙ ap (λ l. announced w.published ++ l) (sym (map-append Frame.raw_frame_id cs ds));
    sent =
        extend w.sent u.sent v.sent _ _ p.sent
          (q.sent ∙ ap (λ b. u.sent ++ forwarded b ds) p.forwards)
        ∙ ap (λ l. w.sent ++ l) (sym (forwarded-append w.forwards cs ds));
    forwards = q.forwards ∙ p.forwards;
    submitted = omega (arith, p.submitted, q.submitted, length-append fs gs);
    successes = omega (arith, p.successes, q.successes, length-append cs ds);
    failures = omega (arith, p.failures, q.failures, length-append fs gs, length-append cs ds);
  }

  -- The counters that the worker moves stay in range for `m` more frames.
  abbrev pub Room : Worker V O E → ℕ → Type 0
  Room w m =
      (w.stats.raw_frames_submitted + m ≤ u64_max)
      × (w.stats.frames_calibrated + m ≤ u64_max)
      × (w.stats.calibration_failures + m ≤ u64_max)
