-- ===== src/Dsp/Window/Validity.antt =====
-- What `CsiWindow::try_new` accepts.
use aeryon.Base.{
  ℕ, suc, ◌≤◌, ◌<◌, ℤ, eqℤ→eq, eqℤ-refl, ℤ, true, ◌≡◌, refl, sym, ◌∙◌, length, ◌↔◌, Option, none,
  some, List, [], ◌∷◌, ok, All, arith, list_eq→eq, list_eq_refl,
}
use aeryon.Csi.Frame.{ComplexSample, is_finite}
use aeryon.Calibration.Frame as Frame
use aeryon.Calibration.Frame.{CalibratedCsiFrame}
use aeryon.Dsp.Window.{
  CsiWindow, eq_indices, check_samples, check_order, check_frame, check_frames, window_of, try_new,
}

-- The frames come from one sensor, geometry and calibration profile.
pub record Matches (g f : CalibratedCsiFrame) : Type 0 where
  pub sensor : Frame.sensor_id f ≡ Frame.sensor_id g
  pub receive : Frame.receive_antennas f ≡ Frame.receive_antennas g
  pub transmit : Frame.transmit_antennas f ≡ Frame.transmit_antennas g
  pub indices : Frame.subcarrier_indices f ≡ Frame.subcarrier_indices g
  pub profile : f.profile_id ≡ g.profile_id
  pub version : f.profile_version ≡ g.profile_version

abbrev pub AllFinite : CalibratedCsiFrame → Type 0
AllFinite f = All (λ s. is_finite s ≡ true) f.samples

-- `f` may follow `p` in a window.
abbrev pub Follows : CalibratedCsiFrame → CalibratedCsiFrame → Type 0
Follows p f =
    (Frame.sequence p < Frame.sequence f)
    × ((Frame.capture_timestamp p).nanos ≤ (Frame.capture_timestamp f).nanos)

-- Each frame is related to the one before, and the first to `p`, if there is one.
abbrev pub Chain :
    (CalibratedCsiFrame → CalibratedCsiFrame → Type 0)
    → Option CalibratedCsiFrame
    → List CalibratedCsiFrame
    → Type 0
Chain R p [] = Unit
Chain R none (f ∷ fs) = Chain R (some f) fs
Chain R (some p) (f ∷ fs) = R p f × Chain R (some f) fs

-- The frames of a window whose first frame is `g`.
abbrev pub Fits : CalibratedCsiFrame → CalibratedCsiFrame → Type 0
Fits g f = Matches g f × AllFinite f

pub eq_indices_iff : (xs ys : List ℤ) → (eq_indices xs ys ≡ true) ↔ (xs ≡ ys)
unfolding eq_indices
eq_indices_iff [] [] = (λ _. refl, λ _. refl)
eq_indices_iff [] (y ∷ ys) = (λ h. cc, λ h. cc)
eq_indices_iff (x ∷ xs) [] = (λ h. cc, λ h. cc)
eq_indices_iff (x ∷ xs) (y ∷ ys) = ground (arith, eq_indices_iff xs ys, eqℤ→eq x y, eqℤ-refl x)

pub check_samples_iff :
    (index i : ℕ) (xs : List ComplexSample)
    → (check_samples index i xs ≡ ok tt) ↔ All (λ s. is_finite s ≡ true) xs
unfolding check_samples
check_samples_iff index i [] = (λ _. tt, λ _. refl)
check_samples_iff index i (x ∷ xs) = ground (arith, check_samples_iff index (suc i) xs)

abbrev pub Follows? : Option CalibratedCsiFrame → CalibratedCsiFrame → Type 0
Follows? none f = Unit
Follows? (some p) f = Follows p f

check_frame_iff :
    (g f : CalibratedCsiFrame) (index : ℕ) (p : Option CalibratedCsiFrame)
    → (check_frame g index p f ≡ ok tt) ↔ (Fits g f × Follows? p f)
unfolding check_frame check_order
check_frame_iff g f index p = ground (
  arith,
  check_samples_iff index 0 f.samples,
  eq_indices_iff (Frame.subcarrier_indices f) (Frame.subcarrier_indices g),
  list_eq→eq f.profile_id g.profile_id,
  list_eq_refl g.profile_id,
)

check_frames_iff :
    (g : CalibratedCsiFrame) (index : ℕ) (p : Option CalibratedCsiFrame)
    (fs : List CalibratedCsiFrame)
    → (check_frames g index p fs ≡ ok tt) ↔ (All (Fits g) fs × Chain Follows p fs)
unfolding check_frames
check_frames_iff g index p [] = (λ _. (tt, tt), λ _. refl)
check_frames_iff g index none (f ∷ fs) =
    ground (arith, check_frame_iff g f index none, check_frames_iff g (suc index) (some f) fs)
check_frames_iff g index (some p) (f ∷ fs) =
    ground (arith, check_frame_iff g f index (some p), check_frames_iff g (suc index) (some f) fs)

-- `try_new` returns a window just if there is a first frame, all frames match it and are finite, the
-- sequence numbers rise strictly and the timestamps do not fall; the window then holds these frames.
pub try_new_iff :
    (id : ℕ) (g : CalibratedCsiFrame) (fs : List CalibratedCsiFrame) (w : CsiWindow)
    → (try_new id (g ∷ fs) ≡ ok w)
      ↔ ((w ≡ window_of id g fs) × All (Fits g) (g ∷ fs) × Chain Follows none (g ∷ fs))
unfolding try_new
try_new_iff id g fs w = ground (arith, check_frames_iff g 0 none (g ∷ fs))

Matches-swap : (g h f : CalibratedCsiFrame) → Matches g h → Matches g f → Matches h f
Matches-swap g h f m n = record {
  sensor = n.sensor ∙ sym m.sensor;
  receive = n.receive ∙ sym m.receive;
  transmit = n.transmit ∙ sym m.transmit;
  indices = n.indices ∙ sym m.indices;
  profile = n.profile ∙ sym m.profile;
  version = n.version ∙ sym m.version;
}

Fits-swap :
    (g h : CalibratedCsiFrame) (fs : List CalibratedCsiFrame)
    → Matches g h
    → All (Fits g) fs
    → All (Fits h) fs
Fits-swap g h [] m a = tt
Fits-swap g h (f ∷ fs) m a = ((Matches-swap g h f m a.0.0, a.0.1), Fits-swap g h fs m a.1)

-- Frames that all match some frame, in order, make a window of these frames.
pub try_new_of_Fits :
    (id : ℕ) (g : CalibratedCsiFrame) (fs : List CalibratedCsiFrame)
    → 0 < length fs
    → All (Fits g) fs
    → Chain Follows none fs
    → (w : CsiWindow) × (try_new id fs ≡ ok w) × (w.frames ≡ fs) × (w.window_id ≡ id)
unfolding window_of
try_new_of_Fits id g [] n a c = absurd (omega arith)
try_new_of_Fits id g (f ∷ fs) n a c = (
  window_of id f fs,
  (try_new_iff id f fs (window_of id f fs)).1 (refl, Fits-swap g f (f ∷ fs) a.0.0 a, c),
  refl,
  refl,
)

pub Matches-refl : (g : CalibratedCsiFrame) → Matches g g
Matches-refl g = record {
  sensor = refl;
  receive = refl;
  transmit = refl;
  indices = refl;
  profile = refl;
  version = refl;
}
