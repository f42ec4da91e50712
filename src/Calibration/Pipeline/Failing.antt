-- ===== src/Calibration/Pipeline/Failing.antt =====
-- What is said of the errors of a call, with the loops over the links and the frame.
use aeryon.Base.{ℕ, zero, suc, ◌*◌, ◌≡◌, Option, none, some, List, length, Bool, true, false}
use aeryon.Base.Outcomes.{Outcome, done, failed, panicked, ◌>>=◌, refuse, or_panic}
use aeryon.Csi.Frame.{ComplexSample}
use aeryon.Calibration.Report.{AntennaLink}
use aeryon.Calibration.Errors as Errors
use aeryon.Calibration.Errors.{CalibrationError}
use aeryon.Calibration.Stage.{
  CalibrationBuffer, LinkUpdate, slice, copy_from_slice, link_at, update_link, update_links,
  for_each_link_mut,
}

-- A number is absent or the given one.
abbrev pub IsOf : ℕ → Option ℕ → Type 0
IsOf n none = Unit
IsOf n (some m) = m ≡ n

-- Where the error names a frame or a sequence number, it is this one.
abbrev pub Concerns : (frame_id sequence : ℕ) → CalibrationError → Type 0
Concerns id sequence e = IsOf id (Errors.frame_id e) × IsOf sequence (Errors.sequence e)

abbrev pub FailsWith {ℓ} :
    {A : Type ℓ} → (CalibrationError → Type 0) → Outcome CalibrationError A → Type 0
FailsWith P (done a) = Unit
FailsWith P (failed e) = P e
FailsWith P panicked = Unit

pub FailsWith-bind {ℓ κ} :
    {A : Type ℓ} {B : Type κ} (P : CalibrationError → Type 0) (m : Outcome CalibrationError A)
    (k : A → Outcome CalibrationError B)
    → FailsWith P m
    → ((a : A) → FailsWith P (k a))
    → FailsWith P (m >>= k)
FailsWith-bind P (done a) k p q = q a
FailsWith-bind P (failed e) k p q = p
FailsWith-bind P panicked k p q = tt

pub refuse_fails :
    (P : CalibrationError → Type 0) (b : Bool) (e : CalibrationError)
    → P e
    → FailsWith P (refuse b e)
refuse_fails P true e p = p
refuse_fails P false e p = tt

pub or_panic_fails {ℓ} :
    {A : Type ℓ} (P : CalibrationError → Type 0) (x : Option A) → FailsWith P (or_panic x)
or_panic_fails P none = tt
or_panic_fails P (some a) = tt

module _ {S : Type 0} (P : CalibrationError → Type 0) (f : LinkUpdate S)
    (fails : (link : AntennaLink) (ss : List ComplexSample) (ps : List ℕ) (x : S)
      → FailsWith P (f link ss ps x)) where
  pub update_link_fails :
      (n_sc n_tx i : ℕ) (b : CalibrationBuffer) (x : S)
      → FailsWith P (update_link f n_sc n_tx i b x)
  unfolding update_link
  update_link_fails n_sc n_tx i b x =
      FailsWith-bind P _ _ (or_panic_fails P (slice (i * n_sc) n_sc b.samples)) (λ samples.
        FailsWith-bind P _ _ (or_panic_fails P (slice (i * n_sc) n_sc b.phases)) (λ phases.
          FailsWith-bind P _ _ (fails (link_at n_tx i) samples phases x) (λ left.
            FailsWith-bind P _ _
              (or_panic_fails P (copy_from_slice (i * n_sc) n_sc left.0 b.samples))
              (λ all.
                FailsWith-bind P _ _
                  (or_panic_fails P (copy_from_slice (i * n_sc) n_sc left.1 b.phases)) (λ _. tt)))))

  pub update_links_fails :
      (n_sc n_tx i n : ℕ) (b : CalibrationBuffer) (x : S)
      → FailsWith P (update_links f n_sc n_tx i n b x)
  unfolding update_links
  update_links_fails n_sc n_tx i zero b x = tt
  update_links_fails n_sc n_tx i (suc n) b x =
      FailsWith-bind P _ _ (update_link_fails n_sc n_tx i b x)
        (λ left. update_links_fails n_sc n_tx (suc i) n left.0 left.1)

  pub for_each_link_mut_fails :
      (b : CalibrationBuffer) (x : S) → FailsWith P (for_each_link_mut f b x)
  unfolding for_each_link_mut
  for_each_link_mut_fails b x =
      update_links_fails (length b.subcarrier_indices) b.transmit_antennas 0
        (b.receive_antennas * b.transmit_antennas) b x
