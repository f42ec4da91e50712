-- ===== src/Dsp/Motion.antt =====
-- The motion-energy signal of core/dsp/src/motion.rs.
pub mod Shape
use aeryon.Base.{
  ℕ, zero, suc, Bool, true, false, not, Option, none, some, List, [], ◌∷◌, ◌++◌, length, get_elem?,
  ltb, ◌==◌, is_finite64, if◌then◌else◌,
}
use aeryon.Base.Text.{codes}
use aeryon.Base.Outcomes.{Outcome, done, failed, ◌>>=◌, ◌>>◌, refuse, or_panic, or_fail}
use aeryon.Base.Floats.{F64}
use aeryon.Csi.Frame.{ComplexSample, is_finite}
use aeryon.Calibration.Report.{AntennaLink}
use aeryon.Calibration.Frame as Frame
use aeryon.Calibration.Frame.{CalibratedCsiFrame}
use aeryon.Dsp.Errors.{DspError, motion_energy, Message, plain, missing_link}
use aeryon.Dsp.Window.{CsiWindow}
use aeryon.Dsp.Backend.{DspKernelBackend}

pub record LinkMotionEnergy : Type 0 where
  pub link : AntennaLink
  pub values : List ℕ

pub record MotionEnergySignal : Type 0 where
  pub links : List LinkMotionEnergy
  pub aggregate : Option (List ℕ)

-- The loop over the samples of one link: their real and their imaginary parts.
unfoldable pub flatten_samples : List ComplexSample → Outcome DspError (List ℕ × List ℕ)
flatten_samples [] = done ([], [])
flatten_samples (s ∷ ss) = do
  refuse (not (is_finite s))
      (motion_energy (plain (codes "calibrated sample contains non-finite values")))
  rest ← flatten_samples ss
  done (s.re ∷ rest.0, s.im ∷ rest.1)

unfoldable pub flatten_link_samples :
    List CalibratedCsiFrame → (rx tx n_sc : ℕ) → Outcome DspError (List ℕ × List ℕ)
flatten_link_samples [] rx tx n_sc = done ([], [])
flatten_link_samples (frame ∷ frames) rx tx n_sc = do
  link ← or_fail (Frame.link frame rx tx) (motion_energy (missing_link rx tx))
  refuse (not (length link == n_sc)) (motion_energy (plain (codes "link sample length mismatch")))
  here ← flatten_samples link
  rest ← flatten_link_samples frames rx tx n_sc
  done (here.0 ++ rest.0, here.1 ++ rest.1)

-- The body of the loops over the antennas.
unfoldable pub link_energy :
    CsiWindow → DspKernelBackend → (rx tx : ℕ) → Outcome DspError LinkMotionEnergy
link_energy window backend rx tx = do
  let n_sc = length window.subcarrier_indices
  parts ← flatten_link_samples window.frames rx tx n_sc
  values ← backend.motion_energy parts.0 parts.1 (length window.frames) n_sc
  done (record { link = record { rx = rx; tx = tx }; values = values })

-- The links with the receiver `rx`, from the transmitter `tx` on, of which `n` are left.
unfoldable pub row_energies :
    CsiWindow → DspKernelBackend → (rx tx n : ℕ) → Outcome DspError (List LinkMotionEnergy)
row_energies window backend rx tx zero = done []
row_energies window backend rx tx (suc n) = do
  first ← link_energy window backend rx tx
  rest ← row_energies window backend rx (suc tx) n
  done (first ∷ rest)

-- From the receiver `rx` on, of which `n` are left.
unfoldable pub all_energies :
    CsiWindow → DspKernelBackend → (rx n : ℕ) → Outcome DspError (List LinkMotionEnergy)
all_energies window backend rx zero = done []
all_energies window backend rx (suc n) = do
  row ← row_energies window backend rx 0 window.transmit_antennas
  rest ← all_energies window backend (suc rx) n
  done (row ++ rest)

-- `link.values[index]` of every link.
unfoldable pub values_at : ℕ → List LinkMotionEnergy → Outcome DspError (List ℕ)
values_at index [] = done []
values_at index (link ∷ links) = do
  value ← or_panic (get_elem? link.values index)
  rest ← values_at index links
  done (value ∷ rest)

module _ ⦃o : F64⦄ where
  -- The means over the links, from the transition `index` on, of which `n` are left.
  unfoldable pub means : List LinkMotionEnergy → (index n : ℕ) → Outcome DspError (List ℕ)
  means links index zero = done []
  means links index (suc n) = do
    values ← values_at index links
    let mean = o.div (o.sum values) (o.of_nat (length links))
    refuse (not (is_finite64 mean))
        (motion_energy (plain (codes "aggregate motion-energy produced a non-finite value")))
    rest ← means links (suc index) n
    done (mean ∷ rest)

  unfoldable pub aggregate_of : List LinkMotionEnergy → Outcome DspError (Option (List ℕ))
  aggregate_of [] = done none
  aggregate_of (first ∷ links) = do
    aggregate ← means (first ∷ links) 0 (length first.values)
    done (some aggregate)

  unfoldable pub compute_motion_energy_with_backend :
      CsiWindow → DspKernelBackend → Outcome DspError MotionEnergySignal
  compute_motion_energy_with_backend window backend = do
    refuse (ltb (length window.frames) 2)
        (motion_energy (plain (codes "motion-energy requires at least two frames")))
    refuse (length window.subcarrier_indices == 0)
        (motion_energy (plain (codes "motion-energy requires at least one subcarrier")))
    links ← all_energies window backend 0 window.receive_antennas
    aggregate ← aggregate_of links
    done (record { links = links; aggregate = aggregate })
