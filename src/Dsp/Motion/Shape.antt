-- ===== src/Dsp/Motion/Shape.antt =====
-- The shape of the motion-energy signal.
use mathlib.Core.List.{map-append}
use aeryon.Base.{
  ℕ, zero, suc, ◌+◌, ◌-◌, ◌≤◌, ◌<◌, ◌≡◌, inl, inr, refl, Option, Option-cases, none, some, List, [],
  ◌∷◌, ◌++◌, map, length, get_elem?_lt, All, All-append, arith,
}
use aeryon.Base.Outcomes.{Returns, Outcome-cases}
use aeryon.Base.Floats.{F64}
use aeryon.Calibration.Report.{AntennaLink}
use aeryon.Csi.Frame.{ComplexSample}
use aeryon.Calibration.Frame as Frame
use aeryon.Calibration.Frame.{CalibratedCsiFrame}
use aeryon.Dsp.Window.{CsiWindow}
use aeryon.Dsp.Backend.{DspKernelBackend, IsSound}
use aeryon.Dsp.Kernels.Totality.{IsSeries}
use aeryon.Dsp.Motion.{
  LinkMotionEnergy, MotionEnergySignal, flatten_samples, flatten_link_samples, link_energy,
  row_energies, all_energies, values_at, means, aggregate_of, compute_motion_energy_with_backend,
}

-- The links with the receiver `rx`, then all links, in the order of the samples.
abbrev pub row_links : (rx tx n : ℕ) → List AntennaLink
row_links rx tx zero = []
row_links rx tx (suc n) = record { rx = rx; tx = tx } ∷ row_links rx (suc tx) n

abbrev pub all_links : (transmitters rx n : ℕ) → List AntennaLink
all_links m rx zero = []
all_links m rx (suc n) = row_links rx 0 m ++ all_links m (suc rx) n

-- Each link has a series of `n` values.
abbrev pub AreSeries : ℕ → List LinkMotionEnergy → Type 0
AreSeries n = All (λ l. IsSeries n l.values)

abbrev pub IsSeries? : ℕ → Option (List ℕ) → Type 0
IsSeries? n none = Unit
IsSeries? n (some vs) = IsSeries n vs

-- There is a mean of `n` values just where there is a link.
abbrev pub HasMean : ℕ → List LinkMotionEnergy → Option (List ℕ) → Type 0
HasMean n [] a = a ≡ none
HasMean n (l ∷ ls) none = ⊥
HasMean n (l ∷ ls) (some vs) = IsSeries n vs

pub HasMean-IsSeries? :
    (n : ℕ) (ls : List LinkMotionEnergy) (a : Option (List ℕ)) → HasMean n ls a → IsSeries? n a
HasMean-IsSeries? n ls none h = tt
HasMean-IsSeries? n [] (some vs) h = cc
HasMean-IsSeries? n (l ∷ ls) (some vs) h = h

pub record HasShape (w : CsiWindow) (m : MotionEnergySignal) : Type 0 where
  pub enough : 1 < length w.frames
  pub links : map (λ l. l.link) m.links ≡ all_links w.transmit_antennas 0 w.receive_antennas
  pub series : AreSeries (length w.frames - 1) m.links
  pub aggregate : HasMean (length w.frames - 1) m.links m.aggregate

flatten_samples_total : (ss : List ComplexSample) → Returns (λ r. Unit {0}) (flatten_samples ss)
unfolding flatten_samples
flatten_samples_total [] = tt
flatten_samples_total (s ∷ ss) = ground (arith, flatten_samples_total ss)

flatten_link_samples_total :
    (fs : List CalibratedCsiFrame) (rx tx n : ℕ)
    → Returns (λ r. Unit {0}) (flatten_link_samples fs rx tx n)
unfolding flatten_link_samples
flatten_link_samples_total [] rx tx n = tt
flatten_link_samples_total (f ∷ fs) rx tx n = elim (Option-cases (Frame.link f rx tx)) [
  | inl e ↦ ground (arith, e)
  | inr (link, e) ↦
      ground (arith, e, flatten_samples_total link, flatten_link_samples_total fs rx tx n)
]

module _ (w : CsiWindow) (b : DspKernelBackend) (sound : IsSound b) where
  link_energy_shape :
      (rx tx : ℕ)
      → Returns
          (λ l.
            (l.link ≡ record { rx = rx; tx = tx })
            × (1 < length w.frames)
            × IsSeries (length w.frames - 1) l.values)
          (link_energy w b rx tx)
  unfolding link_energy
  link_energy_shape rx tx =
      let n = length w.subcarrier_indices in
      let total = flatten_link_samples_total w.frames rx tx n in
      elim (Outcome-cases (flatten_link_samples w.frames rx tx n)) [
        | inl (parts, e) ↦
            ground (arith, e, sound.motion_energy parts.0 parts.1 (length w.frames) n)
        | inr e ↦ ground (arith, e, total)
      ]

  row_energies_shape :
      (rx tx n : ℕ)
      → Returns
          (λ ls. (map (λ l. l.link) ls ≡ row_links rx tx n) × AreSeries (length w.frames - 1) ls)
          (row_energies w b rx tx n)
  unfolding row_energies
  row_energies_shape rx tx zero = (refl, tt)
  row_energies_shape rx tx (suc n) =
      ground (arith, link_energy_shape rx tx, row_energies_shape rx (suc tx) n)

  all_energies_shape :
      (rx n : ℕ)
      → Returns
          (λ ls.
            (map (λ l. l.link) ls ≡ all_links w.transmit_antennas rx n)
            × AreSeries (length w.frames - 1) ls)
          (all_energies w b rx n)
  unfolding all_energies
  all_energies_shape rx zero = (refl, tt)
  all_energies_shape rx (suc n) =
      let row_shape = row_energies_shape rx 0 w.transmit_antennas in
      let rest_shape = all_energies_shape (suc rx) n in
      elim (Outcome-cases (row_energies w b rx 0 w.transmit_antennas)) [
        | inl (row, e) ↦ elim (Outcome-cases (all_energies w b (suc rx) n)) [
          | inl (rest, f) ↦ ground (
            arith,
            e,
            f,
            row_shape,
            rest_shape,
            map-append (λ (l : LinkMotionEnergy). l.link) row rest,
            All-append (λ (l : LinkMotionEnergy). IsSeries (length w.frames - 1) l.values) row rest,
          )
          | inr f ↦ ground (arith, e, f, rest_shape)
        ]
        | inr e ↦ ground (arith, e, row_shape)
      ]

values_at_total :
    (n index : ℕ) (ls : List LinkMotionEnergy)
    → index < n
    → AreSeries n ls
    → Returns (λ vs. length vs ≡ length ls) (values_at index ls)
unfolding values_at
values_at_total n index [] h a = refl
values_at_total n index (l ∷ ls) h a =
    let (v, e) = get_elem?_lt l.values index (omega (arith, a.0.0)) in
    ground (arith, e, values_at_total n index ls h a.1)

module _ ⦃o : F64⦄ where
  means_total :
      (size : ℕ) (ls : List LinkMotionEnergy) (index n : ℕ)
      → index + n ≤ size
      → AreSeries size ls
      → Returns (IsSeries n) (means ls index n)
  unfolding means
  means_total size ls index zero h a = (refl, tt)
  means_total size ls index (suc n) h a = ground (
    arith,
    values_at_total size index ls (omega arith) a,
    means_total size ls (suc index) n (omega arith) a,
  )

  aggregate_of_total :
      (n : ℕ) (ls : List LinkMotionEnergy)
      → AreSeries n ls
      → Returns (HasMean n ls) (aggregate_of ls)
  unfolding aggregate_of
  aggregate_of_total n [] a = refl
  aggregate_of_total n (l ∷ ls) a =
      ground (arith, means_total n (l ∷ ls) 0 (length l.values) (omega (arith, a.0.0)) a, a.0.0)

  -- With a sound backend, for every window: the computation does not panic, and where it returns there
  -- is one link for each pair of antennas in the order of the samples, and each link has one finite value
  -- for each two consecutive frames, of which there are at least two; there is a mean just if there is a
  -- link, and it has as many finite values.
  pub motion_shape :
      (w : CsiWindow) (b : DspKernelBackend)
      → IsSound b
      → Returns (HasShape w) (compute_motion_energy_with_backend w b)
  unfolding compute_motion_energy_with_backend
  motion_shape w b sound =
      let shape = all_energies_shape w b sound 0 w.receive_antennas in
      elim (Outcome-cases (all_energies w b 0 w.receive_antennas)) [
        | inl (links, e) ↦ ground (arith, e, shape, aggregate_of_total (length w.frames - 1) links)
        | inr e ↦ ground (arith, e, shape)
      ]
