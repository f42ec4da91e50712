-- ===== src/Dsp/Kernels/Totality.antt =====
-- The kernels never panic, and what they return has the right length and is finite.
use aeryon.Base.{
  ℕ, zero, suc, ◌+◌, ◌-◌, ◌*◌, ◌≤◌, ◌<◌, ◌≡◌, refl, ap, List, [], ◌∷◌, length, get_elem?_lt,
  is_finite64, f64_zero, arith,
}
use aeryon.Base.Outcomes.{done, Returns}
use aeryon.Base.Floats.{F64, AreFinite}
use aeryon.Csi.Frame.{checked_mul}
use aeryon.Dsp.Kernels.{
  square_sum, energies, motion_energy_link, hann_from, hann_window, weigh, center_and_apply_hann,
}

-- The list has `n` values, all finite.
abbrev pub IsSeries : ℕ → List ℕ → Type 0
IsSeries n vs = (length vs ≡ n) × AreFinite vs

module _ ⦃o : F64⦄ where
  square_sum_total :
      (real imag : List ℕ) (previous current k n sum : ℕ)
      → current + (k + n) ≤ length real
      → previous + (k + n) ≤ length real
      → current + (k + n) ≤ length imag
      → previous + (k + n) ≤ length imag
      → (s : ℕ) × (square_sum real imag previous current k n sum ≡ done s)
  unfolding square_sum
  square_sum_total real imag p c k zero sum h1 h2 h3 h4 = (sum, refl)
  square_sum_total real imag p c k (suc n) sum h1 h2 h3 h4 =
      let (a, ea) = get_elem?_lt real (c + k) (omega arith) in
      let (b, eb) = get_elem?_lt real (p + k) (omega arith) in
      let (x, ex) = get_elem?_lt imag (c + k) (omega arith) in
      let (y, ey) = get_elem?_lt imag (p + k) (omega arith) in
      rw (ea, eb, ex, ey, square_sum)
        (square_sum_total real imag p c (suc k) n _ (omega arith) (omega arith) (omega arith)
          (omega arith))

  energies_total :
      (real imag : List ℕ) (w t n : ℕ)
      → 0 < t
      → (t + n) * w ≤ length real
      → (t + n) * w ≤ length imag
      → Returns (IsSeries n) (energies real imag w t n)
  unfolding energies
  energies_total real imag w t zero p hr hi = (refl, tt)
  energies_total real imag w zero (suc n) p hr hi = elim p [ ]
  energies_total real imag w (suc t) (suc n) p hr hi =
      let (s, e) =
        square_sum_total real imag (t * w) (suc t * w) 0 w f64_zero (grind arith) (grind arith)
          (grind arith) (grind arith) in
      let later =
        energies_total real imag w (suc (suc t)) n (omega arith) (grind arith) (grind arith) in
      ground (arith, later, e)

  -- For all inputs: the kernel does not panic, and where it returns it returns one finite value for
  -- each two consecutive frames.
  pub motion_energy_link_total :
      (real imag : List ℕ) (frames w : ℕ)
      → Returns
          (λ vs. (1 < frames) × IsSeries (frames - 1) vs)
          (motion_energy_link real imag frames w)
  unfolding motion_energy_link checked_mul
  motion_energy_link_total real imag frames w =
      let whole : 1 < frames → (1 + (frames - 1)) * w ≡ frames * w =
        λ h. ap (λ (m : ℕ). m * w) (omega arith) in
      ground (arith, energies_total real imag w 1 (frames - 1), whole)

  length-hann_from : (d i n : ℕ) → length (hann_from d i n) ≡ n
  unfolding hann_from
  length-hann_from d i zero = refl
  length-hann_from d i (suc n) = omega (arith, length-hann_from d (suc i) n)

  length-hann_window : (n : ℕ) → length (hann_window n) ≡ n
  unfolding hann_window
  length-hann_window zero = refl
  length-hann_window (suc zero) = refl
  length-hann_window (suc (suc n)) = length-hann_from (o.of_nat (suc n)) 0 (suc (suc n))

  weigh_total :
      (mean : ℕ) (xs ws : List ℕ)
      → length xs ≡ length ws
      → Returns (IsSeries (length xs)) (weigh mean xs ws)
  unfolding weigh
  weigh_total mean [] ws h = (refl, tt)
  weigh_total mean (x ∷ xs) [] h = absurd (omega arith)
  weigh_total mean (x ∷ xs) (w ∷ ws) h = ground (arith, weigh_total mean xs ws)

  -- For all inputs: the kernel does not panic, and where it returns it returns one finite value for
  -- each of the signal.
  pub center_and_apply_hann_total :
      (signal : List ℕ) → Returns (IsSeries (length signal)) (center_and_apply_hann signal)
  unfolding center_and_apply_hann is_finite64
  center_and_apply_hann_total signal = ground (
    arith,
    weigh_total (o.div (o.sum signal) (o.of_nat (length signal))) signal
        (hann_window (length signal)),
    length-hann_window (length signal),
  )
