-- ===== src/Calibration/Normalize/Totality.antt =====
-- The normalisation of a link keeps its dimensions and does not panic.
use aeryon.Base.{ℕ, suc, ◌≡◌, refl, List, [], ◌∷◌, length, arith, inl, inr}
use aeryon.Base.Outcomes.{Returns, Outcome-cases}
use aeryon.Base.Floats.{F64}
use aeryon.Base.Singles.{F32}
use aeryon.Csi.Frame.{ComplexSample}
use aeryon.Calibration.Report.{AntennaLink}
use aeryon.Calibration.Stage.{CalibrationContext}
use aeryon.Calibration.Normalize.{square_sum, divide, normalize_link}

module _ ⦃d : F64⦄ ⦃o : F32⦄ where
  square_sum_total :
      (c : CalibrationContext) (link : AntennaLink) (offset : ℕ) (ss : List ComplexSample) (sum : ℕ)
      → Returns (λ (n : ℕ). Unit {0}) (square_sum c link offset ss sum)
  unfolding square_sum
  square_sum_total c link offset [] sum = tt
  square_sum_total c link offset (s ∷ ss) sum =
      let re = d.of_f32 s.re in
      let im = d.of_f32 s.im in
      let later =
        square_sum_total c link (suc offset) ss (d.add sum (d.add (d.mul re re) (d.mul im im))) in
      ground (arith, later)

  divide_total :
      (c : CalibrationContext) (link : AntennaLink) (rms offset : ℕ) (ss : List ComplexSample)
      (ps : List ℕ)
      → length ps ≡ length ss
      → Returns
          (λ left. (length left.0 ≡ length ss) × (length left.1 ≡ length ss))
          (divide c link rms offset ss ps)
  unfolding divide
  divide_total c link rms offset [] ps e = (refl, e)
  divide_total c link rms offset (s ∷ ss) [] e = absurd (omega (arith, e))
  divide_total c link rms offset (s ∷ ss) (p ∷ ps) e =
      let later = divide_total c link rms (suc offset) ss ps (omega (arith, e)) in
      ground (arith, later)

  abbrev HaveLength : ℕ → List ComplexSample × List ℕ × ℕ → Type 0
  HaveLength n (samples, phases, rms) = (length samples ≡ n) × (length phases ≡ n)

  -- The normalisation of a link keeps the number of its samples and phases.
  pub normalize_link_total :
      (epsilon : ℕ) (c : CalibrationContext) (link : AntennaLink) (ss : List ComplexSample)
      (ps : List ℕ)
      → length ps ≡ length ss
      → Returns (HaveLength (length ss)) (normalize_link epsilon c link ss ps)
  unfolding normalize_link
  normalize_link_total epsilon c link [] ps e = tt
  normalize_link_total epsilon c link (s ∷ ss) ps e =
      let summed = square_sum_total c link 0 (s ∷ ss) 0 in
      elim (Outcome-cases (square_sum c link 0 (s ∷ ss) 0)) [
        | inr x ↦ ground (arith, x, summed)
        | inl (sum, made) ↦
            let left =
              divide_total c link (o.of_f64 (d.sqrt (d.div sum (d.of_nat (length (s ∷ ss)))))) 0
                (s ∷ ss) ps e in
            ground (arith, made, left)
      ]
