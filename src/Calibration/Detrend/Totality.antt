-- ===== src/Calibration/Detrend/Totality.antt =====
-- The detrending of a link keeps its dimensions and does not panic.
use aeryon.Base.{ℕ, suc, ◌≡◌, ℤ, refl, List, [], ◌∷◌, length, inl, inr, arith}
use aeryon.Base.Outcomes.{Returns, Outcome-cases}
use aeryon.Base.Floats.{F64}
use aeryon.Base.Singles.{F32}
use aeryon.Csi.Frame.{ComplexSample}
use aeryon.Calibration.Report.{AntennaLink}
use aeryon.Calibration.Stage.{CalibrationContext}
use aeryon.Calibration.Detrend.{
  fit_affine, collect, residuals, fit_link, detrend_link, DetrendResult,
}

module _ ⦃d : F64⦄ where
  fit_affine_total : (xs ys : List ℕ) → Returns (λ (p : ℕ × ℕ). Unit {0}) (fit_affine xs ys)
  unfolding fit_affine
  fit_affine_total xs ys = ground arith

module _ ⦃d : F64⦄ ⦃o : F32⦄ where
  abbrev HaveLengths : ℕ → List ℕ × List ℕ × List ℕ → Type 0
  HaveLengths n (xs, ys, ms) = (length xs ≡ n) × (length ys ≡ n) × (length ms ≡ n)

  collect_total :
      (c : CalibrationContext) (link : AntennaLink) (offset : ℕ) (ss : List ComplexSample)
      (ps : List ℕ) (is : List ℤ)
      → length ps ≡ length ss
      → length is ≡ length ss
      → Returns (HaveLengths (length ss)) (collect c link offset ss ps is)
  unfolding collect
  collect_total c link offset [] ps is e f = (refl, refl, refl)
  collect_total c link offset (s ∷ ss) [] is e f = absurd (omega (arith, e))
  collect_total c link offset (s ∷ ss) (p ∷ ps) [] e f = absurd (omega (arith, f))
  collect_total c link offset (s ∷ ss) (p ∷ ps) (i ∷ is) e f =
      let later =
        collect_total c link (suc offset) ss ps is (omega (arith, e)) (omega (arith, f)) in
      ground (arith, later)

  residuals_total :
      (c : CalibrationContext) (link : AntennaLink) (slope intercept offset : ℕ)
      (ss : List ComplexSample) (xs ys ms : List ℕ)
      → length xs ≡ length ss
      → length ys ≡ length ss
      → length ms ≡ length ss
      → Returns
          (λ left. (length left.0 ≡ length ss) × (length left.1 ≡ length ss))
          (residuals c link slope intercept offset ss xs ys ms)
  unfolding residuals
  residuals_total c link slope intercept offset [] xs ys ms e f g = (refl, refl)
  residuals_total c link slope intercept offset (s ∷ ss) [] ys ms e f g = absurd (omega (arith, e))
  residuals_total c link slope intercept offset (s ∷ ss) (x ∷ xs) [] ms e f g =
      absurd (omega (arith, f))
  residuals_total c link slope intercept offset (s ∷ ss) (x ∷ xs) (y ∷ ys) [] e f g =
      absurd (omega (arith, g))
  residuals_total c link slope intercept offset (s ∷ ss) (x ∷ xs) (y ∷ ys) (m ∷ ms) e f g =
      let later =
        residuals_total c link slope intercept (suc offset) ss xs ys ms (omega (arith, e))
          (omega (arith, f)) (omega (arith, g)) in
      ground (arith, later)

  abbrev HaveLength : ℕ → List ComplexSample × List ℕ × DetrendResult → Type 0
  HaveLength n (samples, phases, result) = (length samples ≡ n) × (length phases ≡ n)

  fit_link_total :
      (ss : List ComplexSample) (ps : List ℕ) (is : List ℤ) (c : CalibrationContext)
      (link : AntennaLink)
      → length ps ≡ length ss
      → length is ≡ length ss
      → Returns (HaveLength (length ss)) (fit_link ss ps is c link)
  unfolding fit_link
  fit_link_total ss ps is c link e f =
      let collected = collect_total c link 0 ss ps is e f in
      elim (Outcome-cases (collect c link 0 ss ps is)) [
        | inr x ↦ ground (arith, x, collected)
        | inl ((xs, ys, ms), made) ↦
            let (lx, ly, lm) : HaveLengths (length ss) (xs, ys, ms) =
              ground (arith, made, collected) in
            let fitted = fit_affine_total xs ys in
            elim (Outcome-cases (fit_affine xs ys)) [
              | inr x ↦ ground (arith, made, x, fitted)
              | inl ((slope, intercept), fit) ↦
                  let left = residuals_total c link slope intercept 0 ss xs ys ms lx ly lm in
                  ground (arith, made, fit, left)
            ]
      ]

  -- For all inputs the detrending of a link keeps the number of its samples and phases.
  pub detrend_link_total :
      (ss : List ComplexSample) (ps : List ℕ) (is : List ℤ) (c : CalibrationContext)
      (link : AntennaLink)
      → Returns (HaveLength (length ss)) (detrend_link ss ps is c link)
  unfolding detrend_link
  detrend_link_total ss ps is c link = ground (arith, fit_link_total ss ps is c link)
