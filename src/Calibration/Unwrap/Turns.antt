-- ===== src/Calibration/Unwrap/Turns.antt =====
-- The loops of the phase unwrapping end, by the facts of IEEE 754.
use mathlib.Core.Path.{subst}
use aeryon.Base.{
  ℕ, zero, suc, saturating_add, ◌+◌, ◌*◌, ◌^◌, ◌≤◌, ◌<◌, ◌≡◌, refl, ◌∙◌, true, false, some, List,
  [], ◌∷◌, length, All, Bool-cases, inl, inr, arith,
}
use aeryon.Base.Outcomes.{done, Returns}
use aeryon.Base.Singles.{
  F32, f32_lt, f32_pi, f32_neg_pi, f32_tau, IsBetween, IsIeee, lt_above_pi, lt_below_pi,
  between_four,
}
use aeryon.Csi.Frame.{ComplexSample, is_finite}
use aeryon.Calibration.Report.{AntennaLink}
use aeryon.Calibration.Stage.{CalibrationContext}
use aeryon.Calibration.Unwrap.{
  lower, raise, wrap_delta, sample_phase, sample_magnitude, unwrap_from, unwrap_link,
}

pos_above_pi : (x : ℕ) → f32_lt f32_pi x ≡ true → 0 < x
unfolding f32_lt
pos_above_pi x h = ground arith

pos_below_pi : (x : ℕ) → f32_lt x f32_neg_pi ≡ true → 0 < x
unfolding f32_lt
pos_below_pi x h = ground arith

module _ ⦃o : F32⦄ (fuel x wraps : ℕ) where
  lower_step :
      f32_lt f32_pi x ≡ true
      → lower (suc fuel) x wraps ≡ lower fuel (o.sub x f32_tau) (saturating_add wraps 1)
  unfolding lower
  lower_step h = rw (h, lower) refl

  raise_step :
      f32_lt x f32_neg_pi ≡ true
      → raise (suc fuel) x wraps ≡ raise fuel (o.add x f32_tau) (saturating_add wraps 1)
  unfolding raise
  raise_step h = rw (h, raise) refl

module _ ⦃o : F32⦄ (ieee : IsIeee) (n : ℕ) (least : 4 ≤ n) (most : n ≤ 2 ^ 24) where
  lower_ends :
      (fuel x wraps : ℕ)
      → 0 < fuel
      → (f32_lt f32_pi x ≡ true → x < fuel)
      → IsBetween n x
      → (y w : ℕ) × (lower fuel x wraps ≡ some (y, w)) × IsBetween n y × (f32_lt f32_pi y ≡ false)
  unfolding lower
  lower_ends zero x wraps pos enough b = absurd (omega (arith, pos))
  lower_ends (suc fuel) x wraps pos enough b = elim (Bool-cases (f32_lt f32_pi x)) [
    | inr low ↦ (x, wraps, rw (low, lower) refl, b, low)
    | inl high ↦
        let (b', less) = ieee.lower_turn n x least most b high in
        let above = lt_above_pi (o.sub x f32_tau) x b.word in
        let (y, w, e, between, low) =
          lower_ends fuel (o.sub x f32_tau) (saturating_add wraps 1)
            (omega (arith, enough high, pos_above_pi x high))
            (λ still. omega (arith, enough high, above still less)) b' in
        (y, w, lower_step fuel x wraps high ∙ e, between, low)
  ]

  raise_ends :
      (fuel x wraps : ℕ)
      → 0 < fuel
      → (f32_lt x f32_neg_pi ≡ true → x < fuel)
      → IsBetween n x
      → f32_lt f32_pi x ≡ false
      → (y w : ℕ) × (raise fuel x wraps ≡ some (y, w))
        × IsBetween n y
        × (f32_lt f32_pi y ≡ false)
        × (f32_lt y f32_neg_pi ≡ false)
  unfolding raise
  raise_ends zero x wraps pos enough b up = absurd (omega (arith, pos))
  raise_ends (suc fuel) x wraps pos enough b up = elim (Bool-cases (f32_lt x f32_neg_pi)) [
    | inr high ↦ (x, wraps, rw (high, raise) refl, b, up, high)
    | inl low ↦
        let (b', more, up') = ieee.raise_turn n x least most b low in
        let below = lt_below_pi x (o.add x f32_tau) b'.word in
        let (y, w, e, between, up'', down) =
          raise_ends fuel (o.add x f32_tau) (saturating_add wraps 1)
            (omega (arith, enough low, pos_below_pi x low))
            (λ still. omega (arith, enough low, below still more)) b' up' in
        (y, w, raise_step fuel x wraps low ∙ e, between, up'', down)
  ]

  -- For a difference between -n and n the loops end, and leave one between -4 and 4.
  wrap_delta_ends :
      (x wraps : ℕ) → IsBetween n x → (y w : ℕ) × (wrap_delta x wraps ≡ done (y, w)) × IsBetween 4 y
  unfolding wrap_delta
  wrap_delta_ends x wraps b =
      let (y, w, e, b', up) = lower_ends (suc x) x wraps (omega arith) (λ _. omega arith) b in
      let (z, v, e', b'', up', down) =
        raise_ends (suc y) y w (omega arith) (λ _. omega arith) b' up in
      let (above, below) = between_four z b''.finite up' down in
      (
        z,
        v,
        rw (e, e') refl,
        record {
          word = b''.word;
          finite = b''.finite;
          above = rw ieee.four above;
          below = rw ieee.four below;
        },
      )

module _ ⦃o : F32⦄ (ieee : IsIeee) where
  abbrev pub HaveLength : ℕ → List ComplexSample × List ℕ × ℕ → Type 0
  HaveLength n (samples, phases, wraps) = (length samples ≡ n) × (length phases ≡ n)

  -- After `k` samples the phases lie between -4(k + 1) and 4(k + 1).
  unwrap_from_total :
      (c : CalibrationContext) (link : AntennaLink) (offset previous k : ℕ)
      (ss : List ComplexSample) (wraps : ℕ)
      → 4 * (k + length ss + 1) ≤ 2 ^ 24
      → IsBetween (4 * (k + 1)) previous
      → Returns (HaveLength (length ss)) (unwrap_from c link offset previous ss wraps)
  unfolding unwrap_from sample_magnitude sample_phase is_finite
  unwrap_from_total c link offset previous k [] wraps fits b = (refl, refl)
  unwrap_from_total c link offset previous k (s ∷ ss) wraps fits b =
      elim (Bool-cases (is_finite s)) [
        | inr bad ↦ rw bad tt
        | inl good ↦
            let wrapped = ieee.arg_bounds s.re s.im (ground (arith, good)) (ground (arith, good)) in
            let (y, w, e, turned) =
              wrap_delta_ends ieee (4 + 4 * (k + 1)) (omega arith) (omega (arith, fits))
                (o.sub (o.arg s.re s.im) previous) wraps
                (ieee.sub_bounds 4 (4 * (k + 1)) (o.arg s.re s.im) previous (omega (arith, fits))
                  wrapped b) in
            let next : IsBetween (4 * (suc k + 1)) (o.add previous y) =
              subst (λ m. IsBetween m (o.add previous y)) {x = 4 * (k + 1) + 4} (omega arith)
                (ieee.add_bounds (4 * (k + 1)) 4 previous y (omega (arith, fits)) b turned) in
            let later =
              unwrap_from_total c link (suc offset) (o.add previous y) (suc k) ss w
                (omega (arith, fits)) next in
            ground (arith, good, e, later)
      ]

  -- Where the first phase lies between -4 and 4, the unwrapping of a link of at most 2^20 subcarriers
  -- ends, and keeps the lengths.
  pub unwrap_link_total :
      (c : CalibrationContext) (link : AntennaLink) (ss : List ComplexSample) (ps : List ℕ)
      → length ss ≤ 2 ^ 20
      → length ps ≡ length ss
      → All (IsBetween 4) ps
      → Returns (HaveLength (length ss)) (unwrap_link c link ss ps)
  unfolding unwrap_link sample_magnitude
  unwrap_link_total c link [] ps few e all = (refl, e)
  unwrap_link_total c link (s ∷ ss) [] few e all = absurd (omega (arith, e))
  unwrap_link_total c link (s ∷ ss) (p ∷ ps) few e all =
      let later = unwrap_from_total c link 1 p 0 ss 0 (omega (arith, few)) all.0 in
      ground (arith, e, later)
