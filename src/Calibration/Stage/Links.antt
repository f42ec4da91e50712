-- ===== src/Calibration/Stage/Links.antt =====
-- What the loop over the links of the working buffer keeps.
use mathlib.Core.Path.{subst}
use mathlib.Core.List.{append_assoc}
use aeryon.Base.{
  ℕ, zero, suc, ◌+◌, ◌*◌, ◌≤◌, ◌≡◌, refl, sym, ap, ◌∙◌, drop-drop, some, List, [], ◌∷◌, ◌++◌,
  length, take, drop, All, All-drop, length-take, length-drop, length-append, drop-append, drop_all,
  inl, inr, arith,
}
use aeryon.Base.Outcomes.{Returns, Returns_mono, Outcome-cases}
use aeryon.Csi.Frame.{ComplexSample}
use aeryon.Calibration.Stage.{
  CalibrationBuffer, LinkUpdate, slice, copy_from_slice, link_at, update_link, update_links,
  for_each_link_mut,
}

module _ {ℓ} {A : Type ℓ} where
  All-take {κ} : (P : A → Type κ) (n : ℕ) (xs : List A) → All P xs → All P (take n xs)
  All-take P zero xs h = tt
  All-take P (suc n) [] h = tt
  All-take P (suc n) (x ∷ xs) h = (h.0, All-take P n xs h.1)

  -- A slice in range has the width asked for.
  slice_lem :
      (start width : ℕ) (xs : List A)
      → start + width ≤ length xs
      → (slice start width xs ≡ some (take width (drop start xs)))
        × (length (take width (drop start xs)) ≡ width)
  unfolding slice
  slice_lem start width xs h =
      (ground arith, omega (arith, length-take width (drop start xs), length-drop start xs))

  -- What stands past the slice stays.
  copy_from_slice_lem :
      (start width : ℕ) (ys xs : List A)
      → start + width ≤ length xs
      → length ys ≡ width
      → (zs : List A) × (copy_from_slice start width ys xs ≡ some zs)
        × (length zs ≡ length xs)
        × (drop (start + width) zs ≡ drop (start + width) xs)
  unfolding copy_from_slice
  copy_from_slice_lem start width ys xs h e =
      let front = take start xs ++ ys in
      let back = drop (start + width) xs in
      let size : length front ≡ start + width =
        omega (arith, length-append (take start xs) ys, length-take start xs) in
      (
        take start xs ++ (ys ++ back),
        ground arith,
        omega (
          arith,
          length-append (take start xs) (ys ++ back),
          length-append ys back,
          length-take start xs,
          length-drop (start + width) xs,
        ),
        ap (drop (start + width)) (sym (append_assoc (take start xs) ys back))
            ∙ drop-append (start + width) front back (omega arith)
            ∙ ap (λ l. l ++ back) (drop_all (start + width) front (omega arith)),
      )

-- The dimensions of two buffers are the same.
pub record SameShape (b c : CalibrationBuffer) : Type 0 where
  pub receives : c.receive_antennas ≡ b.receive_antennas
  pub transmits : c.transmit_antennas ≡ b.transmit_antennas
  pub indices : c.subcarrier_indices ≡ b.subcarrier_indices
  pub samples : length c.samples ≡ length b.samples
  pub phases : length c.phases ≡ length b.phases

pub SameShape-trans : (b c d : CalibrationBuffer) → SameShape b c → SameShape c d → SameShape b d
SameShape-trans b c d p q = record {
  receives = q.receives ∙ p.receives;
  transmits = q.transmits ∙ p.transmits;
  indices = q.indices ∙ p.indices;
  samples = q.samples ∙ p.samples;
  phases = q.phases ∙ p.phases;
}

module _ {S : Type 0} (f : LinkUpdate S) (n_sc n_tx : ℕ) (P : ℕ → Type 0) (R : ℕ → S → Type 0)
    (closure : (i : ℕ) (xs : List ComplexSample) (ps : List ℕ) (s : S)
      → length xs ≡ n_sc
      → length ps ≡ n_sc
      → All P ps
      → R i s
      → Returns
          (λ left. (length left.0 ≡ n_sc) × (length left.1 ≡ n_sc) × R (suc i) left.2)
          (f (link_at n_tx i) xs ps s)) where
  abbrev Kept : (i : ℕ) → CalibrationBuffer → CalibrationBuffer × S → Type 0
  Kept i b (c, t) = SameShape b c × All P (drop (i * n_sc + n_sc) c.phases) × R (suc i) t

  update_link_keeps :
      (i : ℕ) (b : CalibrationBuffer) (s : S)
      → i * n_sc + n_sc ≤ length b.samples
      → i * n_sc + n_sc ≤ length b.phases
      → All P (drop (i * n_sc) b.phases)
      → R i s
      → Returns (Kept i b) (update_link f n_sc n_tx i b s)
  unfolding update_link
  update_link_keeps i b s hs hp all r =
      let (es, ls) = slice_lem (i * n_sc) n_sc b.samples hs in
      let (ep, lp) = slice_lem (i * n_sc) n_sc b.phases hp in
      let xs = take n_sc (drop (i * n_sc) b.samples) in
      let ps = take n_sc (drop (i * n_sc) b.phases) in
      let given = closure i xs ps s ls lp (All-take P n_sc (drop (i * n_sc) b.phases) all) r in
      elim (Outcome-cases (f (link_at n_tx i) xs ps s)) [
        | inl ((ys, qs, t), e) ↦
            let (ly, lq, r') =
              subst
                (Returns
                  (λ left. (length left.0 ≡ n_sc) × (length left.1 ≡ n_sc) × R (suc i) left.2))
                e given in
            let (zs, ez, lz, _) = copy_from_slice_lem (i * n_sc) n_sc ys b.samples hs ly in
            let (ws, ew, lw, dw) = copy_from_slice_lem (i * n_sc) n_sc qs b.phases hp lq in
            rw (es, ep, e, ez, ew)
              (
                record {
                  receives = refl;
                  transmits = refl;
                  indices = refl;
                  samples = lz;
                  phases = lw;
                },
                subst (All P) (drop-drop (i * n_sc) n_sc b.phases ∙ sym dw)
                    (All-drop P n_sc (drop (i * n_sc) b.phases) all),
                r',
              )
        | inr (inl (x, e)) ↦ rw (es, ep, e) tt
        | inr (inr e) ↦ absurd (
            subst
              (Returns (λ left. (length left.0 ≡ n_sc) × (length left.1 ≡ n_sc) × R (suc i) left.2))
              e given)
      ]

  -- From the link `i` on, of which `n` are left, of `total` in all.
  pub update_links_keeps :
      (i n total : ℕ) (b : CalibrationBuffer) (s : S)
      → i + n ≡ total
      → length b.samples ≡ total * n_sc
      → length b.phases ≡ total * n_sc
      → All P (drop (i * n_sc) b.phases)
      → R i s
      → Returns (λ left. SameShape b left.0 × R total left.1) (update_links f n_sc n_tx i n b s)
  unfolding update_links
  update_links_keeps i zero total b s e ls lp all r = (
    record { receives = refl; transmits = refl; indices = refl; samples = refl; phases = refl },
    subst (λ k. R k s) (omega arith) r,
  )
  update_links_keeps i (suc n) total b s e ls lp all r =
      let fits : i * n_sc + n_sc ≤ total * n_sc = grind arith in
      let step = update_link_keeps i b s (omega (arith, fits)) (omega (arith, fits)) all r in
      elim (Outcome-cases (update_link f n_sc n_tx i b s)) [
        | inl ((c, t), made) ↦
            let (shape, rest, r') = subst (Returns (Kept i b)) made step in
            rw made (
              Returns_mono (update_links f n_sc n_tx (suc i) n c t)
                (λ left (later, last). (SameShape-trans b c left.0 shape later, last))
                (update_links_keeps (suc i) n total c t (omega arith) (shape.samples ∙ ls)
                  (shape.phases ∙ lp) (subst (λ k. All P (drop k c.phases)) (grind arith) rest) r'))
        | inr (inl (x, failure)) ↦ rw failure tt
        | inr (inr stuck) ↦ absurd (subst (Returns (Kept i b)) stuck step)
      ]

-- The whole loop, where `P` holds of all phases.
pub for_each_link_mut_keeps :
    {S : Type 0} (f : LinkUpdate S) (P : ℕ → Type 0) (R : ℕ → S → Type 0) (b : CalibrationBuffer)
    (s : S)
    → ((i : ℕ) (xs : List ComplexSample) (ps : List ℕ) (s : S)
        → length xs ≡ length b.subcarrier_indices
        → length ps ≡ length b.subcarrier_indices
        → All P ps
        → R i s
        → Returns
            (λ left.
              (length left.0 ≡ length b.subcarrier_indices)
              × (length left.1 ≡ length b.subcarrier_indices)
              × R (suc i) left.2)
            (f (link_at b.transmit_antennas i) xs ps s))
    → length b.samples ≡ b.receive_antennas * b.transmit_antennas * length b.subcarrier_indices
    → length b.phases ≡ b.receive_antennas * b.transmit_antennas * length b.subcarrier_indices
    → All P b.phases
    → R 0 s
    → Returns
        (λ left. SameShape b left.0 × R (b.receive_antennas * b.transmit_antennas) left.1)
        (for_each_link_mut f b s)
unfolding for_each_link_mut
for_each_link_mut_keeps f P R b s closure ls lp all r =
    update_links_keeps f (length b.subcarrier_indices) b.transmit_antennas P R closure 0
      (b.receive_antennas * b.transmit_antennas) (b.receive_antennas * b.transmit_antennas) b s
      (omega arith) ls lp (subst (λ k. All P (drop k b.phases)) {x = 0} (omega arith) all) r
