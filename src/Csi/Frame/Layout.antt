-- ===== src/Csi/Frame/Layout.antt =====
-- The layout of the samples: by receive antenna, then transmit antenna, then subcarrier.
use aeryon.Base.{
  ℕ, ◌+◌, ◌*◌, ◌-◌, ◌/◌, ◌%◌, ◌≤◌, ◌<◌, Bool, true, false, ◌||◌, ◌≡◌, sym, ◌∙◌, ap, ◌⊎◌, inl, inr,
  Option, none, some, List, Result, ok, err, length, get_elem?, take, drop, get_elem?_lt,
  get_elem?-take, get_elem?-drop, length-take, length-drop, leb, ltb, ltb→lt, arith, Bool-cases,
}
use native.Mathlib.Nat.{mul-le-mul_right, div-lt_iff_lt-mul, div-add-mod', mod-lt}
use mathlib.Core.Option.{some-injective}
use aeryon.Csi.Frame.{
  CsiFrame, CsiFrameError, ComplexSample, subcarrier_count, sample_index, sample, link,
  sample_checked,
}
use aeryon.Csi.Frame.Validity.{IsValid}

-- The position lies within the frame's dimensions.
abbrev pub InRange : CsiFrame → ℕ → ℕ → ℕ → Type 0
InRange f rx tx k =
    (rx < f.receive_antennas) × (tx < f.transmit_antennas) × (k < subcarrier_count f)

abbrev pub offset : CsiFrame → ℕ → ℕ → ℕ → ℕ
offset f rx tx k = (rx * f.transmit_antennas + tx) * subcarrier_count f + k

-- A digit in front of another: the bound of a position in a table with `w` columns.
pub row_bound : (r c h w : ℕ) → r < h → c < w → r * w + c < h * w
row_bound r c h w p q = grind arith

offset-lt :
    (f : CsiFrame) (rx tx k : ℕ)
    → IsValid f
    → InRange f rx tx k
    → offset f rx tx k < length f.samples
offset-lt f rx tx k v h =
    let link_bound = row_bound rx tx f.receive_antennas f.transmit_antennas h.0 h.1 in
    let bound =
      row_bound (rx * f.transmit_antennas + tx) k (f.receive_antennas * f.transmit_antennas)
        (subcarrier_count f) link_bound h.2 in
    omega (arith, v.dimensions)

sample_index_in :
    (f : CsiFrame) (rx tx k : ℕ)
    → InRange f rx tx k
    → sample_index f rx tx k ≡ some (offset f rx tx k)
unfolding sample_index
sample_index_in f rx tx k h = ground arith

abbrev pub is_error : Option (Result CsiFrameError ComplexSample) → Bool
is_error (some (err e)) = true
is_error _ = false

in_or_out : (f : CsiFrame) (rx tx k : ℕ) → InRange f rx tx k ⊎ ¬ InRange f rx tx k
in_or_out f rx tx k =
    elim (Bool-cases
      (leb f.receive_antennas rx || leb f.transmit_antennas tx || leb (subcarrier_count f) k)) [
        | inl e ↦ inr (ground arith)
        | inr e ↦ inl (ground arith)
      ]

sample_at :
    (f : CsiFrame) (rx tx k : ℕ)
    → InRange f rx tx k
    → sample f rx tx k ≡ get_elem? f.samples (offset f rx tx k)
unfolding sample
sample_at f rx tx k h = rw (sample_index_in f rx tx k h, sample)

sample_in :
    (f : CsiFrame) (rx tx k : ℕ) {s : ComplexSample}
    → InRange f rx tx k
    → get_elem? f.samples (offset f rx tx k) ≡ some s
    → (sample f rx tx k ≡ some s) × (sample_checked f rx tx k ≡ some (ok s))
unfolding sample sample_checked
sample_in f rx tx k h e = ground (arith, sample_index_in f rx tx k)

sample_out :
    (f : CsiFrame) (rx tx k : ℕ)
    → ¬ InRange f rx tx k
    → (sample f rx tx k ≡ none) × (is_error (sample_checked f rx tx k) ≡ true)
unfolding sample sample_checked sample_index
sample_out f rx tx k h = ground arith

-- On a valid frame every position in range has a sample, and `sample_checked` returns it; so its
-- `expect` never panics. Out of range `sample` is none and `sample_checked` returns an error.
pub sample_checked_total :
    (f : CsiFrame) (rx tx k : ℕ)
    → IsValid f
    → (InRange f rx tx k
        × ((s : ComplexSample) × (sample f rx tx k ≡ some s)
            × (sample_checked f rx tx k ≡ some (ok s))))
      ⊎ (¬ InRange f rx tx k
          × (sample f rx tx k ≡ none)
          × (is_error (sample_checked f rx tx k) ≡ true))
sample_checked_total f rx tx k v = elim (in_or_out f rx tx k) [
  | inl h ↦
      let (s, e) = get_elem?_lt f.samples (offset f rx tx k) (offset-lt f rx tx k v h) in
      let (found, checked) = sample_in f rx tx k h e in inl (h, (s, found, checked))
  | inr h ↦ let (missing, refused) = sample_out f rx tx k h in inr (h, missing, refused)
]

-- A number has one quotient and one remainder.
digits_unique : (q r q' r' w : ℕ) → r < w → r' < w → q * w + r ≡ q' * w + r' → (q ≡ q') × (r ≡ r')
digits_unique q r q' r' w p p' e =
    let same : q ≡ q' = elim (Bool-cases (ltb q q')) [
      | inl h ↦ absurd (omega (arith, mul-le-mul_right w (ltb→lt q q' h)))
      | inr h ↦ elim (Bool-cases (ltb q' q)) [
        | inl g ↦ absurd (omega (arith, mul-le-mul_right w (ltb→lt q' q g)))
        | inr g ↦ ground arith
      ]
    ] in
    (same, omega (arith, ap (λ (t : ℕ). t * w) same))

-- Different positions in range have different samples in the list, and every sample of a valid frame
-- stands at a position in range: `sample_index` numbers the positions in range.
pub sample_index_bijective :
    (f : CsiFrame)
    → IsValid f
    → ((rx tx k rx' tx' k' : ℕ)
        → InRange f rx tx k
        → InRange f rx' tx' k'
        → sample_index f rx tx k ≡ sample_index f rx' tx' k'
        → (rx ≡ rx') × (tx ≡ tx') × (k ≡ k'))
      × ((i : ℕ)
          → i < length f.samples
          → (rx tx k : ℕ) × InRange f rx tx k × (sample_index f rx tx k ≡ some i))
sample_index_bijective f v = (
  λ rx tx k rx' tx' k' h h' e.
      let same : offset f rx tx k ≡ offset f rx' tx' k' =
        some-injective _ _
          (sym (sample_index_in f rx tx k h) ∙ e ∙ sample_index_in f rx' tx' k' h') in
      let (links, ks) =
        digits_unique (rx * f.transmit_antennas + tx) k (rx' * f.transmit_antennas + tx') k'
          (subcarrier_count f) h.2 h'.2 same in
      let (rxs, txs) = digits_unique rx tx rx' tx' f.transmit_antennas h.1 h'.1 links in
      (rxs, txs, ks),
  λ i h.
      let n = subcarrier_count f in
      let t = f.transmit_antennas in
      let in_links : i / n < f.receive_antennas * t =
        (div-lt_iff_lt-mul v.carriers).1 (rw v.dimensions at h) in
      let range : InRange f (i / n / t) (i / n % t) (i % n) = (
        (div-lt_iff_lt-mul v.transmits).1 in_links,
        mod-lt (i / n) v.transmits,
        mod-lt i v.carriers,
      ) in
      (
        i / n / t,
        i / n % t,
        i % n,
        range,
        sample_index_in f (i / n / t) (i / n % t) (i % n) range
            ∙ ap some (ap (λ l. l * n + i % n) (div-add-mod' (i / n) t) ∙ div-add-mod' i n),
      ),
)

-- On a frame with its samples complete, a link in range is the samples of all its subcarriers in
-- order: `link` and `sample` agree.
pub link-sample :
    (f : CsiFrame) (rx tx : ℕ)
    → IsValid f
    → rx < f.receive_antennas
    → tx < f.transmit_antennas
    → (xs : List ComplexSample) × (link f rx tx ≡ some xs)
      × (length xs ≡ subcarrier_count f)
      × ((k : ℕ) → k < subcarrier_count f → get_elem? xs k ≡ sample f rx tx k)
unfolding link
link-sample f rx tx v p q =
    let n = subcarrier_count f in
    let start = offset f rx tx 0 in
    let fits : start + n ≤ length f.samples =
      omega (arith, offset-lt f rx tx (n - 1) v (p, q, omega (arith, v.carriers))) in
    let xs = take n (drop start f.samples) in
    (
      xs,
      ground (arith, sample_index_in f rx tx 0),
      omega (arith, length-take n (drop start f.samples), length-drop start f.samples),
      λ k h.
          get_elem?-take n k (drop start f.samples) (omega arith)
          ∙ get_elem?-drop start k f.samples
          ∙ ap (get_elem? f.samples) (omega arith)
          ∙ sym (sample_at f rx tx k (p, q, h)),
    )
