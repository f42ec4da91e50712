-- ===== src/Csi/Tests.antt =====
-- Runs of `CsiFrame` on a frame with two receive antennas, one transmit antenna and two subcarriers.
use aeryon.Base.{
  ℕ, pos, ltℤ, ◌↔◌, ◌⊎◌, ◌≡◌, refl, true, none, some, List, [], ◌∷◌, ok, err, length, get_elem?,
  ◌<◌, arith,
}
use aeryon.Csi.Frame.{
  ComplexSample, sample, sample_checked, sample_index, link, subcarrier_count, check_ascending,
  subcarriers_not_ascending,
}
use aeryon.Csi.Frame.Validity.{IsValid, build, build_iff, check_ascending_position}
use aeryon.Csi.Frame.Layout.{
  InRange, is_error, sample_checked_total, sample_index_bijective, link-sample,
}
use aeryon.Csi.Samples.{value, four_samples, four_samples-IsValid}

third : sample four_samples 1 0 0 ≡ some (value 3)
unfolding sample sample_index
third = refl

build_iff_example :
    (build four_samples ≡ ok four_samples) ↔ ((four_samples ≡ four_samples) × IsValid four_samples)
build_iff_example = build_iff four_samples four_samples

sample_checked_total_example :
    (InRange four_samples 1 0 0
      × ((s : ComplexSample) × (sample four_samples 1 0 0 ≡ some s)
          × (sample_checked four_samples 1 0 0 ≡ some (ok s))))
    ⊎ (¬ InRange four_samples 1 0 0
        × (sample four_samples 1 0 0 ≡ none)
        × (is_error (sample_checked four_samples 1 0 0) ≡ true))
sample_checked_total_example = sample_checked_total four_samples 1 0 0 four_samples-IsValid

sample_index_bijective_example :
    ((rx tx k rx' tx' k' : ℕ)
      → InRange four_samples rx tx k
      → InRange four_samples rx' tx' k'
      → sample_index four_samples rx tx k ≡ sample_index four_samples rx' tx' k'
      → (rx ≡ rx') × (tx ≡ tx') × (k ≡ k'))
    × ((i : ℕ)
        → i < length four_samples.samples
        → (rx tx k : ℕ) × InRange four_samples rx tx k
          × (sample_index four_samples rx tx k ≡ some i))
sample_index_bijective_example = sample_index_bijective four_samples four_samples-IsValid

link-sample_example :
    (xs : List ComplexSample) × (link four_samples 1 0 ≡ some xs)
    × (length xs ≡ subcarrier_count four_samples)
    × ((k : ℕ) → k < subcarrier_count four_samples → get_elem? xs k ≡ sample four_samples 1 0 k)
link-sample_example = link-sample four_samples 1 0 four_samples-IsValid (omega arith) (omega arith)

one_lt_two : ltℤ (pos 1) (pos 2) ≡ true
unfolding ltℤ
one_lt_two = refl

check_ascending_position_example :
    check_ascending (pos 1 ∷ pos 2 ∷ pos 1 ∷ []) (pos 1 ∷ pos 2 ∷ pos 1 ∷ [])
    ≡ err (subcarriers_not_ascending 0)
check_ascending_position_example = check_ascending_position (pos 1) (pos 2) [] one_lt_two
