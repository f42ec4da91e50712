-- ===== src/Features/Vector/Validity.antt =====
-- What `FeatureVector::try_new` accepts.
use aeryon.Base.{ℕ, suc, ◌≡◌, ◌↔◌, refl, false, List, [], ◌∷◌, length, All, ok, arith}
use aeryon.Base.Text.{is_blank}
use aeryon.Base.Floats.{AreFinite}
use aeryon.Features.Schema.{Message, aggregate_non_finite, link_non_finite}
use aeryon.Features.Vector.{
  LinkFeatureValues, FeatureVector, success, check_values, check_links, try_new,
}

-- The link has a finite value for each feature.
abbrev pub Covers : (expected_length : ℕ) → LinkFeatureValues → Type 0
Covers n l = (length l.values ≡ n) × AreFinite l.values

pub record IsFeatureVector (v : FeatureVector) (expected_length : ℕ) : Type 0 where
  pub covers : length v.values ≡ expected_length
  pub finite : AreFinite v.values
  pub links : All (Covers expected_length) v.link_features
  pub schema : is_blank v.feature_schema_id ≡ false
  pub features : is_blank v.feature_profile_id ≡ false
  pub dsp : is_blank v.dsp_profile_id ≡ false
  pub calibration : is_blank v.calibration_profile_id ≡ false
  pub backend : is_blank v.dsp_backend_id ≡ false

check_values_iff :
    (at : ℕ → Message) (index : ℕ) (xs : List ℕ) → (check_values at index xs ≡ ok tt) ↔ AreFinite xs
unfolding check_values
check_values_iff at index [] = (λ _. tt, λ _. refl)
check_values_iff at index (x ∷ xs) = ground (arith, check_values_iff at (suc index) xs)

check_links_iff :
    (n : ℕ) (ls : List LinkFeatureValues) → (check_links n ls ≡ ok tt) ↔ All (Covers n) ls
unfolding check_links
check_links_iff n [] = (λ _. tt, λ _. refl)
check_links_iff n (l ∷ ls) =
    ground (arith, check_values_iff (link_non_finite l.link) 0 l.values, check_links_iff n ls)

-- `FeatureVector::try_new` returns a vector just if the vector and each of its links have as many values as
-- is expected, all of them finite, and no identity of its provenance is blank; the vector is then the
-- one of the given parts, with the status of a success.
pub try_new-IsFeatureVector_iff :
    (v w : FeatureVector) (expected_length : ℕ)
    → (try_new v expected_length ≡ ok w)
      ↔ (IsFeatureVector v expected_length × (record v { status = success } ≡ w))
unfolding try_new
try_new-IsFeatureVector_iff v w n =
    ground
      (arith, check_values_iff aggregate_non_finite 0 v.values, check_links_iff n v.link_features)
