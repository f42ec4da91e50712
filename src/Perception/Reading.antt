-- ===== src/Perception/Reading.antt =====
-- What is read of a feature vector that has a value for each feature.
use aeryon.Base.{
  ℕ, zero, suc, ◌<◌, ◌≡◌, refl, true, some, List, [], ◌∷◌, length, get_elem?, ok, arith,
  is_finite64,
}
use aeryon.Base.Floats.{AreFinite}
use aeryon.Features.Ids.{
  FeatureId, discriminant, same_feature, all_features, motion_energy_rms, motion_energy_p95,
  timestamp_jitter, frame_count, link_count,
}
use aeryon.Features.Definitions.{definition_for}
use aeryon.Features.Schema.{csi_channel_features_v1, index_of, position_from, schema_length}
use aeryon.Features.Vector.{FeatureVector, value_at}
use aeryon.Perception.Profile.{ChannelChangeProfile, check_finite}
use aeryon.Perception.Observation.{Readings, lookup, read_features}

-- A vector of the schema of the profile, with a finite value for each feature of the schema.
pub record IsVector (v : FeatureVector) (p : ChannelChangeProfile) : Type 0 where
  pub schema_id : v.feature_schema_id ≡ p.feature_schema_id
  pub schema_version : v.feature_schema_version ≡ p.feature_schema_version
  pub covers : length v.values ≡ schema_length csi_channel_features_v1
  pub finite : AreFinite v.values

-- The readings are the values of the vector at the positions of the features.
pub record Reads (v : FeatureVector) (r : Readings) : Type 0 where
  pub rms : value_at v 2 ≡ some r.rms
  pub p95 : value_at v 7 ≡ some r.p95
  pub jitter : value_at v 22 ≡ some r.jitter
  pub frames : value_at v 23 ≡ some r.frames
  pub links : value_at v 24 ≡ some r.links

finite_at :
    (xs : List ℕ) (i : ℕ)
    → i < length xs
    → AreFinite xs
    → (x : ℕ) × (get_elem? xs i ≡ some x) × (is_finite64 x ≡ true)
finite_at [] i h f = absurd (omega (arith, h))
finite_at (x ∷ xs) zero h f = (x, refl, f.0)
finite_at (x ∷ xs) (suc i) h f = finite_at xs i (omega (arith, h)) f.1

lookup_at :
    (v : FeatureVector) (id : FeatureId) (i : ℕ)
    → index_of csi_channel_features_v1 id ≡ some i
    → i < length v.values
    → AreFinite v.values
    → (x : ℕ) × (lookup v id ≡ ok x) × (value_at v i ≡ some x) × (is_finite64 x ≡ true)
unfolding lookup value_at
lookup_at v id i at h f =
    let (x, e, fin) = finite_at v.values i h f in (x, ground (arith, at, e), e, fin)

pub read_features-Reads :
    (v : FeatureVector)
    → length v.values ≡ 25
    → AreFinite v.values
    → (r : Readings) × (read_features v ≡ ok r) × Reads v r
unfolding read_features check_finite index_of position_from csi_channel_features_v1 all_features
    same_feature discriminant definition_for
read_features-Reads v n f =
    let (rms, e, at, fin) = lookup_at v motion_energy_rms 2 refl (omega (arith, n)) f in
    let (p95, e', at', fin') = lookup_at v motion_energy_p95 7 refl (omega (arith, n)) f in
    let (jitter, e2, at2, fin2) = lookup_at v timestamp_jitter 22 refl (omega (arith, n)) f in
    let (frames, e3, at3, _) = lookup_at v frame_count 23 refl (omega (arith, n)) f in
    let (links, e4, at4, _) = lookup_at v link_count 24 refl (omega (arith, n)) f in
    (
      record { rms = rms; p95 = p95; jitter = jitter; frames = frames; links = links },
      ground (arith, e, e', e2, e3, e4, fin, fin', fin2),
      record { rms = at; p95 = at'; jitter = at2; frames = at3; links = at4 },
    )
