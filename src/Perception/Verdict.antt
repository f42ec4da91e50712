-- ===== src/Perception/Verdict.antt =====
-- What an observation says of the vector that it is made from.
use mathlib.Core.Path.{subst}
use aeryon.Base.{
  ℕ, Bool-cases, ◌≡◌, ◌≢◌, ◌↔◌, ◌⊎◌, inl, inr, refl, ap, ◌∙◌, true, false, List, [], ◌∷◌, ◌++◌,
  ◌&&◌, ◌==◌, map, length, Result, ok, err, arith, list_eq, list_eq_refl, is_finite64, f64_lt,
  f64_zero, f64_one, fetch_add,
}
use aeryon.Base.Text.{codes, Str}
use aeryon.Base.Floats.{F64, f64_le}
use aeryon.Domain.Frame.{Timestamp}
use aeryon.Features.Vector.{FeatureVector}
use aeryon.Perception.Profile.{
  plain, non_finite, output_validation, PerceptionError, ChannelChangeProfile,
}
use aeryon.Perception.Observation.{
  stable, changing, highly_changing, indeterminate, ChannelChangeObservation, Warning, of_vector,
  threshold_margin, Readings, read_features,
}
use aeryon.Perception.Judging.{
  is_compatible, push_if, has_any, indeterminate_reasons, state_of, check_output, score_of,
  observation_of, prepare, observe_channel_change,
}
use aeryon.Perception.Validity.{
  IsChangeProfile, validate-IsChangeProfile_iff, schema_length-csi_channel_features_v1,
}
use aeryon.Perception.Reading.{IsVector, Reads, read_features-Reads}

has_any_some : (ws : List Str) → has_any ws ≡ true → ws ≢ []
unfolding has_any
has_any_some [] h e = cc
has_any_some (w ∷ ws) h e = ground arith

has_any_none : (ws : List Str) → has_any ws ≡ false → ws ≡ []
unfolding has_any
has_any_none [] h = refl
has_any_none (w ∷ ws) h = ground arith

length_nil : {A : Type 0} (xs : List A) → ((length xs == 0) ≡ true) ↔ (xs ≡ [])
length_nil [] = (λ _. refl, λ _. refl)
length_nil (x ∷ xs) = ground arith

warnings_nil :
    (ws : List Str) (rs : List Warning) → (map of_vector ws ++ rs ≡ []) ↔ ((ws ≡ []) × (rs ≡ []))
warnings_nil [] rs = (λ h. (refl, h), λ h. h.1)
warnings_nil (w ∷ ws) rs = ground arith

-- What the four states mean.
state_of_effect :
    (rs : List Warning) (p : ChannelChangeProfile) (score : ℕ)
    → ((state_of rs p score ≡ indeterminate) ↔ ((length rs == 0) ≡ false))
      × (state_of rs p score ≡ stable → f64_lt score p.stable_threshold ≡ true)
      × (state_of rs p score ≡ changing
          → (f64_lt score p.stable_threshold ≡ false)
            × (f64_lt score p.high_change_threshold ≡ true))
      × (state_of rs p score ≡ highly_changing → f64_lt score p.high_change_threshold ≡ false)
unfolding state_of
state_of_effect rs p score = ground arith

module _ ⦃o : F64⦄ (v : FeatureVector) (p : ChannelChangeProfile) (r : Readings) where
  abbrev margin_of : ℕ
  margin_of = threshold_margin (score_of r p) p.stable_threshold p.high_change_threshold

  -- Why the state of an observation is not determined.
  pub data IsUnsure : Type 0 where
    jittered : f64_lt p.maximum_timestamp_jitter r.jitter ≡ true → IsUnsure
    warned : v.warnings ≢ [] → IsUnsure
    narrow : f64_lt margin_of p.minimum_margin ≡ true → IsUnsure

  pub record IsVerdict (next_id : ℕ) (ob : ChannelChangeObservation) : Type 0 where
    pub id : ob.observation_id ≡ next_id
    pub score : ob.activity_score ≡ score_of r p
    pub from : f64_le f64_zero ob.activity_score ≡ true
    pub to : f64_le ob.activity_score f64_one ≡ true
    pub unsure : (ob.state ≡ indeterminate) ↔ IsUnsure
    pub silent : (ob.warnings ≡ []) ↔ (ob.state ≢ indeterminate)
    pub low : ob.state ≡ stable → f64_lt ob.activity_score p.stable_threshold ≡ true
    pub middle :
        ob.state ≡ changing
        → (f64_lt ob.activity_score p.stable_threshold ≡ false)
          × (f64_lt ob.activity_score p.high_change_threshold ≡ true)
    pub high : ob.state ≡ highly_changing → f64_lt ob.activity_score p.high_change_threshold ≡ false

  pub data Judges (next_id : ℕ) : ℕ × Result PerceptionError ChannelChangeObservation → Type 0 where
    unscored :
        (e : PerceptionError) → is_finite64 (score_of r p) ≡ false → Judges next_id (next_id, err e)
    outside :
        (e : PerceptionError)
        → f64_le f64_zero (score_of r p) && f64_le (score_of r p) f64_one ≡ false
        → Judges next_id (fetch_add next_id 1, err e)
    judged :
        (ob : ChannelChangeObservation)
        → IsVerdict next_id ob
        → Judges next_id (fetch_add next_id 1, ok ob)

  unfoldable reasons : List Warning
  reasons = indeterminate_reasons v p r.jitter margin_of

  sure :
      f64_lt p.maximum_timestamp_jitter r.jitter ≡ false
      → v.warnings ≡ []
      → f64_lt margin_of p.minimum_margin ≡ false
      → IsUnsure
      → ⊥
  sure j w m (jittered h) = cc
  sure j w m (warned h) = h w
  sure j w m (narrow h) = cc

  reasons_cases : ((reasons ≡ []) × (IsUnsure → ⊥)) ⊎ (((length reasons == 0) ≡ false) × IsUnsure)
  unfolding reasons indeterminate_reasons push_if has_any
  reasons_cases = elim (Bool-cases (f64_lt p.maximum_timestamp_jitter r.jitter)) [
    | inl j ↦ inr (ground (arith, j), jittered j)
    | inr j ↦ elim (Bool-cases (f64_lt margin_of p.minimum_margin)) [
      | inl m ↦ inr (ground (arith, j, m), narrow m)
      | inr m ↦ elim (Bool-cases (has_any v.warnings)) [
        | inl w ↦ inr (ground (arith, j, m, w), warned (has_any_some v.warnings w))
        | inr w ↦ inl (ground (arith, j, m, w), sure j (has_any_none v.warnings w) m)
      ]
    ]
  ]

  state_iff : (state_of reasons p (score_of r p) ≡ indeterminate) ↔ IsUnsure
  state_iff =
      ground
        (arith, (state_of_effect reasons p (score_of r p)).0, reasons_cases, length_nil reasons)

  warnings_iff :
      (map of_vector v.warnings ++ reasons ≡ [])
      ↔ (state_of reasons p (score_of r p) ≢ indeterminate)
  warnings_iff =
      ground (
        arith,
        state_iff,
        reasons_cases,
        length_nil reasons,
        warnings_nil v.warnings reasons,
        warned,
      )

  observation-IsVerdict :
      (next_id : ℕ) (now : Timestamp)
      → f64_le f64_zero (score_of r p) && f64_le (score_of r p) f64_one ≡ true
      → IsVerdict next_id (observation_of next_id now v p r)
  unfolding observation_of reasons
  observation-IsVerdict next_id now h =
      let (_, low, middle, high) = state_of_effect reasons p (score_of r p) in
      record {
        id = refl;
        score = refl;
        from = ground (arith, h);
        to = ground (arith, h);
        unsure = state_iff;
        silent = warnings_iff;
        low = low;
        middle = middle;
        high = high;
      }

  score-observation_of :
      (next_id : ℕ) (now : Timestamp)
      → (observation_of next_id now v p r).activity_score ≡ score_of r p
  unfolding observation_of
  score-observation_of next_id now = refl

  check_output-Judges :
      (next_id : ℕ) (now : Timestamp)
      → is_finite64 (score_of r p) ≡ true
      → Judges next_id (fetch_add next_id 1, check_output (observation_of next_id now v p r))
  unfolding check_output
  check_output-Judges next_id now fin =
      let ob = observation_of next_id now v p r in
      let own : ob.activity_score ≡ score_of r p = score-observation_of next_id now in
      let e = output_validation (plain (codes "activity score must be finite and within [0, 1]")) in
      elim (Bool-cases (f64_le f64_zero (score_of r p) && f64_le (score_of r p) f64_one)) [
        | inl h ↦
            let passed : ok ob ≡ check_output ob = ground (arith, own, fin, h) in
            subst (λ x. Judges next_id (fetch_add next_id 1, x)) passed
              (judged ob (observation-IsVerdict next_id now h))
        | inr h ↦
            let refused : err e ≡ check_output ob = ground (arith, own, fin, h) in
            subst (λ x. Judges next_id (fetch_add next_id 1, x)) refused (outside e h)
      ]

  prepare_effect :
      IsChangeProfile p
      → IsVector v p
      → read_features v ≡ ok r
      → (is_finite64 (score_of r p) ≡ true → prepare v p ≡ ok r)
        × (is_finite64 (score_of r p) ≡ false → (e : PerceptionError) × (prepare v p ≡ err e))
  unfolding prepare is_compatible
  prepare_effect valid vec read =
      let accepted = (validate-IsChangeProfile_iff p).1 valid in
      let same =
        ap (λ s. list_eq s p.feature_schema_id) vec.schema_id ∙ list_eq_refl p.feature_schema_id in
      (
        λ fin. ground (arith, accepted, same, vec.schema_version, read, fin),
        λ wide. (
          non_finite (plain (codes "activity score is non-finite")),
          ground (arith, accepted, same, vec.schema_version, read, wide),
        ),
      )

  judge :
      (next_id : ℕ) (now : Timestamp)
      → IsChangeProfile p
      → IsVector v p
      → read_features v ≡ ok r
      → Judges next_id (observe_channel_change next_id now v p)
  unfolding observe_channel_change
  judge next_id now valid vec read =
      let prepared = prepare_effect valid vec read in
      elim (Bool-cases (is_finite64 (score_of r p))) [
        | inl fin ↦
            subst (Judges next_id) (cc (prepared.0 fin)) (check_output-Judges next_id now fin)
        | inr wide ↦
            let (e, stopped) = prepared.1 wide in
            subst (Judges next_id) (cc stopped) (unscored e wide)
      ]

-- For a valid profile and a vector of its schema with a finite value for each feature, the call reads the
-- values at the positions of the features and fails only where the score of these is not a finite number
-- from 0 to 1. Else the observation has the score, and the next identifier; its state is indeterminate
-- just if the jitter is beyond its maximum, the vector has a warning, or the margin is below its minimum;
-- it has no warning just if its state is not indeterminate; a state that is not is the one of the
-- thresholds. The counter moves on just if an observation was made, also one that is then refused for
-- its score.
pub observe-Judges :
    ⦃o : F64⦄ (next_id : ℕ) (now : Timestamp) (v : FeatureVector) (p : ChannelChangeProfile)
    → IsChangeProfile p
    → IsVector v p
    → (r : Readings) × Reads v r × Judges v p r next_id (observe_channel_change next_id now v p)
observe-Judges next_id now v p valid vec =
    let (r, read, reads) =
      read_features-Reads v (vec.covers ∙ schema_length-csi_channel_features_v1) vec.finite in
    (r, reads, judge v p r next_id now valid vec read)
