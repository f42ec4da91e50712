-- ===== src/Base/BTreeMap.antt =====
-- `std::collections::BTreeMap` as the list of its entries in key order, over an interface of ordered
-- keys, with the laws that the clients use.
use Prim.Native.Nat.{Ordering}
use mathlib.Core.Path.{◌≡◌, refl, ap}
use mathlib.Core.Bool.{Bool, true, false}
use mathlib.Core.Option.{Option, none, some, some-injective}
use mathlib.Core.List.{List, [], ◌∷◌}
use aeryon.Base.Tests.{if◌then◌else◌, is_some}
use aeryon.Base.Lists.{All}

-- The derived `Ord` of a key type.
pub record Ord (K : Type 0) : Type 0 where
  pub cmp : K → K → Ordering
  pub cmp-refl : (a : K) → cmp a a ≡ Ordering.eq
  pub eq_of_cmp : (a b : K) → cmp a b ≡ Ordering.eq → a ≡ b
  pub cmp_flip : (a b : K) → cmp a b ≡ Ordering.gt → cmp b a ≡ Ordering.lt
  pub cmp_trans :
      (a b c : K) → cmp a b ≡ Ordering.lt → cmp b c ≡ Ordering.lt → cmp a c ≡ Ordering.lt

pub data Split (o : Ordering) : Type 0 where
  is_lt : o ≡ Ordering.lt → Split o
  is_eq : o ≡ Ordering.eq → Split o
  is_gt : o ≡ Ordering.gt → Split o

pub split : (o : Ordering) → Split o
split Ordering.lt = is_lt refl
split Ordering.eq = is_eq refl
split Ordering.gt = is_gt refl

abbrev pub is_eqb : Ordering → Bool
is_eqb Ordering.eq = true
is_eqb _ = false

abbrev pub by_order {ℓ} : {A : Type ℓ} → Ordering → A → A → A → A
by_order Ordering.lt x y z = x
by_order Ordering.eq x y z = y
by_order Ordering.gt x y z = z

abbrev pub BTreeMap : Type 0 → Type 0 → Type 0
BTreeMap K V = List (K × V)

module _ {K : Type 0} {V : Type 0} ⦃o : Ord K⦄ where
  unfoldable pub get : K → BTreeMap K V → Option V
  get k [] = none
  get k ((j, v) ∷ m) = if is_eqb (o.cmp k j) then some v else get k m

  unfoldable pub insert : K → V → BTreeMap K V → BTreeMap K V
  insert k v [] = (k, v) ∷ []
  insert k v ((j, w) ∷ m) =
      by_order (o.cmp k j) ((k, v) ∷ (j, w) ∷ m) ((k, v) ∷ m) ((j, w) ∷ insert k v m)

  unfoldable pub remove : K → BTreeMap K V → BTreeMap K V
  remove k [] = []
  remove k ((j, w) ∷ m) = if is_eqb (o.cmp k j) then remove k m else (j, w) ∷ remove k m

  unfoldable pub contains_key : K → BTreeMap K V → Bool
  unfolding get
  contains_key k m = is_some (get k m)

  -- Every key of the map comes after `k`.
  abbrev pub Above : K → BTreeMap K V → Type 0
  Above k m = All (λ e. o.cmp k e.0 ≡ Ordering.lt) m

  -- The keys rise strictly.
  abbrev pub IsSorted : BTreeMap K V → Type 0
  IsSorted [] = Unit
  IsSorted ((k, v) ∷ m) = Above k m × IsSorted m

  pub get-insert_self : (k : K) (v : V) (m : BTreeMap K V) → get k (insert k v m) ≡ some v
  unfolding get insert
  get-insert_self k v [] = rw (o.cmp-refl k)
  get-insert_self k v ((j, w) ∷ m) = elim (split (o.cmp k j)) [
    | is_lt e ↦ rw (e, o.cmp-refl k)
    | is_eq e ↦ rw (e, o.cmp-refl k)
    | is_gt e ↦ rw e (rw e (get-insert_self k v m))
  ]

  pub get-insert_ne :
      (k j : K) (v : V) (m : BTreeMap K V)
      → is_eqb (o.cmp j k) ≡ false
      → get j (insert k v m) ≡ get j m
  unfolding get insert
  get-insert_ne k j v [] h = rw h
  get-insert_ne k j v ((i, w) ∷ m) h = elim (split (o.cmp k i)) [
    | is_lt e ↦ rw (e, h)
    | is_eq e ↦ rw e (rw (← o.eq_of_cmp k i e) (rw h))
    | is_gt e ↦ rw e (rw (get-insert_ne k j v m h))
  ]

  pub get-remove_self : (k : K) (m : BTreeMap K V) → get k (remove k m) ≡ none
  unfolding get remove
  get-remove_self k [] = refl
  get-remove_self k ((j, w) ∷ m) = elim (split (o.cmp k j)) [
    | is_lt e ↦ rw e (rw e (get-remove_self k m))
    | is_eq e ↦ rw e (get-remove_self k m)
    | is_gt e ↦ rw e (rw e (get-remove_self k m))
  ]

  pub get-remove_ne :
      (k j : K) (m : BTreeMap K V) → is_eqb (o.cmp j k) ≡ false → get j (remove k m) ≡ get j m
  unfolding get remove
  get-remove_ne k j [] h = refl
  get-remove_ne k j ((i, w) ∷ m) h = elim (split (o.cmp k i)) [
    | is_lt e ↦ rw e (rw (get-remove_ne k j m h))
    | is_eq e ↦ rw e (rw (← o.eq_of_cmp k i e) (rw h (get-remove_ne k j m h)))
    | is_gt e ↦ rw e (rw (get-remove_ne k j m h))
  ]

  pub remove_absent : (k : K) (m : BTreeMap K V) → contains_key k m ≡ false → remove k m ≡ m
  unfolding contains_key remove
  remove_absent k [] h = refl
  remove_absent k ((j, w) ∷ m) h = elim (split (o.cmp k j)) [
    | is_lt e ↦ rw e (ap (◌∷◌ (j, w)) (remove_absent k m (rw e at h)))
    | is_eq e ↦ cc (let impossible : true ≡ false = rw e at h in impossible)
    | is_gt e ↦ rw e (ap (◌∷◌ (j, w)) (remove_absent k m (rw e at h)))
  ]

  -- An insertion of a new key is undone by its removal.
  pub remove-insert :
      (k : K) (v : V) (m : BTreeMap K V) → contains_key k m ≡ false → remove k (insert k v m) ≡ m
  unfolding contains_key remove insert
  remove-insert k v [] h = rw (o.cmp-refl k)
  remove-insert k v ((j, w) ∷ m) h = elim (split (o.cmp k j)) [
    | is_lt e ↦ rw e (rw (o.cmp-refl k) (rw e (ap (◌∷◌ (j, w)) (remove_absent k m (rw e at h)))))
    | is_eq e ↦ cc (let impossible : true ≡ false = rw e at h in impossible)
    | is_gt e ↦ rw e (rw e (ap (◌∷◌ (j, w)) (remove-insert k v m (rw e at h))))
  ]

  Above-trans : (k j : K) (m : BTreeMap K V) → o.cmp k j ≡ Ordering.lt → Above j m → Above k m
  Above-trans k j [] h a = tt
  Above-trans k j ((i, w) ∷ m) h a = (o.cmp_trans k j i h a.0, Above-trans k j m h a.1)

  Above-insert :
      (j k : K) (v : V) (m : BTreeMap K V)
      → o.cmp j k ≡ Ordering.lt
      → Above j m
      → Above j (insert k v m)
  unfolding insert
  Above-insert j k v [] h a = (h, tt)
  Above-insert j k v ((i, w) ∷ m) h a = elim (split (o.cmp k i)) [
    | is_lt e ↦ rw e (h, a)
    | is_eq e ↦ rw e (h, a.1)
    | is_gt e ↦ rw e (a.0, Above-insert j k v m h a.1)
  ]

  pub insert-IsSorted : (k : K) (v : V) (m : BTreeMap K V) → IsSorted m → IsSorted (insert k v m)
  unfolding insert
  insert-IsSorted k v [] s = (tt, tt)
  insert-IsSorted k v ((j, w) ∷ m) s = elim (split (o.cmp k j)) [
    | is_lt e ↦ rw e ((e, Above-trans k j m e s.0), s)
    | is_eq e ↦ rw e (rw (o.eq_of_cmp k j e) s.0, s.1)
    | is_gt e ↦ rw e (Above-insert j k v m (o.cmp_flip k j e) s.0, insert-IsSorted k v m s.1)
  ]

  Above-remove : (j k : K) (m : BTreeMap K V) → Above j m → Above j (remove k m)
  unfolding remove
  Above-remove j k [] a = tt
  Above-remove j k ((i, w) ∷ m) a = elim (split (o.cmp k i)) [
    | is_lt e ↦ rw e (a.0, Above-remove j k m a.1)
    | is_eq e ↦ rw e (Above-remove j k m a.1)
    | is_gt e ↦ rw e (a.0, Above-remove j k m a.1)
  ]

  pub remove-IsSorted : (k : K) (m : BTreeMap K V) → IsSorted m → IsSorted (remove k m)
  unfolding remove
  remove-IsSorted k [] s = tt
  remove-IsSorted k ((j, w) ∷ m) s = elim (split (o.cmp k j)) [
    | is_lt e ↦ rw e (Above-remove j k m s.0, remove-IsSorted k m s.1)
    | is_eq e ↦ rw e (remove-IsSorted k m s.1)
    | is_gt e ↦ rw e (Above-remove j k m s.0, remove-IsSorted k m s.1)
  ]

  pub All-insert :
      (P : K × V → Type 0) (k : K) (v : V) (m : BTreeMap K V)
      → P (k, v)
      → All P m
      → All P (insert k v m)
  unfolding insert
  All-insert P k v [] p a = (p, tt)
  All-insert P k v ((j, w) ∷ m) p a = elim (split (o.cmp k j)) [
    | is_lt e ↦ rw e (p, a)
    | is_eq e ↦ rw e (p, a.1)
    | is_gt e ↦ rw e (a.0, All-insert P k v m p a.1)
  ]

  pub All-remove : (P : K × V → Type 0) (k : K) (m : BTreeMap K V) → All P m → All P (remove k m)
  unfolding remove
  All-remove P k [] a = tt
  All-remove P k ((j, w) ∷ m) a = elim (split (o.cmp k j)) [
    | is_lt e ↦ rw e (a.0, All-remove P k m a.1)
    | is_eq e ↦ rw e (All-remove P k m a.1)
    | is_gt e ↦ rw e (a.0, All-remove P k m a.1)
  ]

  pub All-get :
      (P : K × V → Type 0) (k : K) (m : BTreeMap K V) {v : V}
      → All P m
      → get k m ≡ some v
      → P (k, v)
  unfolding get
  All-get P k [] a h = cc
  All-get P k ((j, w) ∷ m) {v} a h = elim (split (o.cmp k j)) [
    | is_lt e ↦ All-get P k m a.1 (rw e at h)
    | is_eq e ↦
        let same : some w ≡ some v = rw e at h in
        rw (o.eq_of_cmp k j e) (rw (← some-injective _ _ same) a.0)
    | is_gt e ↦ All-get P k m a.1 (rw e at h)
  ]

  -- The two laws of lookup as one equation each, on every pair of keys.
  pub get-insert :
      (k j : K) (v : V) (m : BTreeMap K V)
      → get j (insert k v m) ≡ (if is_eqb (o.cmp j k) then some v else get j m)
  get-insert k j v m = elim (split (o.cmp j k)) [
    | is_lt e ↦ rw e (get-insert_ne k j v m (rw e))
    | is_eq e ↦ rw e (rw (o.eq_of_cmp j k e) (get-insert_self k v m))
    | is_gt e ↦ rw e (get-insert_ne k j v m (rw e))
  ]

  pub get-remove :
      (k j : K) (m : BTreeMap K V)
      → get j (remove k m) ≡ (if is_eqb (o.cmp j k) then none else get j m)
  get-remove k j m = elim (split (o.cmp j k)) [
    | is_lt e ↦ rw e (get-remove_ne k j m (rw e))
    | is_eq e ↦ rw e (rw (o.eq_of_cmp j k e) (get-remove_self k m))
    | is_gt e ↦ rw e (get-remove_ne k j m (rw e))
  ]
