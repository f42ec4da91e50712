-- ===== src/Base/Outcomes.antt =====
-- What a call that may panic comes to, with the operators that a `do` block uses.
use mathlib.Core.Path.{◌≡◌, refl}
use mathlib.Core.Logic.{◌⊎◌, inl, inr}
use mathlib.Core.Bool.{Bool, true, false}
use mathlib.Core.Option.{Option, none, some}

pub data Outcome {ℓ κ} (E : Type ℓ) (A : Type κ) : Type (ℓ ⊔ κ) where
  done : A → Outcome E A
  failed : E → Outcome E A
  panicked : Outcome E A

module _ {ℓ} {E : Type ℓ} where
  infixl 5 ◌>>=◌ ◌>>◌
  abbrev pub ◌>>=◌ {κ μ} : {A : Type κ} {B : Type μ} → Outcome E A → (A → Outcome E B) → Outcome E B
  done a >>= f = f a
  failed e >>= f = failed e
  panicked >>= f = panicked

  abbrev pub ◌>>◌ {κ} : {B : Type κ} → Outcome E (Unit {0}) → Outcome E B → Outcome E B
  m >> k = m >>= λ _. k

  -- `if test { return Err(e); }`
  abbrev pub refuse : Bool → E → Outcome E (Unit {0})
  refuse true e = failed e
  refuse false e = done tt

  -- An index or an `expect` that panics on none.
  abbrev pub or_panic {κ} : {A : Type κ} → Option A → Outcome E A
  or_panic none = panicked
  or_panic (some a) = done a

  -- `ok_or`.
  abbrev pub or_fail {κ} : {A : Type κ} → Option A → E → Outcome E A
  or_fail none e = failed e
  or_fail (some a) e = done a

-- It fails, or it returns a value that satisfies `P`. It does not panic.
abbrev pub Returns {ℓ κ} : {E : Type ℓ} {A : Type κ} → (A → Type 0) → Outcome E A → Type 0
Returns P (done a) = P a
Returns P (failed e) = Unit
Returns P panicked = ⊥

pub Outcome-cases {ℓ κ} :
    {E : Type ℓ} {A : Type κ} (m : Outcome E A)
    → ((a : A) × (m ≡ done a)) ⊎ ((e : E) × (m ≡ failed e)) ⊎ (m ≡ panicked)
Outcome-cases (done a) = inl (a, refl)
Outcome-cases (failed e) = inr (inl (e, refl))
Outcome-cases panicked = inr (inr refl)

pub Returns_mono {ℓ κ} :
    {E : Type ℓ} {A : Type κ} {P Q : A → Type 0} (m : Outcome E A)
    → ((a : A) → P a → Q a)
    → Returns P m
    → Returns Q m
Returns_mono (done a) f p = f a p
Returns_mono (failed e) f p = tt
Returns_mono panicked f p = absurd p
