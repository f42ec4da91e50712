-- ===== src/Plugins/Loader/Laws.antt =====
-- What loading does to the registry.
use aeryon.Base.{
  ℕ, ◌+◌, ◌≡◌, sym, some, List, [], ◌∷◌, ok, err, length, All, list_eq→eq, arith, inl, inr,
  Result-cases,
}
use mathlib.Core.Path.{subst}
use aeryon.Base.Text.{cmp_bytes_refl}
use aeryon.Plugins.Types.{Plugin, PluginId, LoadError}
use aeryon.Plugins.Registry
use aeryon.Plugins.Registry.{PluginRegistry}
use aeryon.Plugins.Registry.Laws as RegistryLaws
use aeryon.Plugins.Registry.Laws.{same_id, same_id→eq}
use aeryon.Plugins.Loader.{
  PluginFactory, PluginLoader, load_one, load_from, load_into, factory_count,
}

module _ {P : Type 0} ⦃v : Plugin P⦄ where
  -- The plugin that the factory creates is the one found at the identifier that it announces.
  abbrev pub Loaded : PluginRegistry P → PluginFactory P → Type 0
  Loaded r f = (p : P) × (f.create ≡ ok p) × (Registry.lookup f.plugin_id r ≡ some p)

  -- Every plugin that is known before is found after, unchanged.
  abbrev pub Keeps : PluginRegistry P → PluginRegistry P → Type 0
  Keeps r r' = (j : PluginId) (q : P) → Registry.lookup j r ≡ some q → Registry.lookup j r' ≡ some q

  load_one-Keeps :
      (index : ℕ) (f : PluginFactory P) (r : PluginRegistry P) → Keeps r (load_one index f r).0
  unfolding load_one
  load_one-Keeps index f r j q h = elim (Result-cases f.create) [
    | inl (p, e) ↦
        rw (e, load_one)
          (ground (
            arith,
            RegistryLaws.register_effect p j r,
            RegistryLaws.contains-eq-lookup j r,
            same_id→eq j (v.id p),
          ))
    | inr (x, e) ↦ rw (e, load_one) h
  ]

  load_one-Loaded :
      (index : ℕ) (f : PluginFactory P) (r : PluginRegistry P)
      → (load_one index f r).1 ≡ ok tt
      → Loaded (load_one index f r).0 f
  unfolding load_one
  load_one-Loaded index f r h = elim (Result-cases f.create) [
    | inl (p, e) ↦ (
      p,
      e,
      ground (
        arith,
        RegistryLaws.register_effect p (v.id p) r,
        list_eq→eq (v.id p) f.plugin_id,
        cmp_bytes_refl (v.id p),
      ),
    )
    | inr (x, e) ↦ ground arith
  ]

  load_from-Keeps :
      (index n : ℕ) (fs : List (PluginFactory P)) (r : PluginRegistry P)
      → Keeps r (load_from index n fs r).0
  unfolding load_from
  load_from-Keeps index n [] r j q h = h
  load_from-Keeps index n (f ∷ fs) r j q h =
      let (r', result) = load_one index f r in
      let kept = load_one-Keeps index f r j q h in
      elim (Result-cases (load_one index f r).1) [
        | inl (u, e) ↦ rw (e, load_from) (load_from-Keeps (index + 1) (n + 1) fs r' j q kept)
        | inr (x, e) ↦ rw (e, load_from) kept
      ]

  load_from_step :
      (index n : ℕ) (f : PluginFactory P) (fs : List (PluginFactory P)) (r : PluginRegistry P)
      → (load_one index f r).1 ≡ ok tt
      → load_from index n (f ∷ fs) r ≡ load_from (index + 1) (n + 1) fs (load_one index f r).0
  unfolding load_from
  load_from_step index n f fs r e = rw (e, load_from)

  load_from_stop :
      (index n : ℕ) (f : PluginFactory P) (fs : List (PluginFactory P)) (r : PluginRegistry P)
      {x : LoadError}
      → (load_one index f r).1 ≡ err x
      → load_from index n (f ∷ fs) r ≡ ((load_one index f r).0, err x)
  unfolding load_from
  load_from_stop index n f fs r e = rw (e, load_from)

  load_from-Loaded :
      (index n total : ℕ) (fs : List (PluginFactory P)) (r : PluginRegistry P)
      → (load_from index n fs r).1 ≡ ok total
      → (total ≡ n + length fs) × All (Loaded (load_from index n fs r).0) fs
  load_from-Loaded index n total [] r h = unfold load_from in (ground arith, tt)
  load_from-Loaded index n total (f ∷ fs) r h = elim (Result-cases (load_one index f r).1) [
    | inl (u, e) ↦
        let r' : PluginRegistry P = (load_one index f r).0 in
        let step = load_from_step index n f fs r e in
        let rest = load_from-Loaded (index + 1) (n + 1) total fs r' (rw step at h) in
        let (p, made, there) = load_one-Loaded index f r e in
        let kept = load_from-Keeps (index + 1) (n + 1) fs r' f.plugin_id p there in
        subst (λ out. (total ≡ n + length (f ∷ fs)) × All (Loaded out.0) (f ∷ fs)) (sym step)
          (omega arith, ((p, made, kept), rest.1))
    | inr (x, e) ↦
        let impossible : err x ≡ ok total = rw (load_from_stop index n f fs r e) at h in cc
  ]

  -- Loading never takes a plugin away: also where it fails, every plugin that the registry had is
  -- found as before. If it returns `n`, then `n` is the number of factories, and each factory made a
  -- plugin that is now found at the identifier that the factory announces.
  pub load_into_effect :
      (l : PluginLoader P) (r : PluginRegistry P)
      → Keeps r (load_into l r).0
        × ((n : ℕ)
            → (load_into l r).1 ≡ ok n
            → (n ≡ factory_count l) × All (Loaded (load_into l r).0) l.factories)
  unfolding load_into factory_count
  load_into_effect l r = (
    load_from-Keeps 0 0 l.factories r,
    λ n h. let (count, loaded) = load_from-Loaded 0 0 n l.factories r h in (omega arith, loaded),
  )
