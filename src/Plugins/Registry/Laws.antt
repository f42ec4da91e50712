-- ===== src/Plugins/Registry/Laws.antt =====
-- What the registry's operations do to lookups, and the invariant that they keep.
use aeryon.Base.{
  ◌≡◌, refl, Bool, true, false, not, ◌&&◌, none, some, ok, err, All, if◌then◌else◌, Bool-cases,
  Option-cases, inl, inr, arith, is_some,
}
use aeryon.Base.BTreeMap
use aeryon.Base.BTreeMap.{BTreeMap, is_eqb, Ord}
use aeryon.Base.Text.{str_ord, cmp_bytes, eq_of_cmp_bytes}
use aeryon.Plugins.Types.{Plugin, PluginId, RegistryError, duplicate_plugin_id}
use aeryon.Plugins.Registry.{
  PluginEntry, PluginRegistry, metadata_of, register, unregister, lookup, put_back, contains,
}

-- Equality of plugin identifiers.
abbrev pub same_id : PluginId → PluginId → Bool
same_id i j = is_eqb (cmp_bytes i j)

pub same_id→eq : (i j : PluginId) → same_id i j ≡ true → i ≡ j
same_id→eq i j h = eq_of_cmp_bytes i j (ground arith)

module _ {P : Type 0} where
  -- The keys rise strictly, and each is the identifier in its entry's metadata.
  pub record IsWellFormed (r : PluginRegistry P) : Type 0 where
    pub sorted : BTreeMap.IsSorted r.plugins
    pub keyed : All (λ e. e.1.metadata.id ≡ e.0) r.plugins

  -- `contains` holds just of the identifiers that `lookup` finds.
  pub contains-eq-lookup :
      (id : PluginId) (r : PluginRegistry P) → contains id r ≡ is_some (lookup id r)
  unfolding contains lookup BTreeMap.contains_key
  contains-eq-lookup id r = ground arith

  -- After `unregister id`, `id` is not found, every other lookup is unchanged, and the result is the
  -- plugin that was found before, or the error that it was not.
  pub unregister_effect :
      (id j : PluginId) (r : PluginRegistry P)
      → (lookup j (unregister id r).0 ≡ (if same_id j id then none else lookup j r))
        × ((unregister id r).1
            ≡ elim (lookup id r) [ none ↦ err (RegistryError.plugin_not_found id) | some p ↦ ok p ])
  unfolding unregister lookup
  unregister_effect id j r = ground (arith, BTreeMap.get-remove id j r.plugins, same_id→eq j id)

module _ {P : Type 0} ⦃v : Plugin P⦄ where
  -- `register p` succeeds just if `p`'s identifier is new. Then that identifier finds `p`; every other
  -- lookup is unchanged. On a duplicate the registry is unchanged.
  pub register_effect :
      (p : P) (j : PluginId) (r : PluginRegistry P)
      → let (r', result) = register p r in
        let known = contains (v.id p) r in
        (result ≡ (if known then err (duplicate_plugin_id (v.id p)) else ok tt))
        × (lookup j r' ≡ (if not known && same_id j (v.id p) then some p else lookup j r))
        × (known ≡ true → r' ≡ r)
  unfolding register lookup contains
  register_effect p j r = ground (
    arith,
    BTreeMap.get-insert (v.id p) j (record { metadata = metadata_of p; plugin = p }) r.plugins,
  )

  -- Registering a new plugin and unregistering it gives the plugin and the first registry back.
  pub unregister-register :
      (p : P) (r : PluginRegistry P)
      → contains (v.id p) r ≡ false
      → unregister (v.id p) (register p r).0 ≡ (r, ok p)
  unfolding unregister register contains
  unregister-register p r h = ground (
    arith,
    BTreeMap.remove-insert (v.id p) (record { metadata = metadata_of p; plugin = p }) r.plugins,
    BTreeMap.get-insert_self (v.id p) (record { metadata = metadata_of p; plugin = p }) r.plugins,
  )

  -- Registration keeps the registry well-formed.
  pub register-IsWellFormed :
      (p : P) (r : PluginRegistry P) → IsWellFormed r → IsWellFormed (register p r).0
  unfolding register
  register-IsWellFormed p r w = elim (Bool-cases (BTreeMap.contains_key (v.id p) r.plugins)) [
    | inl e ↦ rw e w
    | inr e ↦ rw e (record {
      sorted = BTreeMap.insert-IsSorted _ _ r.plugins w.sorted;
      keyed = unfold metadata_of in BTreeMap.All-insert _ _ _ r.plugins refl w.keyed;
    })
  ]

module _ {P : Type 0} where
  -- Removal keeps the registry well-formed.
  pub unregister-IsWellFormed :
      (id : PluginId) (r : PluginRegistry P) → IsWellFormed r → IsWellFormed (unregister id r).0
  unfolding unregister
  unregister-IsWellFormed id r w = elim (Option-cases (BTreeMap.get id r.plugins)) [
    | inl e ↦ rw (e, unregister) w
    | inr (entry, e) ↦
        rw (e, unregister)
          (record {
            sorted = BTreeMap.remove-IsSorted id r.plugins w.sorted;
            keyed = BTreeMap.All-remove _ id r.plugins w.keyed;
          })
  ]

  -- A plugin that is changed through `lookup_mut` is found at its identifier; every other lookup, the
  -- identifiers that are known, and well-formedness are unchanged.
  pub put_back_effect :
      (id j : PluginId) (p : P) (r : PluginRegistry P)
      → (lookup j (put_back id p r)
          ≡ (if same_id j id && contains id r then some p else lookup j r))
        × (contains j (put_back id p r) ≡ contains j r)
  unfolding put_back lookup contains BTreeMap.contains_key
  put_back_effect id j p r = elim (Option-cases (BTreeMap.get id r.plugins)) [
    | inl e ↦ rw e (ground arith)
    | inr (entry, e) ↦
        let w : PluginEntry P = record entry { plugin = p } in
        rw e (ground (arith, BTreeMap.get-insert id j w r.plugins, same_id→eq j id))
  ]

  pub put_back-IsWellFormed :
      (id : PluginId) (p : P) (r : PluginRegistry P)
      → IsWellFormed r
      → IsWellFormed (put_back id p r)
  unfolding put_back
  put_back-IsWellFormed id p r w = elim (Option-cases (BTreeMap.get id r.plugins)) [
    | inl e ↦ rw (e, put_back) w
    | inr (entry, e) ↦
        rw (e, put_back)
          (record {
            sorted = BTreeMap.insert-IsSorted _ _ r.plugins w.sorted;
            keyed =
                BTreeMap.All-insert _ _ _ r.plugins
                  (BTreeMap.All-get (λ e. e.1.metadata.id ≡ e.0) id r.plugins w.keyed e) w.keyed;
          })
  ]
