-- ===== src/Plugins/Loader.antt =====
-- `PluginLoader` of core/plugin-runtime/src/loader.rs.
pub mod Laws
use aeryon.Base.{
  ℕ, ◌+◌, Bool, true, false, not, List, [], ◌∷◌, ◌++◌, Result, ok, err, length, if◌then◌else◌,
  list_eq,
}
use aeryon.Plugins.Types.{
  Plugin, PluginId, FactoryError, id_mismatch, RegistryError, duplicate_plugin_id, plugin_not_found,
  LoadError, factory, registration,
}
use aeryon.Plugins.Registry
use aeryon.Plugins.Registry.{PluginRegistry}

-- The trait `PluginFactory`: the identifier that a factory announces, and what `create` returns.
pub record PluginFactory (P : Type 0) : Type 0 where
  pub plugin_id : PluginId
  pub create : Result FactoryError P

pub record PluginLoader (P : Type 0) : Type 0 where
  pub factories : List (PluginFactory P)

unfoldable pub id_of : RegistryError → PluginId
id_of (duplicate_plugin_id id) = id
id_of (RegistryError.plugin_not_found id) = id

module _ {P : Type 0} where
  unfoldable pub new : PluginLoader P
  new = record { factories = [] }

  unfoldable pub register_factory : PluginFactory P → PluginLoader P → PluginLoader P
  register_factory f l = record { factories = l.factories ++ (f ∷ []) }

  unfoldable pub factory_count : PluginLoader P → ℕ
  factory_count l = length l.factories

module _ {P : Type 0} ⦃v : Plugin P⦄ where
  -- One round of the loop: the registry that it leaves, and the error that ends the loop, if any.
  unfoldable pub load_one :
      ℕ → PluginFactory P → PluginRegistry P → PluginRegistry P × Result LoadError (Unit {0})
  unfolding id_of
  load_one index f r = elim f.create [
    | err source ↦ (r, err (factory index source))
    | ok plugin ↦
        let (r', result) = Registry.register plugin r in
        if not (list_eq (v.id plugin) f.plugin_id)
        then (r, err (factory index (id_mismatch f.plugin_id (v.id plugin))))
        else (
          r',
          elim result [ ok _ ↦ ok tt | err source ↦ err (registration (id_of source) source) ],
        )
  ]

  -- The loop of `load_into` from the factory at `index` on.
  unfoldable pub load_from :
      (index loaded : ℕ)
      → List (PluginFactory P)
      → PluginRegistry P
      → PluginRegistry P × Result LoadError ℕ
  load_from index loaded [] r = (r, ok loaded)
  load_from index loaded (f ∷ fs) r =
      let (r', result) = load_one index f r in
      let rest = load_from (index + 1) (loaded + 1) fs r' in
      elim result [ ok _ ↦ rest | err e ↦ (r', err e) ]

  unfoldable pub load_into :
      PluginLoader P → PluginRegistry P → PluginRegistry P × Result LoadError ℕ
  load_into l r = load_from 0 0 l.factories r
