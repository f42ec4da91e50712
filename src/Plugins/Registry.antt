-- ===== src/Plugins/Registry.antt =====
-- `PluginRegistry` of core/plugin-runtime/src/registry.rs. A method with `&mut self` returns the
-- registry that it leaves, with its result.
pub mod Laws
use aeryon.Base.{
  ℕ, Bool, true, false, Option, none, some, List, [], ◌∷◌, map, Result, ok, err, length,
  if◌then◌else◌, ◌||◌, ◌==◌,
}
use aeryon.Base.BTreeMap
use aeryon.Base.BTreeMap.{BTreeMap}
use aeryon.Base.Text.{Str, str_ord}
use aeryon.Plugins.Types.{
  Plugin, PluginId, PluginMetadata, Capability, eq_capability, RegistryError, duplicate_plugin_id,
}

pub record PluginEntry (P : Type 0) : Type 0 where
  pub metadata : PluginMetadata
  pub plugin : P

pub record PluginRegistry (P : Type 0) : Type 0 where
  pub plugins : BTreeMap PluginId (PluginEntry P)

abbrev pub contains_capability : Capability → List Capability → Bool
contains_capability c [] = false
contains_capability c (d ∷ ds) = eq_capability d c || contains_capability c ds

module _ {P : Type 0} where
  unfoldable pub new : PluginRegistry P
  new = record { plugins = [] }

  unfoldable pub unregister :
      PluginId → PluginRegistry P → PluginRegistry P × Result RegistryError P
  unregister id r = elim (BTreeMap.get id r.plugins) [
    | none ↦ (r, err (RegistryError.plugin_not_found id))
    | some entry ↦ (record { plugins = BTreeMap.remove id r.plugins }, ok entry.plugin)
  ]

  unfoldable pub lookup : PluginId → PluginRegistry P → Option P
  lookup id r = elim (BTreeMap.get id r.plugins) [ none ↦ none | some entry ↦ some entry.plugin ]

  -- What the caller of `lookup_mut` leaves in the place of the plugin that it was lent.
  unfoldable pub put_back : PluginId → P → PluginRegistry P → PluginRegistry P
  put_back id p r = elim (BTreeMap.get id r.plugins) [
    | none ↦ r
    | some entry ↦ record { plugins = BTreeMap.insert id (record entry { plugin = p }) r.plugins }
  ]

  unfoldable pub list : PluginRegistry P → List PluginMetadata
  list r = map (λ entry. entry.1.metadata) r.plugins

  -- The entries that pass the filter, each mapped to its metadata.
  unfoldable pub providers : Capability → BTreeMap PluginId (PluginEntry P) → List PluginMetadata
  providers c [] = []
  providers c ((id, entry) ∷ m) =
      let rest = providers c m in
      if contains_capability c entry.metadata.capabilities then entry.metadata ∷ rest else rest

  unfoldable pub query_by_capability : Capability → PluginRegistry P → List PluginMetadata
  unfolding providers
  query_by_capability c r = providers c r.plugins

  unfoldable pub contains : PluginId → PluginRegistry P → Bool
  contains id r = BTreeMap.contains_key id r.plugins

  unfoldable pub len : PluginRegistry P → ℕ
  len r = length r.plugins

  unfoldable pub is_empty : PluginRegistry P → Bool
  unfolding len
  is_empty r = len r == 0

module _ {P : Type 0} ⦃v : Plugin P⦄ where
  unfoldable pub metadata_of : P → PluginMetadata
  metadata_of p = record {
    id = v.id p;
    name = v.name p;
    version = v.version p;
    description = v.description p;
    author = v.author p;
    capabilities = v.capabilities p;
  }

  unfoldable pub register :
      P → PluginRegistry P → PluginRegistry P × Result RegistryError (Unit {0})
  register p r =
      let id = v.id p in
      if BTreeMap.contains_key id r.plugins then (r, err (duplicate_plugin_id id)) else (
        record {
          plugins = BTreeMap.insert id (record { metadata = metadata_of p; plugin = p }) r.plugins;
        },
        ok tt,
      )
