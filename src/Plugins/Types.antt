-- ===== src/Plugins/Types.antt =====
-- core/plugin-runtime/src/{plugin,capability,metadata,errors}.rs.
use aeryon.Base.{ℕ, List, Bool, true, false, Result}
use aeryon.Base.Text.{Str}

-- `PluginId` and the string that it wraps.
abbrev pub PluginId : Type 0
PluginId = Str

pub data LifecycleState : Type 0 where
  registered initialized running stopped failed : LifecycleState

pub data HealthStatus : Type 0 where
  healthy degraded unhealthy : HealthStatus

pub data Capability : Type 0 where
  sensor calibration dsp feature_extraction inference visualization : Capability
  storage exporter importer configuration logging : Capability

pub Capability-discrete : Discrete Capability
Capability-discrete = hlevel

abbrev pub eq_capability : Capability → Capability → Bool
unfolding Capability-discrete
eq_capability c d = elim (Capability-discrete c d) [ yes _ ↦ true | no _ ↦ false ]

pub record Version : Type 0 where
  pub major : ℕ
  pub minor : ℕ
  pub patch : ℕ

pub record PluginMetadata : Type 0 where
  pub id : PluginId
  pub name : Str
  pub version : Version
  pub description : Str
  pub author : Str
  pub capabilities : List Capability

pub data FactoryError : Type 0 where
  empty_factory : FactoryError
  id_mismatch : (expected actual : PluginId) → FactoryError

pub data RegistryError : Type 0 where
  duplicate_plugin_id : PluginId → RegistryError
  plugin_not_found : PluginId → RegistryError

pub data LoadError : Type 0 where
  factory : (index : ℕ) → FactoryError → LoadError
  registration : PluginId → RegistryError → LoadError

pub data LifecycleError : Type 0 where
  plugin_not_found : PluginId → LifecycleError
  invalid_transition : (plugin_id : PluginId) (before after : LifecycleState) → LifecycleError
  initialization_failed : PluginId → LifecycleError
  shutdown_failed : PluginId → LifecycleError

pub data PluginError : Type 0 where
  registry : RegistryError → PluginError
  load : LoadError → PluginError
  lifecycle : LifecycleError → PluginError

-- The trait `Plugin`: the methods of a plugin whose own state is a value of `P`. A method with
-- `&mut self` returns the state that it leaves.
pub record Plugin (P : Type 0) : Type 0 where
  pub id : P → PluginId
  pub name : P → Str
  pub version : P → Version
  pub description : P → Str
  pub author : P → Str
  pub capabilities : P → List Capability
  pub initialize : P → P × Result PluginError (Unit {0})
  pub shutdown : P → P × Result PluginError (Unit {0})
  pub health : P → HealthStatus
