-- ===== src/Plugins/Runtime.antt =====
-- `PluginRuntime` of core/plugin-runtime/src/runtime.rs: the registry, and the state of each plugin in
-- its lifecycle. A method with `&mut self` returns the runtime that it leaves, also with an error.
pub mod Invariant
pub mod Commands
pub mod Lifecycle
use aeryon.Base.{Option, none, some, List, [], ◌∷◌, Result, ok, err}
use aeryon.Base.BTreeMap
use aeryon.Base.BTreeMap.{BTreeMap}
use aeryon.Base.Text.{str_ord}
use aeryon.Plugins.Types.{
  Plugin, PluginId, PluginMetadata, PluginError, registry, lifecycle, LifecycleError,
  invalid_transition, initialization_failed, shutdown_failed, LifecycleState, registered,
  initialized, running, stopped, failed, HealthStatus,
}
use aeryon.Plugins.Registry
use aeryon.Plugins.Registry.{PluginRegistry}

pub record PluginRuntime (P : Type 0) : Type 0 where
  pub registry : PluginRegistry P
  pub states : BTreeMap PluginId LifecycleState

abbrev pub Outcome : Type 0 → Type 0
Outcome P = PluginRuntime P × Result PluginError (Unit {0})

abbrev pub not_found : PluginId → PluginError
not_found id = lifecycle (LifecycleError.plugin_not_found id)

unfoldable pub collect_states :
    BTreeMap PluginId LifecycleState → List PluginMetadata → BTreeMap PluginId LifecycleState
collect_states states [] = states
collect_states states (m ∷ ms) = collect_states (BTreeMap.insert m.id registered states) ms

module _ {P : Type 0} where
  unfoldable pub new : PluginRuntime P
  unfolding Registry.new
  new = record { registry = Registry.new; states = [] }

  unfoldable pub state_of : PluginId → PluginRuntime P → Option LifecycleState
  state_of id rt = BTreeMap.get id rt.states

  abbrev pub set_state : PluginId → LifecycleState → PluginRuntime P → PluginRuntime P
  set_state id s rt = record rt { states = BTreeMap.insert id s rt.states }

  -- The last two statements of `unregister`.
  unfoldable pub forget : PluginId → PluginRuntime P → Outcome P
  forget id rt =
      let (r, result) = Registry.unregister id rt.registry in
      elim result [
        | ok plugin ↦ (record { registry = r; states = BTreeMap.remove id rt.states }, ok tt)
        | err e ↦ (record rt { registry = r }, err (registry e))
      ]

  lifecycle_snapshot : PluginRuntime P → List (PluginId × LifecycleState)
  lifecycle_snapshot rt = rt.states

  -- `PluginRuntime::from`: every plugin of the registry starts as registered.
  unfoldable pub from_registry : PluginRegistry P → PluginRuntime P
  from_registry r = record { registry = r; states = collect_states [] (Registry.list r) }

module _ {P : Type 0} ⦃v : Plugin P⦄ where
  unfoldable pub register : P → PluginRuntime P → Outcome P
  register p rt =
      let (r, result) = Registry.register p rt.registry in
      let rt' : PluginRuntime P = record rt { registry = r } in
      elim result [
        | ok _ ↦ (set_state (v.id p) registered rt', ok tt)
        | err e ↦ (rt', err (registry e))
      ]

  -- The branch of `start` for a plugin that is registered or stopped.
  unfoldable pub initialize_plugin : PluginId → PluginRuntime P → Outcome P
  initialize_plugin id rt = elim (Registry.lookup id rt.registry) [
    | none ↦ (rt, err (not_found id))
    | some p ↦
        let (p', result) = v.initialize p in
        let rt' : PluginRuntime P = record rt { registry = Registry.put_back id p' rt.registry } in
        elim result [
          | ok _ ↦ (set_state id running rt', ok tt)
          | err _ ↦ (set_state id failed rt', err (lifecycle (initialization_failed id)))
        ]
  ]

  unfoldable pub start_from : LifecycleState → PluginId → PluginRuntime P → Outcome P
  start_from registered id rt = initialize_plugin id rt
  start_from stopped id rt = initialize_plugin id rt
  start_from running id rt = (rt, ok tt)
  start_from initialized id rt = (set_state id running rt, ok tt)
  start_from failed id rt = (rt, err (lifecycle (invalid_transition id failed running)))

  unfoldable pub start : PluginId → PluginRuntime P → Outcome P
  start id rt = elim (state_of id rt) [
    | none ↦ (rt, err (not_found id))
    | some state ↦ start_from state id rt
  ]

  -- The branch of `stop` for a plugin that is running or initialized.
  unfoldable pub shutdown_plugin : PluginId → PluginRuntime P → Outcome P
  shutdown_plugin id rt = elim (Registry.lookup id rt.registry) [
    | none ↦ (rt, err (not_found id))
    | some p ↦
        let (p', result) = v.shutdown p in
        let rt' : PluginRuntime P = record rt { registry = Registry.put_back id p' rt.registry } in
        elim result [
          | ok _ ↦ (set_state id stopped rt', ok tt)
          | err _ ↦ (set_state id failed rt', err (lifecycle (shutdown_failed id)))
        ]
  ]

  unfoldable pub stop_from : LifecycleState → PluginId → PluginRuntime P → Outcome P
  stop_from running id rt = shutdown_plugin id rt
  stop_from initialized id rt = shutdown_plugin id rt
  stop_from stopped id rt = (rt, ok tt)
  stop_from registered id rt = (rt, ok tt)
  stop_from failed id rt = (rt, err (lifecycle (invalid_transition id failed stopped)))

  unfoldable pub stop : PluginId → PluginRuntime P → Outcome P
  stop id rt = elim (state_of id rt) [
    | none ↦ (rt, err (not_found id))
    | some state ↦ stop_from state id rt
  ]

  -- `unregister` stops an initialized plugin first, and leaves with the error of `stop`.
  unfoldable pub stop_then_forget : PluginId → PluginRuntime P → Outcome P
  stop_then_forget id rt =
      let (rt', result) = stop id rt in elim result [ ok _ ↦ forget id rt' | err e ↦ (rt', err e) ]

  unfoldable pub unregister_from : LifecycleState → PluginId → PluginRuntime P → Outcome P
  unregister_from running id rt = (rt, err (lifecycle (invalid_transition id running registered)))
  unregister_from initialized id rt = stop_then_forget id rt
  unregister_from registered id rt = forget id rt
  unregister_from stopped id rt = forget id rt
  unregister_from failed id rt = forget id rt

  unfoldable pub unregister : PluginId → PluginRuntime P → Outcome P
  unregister id rt = elim (state_of id rt) [
    | none ↦ (rt, err (not_found id))
    | some state ↦ unregister_from state id rt
  ]

  unfoldable pub health : PluginId → PluginRuntime P → Result PluginError HealthStatus
  health id rt = elim (Registry.lookup id rt.registry) [
    | none ↦ err (not_found id)
    | some p ↦ ok (v.health p)
  ]
