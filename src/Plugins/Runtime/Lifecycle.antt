-- ===== src/Plugins/Runtime/Lifecycle.antt =====
-- The lifecycle diagram of a plugin, and that `start` and `stop` follow it.
use aeryon.Base.{
  ◌≡◌, Bool, true, false, Option, none, some, Result, ok, err, if◌then◌else◌, arith, is_some,
}
use aeryon.Base.BTreeMap
use aeryon.Base.Text.{str_ord}
use aeryon.Plugins.Types.{
  Plugin, PluginId, PluginError, lifecycle, invalid_transition, initialization_failed,
  shutdown_failed, LifecycleState, registered, initialized, running, stopped, failed,
}
use aeryon.Plugins.Registry
use aeryon.Plugins.Registry.Laws
use aeryon.Plugins.Registry.Laws.{same_id, same_id→eq}
use aeryon.Plugins.Runtime.{
  PluginRuntime, not_found, state_of, initialize_plugin, start_from, start, shutdown_plugin,
  stop_from, stop,
}
use aeryon.Plugins.Runtime.Invariant.{IsConsistent, state_of-set_state}

abbrev is_ok {ℓ κ} : {E : Type ℓ} {A : Type κ} → Result E A → Bool
is_ok (ok a) = true
is_ok (err e) = false

-- The state that `start` leaves a plugin in, and its result, by the state that it finds and by whether
-- the plugin's `initialize` succeeds.
abbrev pub start_table :
    PluginId → Bool → Option LifecycleState → Option LifecycleState × Result PluginError (Unit {0})
start_table id works none = (none, err (not_found id))
start_table id works (some running) = (some running, ok tt)
start_table id works (some initialized) = (some running, ok tt)
start_table id works (some failed) =
    (some failed, err (lifecycle (invalid_transition id failed running)))
start_table id true (some state) = (some running, ok tt)
start_table id false (some state) = (some failed, err (lifecycle (initialization_failed id)))

-- The same of `stop` and the plugin's `shutdown`.
abbrev pub stop_table :
    PluginId → Bool → Option LifecycleState → Option LifecycleState × Result PluginError (Unit {0})
stop_table id works none = (none, err (not_found id))
stop_table id works (some registered) = (some registered, ok tt)
stop_table id works (some stopped) = (some stopped, ok tt)
stop_table id works (some failed) =
    (some failed, err (lifecycle (invalid_transition id failed stopped)))
stop_table id true (some state) = (some stopped, ok tt)
stop_table id false (some state) = (some failed, err (lifecycle (shutdown_failed id)))

module _ {P : Type 0} ⦃v : Plugin P⦄ where
  abbrev pub initializes : PluginId → PluginRuntime P → Bool
  initializes id rt = elim (Registry.lookup id rt.registry) [
    | none ↦ false
    | some p ↦ is_ok (v.initialize p).1
  ]

  abbrev pub shuts_down : PluginId → PluginRuntime P → Bool
  shuts_down id rt = elim (Registry.lookup id rt.registry) [
    | none ↦ false
    | some p ↦ is_ok (v.shutdown p).1
  ]

  found :
      (id : PluginId) {s : LifecycleState} (rt : PluginRuntime P)
      → IsConsistent rt
      → state_of id rt ≡ some s
      → is_some (Registry.lookup id rt.registry) ≡ true
  found id rt c e = ground (arith, c.same_keys id, Laws.contains-eq-lookup id rt.registry)

  initialize_plugin_effect :
      (id j : PluginId) (rt : PluginRuntime P)
      → is_some (Registry.lookup id rt.registry) ≡ true
      → (state_of id (initialize_plugin id rt).0
          ≡ some (if initializes id rt then running else failed))
        × ((initialize_plugin id rt).1
            ≡ (if initializes id rt then ok tt else err (lifecycle (initialization_failed id))))
        × (same_id j id ≡ false → state_of j (initialize_plugin id rt).0 ≡ state_of j rt)
  unfolding initialize_plugin state_of
  initialize_plugin_effect id j rt known = ground (
    arith,
    BTreeMap.get-insert_self id running rt.states,
    BTreeMap.get-insert_self id failed rt.states,
    BTreeMap.get-insert id j running rt.states,
    BTreeMap.get-insert id j failed rt.states,
  )

  -- On a consistent runtime `start id` does what the table says to the plugin `id`, and leaves the
  -- states of all other plugins as they were.
  pub start_effect :
      (id j : PluginId) (rt : PluginRuntime P)
      → IsConsistent rt
      → (start_table id (initializes id rt) (state_of id rt)
          ≡ (state_of id (start id rt).0, (start id rt).1))
        × (same_id j id ≡ false → state_of j (start id rt).0 ≡ state_of j rt)
  unfolding start start_from
  start_effect id j rt c = ground (
    arith,
    initialize_plugin_effect id j rt,
    found id {s = registered} rt c,
    found id {s = stopped} rt c,
    found id {s = running} rt c,
    found id {s = initialized} rt c,
    c.settled id,
    state_of-set_state id id running rt,
    state_of-set_state id j running rt,
  )

  shutdown_plugin_effect :
      (id j : PluginId) (rt : PluginRuntime P)
      → is_some (Registry.lookup id rt.registry) ≡ true
      → (state_of id (shutdown_plugin id rt).0
          ≡ some (if shuts_down id rt then stopped else failed))
        × ((shutdown_plugin id rt).1
            ≡ (if shuts_down id rt then ok tt else err (lifecycle (shutdown_failed id))))
        × (same_id j id ≡ false → state_of j (shutdown_plugin id rt).0 ≡ state_of j rt)
  unfolding shutdown_plugin state_of
  shutdown_plugin_effect id j rt known = ground (
    arith,
    BTreeMap.get-insert_self id stopped rt.states,
    BTreeMap.get-insert_self id failed rt.states,
    BTreeMap.get-insert id j stopped rt.states,
    BTreeMap.get-insert id j failed rt.states,
  )

  -- On a consistent runtime `stop id` does what the table says to the plugin `id`, and leaves the
  -- states of all other plugins as they were.
  pub stop_effect :
      (id j : PluginId) (rt : PluginRuntime P)
      → IsConsistent rt
      → (stop_table id (shuts_down id rt) (state_of id rt)
          ≡ (state_of id (stop id rt).0, (stop id rt).1))
        × (same_id j id ≡ false → state_of j (stop id rt).0 ≡ state_of j rt)
  unfolding stop stop_from
  stop_effect id j rt c = ground (
    arith,
    shutdown_plugin_effect id j rt,
    found id {s = registered} rt c,
    found id {s = stopped} rt c,
    found id {s = running} rt c,
    found id {s = initialized} rt c,
    c.settled id,
    state_of-set_state id id running rt,
    state_of-set_state id j running rt,
  )
