-- ===== src/Plugins/Tests.antt =====
-- Runs of the plugin runtime with plugins that record how often they were initialized.
use aeryon.Base.{
  ℕ, ◌+◌, ◌≡◌, refl, Bool, true, false, some, List, [], ◌∷◌, ok, err, All, if◌then◌else◌,
}
use aeryon.Base.Text.{Str, codes, cmp_bytes}
use aeryon.Plugins.Types.{
  Plugin, lifecycle, initialization_failed, running, failed, healthy, sensor, LifecycleState,
  LifecycleError,
}
use aeryon.Base.BTreeMap
use aeryon.Plugins.Registry
use aeryon.Plugins.Registry.{PluginRegistry, lookup, contains}
use aeryon.Plugins.Registry.Laws.{unregister-register, same_id}
use aeryon.Plugins.Runtime
use aeryon.Plugins.Runtime.{PluginRuntime, state_of, start, stop}
use aeryon.Plugins.Runtime.Invariant.{IsConsistent}
use aeryon.Plugins.Runtime.Commands.{Command, register_plugin, start_plugin, run, run-IsConsistent}
use aeryon.Plugins.Runtime.Lifecycle.{
  start_effect, stop_effect, start_table, stop_table, initializes, shuts_down,
}
use aeryon.Plugins.Loader.{PluginLoader, load_into, factory_count}
use aeryon.Plugins.Loader.Laws.{Keeps, Loaded, load_into_effect}

record Probe : Type 0 where
  name : Str
  works : Bool
  starts : ℕ

instance abbrev probe_plugin : Plugin Probe
probe_plugin = record {
  id = λ p. p.name;
  name = λ p. p.name;
  version = λ p. record { major = 0; minor = 1; patch = 0 };
  description = λ p. [];
  author = λ p. [];
  capabilities = λ p. sensor ∷ [];
  initialize = λ p. (
    record p { starts = p.starts + 1 },
    if p.works then ok tt else err (lifecycle (initialization_failed p.name)),
  );
  shutdown = λ p. (p, ok tt);
  health = λ p. healthy;
}

abbrev replay : Probe
replay = record { name = codes "replay"; works = true; starts = 0 }

abbrev broken : Probe
broken = record { name = codes "broken"; works = false; starts = 0 }

abbrev commands : List (Command Probe)
commands =
    register_plugin replay
    ∷ register_plugin broken
    ∷ start_plugin (codes "replay")
    ∷ start_plugin (codes "broken")
    ∷ register_plugin replay
    ∷ []

abbrev started : PluginRuntime Probe
started = run commands Runtime.new

abbrev registered_both : PluginRuntime Probe
registered_both = run (register_plugin replay ∷ register_plugin broken ∷ []) Runtime.new

started_states :
    (state_of (codes "replay") started ≡ some running)
    × (state_of (codes "broken") started ≡ some failed)
    × ((stop (codes "broken") started).1
        ≡ err (
            lifecycle
              (LifecycleError.invalid_transition (codes "broken") failed LifecycleState.stopped)))
unfolding Runtime.state_of Runtime.stop Runtime.stop_from Runtime.start Runtime.start_from
    Runtime.register Runtime.initialize_plugin Runtime.new Registry.new Registry.register
    Registry.lookup Registry.put_back BTreeMap.get BTreeMap.contains_key BTreeMap.insert cmp_bytes
started_states = (refl, refl, refl)

run-IsConsistent_example : IsConsistent started
run-IsConsistent_example = run-IsConsistent commands

start_effect_example :
    (start_table
        (codes "broken")
        (initializes (codes "broken") registered_both)
        (state_of (codes "broken") registered_both)
      ≡ (
        state_of (codes "broken") (start (codes "broken") registered_both).0,
        (start (codes "broken") registered_both).1,
      ))
    × (same_id (codes "replay") (codes "broken") ≡ false
        → state_of (codes "replay") (start (codes "broken") registered_both).0
          ≡ state_of (codes "replay") registered_both)
start_effect_example =
    start_effect (codes "broken") (codes "replay") registered_both
      (run-IsConsistent (register_plugin replay ∷ register_plugin broken ∷ []))

stop_effect_example :
    (stop_table
        (codes "replay")
        (shuts_down (codes "replay") started)
        (state_of (codes "replay") started)
      ≡ (
        state_of (codes "replay") (stop (codes "replay") started).0,
        (stop (codes "replay") started).1,
      ))
    × (same_id (codes "broken") (codes "replay") ≡ false
        → state_of (codes "broken") (stop (codes "replay") started).0
          ≡ state_of (codes "broken") started)
stop_effect_example =
    stop_effect (codes "replay") (codes "broken") started (run-IsConsistent commands)

replay_is_new : contains (codes "replay") (Registry.new {P = Probe}) ≡ false
unfolding Registry.contains Registry.new BTreeMap.contains_key
replay_is_new = refl

unregister-register_example :
    Registry.unregister (codes "replay") (Registry.register replay Registry.new).0
    ≡ (Registry.new, ok replay)
unregister-register_example = unregister-register replay Registry.new replay_is_new

abbrev loader : PluginLoader Probe
loader = record {
  factories =
      record { plugin_id = codes "replay"; create = ok replay }
      ∷ record { plugin_id = codes "broken"; create = ok broken }
      ∷ [];
}

load_into_effect_example :
    Keeps (Registry.new {P = Probe}) (load_into loader Registry.new).0
    × ((n : ℕ)
        → (load_into loader Registry.new).1 ≡ ok n
        → (n ≡ factory_count loader)
          × All (Loaded (load_into loader Registry.new).0) loader.factories)
load_into_effect_example = load_into_effect loader Registry.new
