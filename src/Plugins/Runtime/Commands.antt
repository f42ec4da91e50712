-- ===== src/Plugins/Runtime/Commands.antt =====
-- Any sequence of calls of the plugin runtime's four operations.
use aeryon.Base.{◌≡◌, some, Option-cases, inl, inr, List, [], ◌∷◌}
use aeryon.Plugins.Types.{
  Plugin, PluginId, LifecycleState, registered, initialized, running, stopped, failed,
}
use aeryon.Plugins.Runtime.{
  PluginRuntime, Outcome, new, state_of, register, start, stop_from, stop, unregister_from,
  unregister,
}
use aeryon.Plugins.Runtime.Invariant.{
  IsConsistent, new-IsConsistent, forget-IsConsistent, register-IsConsistent, start-IsConsistent,
  shutdown_plugin-IsConsistent,
}

pub data Command (P : Type 0) : Type 0 where
  register_plugin : P → Command P
  unregister_plugin : PluginId → Command P
  start_plugin : PluginId → Command P
  stop_plugin : PluginId → Command P

module _ {P : Type 0} ⦃v : Plugin P⦄ where
  stop_from-IsConsistent :
      (s : LifecycleState) (id : PluginId) (rt : PluginRuntime P)
      → state_of id rt ≡ some s
      → IsConsistent rt
      → IsConsistent (stop_from s id rt).0
  unfolding stop_from
  stop_from-IsConsistent running id rt e c = shutdown_plugin-IsConsistent id rt c
  stop_from-IsConsistent initialized id rt e c = absurd (c.settled id e)
  stop_from-IsConsistent stopped id rt e c = c
  stop_from-IsConsistent registered id rt e c = c
  stop_from-IsConsistent failed id rt e c = c

  stop-IsConsistent :
      (id : PluginId) (rt : PluginRuntime P) → IsConsistent rt → IsConsistent (stop id rt).0
  stop-IsConsistent id rt c = elim (Option-cases (state_of id rt)) [
    | inl e ↦ unfold stop in rw (e, stop) c
    | inr (s, e) ↦ unfold stop in rw (e, stop) (stop_from-IsConsistent s id rt e c)
  ]

  unregister_from-IsConsistent :
      (s : LifecycleState) (id : PluginId) (rt : PluginRuntime P)
      → state_of id rt ≡ some s
      → IsConsistent rt
      → IsConsistent (unregister_from s id rt).0
  unfolding unregister_from
  unregister_from-IsConsistent running id rt e c = c
  unregister_from-IsConsistent initialized id rt e c = absurd (c.settled id e)
  unregister_from-IsConsistent stopped id rt e c = forget-IsConsistent id rt c
  unregister_from-IsConsistent registered id rt e c = forget-IsConsistent id rt c
  unregister_from-IsConsistent failed id rt e c = forget-IsConsistent id rt c

  unregister-IsConsistent :
      (id : PluginId) (rt : PluginRuntime P) → IsConsistent rt → IsConsistent (unregister id rt).0
  unregister-IsConsistent id rt c = elim (Option-cases (state_of id rt)) [
    | inl e ↦ unfold unregister in rw (e, unregister) c
    | inr (s, e) ↦
        unfold unregister in rw (e, unregister) (unregister_from-IsConsistent s id rt e c)
  ]

  abbrev pub perform : Command P → PluginRuntime P → Outcome P
  perform (register_plugin p) rt = register p rt
  perform (unregister_plugin id) rt = unregister id rt
  perform (start_plugin id) rt = start id rt
  perform (stop_plugin id) rt = stop id rt

  -- The calls in turn, whatever their results.
  abbrev pub run : List (Command P) → PluginRuntime P → PluginRuntime P
  run [] rt = rt
  run (c ∷ cs) rt = run cs (perform c rt).0

  perform-IsConsistent :
      (c : Command P) (rt : PluginRuntime P) → IsConsistent rt → IsConsistent (perform c rt).0
  perform-IsConsistent (register_plugin p) rt h = register-IsConsistent p rt h
  perform-IsConsistent (unregister_plugin id) rt h = unregister-IsConsistent id rt h
  perform-IsConsistent (start_plugin id) rt h = start-IsConsistent id rt h
  perform-IsConsistent (stop_plugin id) rt h = stop-IsConsistent id rt h

  run_from-IsConsistent :
      (cs : List (Command P)) (rt : PluginRuntime P) → IsConsistent rt → IsConsistent (run cs rt)
  run_from-IsConsistent [] rt h = h
  run_from-IsConsistent (c ∷ cs) rt h =
      run_from-IsConsistent cs (perform c rt).0 (perform-IsConsistent c rt h)

  -- After any calls on a new runtime, whether they succeed or not and whatever the plugins'
  -- `initialize` and `shutdown` return: the registry is well-formed, the states are in key order,
  -- an identifier has a state just if the registry contains it, and no state is `initialized`.
  pub run-IsConsistent : (cs : List (Command P)) → IsConsistent (run cs new)
  run-IsConsistent cs = run_from-IsConsistent cs new new-IsConsistent
