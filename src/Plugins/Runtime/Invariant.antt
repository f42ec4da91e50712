-- ===== src/Plugins/Runtime/Invariant.antt =====
-- What holds of the plugin runtime between two calls: the registry and the states know the same
-- identifiers, and no plugin rests in `initialized`.
use aeryon.Base.{
  ◌≡◌, refl, true, some, if◌then◌else◌, Option-cases, inl, inr, arith, is_some, ◌≢◌, Result-cases,
}
use aeryon.Base.BTreeMap
use aeryon.Base.Text.{str_ord}
use aeryon.Plugins.Types.{
  Plugin, PluginId, LifecycleState, registered, initialized, running, stopped, failed,
}
use aeryon.Plugins.Registry
use aeryon.Plugins.Registry.{PluginRegistry}
use aeryon.Plugins.Registry.Laws
use aeryon.Plugins.Registry.Laws.{same_id, same_id→eq}
use aeryon.Plugins.Runtime.{
  PluginRuntime, new, state_of, set_state, forget, register, initialize_plugin, start_from, start,
  shutdown_plugin,
}

module _ {P : Type 0} where
  pub record IsConsistent (rt : PluginRuntime P) : Type 0 where
    pub well_formed : Laws.IsWellFormed rt.registry
    pub sorted : BTreeMap.IsSorted rt.states
    pub same_keys : (id : PluginId) → is_some (state_of id rt) ≡ Registry.contains id rt.registry
    pub settled : (id : PluginId) → state_of id rt ≢ some initialized

  pub state_of-set_state :
      (id j : PluginId) (s : LifecycleState) (rt : PluginRuntime P)
      → state_of j (set_state id s rt) ≡ (if same_id j id then some s else state_of j rt)
  unfolding state_of
  state_of-set_state id j s rt = BTreeMap.get-insert id j s rt.states

  pub new-IsConsistent : IsConsistent (new {P = P})
  unfolding new state_of Registry.contains BTreeMap.contains_key BTreeMap.get
  new-IsConsistent = record {
    well_formed = record { sorted = tt; keyed = tt };
    sorted = tt;
    same_keys = λ id. refl;
    settled = λ id e. cc;
  }

  -- Changing a known plugin and its state.
  update-IsConsistent :
      (id : PluginId) (p : P) (s : LifecycleState) (rt : PluginRuntime P)
      → s ≢ initialized
      → Registry.contains id rt.registry ≡ true
      → IsConsistent rt
      → IsConsistent (set_state id s (record rt { registry = Registry.put_back id p rt.registry }))
  unfolding state_of
  update-IsConsistent id p s rt ns known c = record {
    well_formed = Laws.put_back-IsWellFormed id p rt.registry c.well_formed;
    sorted = BTreeMap.insert-IsSorted id s rt.states c.sorted;
    same_keys = λ j. ground (
      arith,
      BTreeMap.get-insert id j s rt.states,
      Laws.put_back_effect id j p rt.registry,
      c.same_keys j,
      same_id→eq j id,
    );
    settled = λ j e. ground (arith, BTreeMap.get-insert id j s rt.states, c.settled j);
  }

  set_state-IsConsistent :
      (id : PluginId) (s : LifecycleState) (rt : PluginRuntime P)
      → s ≢ initialized
      → Registry.contains id rt.registry ≡ true
      → IsConsistent rt
      → IsConsistent (set_state id s rt)
  unfolding state_of
  set_state-IsConsistent id s rt ns known c = record {
    well_formed = c.well_formed;
    sorted = BTreeMap.insert-IsSorted id s rt.states c.sorted;
    same_keys =
        λ j. ground (arith, BTreeMap.get-insert id j s rt.states, c.same_keys j, same_id→eq j id);
    settled = λ j e. ground (arith, BTreeMap.get-insert id j s rt.states, c.settled j);
  }

  pub forget-IsConsistent :
      (id : PluginId) (rt : PluginRuntime P) → IsConsistent rt → IsConsistent (forget id rt).0
  unfolding state_of forget
  forget-IsConsistent id rt c =
      let well_formed = Laws.unregister-IsWellFormed id rt.registry c.well_formed in
      elim (Result-cases (Registry.unregister id rt.registry).1) [
        | inl (p, e) ↦
            rw (e, forget)
              (record {
                well_formed = well_formed;
                sorted = BTreeMap.remove-IsSorted id rt.states c.sorted;
                same_keys = λ j. ground (
                  arith,
                  BTreeMap.get-remove id j rt.states,
                  c.same_keys j,
                  Laws.unregister_effect id j rt.registry,
                  Laws.contains-eq-lookup j rt.registry,
                  Laws.contains-eq-lookup j (Registry.unregister id rt.registry).0,
                );
                settled = λ j h. ground (arith, BTreeMap.get-remove id j rt.states, c.settled j);
              })
        | inr (x, e) ↦
            rw (e, forget)
              (record {
                well_formed = well_formed;
                sorted = c.sorted;
                same_keys = λ j. ground (
                  arith,
                  c.same_keys j,
                  same_id→eq j id,
                  Laws.unregister_effect id j rt.registry,
                  Laws.contains-eq-lookup j rt.registry,
                  Laws.contains-eq-lookup j (Registry.unregister id rt.registry).0,
                );
                settled = c.settled;
              })
      ]

module _ {P : Type 0} ⦃v : Plugin P⦄ where
  pub register-IsConsistent :
      (p : P) (rt : PluginRuntime P) → IsConsistent rt → IsConsistent (register p rt).0
  unfolding register state_of
  register-IsConsistent p rt c =
      let well_formed = Laws.register-IsWellFormed p rt.registry c.well_formed in
      elim (Result-cases (Registry.register p rt.registry).1) [
        | inl (u, e) ↦
            rw (e, register)
              (record {
                well_formed = well_formed;
                sorted = BTreeMap.insert-IsSorted (v.id p) registered rt.states c.sorted;
                same_keys = λ j. ground (
                  arith,
                  BTreeMap.get-insert (v.id p) j registered rt.states,
                  c.same_keys j,
                  Laws.register_effect p j rt.registry,
                  Laws.contains-eq-lookup j rt.registry,
                  Laws.contains-eq-lookup j (Registry.register p rt.registry).0,
                );
                settled = λ j h.
                    ground
                      (arith, BTreeMap.get-insert (v.id p) j registered rt.states, c.settled j);
              })
        | inr (x, e) ↦
            rw (e, register)
              (record {
                well_formed = well_formed;
                sorted = c.sorted;
                same_keys = λ j. ground (
                  arith,
                  c.same_keys j,
                  Laws.register_effect p j rt.registry,
                  Laws.contains-eq-lookup j rt.registry,
                  Laws.contains-eq-lookup j (Registry.register p rt.registry).0,
                );
                settled = c.settled;
              })
      ]

  initialize_plugin-IsConsistent :
      (id : PluginId) (rt : PluginRuntime P)
      → IsConsistent rt
      → IsConsistent (initialize_plugin id rt).0
  unfolding initialize_plugin
  initialize_plugin-IsConsistent id rt c =
      let known = Laws.contains-eq-lookup id rt.registry in
      elim (Option-cases (Registry.lookup id rt.registry)) [
        | inl e ↦ rw (e, initialize_plugin) c
        | inr (p, e) ↦ elim (Result-cases (v.initialize p).1) [
          | inl (u, f) ↦
              rw (e, initialize_plugin)
                (rw f (
                  update-IsConsistent id (v.initialize p).0 running rt (λ q. cc) (rw e at known) c))
          | inr (u, f) ↦
              rw (e, initialize_plugin)
                (rw f
                  (update-IsConsistent id (v.initialize p).0 failed rt (λ q. cc) (rw e at known) c))
        ]
      ]

  pub shutdown_plugin-IsConsistent :
      (id : PluginId) (rt : PluginRuntime P)
      → IsConsistent rt
      → IsConsistent (shutdown_plugin id rt).0
  unfolding shutdown_plugin
  shutdown_plugin-IsConsistent id rt c =
      let known = Laws.contains-eq-lookup id rt.registry in
      elim (Option-cases (Registry.lookup id rt.registry)) [
        | inl e ↦ rw (e, shutdown_plugin) c
        | inr (p, e) ↦ elim (Result-cases (v.shutdown p).1) [
          | inl (u, f) ↦
              rw (e, shutdown_plugin)
                (rw f
                  (update-IsConsistent id (v.shutdown p).0 stopped rt (λ q. cc) (rw e at known) c))
          | inr (u, f) ↦
              rw (e, shutdown_plugin)
                (rw f
                  (update-IsConsistent id (v.shutdown p).0 failed rt (λ q. cc) (rw e at known) c))
        ]
      ]

  pub start_from-IsConsistent :
      (s : LifecycleState) (id : PluginId) (rt : PluginRuntime P)
      → state_of id rt ≡ some s
      → IsConsistent rt
      → IsConsistent (start_from s id rt).0
  unfolding start_from
  start_from-IsConsistent registered id rt e c = initialize_plugin-IsConsistent id rt c
  start_from-IsConsistent stopped id rt e c = initialize_plugin-IsConsistent id rt c
  start_from-IsConsistent running id rt e c = c
  start_from-IsConsistent initialized id rt e c = absurd (c.settled id e)
  start_from-IsConsistent failed id rt e c = c

  pub start-IsConsistent :
      (id : PluginId) (rt : PluginRuntime P) → IsConsistent rt → IsConsistent (start id rt).0
  start-IsConsistent id rt c = elim (Option-cases (state_of id rt)) [
    | inl e ↦ unfold start in rw (e, start) c
    | inr (s, e) ↦ unfold start in rw (e, start) (start_from-IsConsistent s id rt e c)
  ]
