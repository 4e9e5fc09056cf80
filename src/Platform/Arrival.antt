-- ===== src/Platform/Arrival.antt =====
-- What AddPlugin has done where it succeeds.
use connect_plugin_go.Prelude.{
  ℕ, ◌+◌, String, ◌≡◌, refl, sym, ap, ◌∙◌, inl, inr, Bool, true, not, ◌&&◌, ◌||◌, Bool-cases,
  Option-cases, Option, none, some, List, [], ◌∷◌, arith, eq_self,
}
use connect_plugin_go.Prelude.Maps.{get, get-put}
use connect_plugin_go.Depgraph.{Graph, has_service}
use connect_plugin_go.Plugin.{ServiceDependency}
use connect_plugin_go.Lifecycle.{get_health_state}
use connect_plugin_go.Random.{generate_runtime_id, generate_token}
use connect_plugin_go.Platform.{
  Platform, PluginInstance, PluginConfig, PluginIdentity, PluginInfoResponse, PlatformError, Turn,
  context_done, tick, wait_for_healthy, is_healthy, settle, start_plugin, add_to_dependency_graph,
  healthy_timeout, self_id_of, instance_of, identify, first_missing, add_plugin,
}

-- The graph provides each service type that is required for the startup.
abbrev pub all_available : Graph → List ServiceDependency → Bool
all_available g [] = true
all_available g (dep ∷ deps) =
    (not dep.required_for_startup || has_service g dep.type) && all_available g deps

first_missing-none :
    (g : Graph) (deps : List ServiceDependency)
    → first_missing g deps ≡ none
    → all_available g deps ≡ true
unfolding first_missing
first_missing-none g [] h = refl
first_missing-none g (dep ∷ deps) h = ground (arith, first_missing-none g deps)

-- The wait ends well only on a healthy report of the plugin, before the deadline.
wait-healthy :
    (deadline : ℕ) (id : String) (turns : List Turn) (p : Platform)
    → (wait_for_healthy deadline id turns p).1 ≡ some none
    → is_healthy (get_health_state (wait_for_healthy deadline id turns p).0.lifecycle_server id)
      ≡ true
unfolding wait_for_healthy
wait-healthy deadline id [] p h = absurd (ground arith)
wait-healthy deadline id (context_done ∷ turns) p h = absurd (ground arith)
wait-healthy deadline id (tick now registry lifecycle ∷ turns) p h = ground (
  arith,
  wait-healthy deadline id turns (record p { registry = registry; lifecycle_server = lifecycle }),
)

settle-ready :
    (i : PluginInstance) (p : Platform) (o : Option (Option PlatformError))
    → (settle i (p, o)).1 ≡ some none
    → (o ≡ some none)
      × (get (settle i (p, o)).0.plugins i.runtime_id ≡ some i)
      × (get (settle i (p, o)).0.plugin_endpoints i.runtime_id ≡ some i.endpoint)
      × ((settle i (p, o)).0.lifecycle_server ≡ p.lifecycle_server)
unfolding settle
settle-ready i p none h = absurd (ground arith)
settle-ready i p (some (some e)) h = absurd (ground arith)
settle-ready i p (some none) h = (
  refl,
  ground (arith, get-put p.plugins i.runtime_id i.runtime_id i, eq_self i.runtime_id),
  ground (
    arith,
    get-put p.plugin_endpoints i.runtime_id i.runtime_id i.endpoint,
    eq_self i.runtime_id,
  ),
  refl,
)

start_plugin-ready :
    (now : ℕ) (i : PluginInstance) (turns : List Turn) (p : Platform)
    → (start_plugin now i turns p).1 ≡ some none
    → let p' = (start_plugin now i turns p).0 in
      (get p'.plugins i.runtime_id ≡ some i)
      × (get p'.plugin_endpoints i.runtime_id ≡ some i.endpoint)
      × (is_healthy (get_health_state p'.lifecycle_server i.runtime_id) ≡ true)
unfolding start_plugin
start_plugin-ready now i turns p h =
    let entered =
      add_to_dependency_graph i.runtime_id i.self_id i.metadata.provides i.metadata.requires p in
    let waited = wait_for_healthy (now + healthy_timeout) i.runtime_id turns entered in
    let (over, listed, endpoint, kept) = settle-ready i waited.0 waited.1 h in
    (
      listed,
      endpoint,
      ap (λ l. is_healthy (get_health_state l i.runtime_id)) kept
          ∙ wait-healthy (now + healthy_timeout) i.runtime_id turns entered over,
    )

-- Where AddPlugin succeeds, the plugin's declared startup requirements were all provided by the graph
-- when it was called, and the plugin stands among the plugins under a runtime id and with a token that
-- were generated and that it has accepted; the router's table holds its endpoint, and the last health
-- that it reported is "healthy".
pub added_is_ready :
    (calls : PluginIdentity) (now : ℕ) (config : PluginConfig)
    (id_bytes token_bytes : Option (List ℕ)) (turns : List Turn) (p : Platform)
    → (add_plugin calls now config id_bytes token_bytes turns p).1 ≡ some none
    → let p' = (add_plugin calls now config id_bytes token_bytes turns p).0 in
      (info : PluginInfoResponse) × (id : String) × (token : String) × (calls.get_plugin_info
          config.endpoint
        ≡ some info)
      × (all_available p.dep_graph info.requires ≡ true)
      × (generate_runtime_id (self_id_of info config) id_bytes ≡ some id)
      × (generate_token token_bytes ≡ some token)
      × (calls.set_runtime_identity config.endpoint id token ≡ true)
      × (get p'.plugins id ≡ some (instance_of info config id token))
      × (get p'.plugin_endpoints id ≡ some config.endpoint)
      × (is_healthy (get_health_state p'.lifecycle_server id) ≡ true)
unfolding add_plugin identify
added_is_ready calls now config id_bytes token_bytes turns p h =
    elim (Option-cases (calls.get_plugin_info config.endpoint)) [
      | inl silent ↦ absurd (ground arith)
      | inr (info, e) ↦ elim (Option-cases (first_missing p.dep_graph info.requires)) [
        | inr (type, f) ↦ absurd (ground arith)
        | inl complete ↦
            elim (Option-cases (generate_runtime_id (self_id_of info config) id_bytes)) [
              | inl lacks ↦ absurd (ground arith)
              | inr (id, ei) ↦ elim (Option-cases (generate_token token_bytes)) [
                | inl lacks ↦ absurd (ground arith)
                | inr (token, et) ↦
                    elim (Bool-cases (calls.set_runtime_identity config.endpoint id token)) [
                      | inr refused ↦ absurd (ground arith)
                      | inl agreed ↦
                          let i = instance_of info config id token in
                          let same : add_plugin calls now config id_bytes token_bytes turns p
                              ≡ start_plugin now i turns p =
                            ground (arith, e, complete, ei, et, agreed) in
                          let (listed, endpoint, healthy_now) = start_plugin-ready now i turns p (
                            ap (λ (q : Platform × Option (Option PlatformError)). q.1) (sym same)
                            ∙ h) in
                          (
                            info,
                            id,
                            token,
                            e,
                            first_missing-none p.dep_graph info.requires complete,
                            ei,
                            et,
                            agreed,
                            ap
                                  (λ (q : Platform × Option (Option PlatformError)).
                                    get q.0.plugins id)
                                  same
                                ∙ listed,
                            ap
                                  (λ (q : Platform × Option (Option PlatformError)).
                                    get q.0.plugin_endpoints id)
                                  same
                                ∙ endpoint,
                            ap
                                  (λ (q : Platform × Option (Option PlatformError)).
                                    is_healthy (get_health_state q.0.lifecycle_server id))
                                  same
                                ∙ healthy_now,
                          )
                    ]
              ]
            ]
      ]
    ]
