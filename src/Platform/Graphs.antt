-- ===== src/Platform/Graphs.antt =====
-- The platform's plugins and its dependency graph.
use connect_plugin_go.Prelude.{
  ℕ, ◌+◌, String, ◌≡◌, refl, ap, inl, inr, true, Option-cases, Option, none, some, List, arith,
  eq_iff,
}
use connect_plugin_go.Prelude.Maps.{Map, get, get-delete, get_absent}
use connect_plugin_go.Depgraph.{add}
use connect_plugin_go.Depgraph.Edits.{remove-IsWellFormed, get-remove, IsWellFormed-IsOrderable}
use connect_plugin_go.Depgraph.Startup.{StartupResult, startup_order}
use connect_plugin_go.Depgraph.Startup.Order.{Answers, startup_order_lem}
use connect_plugin_go.Lifecycle.{LifecycleServer}
use connect_plugin_go.Registry.{ServiceRegistry}
use connect_plugin_go.Random.{generate_runtime_id, generate_token}
use connect_plugin_go.Platform.{
  Platform, PluginInstance, PluginConfig, PluginIdentity, Turn, new_platform, wait_for_healthy,
  node_of, add_to_dependency_graph, self_id_of, first_missing, healthy_timeout, add_plugin,
  Meanwhile, remove_plugin, start_replacement, replace_plugin,
}
use connect_plugin_go.Platform.Starting.{
  is_some, IsRunning, IsFresh, new_platform-IsRunning, waiting-IsStarting, switch_over-IsRunning,
  identify-IsRunning,
}

-- The runtime ids that are generated, for whatever self id, are new to the graph.
abbrev pub IsNew : Platform → Option (List ℕ) → Type 0
IsNew p id_bytes =
    (self_id id : String) → generate_runtime_id self_id id_bytes ≡ some id → IsFresh p id

add_plugin-IsRunning :
    (calls : PluginIdentity) (now : ℕ) (config : PluginConfig)
    (id_bytes token_bytes : Option (List ℕ)) (turns : List Turn) (p : Platform)
    → IsRunning p
    → IsNew p id_bytes
    → IsRunning (add_plugin calls now config id_bytes token_bytes turns p).0
unfolding add_plugin
add_plugin-IsRunning calls now config id_bytes token_bytes turns p r new =
    elim (Option-cases (calls.get_plugin_info config.endpoint)) [
      | inl silent ↦ rw (silent, add_plugin) r
      | inr (info, e) ↦ elim (Option-cases (first_missing p.dep_graph info.requires)) [
        | inr (type, f) ↦ rw (e, f, add_plugin) r
        | inl complete ↦
            rw (e, complete, add_plugin)
              (identify-IsRunning calls now config info turns
                (generate_runtime_id (self_id_of info config) id_bytes) (generate_token token_bytes)
                p r (new (self_id_of info config)))
      ]
    ]

remove_plugin-IsRunning :
    (id : String) (grace stopping : Meanwhile) (p : Platform)
    → IsRunning p
    → IsRunning (remove_plugin id grace stopping p).0
unfolding remove_plugin
remove_plugin-IsRunning id grace stopping p r = elim (Option-cases (get p.plugins id)) [
  | inl unknown ↦ rw (unknown, remove_plugin) r
  | inr (i, e) ↦
      rw (e, remove_plugin)
        (record {
          graph = remove-IsWellFormed p.dep_graph id r.graph;
          held = λ j h. ground (
            arith,
            r.held j,
            eq_iff id j,
            get-remove p.dep_graph id j,
            get-delete p.plugins id j,
          );
        })
]

start_replacement-IsRunning :
    (now : ℕ) (old : String) (config : PluginConfig) (turns : List Turn) (drain : Meanwhile)
    (id token : Option String) (p : Platform)
    → IsRunning p
    → is_some (get p.plugins old) ≡ true
    → ((x : String) → id ≡ some x → IsFresh p x)
    → IsRunning (start_replacement now old config turns drain id token p).0
unfolding start_replacement add_to_dependency_graph node_of
start_replacement-IsRunning now old config turns drain none token p r known fresh = r
start_replacement-IsRunning now old config turns drain (some id) none p r known fresh = r
start_replacement-IsRunning now old config turns drain (some id) (some token) p r known fresh =
    let i : PluginInstance = record {
      runtime_id = id;
      self_id = config.self_id;
      metadata = config.metadata;
      endpoint = config.endpoint;
      token = token;
    } in
    let node = node_of id config.self_id config.metadata.provides config.metadata.requires in
    let waited =
      wait_for_healthy (now + healthy_timeout) id turns
        (record p { dep_graph = add node p.dep_graph }) in
    let absent = get_absent p.dep_graph.nodes id (fresh id refl) in
    switch_over-IsRunning old i drain waited.0 waited.1
      (λ same.
        ground (arith, r.held old known, ap (λ x. is_some (get p.dep_graph.nodes x)) same, absent))
      (waiting-IsStarting (now + healthy_timeout) turns node p r (fresh id refl))

replace_plugin-IsRunning :
    (now : ℕ) (id : String) (config : PluginConfig) (id_bytes token_bytes : Option (List ℕ))
    (turns : List Turn) (drain : Meanwhile) (p : Platform)
    → IsRunning p
    → IsNew p id_bytes
    → IsRunning (replace_plugin now id config id_bytes token_bytes turns drain p).0
unfolding replace_plugin
replace_plugin-IsRunning now id config id_bytes token_bytes turns drain p r new =
    elim (Option-cases (get p.plugins id)) [
      | inl unknown ↦ rw (unknown, replace_plugin) r
      | inr (i, e) ↦
          rw (e, replace_plugin)
            (start_replacement-IsRunning now id config turns drain
              (generate_runtime_id config.self_id id_bytes) (generate_token token_bytes) p r
              (ap is_some e) (new config.self_id))
    ]

-- The platforms that come about from a new one by adding, removing and replacing plugins, with any
-- outcome, as long as the runtime ids that are generated are new to the graph.
pub data Reachable : Platform → Type 0 where
  created :
      (registry : ServiceRegistry) (lifecycle : LifecycleServer) (endpoints : Map String)
      → Reachable (new_platform registry lifecycle endpoints)
  added :
      {p : Platform} (calls : PluginIdentity) (now : ℕ) (config : PluginConfig)
      (id_bytes token_bytes : Option (List ℕ)) (turns : List Turn)
      → Reachable p
      → IsNew p id_bytes
      → Reachable (add_plugin calls now config id_bytes token_bytes turns p).0
  removed :
      {p : Platform} (id : String) (grace stopping : Meanwhile)
      → Reachable p
      → Reachable (remove_plugin id grace stopping p).0
  replaced :
      {p : Platform} (now : ℕ) (id : String) (config : PluginConfig)
      (id_bytes token_bytes : Option (List ℕ)) (turns : List Turn) (drain : Meanwhile)
      → Reachable p
      → IsNew p id_bytes
      → Reachable (replace_plugin now id config id_bytes token_bytes turns drain p).0

-- In every platform that comes about from a new one by adding, removing and replacing plugins, with any
-- outcome, as long as the runtime ids that are generated are new to the graph: the graph is well formed
-- and holds each of the platform's plugins.
pub Reachable-IsRunning : {p : Platform} → Reachable p → IsRunning p
Reachable-IsRunning (created registry lifecycle endpoints) =
    new_platform-IsRunning registry lifecycle endpoints
Reachable-IsRunning (added {p} calls now config id_bytes token_bytes turns s new) =
    add_plugin-IsRunning calls now config id_bytes token_bytes turns p (Reachable-IsRunning s) new
Reachable-IsRunning (removed {p} id grace stopping s) =
    remove_plugin-IsRunning id grace stopping p (Reachable-IsRunning s)
Reachable-IsRunning (replaced {p} now id config id_bytes token_bytes turns drain s new) =
    replace_plugin-IsRunning now id config id_bytes token_bytes turns drain p
      (Reachable-IsRunning s) new

-- In every platform that comes about from a new one by adding, removing and replacing plugins, with any
-- outcome, as long as the runtime ids that are generated are new to the graph: StartupOrder comes to an
-- answer, and the answer is right.
pub Reachable-startup_order :
    {p : Platform}
    → Reachable p
    → (r : StartupResult) × (startup_order p.dep_graph ≡ some r) × Answers p.dep_graph r
Reachable-startup_order {p} s =
    startup_order_lem p.dep_graph
      (IsWellFormed-IsOrderable p.dep_graph (Reachable-IsRunning s).graph)
