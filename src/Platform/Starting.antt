-- ===== src/Platform/Starting.antt =====
-- The graph of a platform while it starts a plugin.
use connect_plugin_go.Prelude.{
  ℕ, ◌+◌, String, ◌≡◌, ◌≢◌, refl, inl, inr, Bool, true, false, Bool-cases, Option, none, some, List,
  [], ◌∷◌, arith, eq_iff, eq_self, count, ◌==◌, if◌then◌else◌,
}
use connect_plugin_go.Prelude.Maps.{Map, get, delete, keys, get-put, get-delete, get_absent}
use connect_plugin_go.Depgraph.{Graph, Node, add}
use connect_plugin_go.Depgraph.Edits.{
  IsWellFormed, new_graph-IsWellFormed, add-IsWellFormed, remove-IsWellFormed, get-remove,
}
use connect_plugin_go.Lifecycle.{LifecycleServer}
use connect_plugin_go.Registry.{ServiceRegistry}
use connect_plugin_go.Platform.{
  Platform, PluginInstance, PluginConfig, PluginIdentity, PluginInfoResponse, PlatformError, Turn,
  context_done, tick, new_platform, wait_for_healthy, node_of, add_to_dependency_graph, settle,
  start_plugin, instance_of, identify, healthy_timeout, Meanwhile, switch_over,
}

abbrev pub is_some {ℓ} : {A : Type ℓ} → Option A → Bool
is_some none = false
is_some (some a) = true

-- The graph is well formed and holds every plugin of the platform.
pub record IsRunning (p : Platform) : Type 0 where
  pub graph : IsWellFormed p.dep_graph
  pub held :
      (id : String) → is_some (get p.plugins id) ≡ true → is_some (get p.dep_graph.nodes id) ≡ true

-- No node of the graph has the id.
abbrev pub IsFresh : Platform → String → Type 0
IsFresh p id = count id (keys p.dep_graph.nodes) ≡ 0

pub new_platform-IsRunning :
    (registry : ServiceRegistry) (lifecycle : LifecycleServer) (endpoints : Map String)
    → IsRunning (new_platform registry lifecycle endpoints)
new_platform-IsRunning registry lifecycle endpoints = record {
  graph = new_graph-IsWellFormed;
  held = λ id h. unfold get in cc;
}

-- The wait changes neither the graph nor the plugins.
pub wait_for_healthy-kept :
    (deadline : ℕ) (id : String) (turns : List Turn) (p : Platform)
    → let p' = (wait_for_healthy deadline id turns p).0 in
      (p'.dep_graph ≡ p.dep_graph) × (p'.plugins ≡ p.plugins)
unfolding wait_for_healthy
wait_for_healthy-kept deadline id [] p = (refl, refl)
wait_for_healthy-kept deadline id (context_done ∷ turns) p = (refl, refl)
wait_for_healthy-kept deadline id (tick now registry lifecycle ∷ turns) p = ground (
  arith,
  wait_for_healthy-kept deadline id turns
      (record p { registry = registry; lifecycle_server = lifecycle }),
)

get-add :
    (node : Node) (g : Graph) (id : String)
    → get (add node g).nodes id ≡ (if node.runtime_id == id then some node else get g.nodes id)
unfolding add
get-add node g id = get-put g.nodes node.runtime_id id node

-- What holds while the new plugin is waited for.
pub record IsStarting (id : String) (p : Platform) : Type 0 where
  running : IsRunning p
  unlisted : is_some (get p.plugins id) ≡ false
  entered : is_some (get p.dep_graph.nodes id) ≡ true

pub waiting-IsStarting :
    (deadline : ℕ) (turns : List Turn) (node : Node) (p : Platform)
    → IsRunning p
    → IsFresh p node.runtime_id
    → IsStarting node.runtime_id
        (wait_for_healthy deadline node.runtime_id turns
          (record p { dep_graph = add node p.dep_graph })).0
waiting-IsStarting deadline turns node p r fresh =
    let id = node.runtime_id in
    let p' : Platform = record p { dep_graph = add node p.dep_graph } in
    let (same_graph, same_plugins) = wait_for_healthy-kept deadline id turns p' in
    let absent : is_some (get p.dep_graph.nodes id) ≡ false =
      ground (arith, get_absent p.dep_graph.nodes id fresh) in
    record {
      running = record {
        graph = rw same_graph (add-IsWellFormed p.dep_graph node fresh r.graph);
        held = λ j h.
            rw same_graph (ground (arith, same_plugins, r.held j, get-add node p.dep_graph j));
      };
      unlisted = ground (arith, same_plugins, r.held id);
      entered = rw same_graph (ground (arith, get-add node p.dep_graph id, eq_self id));
    }

settle-IsRunning :
    (i : PluginInstance) (p : Platform) (o : Option (Option PlatformError))
    → IsStarting i.runtime_id p
    → IsRunning (settle i (p, o)).0
unfolding settle
settle-IsRunning i p none s = s.running
settle-IsRunning i p (some (some e)) s = record {
  graph = remove-IsWellFormed p.dep_graph i.runtime_id s.running.graph;
  held = λ j h. ground (
    arith,
    s.running.held j,
    s.unlisted,
    eq_iff i.runtime_id j,
    get-remove p.dep_graph i.runtime_id j,
  );
}
settle-IsRunning i p (some none) s = record {
  graph = s.running.graph;
  held = λ j h. ground (
    arith,
    s.running.held j,
    s.entered,
    eq_iff i.runtime_id j,
    get-put p.plugins i.runtime_id j i,
  );
}

pub switch_over-IsRunning :
    (old : String) (i : PluginInstance) (drain : Meanwhile) (p : Platform)
    (o : Option (Option PlatformError))
    → old ≢ i.runtime_id
    → IsStarting i.runtime_id p
    → IsRunning (switch_over old i drain (p, o)).0
unfolding switch_over
switch_over-IsRunning old i drain p none ne s = s.running
switch_over-IsRunning old i drain p (some (some e)) ne s = record {
  graph = remove-IsWellFormed p.dep_graph i.runtime_id s.running.graph;
  held = λ j h. ground (
    arith,
    s.running.held j,
    s.unlisted,
    eq_iff i.runtime_id j,
    get-remove p.dep_graph i.runtime_id j,
  );
}
switch_over-IsRunning old i drain p (some none) ne s = record {
  graph = remove-IsWellFormed p.dep_graph old s.running.graph;
  held = λ j h. ground (
    arith,
    s.running.held j,
    s.entered,
    eq_iff i.runtime_id j,
    eq_iff old j,
    get-remove p.dep_graph old j,
    get-put (delete p.plugins old) i.runtime_id j i,
    get-delete p.plugins old j,
  );
}

start_plugin-IsRunning :
    (now : ℕ) (i : PluginInstance) (turns : List Turn) (p : Platform)
    → IsRunning p
    → IsFresh p i.runtime_id
    → IsRunning (start_plugin now i turns p).0
unfolding start_plugin add_to_dependency_graph node_of
start_plugin-IsRunning now i turns p r fresh =
    let node = node_of i.runtime_id i.self_id i.metadata.provides i.metadata.requires in
    let waited =
      wait_for_healthy (now + healthy_timeout) i.runtime_id turns
        (record p { dep_graph = add node p.dep_graph }) in
    settle-IsRunning i waited.0 waited.1
      (waiting-IsStarting (now + healthy_timeout) turns node p r fresh)

pub identify-IsRunning :
    (calls : PluginIdentity) (now : ℕ) (config : PluginConfig) (info : PluginInfoResponse)
    (turns : List Turn) (id token : Option String) (p : Platform)
    → IsRunning p
    → ((x : String) → id ≡ some x → IsFresh p x)
    → IsRunning (identify calls now config info turns id token p).0
unfolding identify
identify-IsRunning calls now config info turns none token p r fresh = r
identify-IsRunning calls now config info turns (some id) none p r fresh = r
identify-IsRunning calls now config info turns (some id) (some token) p r fresh =
    elim (Bool-cases (calls.set_runtime_identity config.endpoint id token)) [
      | inr refused ↦ rw refused r
      | inl agreed ↦
          rw agreed (
            start_plugin-IsRunning now (instance_of info config id token) turns p r (fresh id refl))
    ]
