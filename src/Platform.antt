-- ===== src/Platform.antt =====
-- platform.go: the host's side of adding, removing and replacing plugins. The platform's router is
-- built on the same registry and lifecycle server, so of the router only its table of endpoints is
-- kept here. A plugin's answers to the host's calls are a parameter, and what plugins change while the
-- platform waits is an argument of the operation that waits.
pub mod Starting
pub mod Graphs
pub mod Removal
pub mod Arrival
use connect_plugin_go.Prelude.{
  ℕ, ◌+◌, String, Bool, true, false, not, ◌&&◌, Option, none, some, List, [], ◌∷◌, ltb, ◌==◌,
  if◌then◌else◌,
}
use connect_plugin_go.Prelude.Maps.{Map, get, get_or, put, delete}
use connect_plugin_go.Plugin.{ServiceDeclaration, ServiceDependency, PluginMetadata}
use connect_plugin_go.Depgraph
use connect_plugin_go.Depgraph.Impact
use connect_plugin_go.Depgraph.Impact.{ImpactAnalysis}
use connect_plugin_go.Depgraph.{Graph, Node, new_graph, add, remove, has_service}
use connect_plugin_go.Lifecycle.{
  LifecycleServer, PluginHealthState, HealthState, healthy, get_health_state,
}
use connect_plugin_go.Random.{generate_runtime_id, generate_token}
use connect_plugin_go.Registry.{ServiceRegistry}
use connect_plugin_go.Registry.Register.{unregister_plugin_services}

pub record PluginInstance : Type 0 where
  pub runtime_id : String
  pub self_id : String
  pub metadata : PluginMetadata
  pub endpoint : String
  pub token : String

pub record PluginConfig : Type 0 where
  pub self_id : String
  pub self_version : String
  pub endpoint : String
  pub metadata : PluginMetadata

pub record Platform : Type 0 where
  pub dep_graph : Graph
  pub registry : ServiceRegistry
  pub lifecycle_server : LifecycleServer
  pub plugin_endpoints : Map String
  pub plugins : Map PluginInstance

-- NewPlatform
abbrev pub new_platform : ServiceRegistry → LifecycleServer → Map String → Platform
new_platform registry lifecycle endpoints = record {
  dep_graph = new_graph;
  registry = registry;
  lifecycle_server = lifecycle;
  plugin_endpoints = endpoints;
  plugins = [];
}

pub record PluginInfoResponse : Type 0 where
  pub self_id : String
  pub provides : List ServiceDeclaration
  pub requires : List ServiceDependency
  pub metadata : Map String

-- The plugin's service PluginIdentity, called at an endpoint: GetPluginInfo, where `none` is an error,
-- and whether SetRuntimeIdentity succeeds for a runtime id and a token.
pub record PluginIdentity : Type 0 where
  pub get_plugin_info : String → Option PluginInfoResponse
  pub set_runtime_identity : String → String → String → Bool

pub data PlatformError : Type 0 where
  no_plugin_info random_failed identity_refused plugin_not_found : PlatformError
  service_unavailable : (service_type self_id : String) → PlatformError
  timed_out cancelled : PlatformError

-- A turn of the wait: the context is done, or the ticker ticks at a time at which the plugins have
-- brought the registry and the lifecycle server to these states.
pub data Turn : Type 0 where
  context_done : Turn
  tick : (now : ℕ) → ServiceRegistry → LifecycleServer → Turn

abbrev is_healthy_state : HealthState → Bool
is_healthy_state healthy = true
is_healthy_state _ = false

abbrev pub is_healthy : Option PluginHealthState → Bool
is_healthy none = false
is_healthy (some s) = is_healthy_state s.state

-- waitForHealthy over the turns that come, up to the deadline; `none` means that it still waits after
-- all of them.
pub wait_for_healthy : ℕ → String → List Turn → Platform → Platform × Option (Option PlatformError)
wait_for_healthy deadline runtime_id [] p = (p, none)
wait_for_healthy deadline runtime_id (context_done ∷ turns) p = (p, some (some cancelled))
wait_for_healthy deadline runtime_id (tick now registry lifecycle ∷ turns) p =
    let p' : Platform = record p { registry = registry; lifecycle_server = lifecycle } in
    let rest = wait_for_healthy deadline runtime_id turns p' in
    if ltb deadline now
    then (p', some (some timed_out))
    else if is_healthy (get_health_state lifecycle runtime_id)
    then (p', some none)
    else rest

graph_provides : List ServiceDeclaration → List Depgraph.ServiceDeclaration
graph_provides [] = []
graph_provides (svc ∷ svcs) =
    record { type = svc.type; version = svc.version } ∷ graph_provides svcs

graph_requires : List ServiceDependency → List Depgraph.ServiceDependency
graph_requires [] = []
graph_requires (dep ∷ deps) =
    record {
      type = dep.type;
      min_version = dep.min_version;
      required_for_startup = dep.required_for_startup;
      watch_for_changes = dep.watch_for_changes;
    }
    ∷ graph_requires deps

pub node_of : String → String → List ServiceDeclaration → List ServiceDependency → Node
unfolding graph_provides graph_requires
node_of runtime_id self_id provides requires = record {
  runtime_id = runtime_id;
  self_id = self_id;
  provides = graph_provides provides;
  requires = graph_requires requires;
}

-- AddToDependencyGraph
unfoldable pub add_to_dependency_graph :
    String → String → List ServiceDeclaration → List ServiceDependency → Platform → Platform
add_to_dependency_graph runtime_id self_id provides requires p = record p {
  dep_graph = add (node_of runtime_id self_id provides requires) p.dep_graph;
}

-- The first dependency required for the startup that nothing in the graph provides.
pub first_missing : Graph → List ServiceDependency → Option String
first_missing g [] = none
first_missing g (dep ∷ deps) =
    let rest = first_missing g deps in
    if dep.required_for_startup && not (has_service g dep.type) then some dep.type else rest

-- What AddPlugin and ReplacePlugin do once the wait is over: the endpoint and the instance are
-- stored, or the plugin leaves the graph. `none` means that the wait is not over.
settle :
    PluginInstance
    → Platform × Option (Option PlatformError)
    → Platform × Option (Option PlatformError)
settle instance' (p, none) = (p, none)
settle instance' (p, some (some e)) =
    (record p { dep_graph = remove instance'.runtime_id p.dep_graph }, some (some e))
settle instance' (p, some none) = (
  record p {
    plugin_endpoints = put p.plugin_endpoints instance'.runtime_id instance'.endpoint;
    plugins = put p.plugins instance'.runtime_id instance';
  },
  some none,
)

-- 30 seconds, in nanoseconds
abbrev healthy_timeout : ℕ
healthy_timeout = 30_000_000_000

-- The plugin enters the graph and is waited for.
pub start_plugin :
    ℕ → PluginInstance → List Turn → Platform → Platform × Option (Option PlatformError)
unfolding wait_for_healthy settle add_to_dependency_graph
start_plugin now instance' turns p = settle instance' (
    wait_for_healthy (now + healthy_timeout) instance'.runtime_id turns (
      add_to_dependency_graph instance'.runtime_id instance'.self_id instance'.metadata.provides
        instance'.metadata.requires p))

abbrev pub self_id_of : PluginInfoResponse → PluginConfig → String
self_id_of info config = if info.self_id == "" then config.self_id else info.self_id

abbrev pub instance_of : PluginInfoResponse → PluginConfig → String → String → PluginInstance
instance_of info config runtime_id token = record {
  runtime_id = runtime_id;
  self_id = self_id_of info config;
  metadata = record {
    name = get_or info.metadata "name" "";
    path = "";
    version = get_or info.metadata "version" "";
    provides = info.provides;
    requires = info.requires;
  };
  endpoint = config.endpoint;
  token = token;
}

pub identify :
    PluginIdentity
    → ℕ
    → PluginConfig
    → PluginInfoResponse
    → List Turn
    → Option String
    → Option String
    → Platform
    → Platform × Option (Option PlatformError)
unfolding start_plugin
identify calls now config info turns none token p = (p, some (some random_failed))
identify calls now config info turns (some id) none p = (p, some (some random_failed))
identify calls now config info turns (some id) (some token) p =
    if not (calls.set_runtime_identity config.endpoint id token)
    then (p, some (some identity_refused))
    else start_plugin now (instance_of info config id token) turns p

-- AddPlugin, with the wait begun at the time `now` and the bytes read for the runtime id and the token
unfoldable pub add_plugin :
    PluginIdentity
    → ℕ
    → PluginConfig
    → Option (List ℕ)
    → Option (List ℕ)
    → List Turn
    → Platform
    → Platform × Option (Option PlatformError)
unfolding first_missing identify
add_plugin calls now config id_bytes token_bytes turns p =
    elim (calls.get_plugin_info config.endpoint) [
      | none ↦ (p, some (some no_plugin_info))
      | some info ↦ elim (first_missing p.dep_graph info.requires) [
        | some type ↦ (p, some (some (service_unavailable type (self_id_of info config))))
        | none ↦
            identify calls now config info turns
              (generate_runtime_id (self_id_of info config) id_bytes) (generate_token token_bytes) p
      ]
    ]

-- What the plugins make of the registry and of the lifecycle server while the platform waits.
abbrev pub Meanwhile : Type 0
Meanwhile = ServiceRegistry → LifecycleServer → ServiceRegistry × LifecycleServer

-- RemovePlugin; `grace` is what the plugins do in the grace period, and `stopping` what they do during
-- the call of Shutdown (nothing, where it is not made). The call's error is dropped.
unfoldable pub remove_plugin :
    String → Meanwhile → Meanwhile → Platform → Platform × Option PlatformError
remove_plugin runtime_id grace stopping p = elim (get p.plugins runtime_id) [
  | none ↦ (p, some plugin_not_found)
  | some instance' ↦
      let (waited, lifecycle) = grace p.registry p.lifecycle_server in
      let (stopped, lifecycle') =
        stopping (unregister_plugin_services runtime_id waited) lifecycle in
      (
        record p {
          registry = stopped;
          lifecycle_server = lifecycle';
          dep_graph = remove runtime_id p.dep_graph;
          plugins = delete p.plugins runtime_id;
        },
        none,
      )
]

-- ReplacePlugin behind the wait: `drain` is what the plugins do while the old one is drained and during
-- the call of Shutdown.
pub switch_over :
    String
    → PluginInstance
    → Meanwhile
    → Platform × Option (Option PlatformError)
    → Platform × Option (Option PlatformError)
switch_over old instance' drain (p, none) = (p, none)
switch_over old instance' drain (p, some (some e)) =
    (record p { dep_graph = remove instance'.runtime_id p.dep_graph }, some (some e))
switch_over old instance' drain (p, some none) =
    let (drained, lifecycle) = drain p.registry p.lifecycle_server in
    (
      record p {
        plugin_endpoints = put p.plugin_endpoints instance'.runtime_id instance'.endpoint;
        registry = unregister_plugin_services old drained;
        lifecycle_server = lifecycle;
        dep_graph = remove old p.dep_graph;
        plugins = put (delete p.plugins old) instance'.runtime_id instance';
      },
      some none,
    )

start_replacement :
    ℕ
    → String
    → PluginConfig
    → List Turn
    → Meanwhile
    → Option String
    → Option String
    → Platform
    → Platform × Option (Option PlatformError)
unfolding switch_over wait_for_healthy add_to_dependency_graph
start_replacement now old config turns drain none token p = (p, some (some random_failed))
start_replacement now old config turns drain (some id) none p = (p, some (some random_failed))
start_replacement now old config turns drain (some id) (some token) p =
    let instance' : PluginInstance = record {
      runtime_id = id;
      self_id = config.self_id;
      metadata = config.metadata;
      endpoint = config.endpoint;
      token = token;
    } in
    switch_over old instance' drain (
      wait_for_healthy (now + healthy_timeout) id turns (
        add_to_dependency_graph id config.self_id config.metadata.provides config.metadata.requires
          p))

-- ReplacePlugin
unfoldable pub replace_plugin :
    ℕ
    → String
    → PluginConfig
    → Option (List ℕ)
    → Option (List ℕ)
    → List Turn
    → Meanwhile
    → Platform
    → Platform × Option (Option PlatformError)
unfolding start_replacement
replace_plugin now runtime_id config id_bytes token_bytes turns drain p =
    elim (get p.plugins runtime_id) [
      | none ↦ (p, some (some plugin_not_found))
      | some old ↦
          start_replacement now runtime_id config turns drain
            (generate_runtime_id config.self_id id_bytes) (generate_token token_bytes) p
    ]

-- GetImpact
unfoldable pub get_impact : Platform → String → ImpactAnalysis
get_impact p id = Impact.get_impact p.dep_graph id
