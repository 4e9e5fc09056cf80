-- ===== src/Samples/Platforms.antt =====
-- A platform to which a logger is added, and from which it is removed.
use connect_plugin_go.Prelude.{String, ◌≡◌, refl, true, none, some, List, [], ◌∷◌}
use connect_plugin_go.Prelude.Maps.{get, get_or, put}
use connect_plugin_go.Prelude.Text.{split_n, trim_prefix, has_prefix}
use connect_plugin_go.Handshake
use connect_plugin_go.Validation
use connect_plugin_go.Registry
use connect_plugin_go.Random
use connect_plugin_go.Lifecycle
use connect_plugin_go.Router
use connect_plugin_go.Registry.Register
use connect_plugin_go.Prelude.Maps
use connect_plugin_go.Depgraph.Startup.{StartupResult, startup_order}
use connect_plugin_go.Depgraph.Startup.Order.{Answers}
use connect_plugin_go.Lifecycle.{LifecycleServer, healthy, get_health_state}
use connect_plugin_go.Random.{generate_runtime_id, generate_token}
use connect_plugin_go.Registry.{ServiceRegistry, new_service_registry}
use connect_plugin_go.Registry.Consistency.{new_service_registry-IsConsistent}
use connect_plugin_go.Registry.Register.{RegisterRequest, register_service}
use connect_plugin_go.Registry.Removal.{unregister_plugin_services_lem}
use connect_plugin_go.Registry.Tables.{IsConsistent}
use connect_plugin_go.Router.{serve_http, proxy_request_of}
use connect_plugin_go.Router.Admission.{outgoing}
use connect_plugin_go.Platform.{
  Platform, PluginConfig, PluginIdentity, PluginInfoResponse, Turn, tick, new_platform, add_plugin,
  remove_plugin, Meanwhile, is_healthy, instance_of, self_id_of,
}
use connect_plugin_go.Platform.Graphs.{
  Reachable, created, added, Reachable-IsRunning, Reachable-startup_order,
}
use connect_plugin_go.Platform.Starting.{IsRunning}
use connect_plugin_go.Platform.Arrival.{all_available, added_is_ready}
use connect_plugin_go.Platform.Removal.{router_of, removed_gets_no_calls}
use connect_plugin_go.Samples.Calls.{http, guest, doors}

abbrev registry : ServiceRegistry
registry = new_service_registry none

abbrev silent : LifecycleServer
silent = record { states = [] }

abbrev reported : LifecycleServer
reported = record {
  states =
      ("logger-00a1", record { state = healthy; reason = ""; unavailable_dependencies = [] }) ∷ [];
}

abbrev declared : PluginInfoResponse
declared = record {
  self_id = "logger";
  provides = record { type = "log"; version = "1.0.0"; path = "/log/" } ∷ [];
  requires = [];
  metadata = ("name", "Logger") ∷ ("version", "1.0.0") ∷ [];
}

-- A plugin that answers at every endpoint.
abbrev identity : PluginIdentity
identity = record {
  get_plugin_info = λ url. some declared;
  set_runtime_identity = λ url id token. true;
}

abbrev config : PluginConfig
config = record {
  self_id = "logger";
  self_version = "1.0.0";
  endpoint = "http://localhost:8081";
  metadata = record { name = ""; path = ""; version = ""; provides = []; requires = [] };
}

abbrev turns : List Turn
turns = tick 500 registry silent ∷ tick 1000 registry reported ∷ []

abbrev fresh : Platform
fresh = new_platform registry silent []

abbrev with_logger : Platform
with_logger =
    (add_plugin identity 0 config (some (0 ∷ 161 ∷ [])) (some (1 ∷ 2 ∷ 3 ∷ [])) turns fresh).0

with_logger-Reachable : Reachable with_logger
with_logger-Reachable =
    added identity 0 config (some (0 ∷ 161 ∷ [])) (some (1 ∷ 2 ∷ 3 ∷ [])) turns
      (created registry silent []) (λ self_id id e. refl)

Reachable-IsRunning_example : IsRunning with_logger
Reachable-IsRunning_example = Reachable-IsRunning with_logger-Reachable

Reachable-startup_order_example :
    (r : StartupResult) × (startup_order with_logger.dep_graph ≡ some r)
    × Answers with_logger.dep_graph r
Reachable-startup_order_example = Reachable-startup_order with_logger-Reachable

logger_added :
    (add_plugin identity 0 config (some (0 ∷ 161 ∷ [])) (some (1 ∷ 2 ∷ 3 ∷ [])) turns fresh).1
    ≡ some none
unfolding add_plugin generate_runtime_id generate_token get_health_state get
logger_added = refl

added_is_ready_example :
    (info : PluginInfoResponse) × (id : String) × (token : String) × (identity.get_plugin_info
        "http://localhost:8081"
      ≡ some info)
    × (all_available fresh.dep_graph info.requires ≡ true)
    × (generate_runtime_id (self_id_of info config) (some (0 ∷ 161 ∷ [])) ≡ some id)
    × (generate_token (some (1 ∷ 2 ∷ 3 ∷ [])) ≡ some token)
    × (identity.set_runtime_identity "http://localhost:8081" id token ≡ true)
    × (get with_logger.plugins id ≡ some (instance_of info config id token))
    × (get with_logger.plugin_endpoints id ≡ some "http://localhost:8081")
    × (is_healthy (get_health_state with_logger.lifecycle_server id) ≡ true)
added_is_ready_example =
    added_is_ready identity 0 config (some (0 ∷ 161 ∷ [])) (some (1 ∷ 2 ∷ 3 ∷ [])) turns fresh
      logger_added

parts_of_path :
    split_n 3 (trim_prefix "/services/" guest.path) ≡ "log" ∷ "logger-00a1" ∷ "Write" ∷ []
unfolding split_n trim_prefix has_prefix
parts_of_path = refl

registry_kept : IsConsistent with_logger.registry
unfolding add_plugin generate_runtime_id generate_token get_health_state get
registry_kept = new_service_registry-IsConsistent none

-- Nothing happens while the platform waits.
abbrev idle : Meanwhile
idle registry lifecycle = (registry, lifecycle)

logger_removed : (remove_plugin "logger-00a1" idle idle with_logger).1 ≡ none
unfolding remove_plugin add_plugin generate_runtime_id generate_token get_health_state get put
    get_or
logger_removed = refl

removed_gets_no_calls_example :
    outgoing
      (serve_http http 110 guest
        (router_of (remove_plugin "logger-00a1" idle idle with_logger).0 doors)).1
    ≡ none
removed_gets_no_calls_example =
    removed_gets_no_calls "logger-00a1" idle idle with_logger http 110 guest doors "log" "Write"
      registry_kept
      (unregister_plugin_services_lem "logger-00a1" with_logger.registry registry_kept).0.distinct
      (λ reg q found own. found) logger_removed parts_of_path

abbrev log_service : RegisterRequest
log_service = record {
  service_type = "log";
  version = "1.0.0";
  endpoint_path = "/log.v1.Log/";
  metadata = [];
}

-- During the call of Shutdown the logger registers again.
abbrev back_again : Meanwhile
back_again r lifecycle =
    ((register_service 120 "logger-00a1" (some (1 ∷ [])) log_service r).0, lifecycle)

-- The router still sends it the calls for it.
sent_after_removal :
    outgoing
      (serve_http http 110 guest
        (router_of (remove_plugin "logger-00a1" idle back_again with_logger).0 doors)).1
    ≡ some (proxy_request_of http guest "http://localhost:8081/log.v1.Log/Write")
unfolding remove_plugin add_plugin generate_runtime_id generate_token get_health_state get put
    get_or serve_http register_service has_prefix trim_prefix Handshake.validate_token
    Handshake.handshake Handshake.respond Handshake.assign_identity Handshake.response_of
    Validation.validate_self_id Validation.validate_service_type Validation.validate_version
    Validation.validate_endpoint_path Validation.validate_metadata Validation.is_valid_key
    Validation.is_valid_version Registry.get_provider_by_runtime_id Registry.notify_watchers
    Registry.build_service_event Registry.filter_available Registry.endpoint_of
    Register.first_invalid Register.unregister_plugin_services Register.store_provider
    Random.generate_registration_id Lifecycle.should_route_traffic split_n Maps.delete
    Router.base_url_of
sent_after_removal = refl
