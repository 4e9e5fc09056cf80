-- ===== src/Registry.antt =====
-- registry.go: which plugin provides which service. A Go pointer to a ServiceProvider is the record:
-- nothing changes one after its registration. A watcher is an identity and the events that wait in
-- its channel, which holds ten; the streams that read the channels are connectrpc's.
pub mod Register
pub mod Discover
pub mod Tables
pub mod Removal
pub mod Consistency
pub mod Candidates
pub mod Selection
pub mod Lookup
pub mod Versions
pub mod Watching
use Prim.Native.Nat.{Ordering}
use Prim.Native.String.{compare}
use connect_plugin_go.Prelude.{
  ℕ, zero, suc, ◌+◌, ◌%◌, String, Bool, true, false, not, ◌&&◌, Option, none, some, List, [], ◌∷◌,
  ◌++◌, contains, length, ltb, nat_eq, ◌==◌, if◌then◌else◌,
}
use connect_plugin_go.Prelude.Maps.{Map, get, get_or, put, delete}
use connect_plugin_go.Prelude.Int.{ℤ}
use connect_plugin_go.Prelude.Text.{◌<>◌}
use connect_plugin_go.Validation.{
  Invalid, validate_service_type, validate_version, validate_endpoint_path, validate_metadata,
}
use connect_plugin_go.Random.{generate_registration_id}
use connect_plugin_go.Lifecycle.{
  LifecycleServer, HealthState, degraded, should_route_traffic, get_health_state, PluginHealthState,
}

-- An int: the four constants, and any other value.
pub data SelectionStrategy : Type 0 where
  selection_first selection_round_robin selection_random selection_weighted : SelectionStrategy
  selection_other : ℤ → SelectionStrategy

pub record ServiceProvider : Type 0 where
  pub registration_id : String
  pub runtime_id : String
  pub service_type : String
  pub version : String
  pub endpoint_path : String
  pub metadata : Map String
  pub registered_at : ℕ

pub data ServiceState : Type 0 where
  available unavailable available_degraded : ServiceState

pub record ServiceEndpoint : Type 0 where
  pub provider_id : String
  pub version : String
  pub endpoint_url : String
  pub metadata : Map String

pub record WatchServiceEvent : Type 0 where
  pub service_type : String
  pub state : ServiceState
  pub endpoint : Option ServiceEndpoint

pub record ServiceWatcher : Type 0 where
  pub identity : ℕ
  pub ch : List WatchServiceEvent

pub record ServiceRegistry : Type 0 where
  pub providers : Map (List ServiceProvider)
  pub registrations : Map ServiceProvider
  pub selection : Map SelectionStrategy
  pub round_robin_index : Map ℕ
  pub allowed_services : Map (List String)
  pub lifecycle_server : Option LifecycleServer
  pub watchers : Map (List ServiceWatcher)

abbrev pub new_service_registry : Option LifecycleServer → ServiceRegistry
new_service_registry lifecycle = record {
  providers = [];
  registrations = [];
  selection = [];
  round_robin_index = [];
  allowed_services = [];
  lifecycle_server = lifecycle;
  watchers = [];
}

-- r.providers[serviceType]
abbrev pub providers_of : ServiceRegistry → String → List ServiceProvider
providers_of r type = get_or r.providers type []

-- SetAllowedServices
unfoldable pub set_allowed_services : String → List String → ServiceRegistry → ServiceRegistry
set_allowed_services runtime_id types r = record r {
  allowed_services = put r.allowed_services runtime_id types;
}

-- SetSelectionStrategy
unfoldable pub set_selection_strategy :
    String → SelectionStrategy → ServiceRegistry → ServiceRegistry
set_selection_strategy type strategy r = record r { selection = put r.selection type strategy }

filter_routable : LifecycleServer → List ServiceProvider → List ServiceProvider
filter_routable lifecycle [] = []
filter_routable lifecycle (p ∷ ps) =
    let rest = filter_routable lifecycle ps in
    if should_route_traffic lifecycle p.runtime_id then p ∷ rest else rest

-- filterAvailable
unfoldable pub filter_available :
    Option LifecycleServer → List ServiceProvider → List ServiceProvider
unfolding filter_routable
filter_available none ps = ps
filter_available (some lifecycle) ps = filter_routable lifecycle ps

-- p.Version >= minVersion, as texts
abbrev pub at_least : String → String → Bool
at_least min v = elim (compare v min) [ Ordering.lt ↦ false | _ ↦ true ]

filter_versions : String → List ServiceProvider → List ServiceProvider
filter_versions min [] = []
filter_versions min (p ∷ ps) =
    let rest = filter_versions min ps in if at_least min p.version then p ∷ rest else rest

-- filterCompatibleVersions
unfoldable pub filter_compatible_versions : String → List ServiceProvider → List ServiceProvider
unfolding filter_versions
filter_compatible_versions min ps = if min == "" then ps else filter_versions min ps

unfoldable pub endpoint_of : ServiceProvider → ServiceEndpoint
endpoint_of p = record {
  provider_id = p.runtime_id;
  version = p.version;
  endpoint_url = "/services/" <> p.service_type <> "/" <> p.runtime_id;
  metadata = p.metadata;
}

abbrev is_degraded : Option PluginHealthState → Bool
is_degraded none = false
is_degraded (some s) = elim s.state [ degraded ↦ true | _ ↦ false ]

abbrev provider_degraded : Option LifecycleServer → String → Bool
provider_degraded none runtime_id = false
provider_degraded (some l) runtime_id = is_degraded (get_health_state l runtime_id)

event_for : Option LifecycleServer → String → List ServiceProvider → WatchServiceEvent
unfolding endpoint_of
event_for lifecycle type [] = record { service_type = type; state = unavailable; endpoint = none }
event_for lifecycle type (p ∷ ps) = record {
  service_type = type;
  state = if provider_degraded lifecycle p.runtime_id then available_degraded else available;
  endpoint = some (endpoint_of p);
}

-- buildServiceEventLocked: no provider and none available give the same event.
unfoldable pub build_service_event : ServiceRegistry → String → WatchServiceEvent
unfolding event_for filter_available
build_service_event r type =
    event_for r.lifecycle_server type (filter_available r.lifecycle_server (providers_of r type))

-- A send that does not block: to a full channel nothing is sent.
abbrev pub send : WatchServiceEvent → ServiceWatcher → ServiceWatcher
send event w = if ltb (length w.ch) 10 then record w { ch = w.ch ++ event ∷ [] } else w

send_all : WatchServiceEvent → List ServiceWatcher → List ServiceWatcher
send_all event [] = []
send_all event (w ∷ ws) = send event w ∷ send_all event ws

-- notifyWatchersLocked
unfoldable pub notify_watchers : String → ServiceRegistry → ServiceRegistry
unfolding send_all build_service_event
notify_watchers type r = record r {
  watchers =
      put r.watchers type (send_all (build_service_event r type) (get_or r.watchers type []));
}

-- GetProvider
unfoldable pub get_provider : ServiceRegistry → String → Option ServiceProvider
get_provider r id = get r.registrations id

pub find_runtime : String → Map ServiceProvider → Option ServiceProvider
find_runtime runtime_id [] = none
find_runtime runtime_id ((id, p) ∷ m) =
    let rest = find_runtime runtime_id m in if p.runtime_id == runtime_id then some p else rest

-- GetProviderByRuntimeID: the first that the order of the table gives.
unfoldable pub get_provider_by_runtime_id : ServiceRegistry → String → Option ServiceProvider
unfolding find_runtime
get_provider_by_runtime_id r runtime_id = find_runtime runtime_id r.registrations

services_in : String → Map ServiceProvider → List ServiceProvider
services_in runtime_id [] = []
services_in runtime_id ((id, p) ∷ m) =
    let rest = services_in runtime_id m in if p.runtime_id == runtime_id then p ∷ rest else rest

-- GetServicesBy
unfoldable pub get_services_by : ServiceRegistry → String → List ServiceProvider
unfolding services_in
get_services_by r runtime_id = services_in runtime_id r.registrations

-- GetAllProviders
unfoldable pub get_all_providers : ServiceRegistry → String → Option (List ServiceProvider)
get_all_providers r type = get r.providers type

-- WatchService up to its stream: the new watcher's channel holds the present state.
unfoldable pub watch_service : ℕ → String → ServiceRegistry → ServiceRegistry
unfolding build_service_event
watch_service identity type r =
    let watcher : ServiceWatcher = record {
      identity = identity;
      ch = build_service_event r type ∷ [];
    } in
    record r { watchers = put r.watchers type (get_or r.watchers type [] ++ watcher ∷ []) }

remove_watcher : ℕ → List ServiceWatcher → List ServiceWatcher
remove_watcher identity [] = []
remove_watcher identity (w ∷ ws) =
    let rest = remove_watcher identity ws in if nat_eq w.identity identity then ws else w ∷ rest

-- The clean-up of WatchService when its stream ends.
unfoldable pub unwatch_service : ℕ → String → ServiceRegistry → ServiceRegistry
unfolding remove_watcher
unwatch_service identity type r = record r {
  watchers = put r.watchers type (remove_watcher identity (get_or r.watchers type []));
}
