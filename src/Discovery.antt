-- ===== src/Discovery.antt =====
-- discovery.go: where plugin endpoints are found. A Watch sends one event into a channel of one place
-- and closes it, so that it is the event here.
use connect_plugin_go.Prelude.{ℕ, String, Option, none, some, List, [], ◌∷◌, ◌++◌}
use connect_plugin_go.Prelude.Maps.{Map, get, get_or, put, delete}

pub record Endpoint : Type 0 where
  pub url : String
  pub metadata : Map String
  pub weight : ℕ

pub data DiscoveryError : Type 0 where
  service_not_found no_endpoints_configured : DiscoveryError
  discovery_failed : DiscoveryError  -- of a service outside the repository

pub data Discovered : Type 0 where
  found : List Endpoint → Discovered
  failed : DiscoveryError → Discovered

pub record DiscoveryEvent : Type 0 where
  pub service_name : String
  pub endpoints : List Endpoint
  pub error : Option DiscoveryError

-- Discover of the interface, at the moment of a call
pub record DiscoveryService : Type 0 where
  pub discover : String → Discovered

pub record StaticDiscovery : Type 0 where
  pub endpoints : Map (List Endpoint)

-- NewStaticDiscovery
abbrev pub new_static_discovery : Map (List Endpoint) → StaticDiscovery
new_static_discovery endpoints = record { endpoints = endpoints }

-- Discover
unfoldable pub discover : StaticDiscovery → String → Discovered
discover s name = elim (get s.endpoints name) [
  | none ↦ failed service_not_found
  | some endpoints ↦ elim endpoints [
    | [] ↦ failed no_endpoints_configured
    | e ∷ es ↦ found (e ∷ es)
  ]
]

event_of : String → Discovered → DiscoveryEvent
event_of name (found es) = record { service_name = name; endpoints = es; error = none }
event_of name (failed e) = record { service_name = name; endpoints = []; error = some e }

-- Watch
unfoldable pub watch : StaticDiscovery → String → DiscoveryEvent
unfolding event_of
watch s name = event_of name (discover s name)

-- AddEndpoint
unfoldable pub add_endpoint : String → Endpoint → StaticDiscovery → StaticDiscovery
add_endpoint name e s = record {
  endpoints = put s.endpoints name (get_or s.endpoints name [] ++ e ∷ []);
}

-- RemoveService
unfoldable pub remove_service : String → StaticDiscovery → StaticDiscovery
remove_service name s = record { endpoints = delete s.endpoints name }

-- A static discovery as the service of the interface
abbrev pub static_service : StaticDiscovery → DiscoveryService
static_service s = record { discover = discover s }
