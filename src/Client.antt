-- ===== src/Client.antt =====
-- client.go: a plugin's client, up to the calls that it makes. Its HTTP client is whether there is one,
-- and its lifecycle and registry clients are the endpoints that they were made for. A set of plugins
-- lists its keys in the order in which PluginSet.Keys sorts them. `HandshakeService` is what the server
-- at an endpoint answers to a handshake, none where the call fails.
pub mod Offered
pub mod Connects
pub mod Identity
pub mod Resolve
use connect_plugin_go.Prelude.{
  ℕ, String, Bool, true, false, not, ◌&&◌, Option, none, some, List, [], ◌∷◌, ◌==◌, contains, map,
  if◌then◌else◌,
}
use connect_plugin_go.Prelude.Int.{ℤ, pos, is_zero}
use connect_plugin_go.Prelude.Maps.{Map, get, keys}
use connect_plugin_go.Prelude.Text.{◌<>◌, has_prefix}
use connect_plugin_go.Plugin.{PluginMetadata, PluginSet, SetError}
use connect_plugin_go.Plugin
use connect_plugin_go.Lifecycle.{HealthState}
use connect_plugin_go.Discovery.{
  Endpoint, Discovered, found, failed, DiscoveryError, DiscoveryService,
}
use connect_plugin_go.Handshake.{
  HandshakeRequest, HandshakeResponse, PluginInfo, int_eq, to_int32, default_magic_cookie_key,
  default_magic_cookie_value,
}

pub record ClientConfig : Type 0 where
  pub endpoint : String
  pub host_url : String
  pub plugins : PluginSet
  pub protocol_version : ℤ
  pub magic_cookie_key : String
  pub magic_cookie_value : String
  pub self_id : String
  pub self_version : String
  pub metadata : PluginMetadata
  pub discovery : Option DiscoveryService
  pub discovery_service_name : String

pub record Client : Type 0 where
  pub cfg : ClientConfig
  pub connected : Bool
  pub closed : Bool
  pub http_client : Bool
  pub runtime_id : String
  pub runtime_token : String
  pub lifecycle_client : Option String
  pub registry_client : Option String

pub data ClientError : Type 0 where
  endpoint_required client_closed no_endpoints handshake_failed : ClientError
  core_version_mismatch app_version_mismatch plugin_not_available plugin_not_found : ClientError
  no_runtime_identity : ClientError
  invalid_plugins : SetError → ClientError
  discovery_error : DiscoveryError → ClientError

pub data Result (A : Type 0) : Type 0 where
  ok : A → Result A
  err : ClientError → Result A

abbrev pub HandshakeService : Type 0
HandshakeService = String → HandshakeRequest → Option HandshakeResponse

-- The assignments of Validate
with_host_url : ClientConfig → ClientConfig
with_host_url cfg =
    if cfg.endpoint == "" && not (cfg.host_url == "")
    then record cfg { endpoint = cfg.host_url }
    else cfg

with_service_name : Option DiscoveryService → ClientConfig → ClientConfig
with_service_name none cfg = cfg
with_service_name (some d) cfg =
    if cfg.discovery_service_name == ""
    then record cfg { discovery_service_name = "plugin-host" }
    else cfg

plugins_error : PluginSet → Option ClientError
plugins_error [] = none
plugins_error (p ∷ ps) = elim (Plugin.validate (p ∷ ps)) [
  | none ↦ none
  | some e ↦ some (invalid_plugins e)
]

abbrev pub is_missing : {A : Type 0} → Option A → Bool
is_missing none = true
is_missing (some a) = false

-- ClientConfig.Validate: the config as it leaves it, and the error
unfoldable pub validate : ClientConfig → ClientConfig × Option ClientError
unfolding with_host_url with_service_name plugins_error
validate cfg =
    if cfg.endpoint == "" && cfg.host_url == "" && is_missing cfg.discovery
    then (cfg, some endpoint_required)
    else let cfg' = with_service_name cfg.discovery (with_host_url cfg) in
      (cfg', plugins_error cfg'.plugins)

abbrev client_of : ClientConfig → Client
client_of cfg = record {
  cfg = cfg;
  connected = false;
  closed = false;
  http_client = false;
  runtime_id = "";
  runtime_token = "";
  lifecycle_client = none;
  registry_client = none;
}

made : ClientConfig × Option ClientError → Result Client
made (cfg, some e) = err e
made (cfg, none) = ok (client_of (with_host_url cfg))

-- NewClient
unfoldable pub new_client : ClientConfig → Result Client
unfolding made with_host_url
new_client cfg = made (validate cfg)

with_first : Discovered → Client → Client × Option ClientError
with_first (failed e) c = (c, some (discovery_error e))
with_first (found []) c = (c, some no_endpoints)
with_first (found (e ∷ es)) c =
    (record c { cfg = record c.cfg { endpoint = e.url; host_url = e.url } }, none)

-- discoverEndpoint
unfoldable pub discover_endpoint : DiscoveryService → Client → Client × Option ClientError
unfolding with_first
discover_endpoint d c =
    let name =
      if c.cfg.discovery_service_name == "" then "plugin-host" else c.cfg.discovery_service_name in
    with_first (d.discover name) c

abbrev pub client_version : ClientConfig → ℤ
client_version cfg = if is_zero cfg.protocol_version then pos 1 else cfg.protocol_version

-- The request of doHandshake
unfoldable pub request_of : ClientConfig → HandshakeRequest
request_of cfg = record {
  magic_cookie_key =
      if cfg.magic_cookie_key == "" then default_magic_cookie_key else cfg.magic_cookie_key;
  magic_cookie_value =
      if cfg.magic_cookie_key == "" then default_magic_cookie_value else cfg.magic_cookie_value;
  core_protocol_version = pos 1;
  app_protocol_version = to_int32 (client_version cfg);
  self_id = cfg.self_id;
  requested_plugins = keys cfg.plugins;
}

abbrev pub name_of : PluginInfo → String
name_of info = info.name

-- The loop over the requested plugins
unfoldable pub all_available : List String → List String → Bool
all_available [] available = true
all_available (name ∷ names) available = contains available name && all_available names available

-- What doHandshake finds wrong with a response
unfoldable pub check_response : ClientConfig → HandshakeResponse → Option ClientError
check_response cfg resp =
    if not (int_eq resp.core_protocol_version (pos 1))
    then some core_version_mismatch
    else if not (int_eq resp.app_protocol_version (to_int32 (client_version cfg)))
    then some app_version_mismatch
    else if not (all_available (keys cfg.plugins) (map name_of resp.plugins))
    then some plugin_not_available
    else none

store_identity : HandshakeResponse → Client → Client
store_identity resp c = if resp.runtime_id == "" then c else record c {
  runtime_id = resp.runtime_id;
  runtime_token = resp.runtime_token;
  lifecycle_client = some c.cfg.endpoint;
  registry_client = some c.cfg.endpoint;
}

accept_response : Option HandshakeResponse → Client → Client × Option ClientError
accept_response none c = (c, some handshake_failed)
accept_response (some resp) c = elim (check_response c.cfg resp) [
  | some e ↦ (c, some e)
  | none ↦ (store_identity resp c, none)
]

-- doHandshake
unfoldable pub do_handshake : HandshakeService → Client → Client × Option ClientError
unfolding accept_response store_identity
do_handshake service c = accept_response (service c.cfg.endpoint (request_of c.cfg)) c

unfoldable pub resolve_with : Option DiscoveryService → Client → Client × Option ClientError
resolve_with none c = (c, none)
resolve_with (some d) c = if c.cfg.endpoint == "" then discover_endpoint d c else (c, none)

-- The endpoint that Connect goes on with
unfoldable pub resolve_endpoint : Client → Client × Option ClientError
unfolding resolve_with
resolve_endpoint c = resolve_with c.cfg.discovery c

unfoldable pub after_handshake : Client × Option ClientError → Client × Option ClientError
after_handshake (c, some e) = (c, some e)
after_handshake (c, none) = (record c { connected = true }, none)

after_resolve : HandshakeService → Client × Option ClientError → Client × Option ClientError
unfolding after_handshake
after_resolve service (c, some e) = (c, some e)
after_resolve service (c, none) =
    after_handshake (do_handshake service (record c { http_client = true }))

-- Connect, less its warning in the log
unfoldable pub connect : HandshakeService → Client → Client × Option ClientError
unfolding after_resolve after_handshake
connect service c =
    if c.closed
    then (c, some client_closed)
    else if c.connected
    then (c, none)
    else after_resolve service (resolve_endpoint c)

-- ensureConnected
unfoldable pub ensure_connected : HandshakeService → Client → Client × Option ClientError
ensure_connected service c = if c.connected then (c, none) else connect service c

-- What Dispense hands to the ConnectClient of the plugin that it has found
pub record Dispensed : Type 0 where
  pub plugin : PluginMetadata
  pub endpoint : String

dispensed : String → Client × Option ClientError → Client × Result Dispensed
dispensed name (c, some e) = (c, err e)
dispensed name (c, none) = elim (get c.cfg.plugins name) [
  | none ↦ (c, err plugin_not_found)
  | some p ↦ (c, ok (record { plugin = p; endpoint = c.cfg.endpoint }))
]

-- Dispense
unfoldable pub dispense : HandshakeService → String → Client → Client × Result Dispensed
unfolding dispensed
dispense service name c = dispensed name (ensure_connected service c)

with_host : String → Client → Client
with_host url c =
    if not (url == "") && not (c.cfg.endpoint == url)
    then record c { cfg = record c.cfg { endpoint = url; host_url = url } }
    else c

with_clients : Client → Client
with_clients c =
    if is_missing c.lifecycle_client && c.http_client
    then record c { lifecycle_client = some c.cfg.endpoint; registry_client = some c.cfg.endpoint }
    else c

-- SetRuntimeIdentity
unfoldable pub set_runtime_identity : String → String → String → Client → Client
unfolding with_host with_clients
set_runtime_identity id token url c =
    with_clients (with_host url (record c { runtime_id = id; runtime_token = token }))

-- The request of ReportHealth, and the endpoint it goes to
pub record Report : Type 0 where
  pub to : String
  pub runtime_id : String
  pub authorization : String
  pub state : HealthState
  pub reason : String
  pub unavailable_dependencies : List String

-- ReportHealth
unfoldable pub report_health : HealthState → String → List String → Client → Result Report
report_health state reason deps c = elim c.lifecycle_client [
  | none ↦ err no_runtime_identity
  | some url ↦ ok (record {
    to = url;
    runtime_id = c.runtime_id;
    authorization = "Bearer " <> c.runtime_token;
    state = state;
    reason = reason;
    unavailable_dependencies = deps;
  })
]

-- Close
abbrev pub close : Client → Client
close c = record c { closed = true }

-- isNonTLSEndpoint
abbrev pub is_non_tls_endpoint : String → Bool
is_non_tls_endpoint url = if has_prefix "unix://" url then false else has_prefix "http://" url
