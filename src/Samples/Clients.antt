-- ===== src/Samples/Clients.antt =====
-- A client of the sample host, a launcher, and a server's configuration.
use connect_plugin_go.Prelude.{
  ℕ, ◌+◌, ◌≤◌, String, count, ◌≡◌, ◌≢◌, ◌↔◌, refl, true, false, none, some, List, [], ◌∷◌, ◌++◌,
  contains, leb,
}
use connect_plugin_go.Prelude.Int.{pos}
use connect_plugin_go.Prelude.Maps.{Map, keys}
use connect_plugin_go.Prelude.Text.{◌<>◌}
use connect_plugin_go.Plugin.{PluginMetadata, PluginSet}
use connect_plugin_go.Plugin.Sets.{names_match, paths}
use connect_plugin_go.Random.{generate_runtime_id, generate_token}
use connect_plugin_go.Validation.{validate_self_id}
use connect_plugin_go.Lifecycle.{HealthState}
use connect_plugin_go.Handshake.{
  handshake, respond, response_of, assign_identity, plugin_infos, info_of, validate_token,
  token_ttl, new_handshake_server, HandshakeServer,
}
use connect_plugin_go.Discovery.{new_static_discovery, static_service}
use connect_plugin_go.Client.{
  ClientConfig, Client, new_client, request_of, connect, report_health, is_missing,
  resolve_endpoint,
}
use connect_plugin_go.Client
use connect_plugin_go.Client.Connects.{served, agrees, connects_iff}
use connect_plugin_go.Client.Identity.{identity_is_accepted}
use connect_plugin_go.Client.Resolve.{chosen, resolved, resolves_to_chosen}
use connect_plugin_go.Launcher.{PluginSpec, LaunchStrategy, shutdown, new_plugin_launcher}
use connect_plugin_go.Launcher.Balance.{
  Operation, registers, configures, gets_service_client, shuts_down, run, launches_are_cleaned_up,
}
use connect_plugin_go.Launcher.Counts.{opened, closed, holding}
use connect_plugin_go.Server
use connect_plugin_go.Server.{ServeConfig, with_defaults, is_negative}
use connect_plugin_go.Server.Accepts.{serve_accepts_iff}
use connect_plugin_go.Samples.Calls.{config, entropy}

abbrev metadata : PluginMetadata
metadata = record { name = "kv"; path = "/kv.v1/"; version = "1.0.0"; provides = []; requires = [] }

-- A host URL and a discovery service, but no endpoint
abbrev settings : ClientConfig
settings = record {
  endpoint = "";
  host_url = "http://localhost:8080";
  plugins = [];
  protocol_version = pos 0;
  magic_cookie_key = "";
  magic_cookie_value = "";
  self_id = "Cache";
  self_version = "1.0.0";
  metadata = metadata;
  discovery = some (static_service (new_static_discovery (("plugin-host", []) ∷ [])));
  discovery_service_name = "";
}

abbrev client : Client
client = record {
  cfg = record settings {
    endpoint = "http://localhost:8080";
    discovery_service_name = "plugin-host";
  };
  connected = false;
  closed = false;
  http_client = false;
  runtime_id = "";
  runtime_token = "";
  lifecycle_client = none;
  registry_client = none;
}

client_made : new_client settings ≡ Client.ok client
unfolding new_client Client.validate
client_made = refl

resolves_to_chosen_example : resolved (resolve_endpoint client) ≡ chosen settings
resolves_to_chosen_example = resolves_to_chosen settings client client_made

abbrev host : HandshakeServer
host = new_handshake_server config

connects_iff_example :
    is_missing (connect (served 10 entropy host) client).1 ≡ agrees entropy client.cfg host
connects_iff_example = connects_iff 10 entropy host client refl refl refl (λ e. cc)

client_connects : (connect (served 10 entropy host) client).1 ≡ none
unfolding connect handshake respond response_of assign_identity plugin_infos info_of
    validate_self_id generate_runtime_id generate_token request_of resolve_endpoint
    Client.do_handshake Client.check_response Client.all_available
client_connects = refl

identity_is_accepted_example :
    let c' = (connect (served 10 entropy host) client).0 in
    let h' = (handshake 10 entropy (request_of client.cfg) host).0 in
    (c'.runtime_id ≢ "")
    × ((validate_token 110 c'.runtime_id c'.runtime_token h').1 ≡ leb 110 (10 + token_ttl config))
    × ((state : HealthState) (reason : String) (deps : List String)
        → report_health state reason deps c'
          ≡ Client.ok (record {
            to = "http://localhost:8080";
            runtime_id = c'.runtime_id;
            authorization = "Bearer " <> c'.runtime_token;
            state = state;
            reason = reason;
            unavailable_dependencies = deps;
          }))
identity_is_accepted_example =
    identity_is_accepted 10 110 entropy host client refl refl (λ e. cc) (λ e. cc) client_connects

abbrev spec : PluginSpec
spec = record {
  name = "kv";
  provides = "kv" ∷ [];
  strategy = "process";
  port = 8081;
  binary_path = "./kv";
  host_url = "http://localhost:8080";
  plugin = none;
  impl_factory = false;
  metadata = [];
}

abbrev process : LaunchStrategy ℕ
process = record {
  name = "process";
  launch = λ now s.
      some (record { endpoint = "http://localhost:8081"; http_client = none; cleanup = true });
}

-- Two requests for a service, a shutdown, and a third request
abbrev life : List (Operation ℕ)
life =
    registers process
    ∷ configures (("kv", spec) ∷ [])
    ∷ gets_service_client 1 "kv" "kv"
    ∷ gets_service_client 2 "kv" "kv"
    ∷ shuts_down
    ∷ gets_service_client 3 "kv" "kv"
    ∷ []

launches_are_cleaned_up_example :
    let (l, calls) = run life new_plugin_launcher in
    let (l', last) = shutdown l in
    (opened "kv" calls ≡ closed "kv" calls + holding "kv" l.instances)
    × (holding "kv" l.instances ≤ 1)
    × (opened "kv" (calls ++ last) ≡ closed "kv" (calls ++ last))
    × (l'.instances ≡ [])
launches_are_cleaned_up_example = launches_are_cleaned_up life "kv"

abbrev serving : ServeConfig ℕ
serving = record {
  plugins = some (("kv", metadata) ∷ []);
  impls = some (("kv", 7) ∷ []);
  addr = "";
  graceful_shutdown_timeout = pos 0;
  protocol_version = pos 0;
}

serve_accepts_iff_example : (Server.validate (with_defaults serving) ≡ none) ↔ (
    (ps : PluginSet) × (is : Map ℕ) × (serving.plugins ≡ some ps)
    × (serving.impls ≡ some is)
    × ((name : String) → contains (keys ps) name ≡ contains (keys is) name)
    × (ps ≢ [])
    × (names_match ps ≡ true)
    × ((path : String) → count path (paths ps) ≤ 1)
    × (is_negative serving.protocol_version ≡ false))
serve_accepts_iff_example = serve_accepts_iff serving
