-- ===== src/Samples/Calls.antt =====
-- A client's handshake, a granted capability, and calls through the router.
use connect_plugin_go.Prelude.{
  ℕ, ◌+◌, ◌≤◌, String, ◌≡◌, ◌≢◌, refl, ap, true, ◌&&◌, none, some, List, [], ◌∷◌, arith, ltb, leb,
  ◌==◌, if◌then◌else◌,
}
use connect_plugin_go.Prelude.Int.{pos}
use connect_plugin_go.Prelude.Maps.{get, get_or, put, IsDistinct, put-IsDistinct}
use connect_plugin_go.Prelude.Text.{◌<>◌, trim_prefix, has_prefix, join}
use connect_plugin_go.Random.{generate_grant_id, generate_token, generate_runtime_id}
use connect_plugin_go.Validation.{validate_self_id}
use connect_plugin_go.Lifecycle.{should_route_traffic}
use connect_plugin_go.Handshake
use connect_plugin_go.Handshake.{
  ServeConfig, HandshakeServer, HandshakeRequest, HandshakeResponse, Entropy, new_handshake_server,
  handshake, respond, assign_identity, validate_token, token_ttl, response_of,
}
use connect_plugin_go.Handshake.Tokens
use connect_plugin_go.Handshake.Tokens.{
  IssuedBy, shake, check, accepted_was_issued, issued_until_expiry,
}
use connect_plugin_go.Broker.{
  CapabilityHandler, CapabilityBroker, CapabilityGrant, new_capability_broker, request_capability,
  register_capability, granted, handle_capability_request, serve, invalid_grant, grant_expired,
  invalid_token,
}
use connect_plugin_go.Broker.Trace
use connect_plugin_go.Broker.Grants.{granted_is_served}
use connect_plugin_go.Broker.Trace.{GrantedBy, register, request, served_was_granted}
use connect_plugin_go.Registry.{
  ServiceProvider, new_service_registry, endpoint_of, get_provider_by_runtime_id,
}
use connect_plugin_go.Registry.Register.{store_provider}
use connect_plugin_go.Router.{
  NetHttp, HttpRequest, ProxyRequest, ServiceRouter, Reply, serve_http, proxy_request,
  proxy_request_of, base_url_of, copy_headers,
}
use connect_plugin_go.Router.Admission.{
  IsEntitled, outgoing, sent_only_if_IsEntitled, served_below_endpoint_url,
}
use connect_plugin_go.Router.Forwarding.{values_of, is_credential, values_of-copy_headers}

abbrev pub config : ServeConfig
config = record {
  magic_cookie_key = "";
  magic_cookie_value = "";
  protocol_version = pos 1;
  runtime_token_ttl = pos 100;
  plugins = [];
  server_metadata = [];
  capability_broker = none;
}

abbrev hello : HandshakeRequest
hello = record {
  magic_cookie_key = "CONNECT_PLUGIN";
  magic_cookie_value = "d3f40b3c2e1a5f8b9c4d7e6a1b2c3d4e";
  core_protocol_version = pos 1;
  app_protocol_version = pos 1;
  self_id = "Cache";
  requested_plugins = [];
}

abbrev pub entropy : Entropy
entropy = record { id_bytes = some (119 ∷ 240 ∷ []); token_bytes = some (1 ∷ 2 ∷ 3 ∷ []) }

abbrev welcome : HandshakeResponse
welcome = response_of config hello (record { runtime_id = "cache-77f0"; runtime_token = "AQID" })

abbrev pub doors : HandshakeServer
doors = (handshake 10 entropy hello (new_handshake_server config)).0

welcomed : (handshake 10 entropy hello (new_handshake_server config)).1 ≡ Handshake.ok welcome
unfolding handshake response_of respond assign_identity generate_runtime_id generate_token
    validate_self_id
welcomed = refl

token_accepted :
    (validate_token 110 "cache-77f0" "AQID"
      (Tokens.run (new_handshake_server config) (shake 10 entropy hello ∷ []))).1
    ≡ true
unfolding validate_token Tokens.run Tokens.step handshake response_of respond assign_identity
    generate_runtime_id generate_token validate_self_id get put
token_accepted = refl

accepted_was_issued_example :
    (until : ℕ) × IssuedBy "cache-77f0" "AQID" until
      (new_handshake_server config)
      (shake 10 entropy hello ∷ [])
    × (110 ≤ until)
accepted_was_issued_example =
    accepted_was_issued config (shake 10 entropy hello ∷ []) 110 "cache-77f0" "AQID" token_accepted

welcome_named : welcome.runtime_id ≢ ""
unfolding response_of
welcome_named = λ e. cc

issued_until_expiry_example :
    let (h'', accepts) = validate_token 111 welcome.runtime_id "AQID" doors in
    (accepts ≡ (leb 111 (10 + token_ttl config) && welcome.runtime_token == "AQID"))
    × (get h''.tokens welcome.runtime_id
        ≡ (if ltb (10 + token_ttl config) 111 then none else get doors.tokens welcome.runtime_id))
issued_until_expiry_example =
    issued_until_expiry (new_handshake_server config) 10 111 entropy hello welcome "AQID" welcomed
      welcome_named

abbrev secrets : CapabilityHandler
secrets = record { capability_type = "secrets"; version = "1.0.0"; serves = "vault" }

abbrev broker : CapabilityBroker
broker = record (new_capability_broker "https://host") { capabilities = ("secrets", secrets) ∷ [] }

abbrev grant : CapabilityGrant
grant = record {
  grant_id = "_wAB";
  endpoint_url = "https://host/capabilities/secrets/_wAB";
  bearer_token = "AQID";
  capability_type = "secrets";
  version = "1.0.0";
}

grant_made :
    (request_capability 5 "secrets" (some (255 ∷ 0 ∷ 1 ∷ [])) (some (1 ∷ 2 ∷ 3 ∷ [])) broker).1
    ≡ granted grant
unfolding request_capability get generate_grant_id generate_token
grant_made = refl

granted_is_served_example :
    let b' =
      (request_capability 5 "secrets" (some (255 ∷ 0 ∷ 1 ∷ [])) (some (1 ∷ 2 ∷ 3 ∷ [])) broker).0 in
    let (b'', reply) =
      handle_capability_request 6
        ("/capabilities/" <> "secrets" <> "/" <> "_wAB" <> "/" <> "read/key")
        ("Bearer " <> "AQID")
        b' in
    (grant.endpoint_url ≡ "https://host" <> "/capabilities/" <> "secrets" <> "/" <> "_wAB")
    × ((handler : CapabilityHandler) × (get broker.capabilities "secrets" ≡ some handler)
        × (reply ≡ (
            if ltb (5 + broker.grant_ttl) 6
            then grant_expired
            else if "AQID" == "AQID"
            then serve handler ("/" <> "read/key")
            else invalid_token)))
    × (get b''.grants "_wAB"
        ≡ (if ltb (5 + broker.grant_ttl) 6 then none else get b'.grants "_wAB"))
granted_is_served_example =
    granted_is_served broker 5 6 "secrets" "read/key" "AQID" (255 ∷ 0 ∷ 1 ∷ [])
      (some (1 ∷ 2 ∷ 3 ∷ [])) grant refl (omega arith, (omega arith, (omega arith, tt))) grant_made

-- A capability type with a slash: it is granted, and its URL is not served.
abbrev kv_broker : CapabilityBroker
kv_broker =
    register_capability (record secrets { capability_type = "kv/v1" })
      (new_capability_broker "https://host")

kv_granted :
    (request_capability 5 "kv/v1" (some (255 ∷ 0 ∷ 1 ∷ [])) (some (1 ∷ 2 ∷ 3 ∷ [])) kv_broker).1
    ≡ granted (record grant {
      endpoint_url = "https://host/capabilities/kv/v1/_wAB";
      capability_type = "kv/v1";
    })
unfolding request_capability register_capability get put generate_grant_id generate_token
kv_granted = refl

kv_not_served :
    (handle_capability_request 6 "/capabilities/kv/v1/_wAB/read" "Bearer AQID"
      (request_capability 5 "kv/v1"
        (some (255 ∷ 0 ∷ 1 ∷ []))
        (some (1 ∷ 2 ∷ 3 ∷ []))
        kv_broker).0).1
    ≡ invalid_grant
unfolding handle_capability_request request_capability register_capability get put generate_grant_id
    generate_token trim_prefix has_prefix join
kv_not_served = refl

abbrev day : List Trace.Event
day = register secrets ∷ request 5 "secrets" (some (255 ∷ 0 ∷ 1 ∷ [])) (some (1 ∷ 2 ∷ 3 ∷ [])) ∷ []

key_read :
    (handle_capability_request 6 "/capabilities/secrets/_wAB/read/key" "Bearer AQID"
      (Trace.run (new_capability_broker "https://host") day)).1
    ≡ serve secrets "/read/key"
unfolding handle_capability_request Trace.run register_capability request_capability
    generate_grant_id generate_token get put trim_prefix has_prefix join
key_read = refl

served_was_granted_example :
    (until : ℕ) × GrantedBy
      (trim_prefix "Bearer " "Bearer AQID")
      secrets
      until
      (new_capability_broker "https://host")
      day
    × (6 ≤ until)
served_was_granted_example =
    served_was_granted "https://host" day 6 "/capabilities/secrets/_wAB/read/key" "Bearer AQID"
      secrets "/read/key" key_read

-- The tests' net/http: every request is sent, and answered with 200.
abbrev canonical : String → String
canonical key = if key == "X-Plugin-Runtime-ID" then "X-Plugin-Runtime-Id" else key

abbrev first : List String → String
first [] = ""
first (v ∷ vs) = v

abbrev pub http : NetHttp
http = record {
  header_get = λ headers key. first (get_or headers (canonical key) []);
  canonical_header_key = canonical;
  can_request = λ method url. true;
  send = λ sent. some (record { status_code = 200; headers = []; body = "ok" });
}

abbrev pub guest : HttpRequest
guest = record {
  method = "POST";
  path = "/services/log/logger-00a1/Write";
  raw_query = "";
  headers =
      ("Authorization", "Bearer AQID" ∷ [])
      ∷ ("X-Plugin-Runtime-Id", "cache-77f0" ∷ [])
      ∷ ("Accept", "a" ∷ "b" ∷ [])
      ∷ [];
  body = "line";
}

abbrev logger : ServiceProvider
logger = record {
  registration_id = "reg-1";
  runtime_id = "logger-00a1";
  service_type = "log";
  version = "1.0.0";
  endpoint_path = "/log.v1.Log/";
  metadata = ("base_url", "http://localhost:8081") ∷ [];
  registered_at = 3;
}

abbrev router : ServiceRouter
router = record {
  handshake_server = doors;
  registry = store_provider logger (new_service_registry none);
  lifecycle_server = record { states = [] };
  plugin_endpoints = [];
}

token_valid : (validate_token 110 "cache-77f0" "AQID" doors).1 ≡ true
unfolding validate_token handshake response_of respond assign_identity generate_runtime_id
    generate_token validate_self_id get put get_or
token_valid = refl

logger_registered : get router.registry.registrations "reg-1" ≡ some logger
unfolding store_provider put get
logger_registered = refl

logger_alone :
    (other : String) (q : ServiceProvider)
    → get router.registry.registrations other ≡ some q
    → q.runtime_id ≡ logger.runtime_id
    → q ≡ logger
unfolding store_provider put get
logger_alone other q found own = ground arith

registrations_distinct : IsDistinct router.registry.registrations
unfolding store_provider
registrations_distinct = put-IsDistinct {V = ServiceProvider} [] "reg-1" logger (λ k. omega arith)

logger_url : base_url_of router logger "logger-00a1" ≡ some "http://localhost:8081"
unfolding base_url_of get
logger_url = refl

logger_routable : should_route_traffic router.lifecycle_server "logger-00a1" ≡ true
unfolding should_route_traffic get
logger_routable = refl

served_below_endpoint_url_example : serve_http http 110 guest router ≡ (
  record router { handshake_server = (validate_token 110 "cache-77f0" "AQID" doors).0 },
  proxy_request http guest ("http://localhost:8081" <> "/log.v1.Log/" <> "Write"),
)
unfolding get_or endpoint_of
served_below_endpoint_url_example =
    served_below_endpoint_url http 110 guest router logger "reg-1" "Write" "AQID"
      "http://localhost:8081" refl refl refl (λ e. cc) refl token_valid registrations_distinct
      logger_registered logger_alone logger_routable logger_url

-- The logger has registered a second service first, with another endpoint.
abbrev metrics : ServiceProvider
metrics = record logger {
  registration_id = "reg-2";
  service_type = "metrics";
  endpoint_path = "/metrics.v1.Metrics/";
}

abbrev two_services : ServiceRouter
two_services = record router {
  registry = store_provider logger (store_provider metrics (new_service_registry none));
}

-- A call at the one service's URL goes to the endpoint of the other.
sent_elsewhere :
    outgoing (serve_http http 110 guest two_services).1
    ≡ some (proxy_request_of http guest "http://localhost:8081/metrics.v1.Metrics/Write")
unfolding serve_http validate_token handshake response_of respond assign_identity
    generate_runtime_id generate_token validate_self_id get put get_or store_provider
    get_provider_by_runtime_id base_url_of should_route_traffic trim_prefix
sent_elsewhere = refl

abbrev forwarded : ProxyRequest
forwarded = proxy_request_of http guest "http://localhost:8081/log.v1.Log/Write"

line_sent : outgoing (serve_http http 110 guest router).1 ≡ some forwarded
unfolding proxy_request
line_sent = ap (λ (q : ServiceRouter × Reply). outgoing q.1) served_below_endpoint_url_example

sent_only_if_IsEntitled_example : IsEntitled http 110 guest router forwarded
sent_only_if_IsEntitled_example = sent_only_if_IsEntitled http 110 guest router forwarded line_sent

guest_headers : IsDistinct guest.headers
unfolding put
guest_headers =
    put-IsDistinct {V = List String}
      (("Authorization", "Bearer AQID" ∷ []) ∷ ("X-Plugin-Runtime-Id", "cache-77f0" ∷ []) ∷ [])
      "Accept" ("a" ∷ "b" ∷ [])
      (put-IsDistinct {V = List String} (("Authorization", "Bearer AQID" ∷ []) ∷ [])
        "X-Plugin-Runtime-Id" ("cache-77f0" ∷ [])
        (put-IsDistinct {V = List String} [] "Authorization" ("Bearer AQID" ∷ [])
          (λ k. omega arith)))

values_of-copy_headers_example :
    values_of "Accept" (copy_headers http guest.headers)
    ≡ (if is_credential http "Accept" then [] else get_or guest.headers "Accept" [])
values_of-copy_headers_example = values_of-copy_headers http guest.headers "Accept" guest_headers

values_sent : values_of "Accept" (copy_headers http guest.headers) ≡ "a" ∷ "b" ∷ []
unfolding copy_headers
values_sent = refl
