-- ===== src/Router.antt =====
-- router.go: the host's routing of a plugin's calls of another plugin's service. net/http is a
-- parameter: what it reads of a header, how it spells a header's key, which requests it can make, and
-- what the sending of one gives.
pub mod Admission
pub mod Forwarding
use connect_plugin_go.Prelude.{
  ℕ, ◌+◌, String, Bool, true, false, not, ◌||◌, Option, none, some, List, [], ◌∷◌, ◌++◌, ◌==◌,
  if◌then◌else◌,
}
use connect_plugin_go.Prelude.Maps.{Map, get, put}
use connect_plugin_go.Prelude.Text.{◌<>◌, has_prefix, trim_prefix, split_n}
use connect_plugin_go.Lifecycle.{LifecycleServer, should_route_traffic}
use connect_plugin_go.Handshake.{HandshakeServer, validate_token}
use connect_plugin_go.Registry.{ServiceRegistry, ServiceProvider, get_provider_by_runtime_id}

pub record ServiceRouter : Type 0 where
  pub handshake_server : HandshakeServer
  pub registry : ServiceRegistry
  pub lifecycle_server : LifecycleServer
  pub plugin_endpoints : Map String

-- NewServiceRouter
abbrev pub new_service_router : HandshakeServer → ServiceRegistry → LifecycleServer → ServiceRouter
new_service_router handshake registry lifecycle = record {
  handshake_server = handshake;
  registry = registry;
  lifecycle_server = lifecycle;
  plugin_endpoints = [];
}

-- RegisterPluginEndpoint
unfoldable pub register_plugin_endpoint : String → String → ServiceRouter → ServiceRouter
register_plugin_endpoint runtime_id endpoint r = record r {
  plugin_endpoints = put r.plugin_endpoints runtime_id endpoint;
}

pub record HttpRequest : Type 0 where
  pub method : String
  pub path : String
  pub raw_query : String
  pub headers : Map (List String)
  pub body : String

-- The request that the router sends; `headers` are the calls of Header.Add, in their order.
pub record ProxyRequest : Type 0 where
  pub method : String
  pub url : String
  pub headers : List (String × String)
  pub body : String

pub record HttpResponse : Type 0 where
  pub status_code : ℕ
  pub headers : Map (List String)
  pub body : String

-- net/http: Header.Get, CanonicalHeaderKey, NewRequestWithContext (whether it makes a request of the
-- method and the URL), and Client.Do, where `none` is an error.
pub record NetHttp : Type 0 where
  pub header_get : Map (List String) → String → String
  pub canonical_header_key : String → String
  pub can_request : String → String → Bool
  pub send : ProxyRequest → Option HttpResponse

-- What the caller gets: an error reply of the router, or the provider's response.
pub data Reply : Type 0 where
  not_found invalid_path id_required bearer_required invalid_token : Reply
  provider_not_found unavailable endpoint_not_registered : Reply
  request_failed : Reply
  bad_gateway : ProxyRequest → Reply
  relayed : ProxyRequest → (status_code : ℕ) → List (String × String) → (body : String) → Reply

-- One Header.Add for each value of a key.
add_values : String → List String → List (String × String)
add_values key [] = []
add_values key (value ∷ values) = (key, value) ∷ add_values key values

-- The headers but for the two that carry the caller's credentials.
unfoldable pub copy_headers : NetHttp → Map (List String) → List (String × String)
unfolding add_values
copy_headers http [] = []
copy_headers http ((key, values) ∷ headers) =
    let rest = copy_headers http headers in
    let canonical_key = http.canonical_header_key key in
    if canonical_key == "Authorization" || canonical_key == "X-Plugin-Runtime-Id"
    then rest
    else add_values key values ++ rest

copy_response_headers : Map (List String) → List (String × String)
unfolding add_values
copy_response_headers [] = []
copy_response_headers ((key, values) ∷ headers) =
    add_values key values ++ copy_response_headers headers

abbrev pub full_url : HttpRequest → String → String
full_url req target_url =
    if req.raw_query == "" then target_url else target_url <> "?" <> req.raw_query

abbrev pub proxy_request_of : NetHttp → HttpRequest → String → ProxyRequest
proxy_request_of http req target_url = record {
  method = req.method;
  url = full_url req target_url;
  headers = copy_headers http req.headers;
  body = req.body;
}

relay : ProxyRequest → Option HttpResponse → Reply
unfolding copy_response_headers
relay sent none = bad_gateway sent
relay sent (some resp) =
    relayed sent resp.status_code (copy_response_headers resp.headers) resp.body

-- proxyRequest
unfoldable pub proxy_request : NetHttp → HttpRequest → String → Reply
unfolding relay
proxy_request http req target_url =
    if not (http.can_request req.method (full_url req target_url))
    then request_failed
    else relay (proxy_request_of http req target_url)
        (http.send (proxy_request_of http req target_url))

-- The endpoint registered for the provider, or else the base URL of its metadata.
unfoldable pub base_url_of : ServiceRouter → ServiceProvider → String → Option String
base_url_of r provider provider_id = elim (get r.plugin_endpoints provider_id) [
  | some url ↦ some url
  | none ↦ get provider.metadata "base_url"
]

forward : NetHttp → HttpRequest → ServiceProvider → String → Option String → Reply
unfolding proxy_request
forward http req provider method none = endpoint_not_registered
forward http req provider method (some base_url) =
    proxy_request http req (base_url <> provider.endpoint_path <> trim_prefix "/" method)

-- ServeHTTP from the look-up of the provider on
dispatch : NetHttp → HttpRequest → String → String → Option ServiceProvider → ServiceRouter → Reply
unfolding forward base_url_of
dispatch http req provider_id method none r = provider_not_found
dispatch http req provider_id method (some provider) r =
    if not (should_route_traffic r.lifecycle_server provider_id)
    then unavailable
    else forward http req provider method (base_url_of r provider provider_id)

with_handshake :
    NetHttp
    → HttpRequest
    → String
    → String
    → ServiceRouter
    → HandshakeServer × Bool
    → ServiceRouter × Reply
unfolding dispatch
with_handshake http req provider_id method r (h, valid) =
    let r' : ServiceRouter = record r { handshake_server = h } in
    if not valid then (r', invalid_token) else (
      r',
      dispatch http req provider_id method (get_provider_by_runtime_id r.registry provider_id) r',
    )

-- ServeHTTP for the three parts of the path, at the time `now`
authorize : NetHttp → ℕ → HttpRequest → String → String → ServiceRouter → ServiceRouter × Reply
unfolding with_handshake
authorize http now req provider_id method r =
    let caller_id = http.header_get req.headers "X-Plugin-Runtime-ID" in
    let auth_header = http.header_get req.headers "Authorization" in
    if caller_id == ""
    then (r, id_required)
    else if not (has_prefix "Bearer " auth_header)
    then (r, bearer_required)
    else with_handshake http req provider_id method r
        (validate_token now caller_id (trim_prefix "Bearer " auth_header) r.handshake_server)

pub for_parts : NetHttp → ℕ → HttpRequest → List String → ServiceRouter → ServiceRouter × Reply
unfolding authorize
for_parts http now req (service_type ∷ provider_id ∷ rest ∷ more) r =
    authorize http now req provider_id ("/" <> rest) r
for_parts http now req _ r = (r, invalid_path)

-- ServeHTTP, at the time `now`
unfoldable pub serve_http : NetHttp → ℕ → HttpRequest → ServiceRouter → ServiceRouter × Reply
unfolding for_parts split_n
serve_http http now req r =
    if not (has_prefix "/services/" req.path)
    then (r, not_found)
    else for_parts http now req (split_n 3 (trim_prefix "/services/" req.path)) r
