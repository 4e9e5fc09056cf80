-- ===== src/Router/Admission.antt =====
-- Which calls the router sends on, and where to.
use text.Mathlib.TextLemmas.{append_assoc}
use connect_plugin_go.Prelude.{
  ℕ, String, ◌≡◌, ◌≢◌, refl, ap, ◌∙◌, ◌⊎◌, inl, inr, true, Bool-cases, Option-cases, Option, none,
  some, [], ◌∷◌, arith, eq_iff,
}
use connect_plugin_go.Prelude.Text.{
  ◌<>◌, has_prefix, trim_prefix, split_n, cut, has_no_slash, cut-append, has_prefix-append,
  trim_prefix-append,
}
use connect_plugin_go.Lifecycle.{should_route_traffic}
use connect_plugin_go.Handshake.{HandshakeServer, validate_token}
use connect_plugin_go.Registry.{ServiceProvider, get_provider_by_runtime_id, endpoint_of}
use connect_plugin_go.Registry.Lookup.{get_provider_by_runtime_id-only}
use connect_plugin_go.Prelude.Maps.{get, IsDistinct}
use connect_plugin_go.Router.{
  ServiceRouter, HttpRequest, ProxyRequest, NetHttp, Reply, invalid_path, bad_gateway, relayed,
  proxy_request_of, relay, proxy_request, base_url_of, forward, dispatch, with_handshake, authorize,
  for_parts, serve_http,
}

-- The request that was sent for the caller, if one was.
abbrev pub outgoing : Reply → Option ProxyRequest
outgoing (bad_gateway sent) = some sent
outgoing (relayed sent code headers body) = some sent
outgoing _ = none

-- What entitles a call to be sent on: its path names a registered provider that traffic may go to and
-- whose base URL is known, and its headers hold a runtime id with a token that is valid for it.
pub record IsEntitled (http : NetHttp) (now : ℕ) (req : HttpRequest) (r : ServiceRouter)
    (sent : ProxyRequest) : Type 0 where
  pub service_type : String
  pub provider_id : String
  pub rest : String
  pub provider : ServiceProvider
  pub base_url : String
  pub under_services : has_prefix "/services/" req.path ≡ true
  pub path : split_n 3 (trim_prefix "/services/" req.path) ≡ service_type ∷ provider_id ∷ rest ∷ []
  pub named : http.header_get req.headers "X-Plugin-Runtime-ID" ≢ ""
  pub bearer : has_prefix "Bearer " (http.header_get req.headers "Authorization") ≡ true
  pub valid :
      (validate_token now
        (http.header_get req.headers "X-Plugin-Runtime-ID")
        (trim_prefix "Bearer " (http.header_get req.headers "Authorization"))
        r.handshake_server).1
      ≡ true
  pub registered : get_provider_by_runtime_id r.registry provider_id ≡ some provider
  pub routable : should_route_traffic r.lifecycle_server provider_id ≡ true
  pub reachable : base_url_of r provider provider_id ≡ some base_url
  pub target : sent ≡ proxy_request_of http req (base_url <> provider.endpoint_path <> rest)

split_n_three :
    (s : String)
    → ((a : String) × (b : String) × (c : String) × (split_n 3 s ≡ a ∷ b ∷ c ∷ []))
      ⊎ ((http : NetHttp) (now : ℕ) (req : HttpRequest) (r : ServiceRouter)
          → for_parts http now req (split_n 3 s) r ≡ (r, invalid_path))
unfolding split_n for_parts
split_n_three s = elim (Option-cases (cut s).1) [
  | inl one ↦ inr (λ http now req r. rw (one, for_parts))
  | inr (t, e) ↦ elim (Option-cases (cut t).1) [
    | inl two ↦ inr (λ http now req r. rw (e, two, for_parts))
    | inr (u, f) ↦ inl ((cut s).0, (cut t).0, u, ground (arith, e, f))
  ]
]

sent-proxy_request :
    (http : NetHttp) (req : HttpRequest) (url : String) (sent : ProxyRequest)
    → outgoing (proxy_request http req url) ≡ some sent
    → sent ≡ proxy_request_of http req url
unfolding proxy_request relay
sent-proxy_request http req url sent h =
    elim (Option-cases (http.send (proxy_request_of http req url))) [
      | inl failed ↦ ground arith
      | inr (resp, e) ↦ ground arith
    ]

-- What `dispatch` sends on.
dispatch-sent :
    (http : NetHttp) (req : HttpRequest) (id rest : String) (found : Option ServiceProvider)
    (r : ServiceRouter) (sent : ProxyRequest)
    → outgoing (dispatch http req id ("/" <> rest) found r) ≡ some sent
    → (provider : ServiceProvider) × (base_url : String) × (found ≡ some provider)
      × (should_route_traffic r.lifecycle_server id ≡ true)
      × (base_url_of r provider id ≡ some base_url)
      × (sent ≡ proxy_request_of http req (base_url <> provider.endpoint_path <> rest))
unfolding dispatch forward
dispatch-sent http req id rest none r sent h = absurd (ground arith)
dispatch-sent http req id rest (some provider) r sent h =
    elim (Bool-cases (should_route_traffic r.lifecycle_server id)) [
      | inr unroutable ↦ absurd (ground arith)
      | inl routable ↦ elim (Option-cases (base_url_of r provider id)) [
        | inl unknown ↦ absurd (ground arith)
        | inr (base_url, e) ↦ (
          provider,
          base_url,
          refl,
          routable,
          e,
          sent-proxy_request http req (base_url <> provider.endpoint_path <> rest) sent
              (ground (arith, trim_prefix-append "/" rest)),
        )
      ]
    ]

validate_token-router :
    (r : ServiceRouter) (h : HandshakeServer) (provider : ServiceProvider) (id : String)
    → base_url_of (record r { handshake_server = h }) provider id ≡ base_url_of r provider id
unfolding base_url_of
validate_token-router r h provider id = refl

-- What `authorize` sends on.
authorize-sent :
    (http : NetHttp) (now : ℕ) (req : HttpRequest) (id rest : String) (r : ServiceRouter)
    (sent : ProxyRequest)
    → outgoing (authorize http now req id ("/" <> rest) r).1 ≡ some sent
    → let caller = http.header_get req.headers "X-Plugin-Runtime-ID" in
      let auth = http.header_get req.headers "Authorization" in
      let checked = validate_token now caller (trim_prefix "Bearer " auth) r.handshake_server in
      (caller ≢ "")
      × (has_prefix "Bearer " auth ≡ true)
      × (checked.1 ≡ true)
      × (outgoing (
            dispatch http req id
              ("/" <> rest)
              (get_provider_by_runtime_id r.registry id)
              (record r { handshake_server = checked.0 }))
          ≡ some sent)
unfolding authorize with_handshake
authorize-sent http now req id rest r sent h = (
  ground (arith, eq_iff (http.header_get req.headers "X-Plugin-Runtime-ID") ""),
  ground arith,
  ground arith,
  ground arith,
)

-- What ServeHTTP sends, it sends for a call that is entitled to it: to the endpoint of the provider
-- that the path names, which is registered and not unhealthy, for a caller with a valid token.
pub sent_only_if_IsEntitled :
    (http : NetHttp) (now : ℕ) (req : HttpRequest) (r : ServiceRouter) (sent : ProxyRequest)
    → outgoing (serve_http http now req r).1 ≡ some sent
    → IsEntitled http now req r sent
unfolding serve_http
sent_only_if_IsEntitled http now req r sent h =
    elim (Bool-cases (has_prefix "/services/" req.path)) [
      | inr elsewhere ↦ absurd (ground arith)
      | inl under ↦ elim (split_n_three (trim_prefix "/services/" req.path)) [
        | inr short ↦ absurd (ground (arith, short http now req r))
        | inl (a, b, c, e) ↦
            let (named, bearer, valid, out) =
              authorize-sent http now req b c r sent (unfold for_parts in ground (arith, e)) in
            let r' : ServiceRouter = record r {
              handshake_server =
                  (validate_token now (http.header_get req.headers "X-Plugin-Runtime-ID")
                    (trim_prefix "Bearer " (http.header_get req.headers "Authorization"))
                    r.handshake_server).0;
            } in
            let (provider, base_url, registered, routable, reachable, target) =
              dispatch-sent http req b c (get_provider_by_runtime_id r.registry b) r' sent out in
            record {
              service_type = a;
              provider_id = b;
              rest = c;
              provider = provider;
              base_url = base_url;
              under_services = under;
              path = e;
              named = named;
              bearer = bearer;
              valid = valid;
              registered = registered;
              routable = routable;
              reachable = unfold base_url_of in reachable;
              target = target;
            }
      ]
    ]

split_n-parts :
    (a b c : String)
    → has_no_slash a ≡ true
    → has_no_slash b ≡ true
    → split_n 3 (a <> "/" <> b <> "/" <> c) ≡ a ∷ b ∷ c ∷ []
unfolding split_n
split_n-parts a b c h k = ground (arith, cut-append a (b <> "/" <> c) h, cut-append b c k)

-- A call below the URL that the registry gives out for a provider, whose service type and runtime id
-- have no slash, and which is registered and is the only registration of its plugin (in a map that
-- holds each key once); by a caller whose runtime id and token are valid, while traffic may go to the
-- provider and its base URL is known: ServeHTTP sends it to that base URL, with the provider's
-- endpoint path and the rest of the path behind it, and changes nothing but what the validation of
-- the token changes.
pub served_below_endpoint_url :
    (http : NetHttp) (now : ℕ) (req : HttpRequest) (r : ServiceRouter) (provider : ServiceProvider)
    (registration_id rest token base_url : String)
    → has_no_slash provider.service_type ≡ true
    → has_no_slash provider.runtime_id ≡ true
    → req.path ≡ (endpoint_of provider).endpoint_url <> "/" <> rest
    → http.header_get req.headers "X-Plugin-Runtime-ID" ≢ ""
    → http.header_get req.headers "Authorization" ≡ "Bearer " <> token
    → (validate_token now
        (http.header_get req.headers "X-Plugin-Runtime-ID")
        token
        r.handshake_server).1
      ≡ true
    → IsDistinct r.registry.registrations
    → get r.registry.registrations registration_id ≡ some provider
    → ((other : String) (q : ServiceProvider)
        → get r.registry.registrations other ≡ some q
        → q.runtime_id ≡ provider.runtime_id
        → q ≡ provider)
    → should_route_traffic r.lifecycle_server provider.runtime_id ≡ true
    → base_url_of r provider provider.runtime_id ≡ some base_url
    → serve_http http now req r ≡ (
      record r {
        handshake_server =
            (validate_token now
              (http.header_get req.headers "X-Plugin-Runtime-ID")
              token
              r.handshake_server).0;
      },
      proxy_request http req (base_url <> provider.endpoint_path <> rest),
    )
unfolding serve_http for_parts authorize with_handshake dispatch forward endpoint_of
served_below_endpoint_url http now req r provider registration_id rest token base_url plain_type
      plain_id path named auth valid distinct registered only routable reachable =
    let path' : req.path
        ≡ "/services/" <> provider.service_type <> "/" <> provider.runtime_id <> "/" <> rest =
      path
      ∙ append_assoc "/services/" (provider.service_type <> "/" <> provider.runtime_id)
          ("/" <> rest)
      ∙ ap (λ (t : String). "/services/" <> t)
          (append_assoc provider.service_type ("/" <> provider.runtime_id) ("/" <> rest)
            ∙ ap (λ (t : String). provider.service_type <> t)
                (append_assoc "/" provider.runtime_id ("/" <> rest))) in
    let tail : String = provider.service_type <> "/" <> provider.runtime_id <> "/" <> rest in
    let auth_header = http.header_get req.headers "Authorization" in
    let under : has_prefix "/services/" req.path ≡ true =
      ap (has_prefix "/services/") path' ∙ has_prefix-append "/services/" tail in
    let parts : split_n 3 (trim_prefix "/services/" req.path)
        ≡ provider.service_type ∷ provider.runtime_id ∷ rest ∷ [] =
      ap (λ (t : String). split_n 3 (trim_prefix "/services/" t)) path'
      ∙ ap (split_n 3) (trim_prefix-append "/services/" tail)
      ∙ split_n-parts provider.service_type provider.runtime_id rest plain_type plain_id in
    let bearer : has_prefix "Bearer " auth_header ≡ true =
      ap (has_prefix "Bearer ") auth ∙ has_prefix-append "Bearer " token in
    let given : trim_prefix "Bearer " auth_header ≡ token =
      ap (trim_prefix "Bearer ") auth ∙ trim_prefix-append "Bearer " token in
    let found =
      get_provider_by_runtime_id-only r.registry registration_id provider distinct registered
        only in
    unfold base_url_of in
    ground (
      arith,
      under,
      parts,
      bearer,
      given,
      trim_prefix-append "/" rest,
      reachable,
      found,
      routable,
      valid,
      eq_iff (http.header_get req.headers "X-Plugin-Runtime-ID") "",
    )
