-- ===== src/Client/Resolve.antt =====
-- The endpoint that a client connects to.
use mathlib.Core.Option.{some-injective}
use connect_plugin_go.Prelude.{
  String, ◌≡◌, ◌≢◌, refl, sym, subst, ◌⊎◌, ◌∙◌, ap, inl, inr, true, false, not, ◌&&◌, Bool-cases,
  Option, none, some, Option-cases, [], ◌∷◌, arith, eq_iff, ◌==◌, if◌then◌else◌,
}
use connect_plugin_go.Discovery.{Discovered, found, failed, DiscoveryService}
use connect_plugin_go.Client.Connects.{resolve_named}
use connect_plugin_go.Client.{
  ClientConfig, Client, ClientError, ok, new_client, made, validate, with_host_url,
  with_service_name, plugins_error, with_first, is_missing, client_of, resolve_endpoint,
  resolve_with, discover_endpoint,
}

first_url : Discovered → Option String
first_url (failed e) = none
first_url (found []) = none
first_url (found (e ∷ es)) = some e.url

discovered_url : String → Option DiscoveryService → Option String
discovered_url name none = some ""
discovered_url name (some d) = first_url (d.discover (if name == "" then "plugin-host" else name))

-- Where a client with the configuration is to connect to, none where that cannot be found out
unfoldable pub chosen : ClientConfig → Option String
unfolding first_url discovered_url
chosen cfg =
    if not (cfg.endpoint == "")
    then some cfg.endpoint
    else if not (cfg.host_url == "")
    then some cfg.host_url
    else discovered_url cfg.discovery_service_name cfg.discovery

unfoldable pub resolved : Client × Option ClientError → Option String
resolved (c, none) = some c.cfg.endpoint
resolved (c, some e) = none

made_cases :
    (v : ClientConfig × Option ClientError) (c : Client)
    → made v ≡ ok c
    → (v.1 ≡ none) × (c ≡ client_of (with_host_url v.0))
unfolding made
made_cases (cfg, none) c h = (refl, cc)
made_cases (cfg, some e) c h = absurd (ground arith)

-- The configuration that NewClient gives a client
abbrev normalized : ClientConfig → ClientConfig
normalized cfg = with_host_url (with_service_name cfg.discovery (with_host_url cfg))

new_client_cases :
    (cfg : ClientConfig) (c : Client)
    → new_client cfg ≡ ok c
    → ((cfg.endpoint == "" && cfg.host_url == "" && is_missing cfg.discovery) ≡ false)
      × (c ≡ client_of (normalized cfg))
unfolding new_client validate made
new_client_cases cfg c h =
    elim (Bool-cases (cfg.endpoint == "" && cfg.host_url == "" && is_missing cfg.discovery)) [
      | inl bad ↦ absurd (ground arith)
      | inr fine ↦
          let (accepted, e) =
            made_cases
              (
                with_service_name cfg.discovery (with_host_url cfg),
                plugins_error (with_service_name cfg.discovery (with_host_url cfg)).plugins,
              )
              c (rw fine at h) in
          (fine, e)
    ]

discover_endpoint_resolves : (d : Discovered) (c : Client) → resolved (with_first d c) ≡ first_url d
unfolding with_first resolved first_url
discover_endpoint_resolves (failed e) c = refl
discover_endpoint_resolves (found []) c = refl
discover_endpoint_resolves (found (e ∷ es)) c = refl

host_url_kept :
    (cfg : ClientConfig) → (cfg.endpoint ≢ "") ⊎ (cfg.host_url ≡ "") → with_host_url cfg ≡ cfg
unfolding with_host_url
host_url_kept cfg h = ground (arith, eq_iff cfg.endpoint "", eq_iff cfg.host_url "")

service_name_keeps :
    (d : Option DiscoveryService) (cfg : ClientConfig)
    → let cfg' = with_service_name d cfg in
      (cfg'.endpoint ≡ cfg.endpoint)
      × (cfg'.host_url ≡ cfg.host_url)
      × (cfg'.discovery ≡ cfg.discovery)
unfolding with_service_name
service_name_keeps none cfg = (refl, refl, refl)
service_name_keeps (some d) cfg = (ground arith, ground arith, ground arith)

-- A configuration with an endpoint
resolve_endpoint_given :
    (cfg : ClientConfig) (d : Option DiscoveryService)
    → cfg.endpoint ≢ ""
    → resolved (resolve_endpoint (client_of (with_host_url (with_service_name d cfg))))
      ≡ some cfg.endpoint
unfolding resolve_endpoint resolved
resolve_endpoint_given cfg d named =
    let (e, u, s) = service_name_keeps d cfg in
    let named' = subst (λ x. x ≢ "") (sym e) named in
    rw
      (
        host_url_kept (with_service_name d cfg) (inl named'),
        resolve_endpoint,
        resolve_named ((with_service_name d cfg).discovery) (client_of (with_service_name d cfg))
            named',
      )
      (ap some e)

abbrev name_or_default : String → String
name_or_default name = if name == "" then "plugin-host" else name

resolve_with_empty :
    (d : DiscoveryService) (c : Client)
    → c.cfg.endpoint ≡ ""
    → resolve_with (some d) c ≡ discover_endpoint d c
unfolding resolve_with
resolve_with_empty d c e = ground (arith, eq_iff c.cfg.endpoint "")

resolve_with_discovers :
    (d : DiscoveryService) (d' : Option DiscoveryService) (c : Client)
    → d' ≡ some d
    → c.cfg.endpoint ≡ ""
    → resolved (resolve_with d' c)
      ≡ first_url (d.discover (name_or_default c.cfg.discovery_service_name))
unfolding resolve_with discover_endpoint
resolve_with_discovers d none c e none_given = absurd (ground arith)
resolve_with_discovers d (some d') c e none_given =
    ap resolved (resolve_with_empty d' c none_given)
    ∙ discover_endpoint_resolves (d'.discover (name_or_default c.cfg.discovery_service_name)) c
    ∙ ap (λ x. first_url (x.discover (name_or_default c.cfg.discovery_service_name)))
        (some-injective d' d e)

service_name_kept :
    (d : DiscoveryService) (cfg : ClientConfig)
    → name_or_default (with_service_name (some d) cfg).discovery_service_name
      ≡ name_or_default cfg.discovery_service_name
unfolding with_service_name
service_name_kept d cfg = ground arith

-- A configuration with neither an endpoint nor a host URL
resolve_endpoint_discovered :
    (d : DiscoveryService) (cfg : ClientConfig)
    → cfg.endpoint ≡ ""
    → cfg.discovery ≡ some d
    → cfg.host_url ≡ ""
    → resolved (resolve_endpoint (client_of (with_host_url (with_service_name (some d) cfg))))
      ≡ discovered_url cfg.discovery_service_name (some d)
unfolding resolve_endpoint resolve_with discover_endpoint discovered_url
resolve_endpoint_discovered d cfg none_given set no_host =
    let (e, u, s) = service_name_keeps (some d) cfg in
    rw (host_url_kept (with_service_name (some d) cfg) (inr (u ∙ no_host))) (
      resolve_with_discovers d (with_service_name (some d) cfg).discovery
        (client_of (with_service_name (some d) cfg)) (s ∙ set) (e ∙ none_given)
      ∙ ap (λ name. first_url (d.discover name)) (service_name_kept d cfg))

host_url_taken :
    (cfg : ClientConfig)
    → cfg.endpoint ≡ ""
    → cfg.host_url ≢ ""
    → with_host_url cfg ≡ record cfg { endpoint = cfg.host_url }
unfolding with_host_url
host_url_taken cfg none_given host = ground (arith, eq_iff cfg.host_url "", eq_iff cfg.endpoint "")

-- Where a client with this configuration connects to, with this discovery for its service name
abbrev reached : Option DiscoveryService → ClientConfig → Option String
reached d cfg = resolved (resolve_endpoint (client_of (with_host_url (with_service_name d cfg))))

normalized_given :
    (cfg : ClientConfig)
    → (cfg.endpoint == "") ≡ false
    → reached cfg.discovery (with_host_url cfg) ≡ chosen cfg
unfolding chosen
normalized_given cfg named =
    let named' : cfg.endpoint ≢ "" = ground (arith, eq_iff cfg.endpoint "") in
    ap (reached cfg.discovery) (host_url_kept cfg (inl named'))
    ∙ resolve_endpoint_given cfg cfg.discovery named'
    ∙ ground arith

normalized_host :
    (cfg : ClientConfig)
    → (cfg.endpoint == "") ≡ true
    → (cfg.host_url == "") ≡ false
    → reached cfg.discovery (with_host_url cfg) ≡ chosen cfg
unfolding chosen
normalized_host cfg absent host =
    let host' : cfg.host_url ≢ "" = ground (arith, eq_iff cfg.host_url "") in
    ap (reached cfg.discovery) (host_url_taken cfg (ground (arith, eq_iff cfg.endpoint "")) host')
    ∙ resolve_endpoint_given (record cfg { endpoint = cfg.host_url }) cfg.discovery host'
    ∙ ground arith

normalized_discovered :
    (d : DiscoveryService) (cfg : ClientConfig)
    → (cfg.endpoint == "") ≡ true
    → (cfg.host_url == "") ≡ true
    → cfg.discovery ≡ some d
    → reached cfg.discovery (with_host_url cfg) ≡ chosen cfg
unfolding chosen
normalized_discovered d cfg absent no_host set =
    let absent' : cfg.endpoint ≡ "" = ground (arith, eq_iff cfg.endpoint "") in
    let no_host' : cfg.host_url ≡ "" = ground (arith, eq_iff cfg.host_url "") in
    ap (reached cfg.discovery) (host_url_kept cfg (inr no_host'))
    ∙ ap (λ o. reached o cfg) set
    ∙ resolve_endpoint_discovered d cfg absent' set no_host'
    ∙ ap (discovered_url cfg.discovery_service_name) (sym set)
    ∙ ground arith

-- The endpoint of a new client when it connects is the configured endpoint; where there is none, the
-- host URL; and only where there is neither, the first endpoint that discovery finds for the service
-- name, or for plugin-host where none is given. Where discovery finds none there is an error.
pub resolves_to_chosen :
    (cfg : ClientConfig) (c : Client)
    → new_client cfg ≡ ok c
    → resolved (resolve_endpoint c) ≡ chosen cfg
unfolding chosen
resolves_to_chosen cfg c made =
    let (fine, e) = new_client_cases cfg c made in
    ap (λ x. resolved (resolve_endpoint x)) e ∙ (elim (Bool-cases (cfg.endpoint == "")) [
      | inr named ↦ normalized_given cfg named
      | inl absent ↦ elim (Bool-cases (cfg.host_url == "")) [
        | inr host ↦ normalized_host cfg absent host
        | inl no_host ↦ elim (Option-cases cfg.discovery) [
          | inl none_set ↦ absurd (ground (arith, fine))
          | inr (d, set) ↦ normalized_discovered d cfg absent no_host set
        ]
      ]
    ])
