-- ===== src/Platform/Removal.antt =====
-- What a removed plugin can still be reached by.
use connect_plugin_go.Prelude.{
  ℕ, String, ◌≡◌, ◌≢◌, sym, ap, ◌∙◌, inl, inr, Option-cases, none, some, List, [], ◌∷◌, arith,
  eq_iff,
}
use connect_plugin_go.Prelude.Maps.{get, IsDistinct}
use connect_plugin_go.Handshake.{HandshakeServer}
use connect_plugin_go.Prelude.Text.{split_n, trim_prefix}
use connect_plugin_go.Registry.{ServiceProvider, ServiceRegistry, get_provider_by_runtime_id}
use connect_plugin_go.Registry.Register.{unregister_plugin_services}
use connect_plugin_go.Registry.Tables.{IsConsistent}
use connect_plugin_go.Registry.Removal.{unregister_plugin_services_lem}
use connect_plugin_go.Registry.Lookup.{get_provider_by_runtime_id_lem}
use connect_plugin_go.Router.{ServiceRouter, HttpRequest, NetHttp, serve_http}
use connect_plugin_go.Router.Admission.{outgoing, sent_only_if_IsEntitled}
use connect_plugin_go.Platform.{Platform, Meanwhile, remove_plugin}

-- The router on the platform's parts.
abbrev pub router_of : Platform → HandshakeServer → ServiceRouter
router_of p handshake = record {
  handshake_server = handshake;
  registry = p.registry;
  lifecycle_server = p.lifecycle_server;
  plugin_endpoints = p.plugin_endpoints;
}

abbrev second_of : List String → String
second_of (a ∷ b ∷ rest) = b
second_of _ = ""

-- The registry when the call of Shutdown begins, and when it is over.
abbrev pub unregistered : String → Meanwhile → Platform → ServiceRegistry
unregistered id grace p = unregister_plugin_services id (grace p.registry p.lifecycle_server).0

abbrev pub stopped : String → (grace stopping : Meanwhile) → Platform → ServiceRegistry
stopped id grace stopping p =
    (stopping (unregistered id grace p) (grace p.registry p.lifecycle_server).1).0

-- Each of the plugin's registrations in the one registry is in the other.
abbrev pub AddsNone : String → ServiceRegistry → ServiceRegistry → Type 0
AddsNone id before after =
    (reg : String) (q : ServiceProvider)
    → get after.registrations reg ≡ some q
    → q.runtime_id ≡ id
    → get before.registrations reg ≡ some q

removed_cases :
    (id : String) (grace stopping : Meanwhile) (p : Platform)
    → (remove_plugin id grace stopping p).1 ≡ none
    → (remove_plugin id grace stopping p).0.registry ≡ stopped id grace stopping p
unfolding remove_plugin
removed_cases id grace stopping p h = elim (Option-cases (get p.plugins id)) [
  | inl unknown ↦ absurd (ground arith)
  | inr (i, e) ↦ ground arith
]

unregistered-absent :
    (id : String) (r after : ServiceRegistry) (provider : ServiceProvider)
    → IsConsistent r
    → IsDistinct after.registrations
    → AddsNone id (unregister_plugin_services id r) after
    → get_provider_by_runtime_id after id ≢ some provider
unregistered-absent id r after provider c distinct adds_none h =
    let (kept, rest) = unregister_plugin_services_lem id r c in
    let (reg, found, own) = get_provider_by_runtime_id_lem after id provider distinct h in
    let before = adds_none reg provider found own in
    ground (arith, rest reg, before, own, eq_iff provider.runtime_id id)

-- RemovePlugin has succeeded. In the grace period the plugins may do to the registry whatever they like
-- that leaves its tables in agreement; during the call of Shutdown, which comes after the plugin's
-- services are unregistered, anything but register a service for the removed plugin again. (A map
-- holds each key once.) Then for a call whose path names the removed plugin the router sends nothing.
pub removed_gets_no_calls :
    (id : String) (grace stopping : Meanwhile) (p : Platform) (http : NetHttp) (now : ℕ)
    (req : HttpRequest) (handshake : HandshakeServer) (type rest : String)
    → IsConsistent (grace p.registry p.lifecycle_server).0
    → IsDistinct (stopped id grace stopping p).registrations
    → AddsNone id (unregistered id grace p) (stopped id grace stopping p)
    → (remove_plugin id grace stopping p).1 ≡ none
    → split_n 3 (trim_prefix "/services/" req.path) ≡ type ∷ id ∷ rest ∷ []
    → outgoing
        (serve_http http now req (router_of (remove_plugin id grace stopping p).0 handshake)).1
      ≡ none
removed_gets_no_calls id grace stopping p http now req handshake type rest c distinct adds_none done
      path =
    let p' = (remove_plugin id grace stopping p).0 in
    let r = router_of p' handshake in
    elim (Option-cases (outgoing (serve_http http now req r).1)) [
      | inl none_sent ↦ none_sent
      | inr (sent, out) ↦
          let e = sent_only_if_IsEntitled http now req r sent out in
          let same : e.provider_id ≡ id = ap second_of (sym e.path ∙ path) in
          absurd (
            unregistered-absent id (grace p.registry p.lifecycle_server).0
              (stopped id grace stopping p) e.provider c distinct adds_none
              (ap (λ t. get_provider_by_runtime_id t id)
                  (sym (removed_cases id grace stopping p done))
                ∙ ap (get_provider_by_runtime_id p'.registry) (sym same)
                ∙ e.registered))
    ]
