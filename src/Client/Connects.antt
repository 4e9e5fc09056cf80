-- ===== src/Client/Connects.antt =====
-- A client that connects to the repository's own handshake server.
use connect_plugin_go.Prelude.{
  ℕ, String, ◌≡◌, ◌≢◌, refl, Bool, true, false, not, ◌&&◌, ◌||◌, inl, inr, Bool-cases, Option, none,
  some, Option-cases, ◌==◌, arith, eq_iff,
}
use connect_plugin_go.Prelude.Maps.{keys}
use connect_plugin_go.Plugin.Sets.{names_match}
use connect_plugin_go.Handshake.{
  HandshakeRequest, HandshakeResponse, HandshakeServer, PluginInfo, Entropy, Identity, handshake,
  int_eq, to_int32, default_magic_cookie_key, default_magic_cookie_value, plugin_infos, info_of,
  response_of, respond, assign_identity, cookie_matches, server_version,
}
use connect_plugin_go.Discovery.{DiscoveryService}
use connect_plugin_go.Handshake
use connect_plugin_go.Handshake.Tokens.{assign_identity_cases}
use connect_plugin_go.Random.{generate_runtime_id, generate_token}
use connect_plugin_go.Validation.{validate_self_id}
use connect_plugin_go.Client.{
  ClientConfig, Client, ClientError, HandshakeService, all_available, is_missing, connect,
  resolve_endpoint, resolve_with, after_resolve, after_handshake, do_handshake, accept_response,
  check_response, request_of, client_version,
}
use connect_plugin_go.Client.Offered.{int_eq_comm, all_available-plugin_infos}

abbrev pub answered : Handshake.Result HandshakeResponse → Option HandshakeResponse
answered (Handshake.ok resp) = some resp
answered (Handshake.err e) = none

-- The repository's handshake server at every endpoint, at the time `now`
abbrev pub served : ℕ → Entropy → HandshakeServer → HandshakeService
served now entropy h url req = answered (handshake now entropy req h).1

-- A self id that the host can give an identity for, or none
unfoldable pub identifiable : Entropy → String → Bool
identifiable entropy self_id =
    self_id == ""
    || (is_missing (validate_self_id self_id)
        && not (is_missing (generate_runtime_id self_id entropy.id_bytes))
        && not (is_missing (generate_token entropy.token_bytes)))

-- What a client's and a host's configuration have to agree on
unfoldable pub agrees : Entropy → ClientConfig → HandshakeServer → Bool
agrees entropy cfg h =
    cookie_matches h.cfg (request_of cfg)
    && int_eq (to_int32 (client_version cfg)) (to_int32 (server_version h.cfg))
    && identifiable entropy cfg.self_id
    && all_available (keys cfg.plugins) (keys h.cfg.plugins)

abbrev identity_of : Handshake.Result Identity → Option Identity
identity_of (Handshake.ok i) = some i
identity_of (Handshake.err e) = none

assign_identity-identifiable :
    (now : ℕ) (entropy : Entropy) (self_id : String) (h : HandshakeServer)
    → is_missing (identity_of (assign_identity now entropy self_id h).1)
      ≡ not (identifiable entropy self_id)
unfolding assign_identity identifiable
assign_identity-identifiable now entropy self_id h =
    elim (Option-cases (generate_runtime_id self_id entropy.id_bytes)) [
      | inl e ↦ ground arith
      | inr (id, e) ↦ elim (Option-cases (generate_token entropy.token_bytes)) [
        | inl f ↦ ground arith
        | inr (token, f) ↦ ground arith
      ]
    ]

check_response-agrees :
    (cfg : ClientConfig) (h : HandshakeServer) (i : Identity)
    → names_match h.cfg.plugins ≡ true
    → int_eq (to_int32 (client_version cfg)) (to_int32 (server_version h.cfg)) ≡ true
    → is_missing (check_response cfg (response_of h.cfg (request_of cfg) i))
      ≡ all_available (keys cfg.plugins) (keys h.cfg.plugins)
unfolding check_response response_of request_of
check_response-agrees cfg h i match e = ground (
  arith,
  all_available-plugin_infos h.cfg.plugins (keys cfg.plugins) match,
  int_eq_comm (to_int32 (client_version cfg)) (to_int32 (server_version h.cfg)),
)

accept_response_missing :
    (resp : HandshakeResponse) (c : Client)
    → is_missing (accept_response (some resp) c).1 ≡ is_missing (check_response c.cfg resp)
unfolding accept_response
accept_response_missing resp c = elim (Option-cases (check_response c.cfg resp)) [
  | inl e ↦ rw (accept_response, e) refl
  | inr (x, e) ↦ rw (accept_response, e) refl
]

assign_identity-cfg :
    (now : ℕ) (entropy : Entropy) (self_id : String) (h : HandshakeServer)
    → (assign_identity now entropy self_id h).0.cfg ≡ h.cfg
assign_identity-cfg now entropy self_id h = elim (assign_identity_cases now entropy self_id h) [
  | inl (same, unnamed) ↦ rw same refl
  | inr (id, token, e, named) ↦ rw e refl
]

respond_missing :
    (h : HandshakeServer) (c : Client) (issued : HandshakeServer × Handshake.Result Identity)
    → issued.0.cfg ≡ h.cfg
    → names_match h.cfg.plugins ≡ true
    → int_eq (to_int32 (client_version c.cfg)) (to_int32 (server_version h.cfg)) ≡ true
    → is_missing (accept_response (answered (respond (request_of c.cfg) issued).1) c).1 ≡ (
        not (is_missing (identity_of issued.1))
        && all_available (keys c.cfg.plugins) (keys h.cfg.plugins))
unfolding respond accept_response
respond_missing h c (h', Handshake.err e) same match versions = refl
respond_missing h c (h', Handshake.ok i) same match versions =
    rw (accept_response_missing (response_of h'.cfg (request_of c.cfg) i) c, same)
      (check_response-agrees c.cfg h i match versions)

do_handshake-agrees :
    (now : ℕ) (entropy : Entropy) (h : HandshakeServer) (c : Client)
    → names_match h.cfg.plugins ≡ true
    → is_missing (do_handshake (served now entropy h) c).1 ≡ agrees entropy c.cfg h
unfolding do_handshake accept_response handshake agrees request_of
do_handshake-agrees now entropy h c match =
    elim (Bool-cases (cookie_matches h.cfg (request_of c.cfg))) [
      | inr differ ↦ rw differ refl
      | inl cookie ↦
          elim (Bool-cases
            (int_eq (to_int32 (client_version c.cfg)) (to_int32 (server_version h.cfg)))) [
              | inr differ ↦ rw (cookie, differ) refl
              | inl versions ↦
                  rw
                    (
                      cookie,
                      versions,
                      respond_missing h c (assign_identity now entropy c.cfg.self_id h)
                          (assign_identity-cfg now entropy c.cfg.self_id h) match versions,
                      assign_identity-identifiable now entropy c.cfg.self_id h,
                    )
                    (ground arith)
            ]
    ]

pub resolve_named :
    (d : Option DiscoveryService) (c : Client) → c.cfg.endpoint ≢ "" → resolve_with d c ≡ (c, none)
unfolding resolve_with
resolve_named none c named = refl
resolve_named (some d) c named = ground (arith, eq_iff c.cfg.endpoint "")

-- Connect of such a client comes down to its handshake.
pub connect_fresh :
    (service : HandshakeService) (c : Client)
    → c.closed ≡ false
    → c.connected ≡ false
    → c.cfg.endpoint ≢ ""
    → connect service c ≡ after_handshake (do_handshake service (record c { http_client = true }))
unfolding connect resolve_endpoint after_resolve
connect_fresh service c unclosed fresh named =
    rw (connect, resolve_endpoint, resolve_named c.cfg.discovery c named) (ground arith)

after_handshake_missing :
    (e : Client × Option ClientError) → is_missing (after_handshake e).1 ≡ is_missing e.1
unfolding after_handshake
after_handshake_missing (c, some e) = refl
after_handshake_missing (c, none) = refl

-- Connect of a client that has an endpoint, is not closed and is not yet connected, against the
-- repository's handshake server with a checked set of plugins: it succeeds just if the cookies and the
-- protocol versions agree, the host can give an identity for the client's self id where there is one,
-- and the host has all plugins of the client.
pub connects_iff :
    (now : ℕ) (entropy : Entropy) (h : HandshakeServer) (c : Client)
    → names_match h.cfg.plugins ≡ true
    → c.closed ≡ false
    → c.connected ≡ false
    → c.cfg.endpoint ≢ ""
    → is_missing (connect (served now entropy h) c).1 ≡ agrees entropy c.cfg h
connects_iff now entropy h c match unclosed fresh named =
    rw
      (
        connect_fresh (served now entropy h) c unclosed fresh named,
        after_handshake_missing
            (do_handshake (served now entropy h) (record c { http_client = true })),
      )
      (do_handshake-agrees now entropy h (record c { http_client = true }) match)
