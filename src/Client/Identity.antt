-- ===== src/Client/Identity.antt =====
-- The identity that a connected client has.
use connect_plugin_go.Prelude.{
  ℕ, ◌+◌, String, ◌≡◌, ◌≢◌, refl, ◌∙◌, inl, inr, true, false, Option, none, some, Option-cases,
  List, arith, eq_iff, eq_self, leb,
}
use connect_plugin_go.Prelude.Text.{◌<>◌}
use connect_plugin_go.Random.{generate_runtime_id, generate_token, generate_runtime_id-ne-empty}
use connect_plugin_go.Lifecycle.{HealthState}
use connect_plugin_go.Handshake.{
  HandshakeRequest, HandshakeResponse, HandshakeServer, Entropy, Identity, handshake, respond,
  response_of, assign_identity, validate_token, token_ttl,
}
use connect_plugin_go.Handshake.Tokens.{Identity-cases, issued_until_expiry}
use connect_plugin_go.Handshake
use connect_plugin_go.Client.{
  Client, ClientError, ok, connect, after_handshake, do_handshake, accept_response, check_response,
  store_identity, request_of, report_health,
}
use connect_plugin_go.Client.Connects.{answered, served, connect_fresh}

named_identity :
    (now : ℕ) (entropy : Entropy) (self_id : String) (h : HandshakeServer) (i : Identity)
    → self_id ≢ ""
    → (assign_identity now entropy self_id h).1 ≡ Handshake.ok i
    → i.runtime_id ≢ ""
unfolding assign_identity
named_identity now entropy self_id h i named e =
    elim (Option-cases (generate_runtime_id self_id entropy.id_bytes)) [
      | inl f ↦ absurd (ground (arith, eq_iff self_id ""))
      | inr (id, f) ↦ elim (Option-cases (generate_token entropy.token_bytes)) [
        | inl g ↦ absurd (ground (arith, eq_iff self_id ""))
        | inr (token, g) ↦
            ground
              (arith, eq_iff self_id "", generate_runtime_id-ne-empty self_id entropy.id_bytes f)
      ]
    ]

handshake_named :
    (now : ℕ) (entropy : Entropy) (req : HandshakeRequest) (h : HandshakeServer)
    (resp : HandshakeResponse)
    → req.self_id ≢ ""
    → (handshake now entropy req h).1 ≡ Handshake.ok resp
    → resp.runtime_id ≢ ""
unfolding handshake respond response_of
handshake_named now entropy req h resp named answer =
    elim (Identity-cases (assign_identity now entropy req.self_id h).1) [
      | inl (i, e) ↦
          ground (arith, named_identity now entropy req.self_id h i named e, eq_iff i.runtime_id "")
      | inr (x, e) ↦ absurd (ground arith)
    ]

-- What a client that has accepted a response has stored
accept_response_stores :
    (r : Handshake.Result HandshakeResponse) (c : Client)
    → (accept_response (answered r) c).1 ≡ none
    → (resp : HandshakeResponse) × (r ≡ Handshake.ok resp)
      × ((accept_response (answered r) c).0 ≡ store_identity resp c)
unfolding accept_response
accept_response_stores (Handshake.err e) c h = absurd (ground arith)
accept_response_stores (Handshake.ok resp) c h = elim (Option-cases (check_response c.cfg resp)) [
  | inl e ↦ (resp, refl, rw (accept_response, e) refl)
  | inr (x, e) ↦ absurd (ground arith)
]

store_named :
    (resp : HandshakeResponse) (c : Client)
    → resp.runtime_id ≢ ""
    → store_identity resp c ≡ record c {
      runtime_id = resp.runtime_id;
      runtime_token = resp.runtime_token;
      lifecycle_client = some c.cfg.endpoint;
      registry_client = some c.cfg.endpoint;
    }
unfolding store_identity
store_named resp c named = ground (arith, eq_iff resp.runtime_id "")

after_handshake_stores :
    (e : Client × Option ClientError)
    → (after_handshake e).1 ≡ none
    → (e.1 ≡ none) × ((after_handshake e).0 ≡ record e.0 { connected = true })
unfolding after_handshake
after_handshake_stores (c, none) h = (refl, refl)
after_handshake_stores (c, some e) h = absurd (ground arith)

-- A client with an endpoint and a self id, not closed and not yet connected, that has connected to the
-- repository's handshake server: it has a runtime id and a token, which that server accepts up to and
-- including the end of the token's time to live and not after it; and ReportHealth sends them to the
-- endpoint.
pub identity_is_accepted :
    (now later : ℕ) (entropy : Entropy) (h : HandshakeServer) (c : Client)
    → c.closed ≡ false
    → c.connected ≡ false
    → c.cfg.endpoint ≢ ""
    → c.cfg.self_id ≢ ""
    → (connect (served now entropy h) c).1 ≡ none
    → let c' = (connect (served now entropy h) c).0 in
      let h' = (handshake now entropy (request_of c.cfg) h).0 in
      (c'.runtime_id ≢ "")
      × ((validate_token later c'.runtime_id c'.runtime_token h').1
          ≡ leb later (now + token_ttl h.cfg))
      × ((state : HealthState) (reason : String) (deps : List String)
          → report_health state reason deps c'
            ≡ ok (record {
              to = c.cfg.endpoint;
              runtime_id = c'.runtime_id;
              authorization = "Bearer " <> c'.runtime_token;
              state = state;
              reason = reason;
              unavailable_dependencies = deps;
            }))
unfolding do_handshake store_identity request_of report_health
identity_is_accepted now later entropy h c unclosed fresh placed named connects =
    let c' : Client = record c { http_client = true } in
    let service = served now entropy h in
    let (accepts, after) =
      after_handshake_stores (do_handshake service c')
        (rw (connect_fresh service c unclosed fresh placed) at connects) in
    let (resp, answer, stored) =
      accept_response_stores (handshake now entropy (request_of c.cfg) h).1 c' accepts in
    let id = handshake_named now entropy (request_of c.cfg) h resp named answer in
    rw (connect_fresh service c unclosed fresh placed, after, stored, store_named resp c' id)
      (
        id,
        ((issued_until_expiry h now later entropy (request_of c.cfg) resp resp.runtime_token answer
              id).0
            ∙ ground (arith, eq_self resp.runtime_token)),
        λ state reason deps. refl,
      )
