-- ===== src/Broker/Grants.antt =====
-- Where a grant is served, and for how long.
use connect_plugin_go.Prelude.{
  ℕ, ◌+◌, String, ◌≡◌, inl, inr, true, Option, none, some, List, arith, eq_iff, eq_self,
  Option-cases, ltb, ◌==◌, if◌then◌else◌,
}
use connect_plugin_go.Prelude.Maps.{get, put, get-put, get-delete}
use connect_plugin_go.Prelude.Text.{
  ◌<>◌, has_no_slash, split-append, has_prefix-append, trim_prefix-append, join-split,
}
use connect_plugin_go.Random.{generate_grant_id, generate_token}
use connect_plugin_go.Random.Alphabet.{IsBytes, generate_grant_id_no_slash}
use connect_plugin_go.Broker.{
  CapabilityHandler, GrantInfo, CapabilityBroker, CapabilityGrant, request_capability, granted,
  handle_capability_request, serve, grant_expired, invalid_token, use_grant, route,
}

abbrev pub with_grant : CapabilityBroker → String → GrantInfo → CapabilityBroker
with_grant b id info = record b { grants = put b.grants id info }

-- A request for a capability is granted only if the capability is registered and the random bytes
-- could be read.
pub granted_cases :
    (now : ℕ) (type : String) (id_bytes token_bytes : Option (List ℕ)) (b : CapabilityBroker)
    (grant : CapabilityGrant)
    → (request_capability now type id_bytes token_bytes b).1 ≡ granted grant
    → (handler : CapabilityHandler) × (get b.capabilities type ≡ some handler)
      × (generate_grant_id id_bytes ≡ some grant.grant_id)
      × ((request_capability now type id_bytes token_bytes b).0
          ≡ with_grant b grant.grant_id (record {
            grant_id = grant.grant_id;
            capability_type = type;
            token = grant.bearer_token;
            handler = handler;
            issued_at = now;
            expires_at = now + b.grant_ttl;
          }))
      × (grant.endpoint_url ≡ b.base_url <> "/capabilities/" <> type <> "/" <> grant.grant_id)
unfolding request_capability
granted_cases now type id_bytes token_bytes b grant h =
    elim (Option-cases (get b.capabilities type)) [
      | inl lacks ↦ absurd (ground arith)
      | inr (handler, e) ↦ elim (Option-cases (generate_grant_id id_bytes)) [
        | inl lacks ↦ absurd (ground arith)
        | inr (id, f) ↦ elim (Option-cases (generate_token token_bytes)) [
          | inl lacks ↦ absurd (ground arith)
          | inr (token, k) ↦ (handler, e, ground arith, ground arith, ground arith)
        ]
      ]
    ]

-- handleCapabilityRequest for a path of a type, a grant id and a rest.
handle-path :
    (now : ℕ) (type id rest secret : String) (b : CapabilityBroker)
    → has_no_slash type ≡ true
    → has_no_slash id ≡ true
    → handle_capability_request now
        ("/capabilities/" <> type <> "/" <> id <> "/" <> rest)
        ("Bearer " <> secret)
        b
      ≡ use_grant now id secret ("/" <> rest) (get b.grants id) b
unfolding handle_capability_request route
handle-path now type id rest secret b h k = rw (
  trim_prefix-append "/capabilities/" (type <> "/" <> id <> "/" <> rest),
  split-append type (id <> "/" <> rest) h,
  split-append id rest k,
  has_prefix-append "Bearer " secret,
  trim_prefix-append "Bearer " secret,
  join-split rest,
)

-- What RequestCapability grants, for a capability type without a slash and random bytes that are bytes,
-- is served at the URL that it answers with: a request for a path below it, with the grant's token as its bearer token, reaches the capability's handler with the path that
-- is left, up to and including the moment at which the time to live ends. Any other token is refused.
-- After that moment each token is, and the grant is removed.
pub granted_is_served :
    (b : CapabilityBroker) (now later : ℕ) (type rest secret : String) (id_bytes : List ℕ)
    (token_bytes : Option (List ℕ)) (grant : CapabilityGrant)
    → has_no_slash type ≡ true
    → IsBytes id_bytes
    → (request_capability now type (some id_bytes) token_bytes b).1 ≡ granted grant
    → let b' = (request_capability now type (some id_bytes) token_bytes b).0 in
      let (b'', reply) =
        handle_capability_request later
          ("/capabilities/" <> type <> "/" <> grant.grant_id <> "/" <> rest)
          ("Bearer " <> secret)
          b' in
      (grant.endpoint_url ≡ b.base_url <> "/capabilities/" <> type <> "/" <> grant.grant_id)
      × ((handler : CapabilityHandler) × (get b.capabilities type ≡ some handler)
          × (reply ≡ (
              if ltb (now + b.grant_ttl) later
              then grant_expired
              else if grant.bearer_token == secret
              then serve handler ("/" <> rest)
              else invalid_token)))
      × (get b''.grants grant.grant_id
          ≡ (if ltb (now + b.grant_ttl) later then none else get b'.grants grant.grant_id))
granted_is_served b now later type rest secret id_bytes token_bytes grant plain bytes h =
    let (handler, known, eid, after, url) =
      granted_cases now type (some id_bytes) token_bytes b grant h in
    let id = grant.grant_id in
    let info : GrantInfo = record {
      grant_id = id;
      capability_type = type;
      token = grant.bearer_token;
      handler = handler;
      issued_at = now;
      expires_at = now + b.grant_ttl;
    } in
    let b' = (request_capability now type (some id_bytes) token_bytes b).0 in
    let e =
      handle-path later type id rest secret b' plain
        (generate_grant_id_no_slash id_bytes id bytes eid) in
    let at_id : get b'.grants id ≡ some info =
      ground (arith, get-put b.grants id id info, eq_self id) in
    (
      url,
      (
        handler,
        known,
        unfold use_grant in ground (arith, e, at_id, eq_iff grant.bearer_token secret),
      ),
      unfold use_grant in ground (arith, e, at_id, get-delete b'.grants id id, eq_self id),
    )
