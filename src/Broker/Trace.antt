-- ===== src/Broker/Trace.antt =====
-- What a run of the broker serves, and by which grant.
use connect_plugin_go.Prelude.{
  ℕ, ◌+◌, ◌≤◌, String, ◌≡◌, sym, ap, subst, ◌∙◌, ◌⊎◌, inl, inr, true, Option, some, List, [], ◌∷◌,
  arith, eq_iff, Bool-cases, Option-cases, ◌==◌,
}
use connect_plugin_go.Prelude.Maps.{get, get-put, get-delete}
use connect_plugin_go.Prelude.Text.{◌<>◌, has_prefix, trim_prefix, split}
use connect_plugin_go.Random.{generate_grant_id, generate_token}
use connect_plugin_go.Broker.{
  CapabilityHandler, GrantInfo, CapabilityBroker, CapabilityGrant, new_capability_broker,
  request_capability, granted, handle_capability_request, serve, register_capability, use_grant,
  route,
}
use connect_plugin_go.Broker.Grants.{granted_cases}

-- A capability is registered or requested, or a request for one arrives.
pub data Event : Type 0 where
  register : CapabilityHandler → Event
  request : ℕ → String → Option (List ℕ) → Option (List ℕ) → Event
  arrive : ℕ → String → String → Event

unfoldable pub step : CapabilityBroker → Event → CapabilityBroker
step b (register handler) = register_capability handler b
step b (request now type id_bytes token_bytes) =
    (request_capability now type id_bytes token_bytes b).0
step b (arrive now path auth) = (handle_capability_request now path auth b).0

unfoldable pub run : CapabilityBroker → List Event → CapabilityBroker
unfolding step
run b [] = b
run b (e ∷ es) = run (step b e) es

-- A request of the run was granted with this token, for this capability's handler, until `until`.
pub data GrantedBy (token : String) (handler : CapabilityHandler) (until : ℕ)
    : CapabilityBroker → List Event → Type 0 where
  here :
      {b : CapabilityBroker} (now : ℕ) (type : String) (id_bytes token_bytes : Option (List ℕ))
      (grant : CapabilityGrant) (es : List Event)
      → (request_capability now type id_bytes token_bytes b).1 ≡ granted grant
      → grant.bearer_token ≡ token
      → get b.capabilities type ≡ some handler
      → until ≡ now + b.grant_ttl
      → GrantedBy token handler until b (request now type id_bytes token_bytes ∷ es)
  there :
      {b : CapabilityBroker} (e : Event) (es : List Event)
      → GrantedBy token handler until (step b e) es
      → GrantedBy token handler until b (e ∷ es)

request_cases :
    (now : ℕ) (type : String) (id_bytes token_bytes : Option (List ℕ)) (b : CapabilityBroker)
    → ((request_capability now type id_bytes token_bytes b).0 ≡ b)
      ⊎ ((grant : CapabilityGrant) × ((request_capability now type id_bytes token_bytes b).1
            ≡ granted grant))
unfolding request_capability
request_cases now type id_bytes token_bytes b = elim (Option-cases (get b.capabilities type)) [
  | inl lacks ↦ inl (ground arith)
  | inr (handler, e) ↦ elim (Option-cases (generate_grant_id id_bytes)) [
    | inl lacks ↦ inl (ground arith)
    | inr (id, f) ↦ elim (Option-cases (generate_token token_bytes)) [
      | inl lacks ↦ inl (ground arith)
      | inr (token, k) ↦ inr (
        record {
          grant_id = id;
          endpoint_url = b.base_url <> "/capabilities/" <> type <> "/" <> id;
          bearer_token = token;
          capability_type = type;
          version = handler.version;
        },
        ground arith,
      )
    ]
  ]
]

-- What a request that arrives can do to the grants: remove one.
arrive-grants :
    (now : ℕ) (path auth : String) (b : CapabilityBroker) (id : String) (info : GrantInfo)
    → get (handle_capability_request now path auth b).0.grants id ≡ some info
    → get b.grants id ≡ some info
unfolding handle_capability_request
arrive-grants now path auth b id info = go (split (trim_prefix "/capabilities/" path))
  where
    go :
        (parts : List String)
        → get (route now auth parts b).0.grants id ≡ some info
        → get b.grants id ≡ some info
    go [] h = unfold route in ground arith
    go (type ∷ []) h = unfold route in ground arith
    go (type ∷ grant_id ∷ rest) h = elim (Option-cases (get b.grants grant_id)) [
      | inl lacks ↦ unfold route use_grant in ground arith
      | inr (i, e) ↦ unfold route use_grant in ground (arith, get-delete b.grants grant_id id)
    ]

-- A grant on record after a step was on record before, or the step is the request that it answers.
step-grants :
    (b : CapabilityBroker) (e : Event) (es : List Event) (id : String) (info : GrantInfo)
    → get (step b e).grants id ≡ some info
    → (get b.grants id ≡ some info) ⊎ GrantedBy info.token info.handler info.expires_at b (e ∷ es)
unfolding step
step-grants b (register handler) es id info h = inl (unfold register_capability in ground arith)
step-grants b (request now type id_bytes token_bytes) es id info h =
    elim (request_cases now type id_bytes token_bytes b) [
      | inl same ↦ inl (ground arith)
      | inr (grant, e) ↦
          let (handler, known, eid, after, url) =
            granted_cases now type id_bytes token_bytes b grant e in
          let new : GrantInfo = record {
            grant_id = grant.grant_id;
            capability_type = type;
            token = grant.bearer_token;
            handler = handler;
            issued_at = now;
            expires_at = now + b.grant_ttl;
          } in
          elim (Bool-cases (grant.grant_id == id)) [
            | inr other ↦ inl (ground (arith, get-put b.grants grant.grant_id id new))
            | inl this ↦
                let there_now : new ≡ info =
                  ground (arith, get-put b.grants grant.grant_id id new) in
                inr (
                  here now type id_bytes token_bytes grant es e (ap GrantInfo.token there_now)
                    (known ∙ ap (λ (i : GrantInfo). some i.handler) there_now)
                    (sym (ap GrantInfo.expires_at there_now)))
          ]
    ]
step-grants b (arrive now path auth) es id info h = inl (arrive-grants now path auth b id info h)

run-grants :
    (b : CapabilityBroker) (es : List Event) (id : String) (info : GrantInfo)
    → get (run b es).grants id ≡ some info
    → (get b.grants id ≡ some info) ⊎ GrantedBy info.token info.handler info.expires_at b es
unfolding run
run-grants b [] id info h = inl h
run-grants b (e ∷ es) id info h = elim (run-grants (step b e) es id info h) [
  | inl before ↦ step-grants b e es id info before
  | inr given ↦ inr (there e es given)
]

served_by_grant :
    (now : ℕ) (path auth : String) (b : CapabilityBroker) (handler : CapabilityHandler)
    (left : String)
    → (handle_capability_request now path auth b).1 ≡ serve handler left
    → (id : String) × (info : GrantInfo) × (get b.grants id ≡ some info)
      × (info.token ≡ trim_prefix "Bearer " auth)
      × (info.handler ≡ handler)
      × (now ≤ info.expires_at)
      × (has_prefix "Bearer " auth ≡ true)
unfolding handle_capability_request
served_by_grant now path auth b handler left = go (split (trim_prefix "/capabilities/" path))
  where
    go :
        (parts : List String)
        → (route now auth parts b).1 ≡ serve handler left
        → (id : String) × (info : GrantInfo) × (get b.grants id ≡ some info)
          × (info.token ≡ trim_prefix "Bearer " auth)
          × (info.handler ≡ handler)
          × (now ≤ info.expires_at)
          × (has_prefix "Bearer " auth ≡ true)
    go [] h = absurd (unfold route in ground arith)
    go (type ∷ []) h = absurd (unfold route in ground arith)
    go (type ∷ grant_id ∷ rest) h = elim (Option-cases (get b.grants grant_id)) [
      | inl lacks ↦ absurd (unfold route use_grant in ground arith)
      | inr (info, e) ↦ (
        grant_id,
        info,
        e,
        unfold route use_grant in ground (arith, eq_iff info.token (trim_prefix "Bearer " auth)),
        unfold route use_grant in ground arith,
        unfold route use_grant in ground arith,
        unfold route use_grant in ground arith,
      )
    ]

-- What the broker serves, after any run from a new broker, it serves under a grant: a request of that
-- run was granted with the token that the call bears, for the handler that is called, which was then
-- registered for the type that was asked for, and the grant's time to live is not over.
pub served_was_granted :
    (base_url : String) (es : List Event) (now : ℕ) (path auth : String)
    (handler : CapabilityHandler) (left : String)
    → (handle_capability_request now path auth (run (new_capability_broker base_url) es)).1
      ≡ serve handler left
    → (until : ℕ) × GrantedBy
        (trim_prefix "Bearer " auth)
        handler
        until
        (new_capability_broker base_url)
        es
      × (now ≤ until)
served_was_granted base_url es now path auth handler left h =
    let b = new_capability_broker base_url in
    let (id, info, found, token, served, fresh, bearer) =
      served_by_grant now path auth (run b es) handler left h in
    elim (run-grants b es id info found) [
      | inl before ↦ absurd (unfold get in cc)
      | inr given ↦ (
        info.expires_at,
        subst (λ x. GrantedBy (trim_prefix "Bearer " auth) x info.expires_at b es) served
            (subst (λ t. GrantedBy t info.handler info.expires_at b es) token given),
        fresh,
      )
    ]
