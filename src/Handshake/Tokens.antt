-- ===== src/Handshake/Tokens.antt =====
-- Which runtime tokens the host accepts.
use connect_plugin_go.Prelude.{
  ℕ, ◌+◌, ◌≤◌, String, ◌≡◌, ◌≢◌, subst, refl, ◌⊎◌, inl, inr, true, ◌&&◌, Bool-cases, Option-cases,
  none, some, List, [], ◌∷◌, arith, eq_iff, eq_self, leb, ltb, ◌==◌, if◌then◌else◌,
}
use connect_plugin_go.Prelude.Int.{pos}
use connect_plugin_go.Prelude.Maps.{get, put, get-put, get-delete}
use connect_plugin_go.Random.{generate_runtime_id, generate_token, generate_runtime_id-ne-empty}
use connect_plugin_go.Validation.{validate_self_id}
use connect_plugin_go.Broker.{same_secret}
use connect_plugin_go.Handshake.{
  TokenInfo, ServeConfig, HandshakeServer, HandshakeRequest, HandshakeResponse, Entropy, Result, ok,
  err, handshake, respond, validate_token, response_of, cookie_matches, int_eq, to_int32,
  server_version, token_ttl, new_handshake_server, assign_identity, Identity, HandshakeError,
}

-- A shake of hands, or a look at a token.
pub data Event : Type 0 where
  shake : ℕ → Entropy → HandshakeRequest → Event
  check : ℕ → String → String → Event

unfoldable pub step : HandshakeServer → Event → HandshakeServer
step h (shake now entropy req) = (handshake now entropy req h).0
step h (check now id token) = (validate_token now id token h).0

unfoldable pub run : HandshakeServer → List Event → HandshakeServer
unfolding step
run h [] = h
run h (e ∷ es) = run (step h e) es

-- A handshake of the run has answered with this runtime id and token, which expires at `until`.
pub data IssuedBy (id token : String) (until : ℕ) : HandshakeServer → List Event → Type 0 where
  here :
      {h : HandshakeServer} (now : ℕ) (entropy : Entropy) (req : HandshakeRequest)
      (resp : HandshakeResponse) (es : List Event)
      → (handshake now entropy req h).1 ≡ ok resp
      → resp.runtime_id ≡ id
      → resp.runtime_token ≡ token
      → until ≡ now + token_ttl h.cfg
      → IssuedBy id token until h (shake now entropy req ∷ es)
  there :
      {h : HandshakeServer} (e : Event) (es : List Event)
      → IssuedBy id token until (step h e) es
      → IssuedBy id token until h (e ∷ es)

same_secret_iff : (s t : String) → same_secret s t ≡ (s == t)
same_secret_iff s t = ground (arith, eq_iff s t)

pub Identity-cases :
    (r : Result Identity) → ((i : Identity) × (r ≡ ok i)) ⊎ ((x : HandshakeError) × (r ≡ err x))
Identity-cases (ok i) = inl (i, refl)
Identity-cases (err x) = inr (x, refl)

abbrev pub with_token : HandshakeServer → ℕ → String → String → HandshakeServer
with_token h now id token = record h {
  tokens =
      put h.tokens id
        (record { token = token; issued_at = now; expires_at = now + token_ttl h.cfg });
}

pub assign_identity_cases :
    (now : ℕ) (entropy : Entropy) (self_id : String) (h : HandshakeServer)
    → (((assign_identity now entropy self_id h).0 ≡ h)
        × ((i : Identity) → (assign_identity now entropy self_id h).1 ≡ ok i → i.runtime_id ≡ ""))
      ⊎ ((id : String) × (token : String) × (assign_identity now entropy self_id h
            ≡ (with_token h now id token, ok (record { runtime_id = id; runtime_token = token })))
          × (id ≢ ""))
unfolding assign_identity
assign_identity_cases now entropy self_id h =
    elim (Option-cases (generate_runtime_id self_id entropy.id_bytes)) [
      | inl lacks ↦ inl (ground arith, λ i q. ground arith)
      | inr (id, e) ↦ elim (Option-cases (generate_token entropy.token_bytes)) [
        | inl lacks ↦ inl (ground arith, λ i q. ground arith)
        | inr (token, f) ↦ elim (Bool-cases (self_id == "")) [
          | inl anonymous ↦ inl (ground arith, λ i q. ground arith)
          | inr named ↦ elim (Option-cases (validate_self_id self_id)) [
            | inr (x, bad) ↦ inl (ground arith, λ i q. ground arith)
            | inl good ↦
                inr
                  (id, token, ground arith, generate_runtime_id-ne-empty self_id entropy.id_bytes e)
          ]
        ]
      ]
    ]

anonymous :
    (now : ℕ) (entropy : Entropy) (req : HandshakeRequest) (h : HandshakeServer)
    → ((i : Identity) → (assign_identity now entropy req.self_id h).1 ≡ ok i → i.runtime_id ≡ "")
    → (resp : HandshakeResponse) → (handshake now entropy req h).1 ≡ ok resp
    → resp.runtime_id ≡ ""
unfolding handshake respond response_of
anonymous now entropy req h unnamed resp answer =
    elim (Identity-cases (assign_identity now entropy req.self_id h).1) [
      | inl (i, e) ↦ ground (arith, unnamed i e)
      | inr (x, e) ↦ ground arith
    ]

handshake_cases :
    (now : ℕ) (entropy : Entropy) (req : HandshakeRequest) (h : HandshakeServer)
    → (((handshake now entropy req h).0 ≡ h)
        × ((resp : HandshakeResponse)
            → (handshake now entropy req h).1 ≡ ok resp
            → resp.runtime_id ≡ ""))
      ⊎ ((id : String) × (token : String) × (resp : HandshakeResponse) × ((handshake now entropy req
              h).0
            ≡ with_token h now id token)
          × ((handshake now entropy req h).1 ≡ ok resp)
          × (resp.runtime_id ≡ id)
          × (resp.runtime_token ≡ token))
unfolding handshake respond
handshake_cases now entropy req h = elim (assign_identity_cases now entropy req.self_id h) [
  | inl (same, unnamed) ↦ inl (ground arith, anonymous now entropy req h unnamed)
  | inr (id, token, e, named) ↦
      elim (Bool-cases (
        cookie_matches h.cfg req
        && int_eq req.core_protocol_version (pos 1)
        && int_eq req.app_protocol_version (to_int32 (server_version h.cfg)))) [
          | inr refused ↦ inl (ground arith, λ r q. ground arith)
          | inl admitted ↦ inr (
            id,
            token,
            response_of h.cfg req (record { runtime_id = id; runtime_token = token }),
            ground arith,
            ground arith,
            unfold response_of in ground (arith, eq_iff id ""),
            unfold response_of in ground (arith, eq_iff id ""),
          )
        ]
]

-- A token on record after a step was on record before, or the step is a handshake that issues it.
step-tokens :
    (h : HandshakeServer) (e : Event) (es : List Event) (id : String) (info : TokenInfo)
    → get (step h e).tokens id ≡ some info
    → (get h.tokens id ≡ some info) ⊎ IssuedBy id info.token info.expires_at h (e ∷ es)
unfolding step
step-tokens h (shake now entropy req) es id info g = elim (handshake_cases now entropy req h) [
  | inl (same, unnamed) ↦ inl (ground arith)
  | inr (id', token, resp, after, answer, eid, etok) ↦
      let old : TokenInfo = record {
        token = token;
        issued_at = now;
        expires_at = now + token_ttl h.cfg;
      } in
      elim (Bool-cases (id' == id)) [
        | inl this ↦ inr (
            here now entropy req resp es answer (ground (arith, eq_iff id' id))
              (ground (arith, get-put h.tokens id' id old))
              (ground (arith, get-put h.tokens id' id old)))
        | inr other ↦ inl (ground (arith, get-put h.tokens id' id old))
      ]
]
step-tokens h (check now id' token) es id info g =
    inl (unfold validate_token in ground (arith, get-delete h.tokens id' id))

run-tokens :
    (h : HandshakeServer) (es : List Event) (id : String) (info : TokenInfo)
    → get (run h es).tokens id ≡ some info
    → (get h.tokens id ≡ some info) ⊎ IssuedBy id info.token info.expires_at h es
unfolding run
run-tokens h [] id info g = inl g
run-tokens h (e ∷ es) id info g = elim (run-tokens (step h e) es id info g) [
  | inl before ↦ step-tokens h e es id info before
  | inr issued ↦ inr (there e es issued)
]

accepted :
    (h : HandshakeServer) (now : ℕ) (id token : String)
    → (validate_token now id token h).1 ≡ true
    → (info : TokenInfo) × (get h.tokens id ≡ some info)
      × (info.token ≡ token)
      × (now ≤ info.expires_at)
unfolding validate_token
accepted h now id token v = elim (Option-cases (get h.tokens id)) [
  | inl lacks ↦ absurd (ground arith)
  | inr (info, e) ↦ (info, e, ground (arith, eq_iff info.token token), ground arith)
]

-- A token that ValidateToken accepts at the time `now`, after any run of handshakes and validations
-- on a new server, is one that a handshake of that run answered with for that runtime id, and its
-- time to live, counted from that handshake, is not over.
pub accepted_was_issued :
    (cfg : ServeConfig) (es : List Event) (now : ℕ) (id token : String)
    → (validate_token now id token (run (new_handshake_server cfg) es)).1 ≡ true
    → (until : ℕ) × IssuedBy id token until (new_handshake_server cfg) es × (now ≤ until)
accepted_was_issued cfg es now id token v =
    let (info, found, same, fresh) = accepted (run (new_handshake_server cfg) es) now id token v in
    elim (run-tokens (new_handshake_server cfg) es id info found) [
      | inl before ↦ absurd (unfold get in cc)
      | inr issued ↦ (
        info.expires_at,
        subst (λ t. IssuedBy id t info.expires_at (new_handshake_server cfg) es) same issued,
        fresh,
      )
    ]

-- The answer of a handshake that issues an identity: from then on ValidateToken accepts its token
-- for its runtime id up to and including the moment at which the time to live ends, and no other
-- token for that id; after that moment it accepts none and forgets the id.
pub issued_until_expiry :
    (h : HandshakeServer) (now later : ℕ) (entropy : Entropy) (req : HandshakeRequest)
    (resp : HandshakeResponse) (token : String)
    → (handshake now entropy req h).1 ≡ ok resp
    → resp.runtime_id ≢ ""
    → let h' = (handshake now entropy req h).0 in
      let (h'', accepts) = validate_token later resp.runtime_id token h' in
      (accepts ≡ (leb later (now + token_ttl h.cfg) && resp.runtime_token == token))
      × (get h''.tokens resp.runtime_id
          ≡ (if ltb (now + token_ttl h.cfg) later then none else get h'.tokens resp.runtime_id))
unfolding validate_token
issued_until_expiry h now later entropy req resp token answer named =
    elim (handshake_cases now entropy req h) [
      | inl (same, unnamed) ↦ absurd (named (unnamed resp answer))
      | inr (id, token', resp', after, answer', eid, etok) ↦
          let old : TokenInfo = record {
            token = token';
            issued_at = now;
            expires_at = now + token_ttl h.cfg;
          } in
          ground (
            arith,
            get-put h.tokens id id old,
            eq_self id,
            eq_iff token' token,
            get-delete (put h.tokens id old) id id,
          )
    ]
