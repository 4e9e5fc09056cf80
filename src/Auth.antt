-- ===== src/Auth.antt =====
-- auth.go, auth_token.go and the interceptors of auth_mtls.go. A unary function of connect takes the
-- auth context of its context and the headers of the request; `calls` are the contexts with which the
-- handler behind the interceptors has been called, in their order. Of net/http, Header.Get and
-- Header.Set are parameters.
pub mod Tokens
pub mod Compose
use connect_plugin_go.Prelude.{
  String, Bool, true, false, not, Option, none, some, List, [], ◌∷◌, ◌++◌, ◌==◌, if◌then◌else◌,
}
use connect_plugin_go.Prelude.Maps.{Map}
use connect_plugin_go.Prelude.Text.{◌<>◌, has_prefix, trim_prefix}

pub record AuthContext : Type 0 where
  pub identity : String
  pub claims : Map String
  pub provider : String

abbrev pub Headers : Type 0
Headers = Map (List String)

pub record HeaderAccess : Type 0 where
  pub get : Headers → String → String
  pub set : Headers → String → String → Headers

-- The errors of the interceptors, and those of what is behind them.
pub data Failure (Error : Type 0) : Type 0 where
  missing_header invalid_format no_validator invalid_token : Failure Error
  no_auth_context authentication_failed authentication_required : Failure Error
  from_next : Error → Failure Error

pub data Result (A Error : Type 0) : Type 0 where
  ok : A → Result A Error
  err : Failure Error → Result A Error

pub record Run (A Error : Type 0) : Type 0 where
  pub calls : List (Option AuthContext)
  pub result : Result A Error

abbrev pub UnaryFunc : Type 0 → Type 0 → Type 0
UnaryFunc A Error = Option AuthContext → Headers → Run A Error

abbrev pub Interceptor : Type 0 → Type 0 → Type 0
Interceptor A Error = UnaryFunc A Error → UnaryFunc A Error

pub record AuthProvider (A Error : Type 0) : Type 0 where
  pub client_interceptor : Interceptor A Error
  pub server_interceptor : Interceptor A Error

-- A token with its validator, which gives the identity and the claims.
pub record TokenAuth : Type 0 where
  pub token : String
  pub validate_token : Option (String → Option (String × Map String))
  pub header : String
  pub prefix : String

-- NewTokenAuth
abbrev pub new_token_auth : String → Option (String → Option (String × Map String)) → TokenAuth
new_token_auth token validate = record {
  token = token;
  validate_token = validate;
  header = "Authorization";
  prefix = "Bearer ";
}

-- NewAPIKeyAuth
abbrev pub new_api_key_auth : String → Option (String → Option (String × Map String)) → TokenAuth
new_api_key_auth key validate = record {
  token = key;
  validate_token = validate;
  header = "X-API-Key";
  prefix = "";
}

-- The error that is reported when no provider has succeeded
abbrev pub last_error : {Error : Type 0} → Option (Failure Error) → Failure Error
last_error none = authentication_failed
last_error (some e) = e

-- The context that MTLSAuth's server interceptor sets
abbrev pub mtls_context : AuthContext
mtls_context = record {
  identity = "mtls-client";
  claims = ("verified", "true") ∷ [];
  provider = "mtls";
}

module _ {A Error : Type 0} where
  -- The handler behind all interceptors
  abbrev pub handler : (Option AuthContext → Headers → Result A Error) → UnaryFunc A Error
  handler f auth headers = record { calls = auth ∷ []; result = f auth headers }

  abbrev pub refuse : Failure Error → Run A Error
  refuse e = record { calls = []; result = err e }

  -- RequireAuth
  unfoldable pub require_auth : Interceptor A Error
  require_auth next none headers = refuse authentication_required
  require_auth next (some auth) headers = next (some auth) headers

  -- ComposeAuthClient
  unfoldable pub compose_auth_client : List (AuthProvider A Error) → Interceptor A Error
  compose_auth_client [] next = next
  compose_auth_client (p ∷ ps) next = p.client_interceptor (compose_auth_client ps next)

  -- What each provider wraps: the next function, where the auth context is set.
  abbrev pub when_set : Interceptor A Error
  when_set next none headers = refuse no_auth_context
  when_set next (some auth) headers = next (some auth) headers

  abbrev pub is_ok : Result A Error → Bool
  is_ok (ok a) = true
  is_ok (err e) = false

  abbrev error_of : Result A Error → Option (Failure Error)
  error_of (ok a) = none
  error_of (err e) = some e

  -- The loop over the providers; `last` is `lastErr`, and `before` the calls made so far.
  pub try_providers :
      List (AuthProvider A Error)
      → UnaryFunc A Error
      → Option AuthContext
      → Headers
      → Option (Failure Error)
      → List (Option AuthContext)
      → Run A Error
  try_providers [] next auth headers last before = record {
    calls = before;
    result = err (last_error last);
  }
  try_providers (p ∷ ps) next auth headers last before =
      let r = p.server_interceptor (when_set next) auth headers in
      let rest = try_providers ps next auth headers (error_of r.result) (before ++ r.calls) in
      if is_ok r.result then record { calls = before ++ r.calls; result = r.result } else rest

  -- ComposeAuthServer
  unfoldable pub compose_auth_server : List (AuthProvider A Error) → Interceptor A Error
  unfolding try_providers
  compose_auth_server [] next auth headers = next auth headers
  compose_auth_server (p ∷ ps) next auth headers = try_providers (p ∷ ps) next auth headers none []

  pub validated : Option (String × Map String) → UnaryFunc A Error → Headers → Run A Error
  validated none next headers = refuse invalid_token
  validated (some (identity, claims)) next headers =
      next (some (record { identity = identity; claims = claims; provider = "token" })) headers

  pub with_validator :
      Option (String → Option (String × Map String))
      → String
      → UnaryFunc A Error
      → Headers
      → Run A Error
  unfolding validated
  with_validator none token next headers = refuse no_validator
  with_validator (some validate) token next headers = validated (validate token) next headers

  -- MTLSAuth's interceptors
  abbrev pub mtls_client : Interceptor A Error
  mtls_client next = next

  unfoldable pub mtls_server : Interceptor A Error
  mtls_server next auth headers = next (some mtls_context) headers

  abbrev pub mtls_provider : AuthProvider A Error
  mtls_provider = record { client_interceptor = mtls_client; server_interceptor = mtls_server }

module _ (http : HeaderAccess) {A Error : Type 0} where
  -- TokenAuth.ClientInterceptor
  unfoldable pub token_client : TokenAuth → Interceptor A Error
  token_client t next auth headers =
      if t.token == ""
      then next auth headers
      else next auth (http.set headers t.header (t.prefix <> t.token))

  -- TokenAuth.ServerInterceptor
  unfoldable pub token_server : TokenAuth → Interceptor A Error
  unfolding with_validator
  token_server t next auth headers =
      let given = http.get headers t.header in
      if given == ""
      then refuse missing_header
      else if t.prefix == ""
      then with_validator t.validate_token given next headers
      else if not (has_prefix t.prefix given)
      then refuse invalid_format
      else with_validator t.validate_token (trim_prefix t.prefix given) next headers

  abbrev pub token_provider : TokenAuth → AuthProvider A Error
  token_provider t = record {
    client_interceptor = token_client t;
    server_interceptor = token_server t;
  }
