-- ===== src/Samples/Identities.antt =====
-- A token between a client's and a server's interceptors, and providers in a row.
use connect_plugin_go.Prelude.{
  String, ◌≡◌, refl, Option, none, some, List, [], ◌∷◌, map, ◌==◌, eq_self, if◌then◌else◌,
}
use connect_plugin_go.Prelude.Maps.{Map, get_or, put, get_or-put}
use connect_plugin_go.Prelude.Text.{◌<>◌}
use connect_plugin_go.Auth.{
  AuthContext, Headers, HeaderAccess, Result, ok, err, from_next, Run, TokenAuth, new_token_auth,
  handler, refuse, invalid_token, token_client, token_server, compose_auth_server,
}
use connect_plugin_go.Auth.Tokens.{token_round_trip}
use connect_plugin_go.Auth.Compose.{
  Gate, token_gate, mtls_gate, provider_of, accepted, until_ok, first_ok, value_of,
  handler_runs_until_ok,
}

abbrev first : List String → String
first [] = ""
first (v ∷ vs) = v

abbrev http : HeaderAccess
http = record {
  get = λ headers key. first (get_or headers key []);
  set = λ headers key value. put headers key (value ∷ []);
}

http_reads : (h : Headers) (k v : String) → http.get (http.set h k v) k ≡ v
http_reads h k v = rw (get_or-put h k k (v ∷ []) [], eq_self k) refl

abbrev validate : String → Option (String × Map String)
validate token = if token == "s3cret" then some ("cache", []) else none

abbrev auth : TokenAuth
auth = new_token_auth "s3cret" (some validate)

-- A handler that fails for the identity that the token stands for
abbrev serve : Option AuthContext → Headers → Result String String
serve none headers = err (from_next "no context")
serve (some context) headers =
    if context.identity == "cache" then err (from_next "out of stock") else ok context.identity

token_round_trip_example :
    token_client http auth (token_server http auth (handler serve)) none []
    ≡ (elim (validate "s3cret") [
      | none ↦ refuse invalid_token
      | some (identity, claims) ↦
          handler serve
            (some (record { identity = identity; claims = claims; provider = "token" }))
            (http.set [] "Authorization" ("Bearer " <> "s3cret"))
    ])
token_round_trip_example =
    token_round_trip http auth auth validate (handler serve) none [] http_reads refl refl refl
      (λ e. cc)

abbrev gates : List Gate
gates = token_gate auth ∷ mtls_gate ∷ []

abbrev headers : Headers
headers = ("Authorization", "Bearer s3cret" ∷ []) ∷ []

handler_runs_until_ok_example :
    (r : Run String String) × (compose_auth_server
        (map (provider_of http) gates)
        (handler serve)
        none
        headers
      ≡ r)
    × (r.calls ≡ map some (until_ok serve headers (accepted http String gates headers)))
    × (value_of r.result ≡ first_ok serve headers (accepted http String gates headers))
handler_runs_until_ok_example =
    handler_runs_until_ok http serve (token_gate auth) (mtls_gate ∷ []) none headers
