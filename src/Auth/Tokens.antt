-- ===== src/Auth/Tokens.antt =====
-- A token from the client's interceptor to the server's.
use text.Mathlib.TextLemmas.{append-ne-nil_of_right_ne-nil, nil-append}
use connect_plugin_go.Prelude.{
  String, ◌≡◌, ◌≢◌, refl, sym, inl, inr, false, Option, none, some, arith, eq_iff, Bool-cases, ◌==◌,
}
use connect_plugin_go.Prelude.Maps.{Map}
use connect_plugin_go.Prelude.Text.{◌<>◌, has_prefix-append, trim_prefix-append}
use connect_plugin_go.Auth.{
  AuthContext, Headers, HeaderAccess, UnaryFunc, TokenAuth, token_client, token_server, refuse,
  invalid_token, with_validator, validated,
}

-- The test on the empty text
not_empty : {s : String} → s ≢ "" → (s == "") ≡ false
not_empty {s} ne = ground (arith, eq_iff s "")

-- A header that is the prefix and a token is read as that token.
token_server-read :
    {A Error : Type 0} (http : HeaderAccess) (server : TokenAuth) (next : UnaryFunc A Error)
    (auth : Option AuthContext) (headers : Headers) (token : String)
    → token ≢ ""
    → http.get headers server.header ≡ server.prefix <> token
    → token_server http server next auth headers
      ≡ with_validator server.validate_token token next headers
unfolding token_server
token_server-read http server next auth headers token named e =
    rw (e, not_empty (append-ne-nil_of_right_ne-nil server.prefix named))
      (elim (Bool-cases (server.prefix == "")) [
        | inl p ↦ rw (p, (eq_iff server.prefix "").0 p, nil-append) refl
        | inr p ↦ rw (p, has_prefix-append, trim_prefix-append) refl
      ])

validated-cases :
    {A Error : Type 0} (given : Option (String × Map String)) (next : UnaryFunc A Error)
    (headers : Headers)
    → validated given next headers ≡ (elim given [
      | none ↦ refuse invalid_token
      | some (identity, claims) ↦
          next (some (record { identity = identity; claims = claims; provider = "token" })) headers
    ])
unfolding validated
validated-cases none next headers = refl
validated-cases (some x) next headers = refl

-- With the client's and the server's TokenAuth set to the same header and prefix, and headers read back
-- as they are set: a request with a token goes to the next function under the identity and the claims
-- that the server's validator gives for just that token, and is refused where the validator refuses.
pub token_round_trip :
    {A Error : Type 0} (http : HeaderAccess) (client server : TokenAuth)
    (validate : String → Option (String × Map String)) (next : UnaryFunc A Error)
    (auth : Option AuthContext) (headers : Headers)
    → ((h : Headers) (k v : String) → http.get (http.set h k v) k ≡ v)
    → client.header ≡ server.header
    → client.prefix ≡ server.prefix
    → server.validate_token ≡ some validate
    → client.token ≢ ""
    → token_client http client (token_server http server next) auth headers
      ≡ (elim (validate client.token) [
        | none ↦ refuse invalid_token
        | some (identity, claims) ↦
            next
              (some (record { identity = identity; claims = claims; provider = "token" }))
              (http.set headers client.header (client.prefix <> client.token))
      ])
unfolding token_client token_server with_validator validated
token_round_trip http client server validate next auth headers read header prefix validator named =
    rw
      (
        not_empty named,
        token_server-read http server next auth
            (http.set headers client.header (client.prefix <> client.token)) client.token named
            (rw (sym header, read, prefix) refl),
        validator,
      )
      (validated-cases (validate client.token) next
        (http.set headers client.header (client.prefix <> client.token)))
