-- ===== src/Auth/Compose.antt =====
-- ComposeAuthServer over the providers of the source.
use mathlib.Core.List.{append_assoc, append-nil}
use connect_plugin_go.Prelude.{
  ◌≡◌, refl, sym, ◌∙◌, String, Bool, true, false, not, Option, none, some, List, [], ◌∷◌, ◌++◌, map,
  if◌then◌else◌, ◌==◌,
}
use connect_plugin_go.Prelude.Maps.{Map}
use connect_plugin_go.Prelude.Text.{has_prefix, trim_prefix}
use connect_plugin_go.Auth.{
  AuthContext, Headers, HeaderAccess, Failure, Result, ok, err, Run, UnaryFunc, AuthProvider,
  TokenAuth, handler, refuse, no_auth_context, token_server, token_provider, mtls_server,
  mtls_provider, compose_auth_server, try_providers, is_ok, error_of, when_set, with_validator,
  validated,
}

-- The providers of the source
pub data Gate : Type 0 where
  token_gate : TokenAuth → Gate
  mtls_gate : Gate

-- A next function that gives back the auth context it is given
abbrev pub reveal : {Error : Type 0} → UnaryFunc AuthContext Error
reveal none headers = refuse no_auth_context
reveal (some auth) headers = record { calls = []; result = ok auth }

module _ (http : HeaderAccess) {A Error : Type 0} where
  abbrev pub provider_of : Gate → AuthProvider A Error
  provider_of (token_gate t) = token_provider http t
  provider_of mtls_gate = mtls_provider

module _ (http : HeaderAccess) where
  -- The context that a provider sets for the request, or its refusal
  unfoldable pub decide : {Error : Type 0} → Gate → Headers → Result AuthContext Error
  decide g headers = ((provider_of http g).server_interceptor reveal none headers).result

  -- The contexts of the providers that accept the request, in order
  unfoldable pub accepted : (Error : Type 0) → List Gate → Headers → List AuthContext
  accepted Error [] headers = []
  accepted Error (g ∷ gs) headers = elim (decide {Error = Error} g headers) [
    | ok auth ↦ auth ∷ accepted Error gs headers
    | err e ↦ accepted Error gs headers
  ]

module _ {A Error : Type 0} (f : Option AuthContext → Headers → Result A Error)
    (headers : Headers) where
  -- The contexts up to the first with which the handler succeeds, that one included
  unfoldable pub until_ok : List AuthContext → List AuthContext
  until_ok [] = []
  until_ok (auth ∷ auths) =
      if is_ok (f (some auth) headers) then auth ∷ [] else auth ∷ until_ok auths

  -- What the handler answers with the first context with which it succeeds
  unfoldable pub first_ok : List AuthContext → Option A
  first_ok [] = none
  first_ok (auth ∷ auths) = elim (f (some auth) headers) [ ok a ↦ some a | err e ↦ first_ok auths ]

abbrev pub value_of : {A Error : Type 0} → Result A Error → Option A
value_of (ok a) = some a
value_of (err e) = none

after : {A Error : Type 0} → Result AuthContext Error → UnaryFunc A Error → Headers → Run A Error
after (ok auth) next headers = next (some auth) headers
after (err e) next headers = refuse e

validated-decides :
    {A Error : Type 0} (given : Option (String × Map String)) (next : UnaryFunc A Error)
    (headers : Headers)
    → validated given next headers
      ≡ after ((validated {Error = Error} given reveal headers).result) next headers
unfolding validated after
validated-decides none next headers = refl
validated-decides (some x) next headers = refl

with_validator-decides :
    {A Error : Type 0} (validate : Option (String → Option (String × Map String))) (token : String)
    (next : UnaryFunc A Error) (headers : Headers)
    → with_validator validate token next headers
      ≡ after ((with_validator {Error = Error} validate token reveal headers).result) next headers
unfolding with_validator validated after
with_validator-decides none token next headers = refl
with_validator-decides (some validate) token next headers =
    validated-decides (validate token) next headers

-- A test before two runs that decide
if-decides :
    {A Error : Type 0} (next : UnaryFunc A Error) (headers : Headers) (b : Bool) {x y : Run A Error}
    (p q : Run AuthContext Error)
    → x ≡ after p.result next headers
    → y ≡ after q.result next headers
    → (if b then x else y) ≡ after ((if b then p else q).result) next headers
if-decides next headers true p q e f = e
if-decides next headers false p q e f = f

-- A provider's interceptor goes on with the context that it has decided on.
server_interceptor-decides :
    {A Error : Type 0} (http : HeaderAccess) (g : Gate) (next : UnaryFunc A Error)
    (auth : Option AuthContext) (headers : Headers)
    → (provider_of http g).server_interceptor next auth headers
      ≡ after (decide http g headers) next headers
unfolding decide token_server mtls_server after
server_interceptor-decides http (token_gate t) next auth headers =
    let given = http.get headers t.header in
    if-decides next headers (given == "") _ _ refl (
      if-decides next headers (t.prefix == "") _ _
        (with_validator-decides t.validate_token given next headers)
        (if-decides next headers (not (has_prefix t.prefix given)) _ _ refl
          (with_validator-decides t.validate_token (trim_prefix t.prefix given) next headers)))
server_interceptor-decides http mtls_gate next auth headers = refl

module _ {A Error : Type 0} (f : Option AuthContext → Headers → Result A Error)
    (headers : Headers) where
  -- A run that has called the handler with the contexts of `auths`, after the calls made before
  abbrev Tries : List (Option AuthContext) → List AuthContext → Run A Error → Type 0
  Tries before auths r =
      (r.calls ≡ before ++ map some (until_ok f headers auths))
      × (value_of r.result ≡ first_ok f headers auths)

  -- One call of the handler by the loop, with its outcome
  call-Tries :
      (auth : AuthContext) (auths : List AuthContext) (before : List (Option AuthContext))
      (rest : Run A Error) (out : Result A Error)
      → f (some auth) headers ≡ out
      → Tries (before ++ (some auth ∷ [])) auths rest
      → Tries before
          (auth ∷ auths)
          (if is_ok out then record { calls = before ++ (some auth ∷ []); result = out } else rest)
  unfolding until_ok first_ok
  call-Tries auth auths before rest (ok a) e t = (rw (until_ok, e) refl, rw (first_ok, e) refl)
  call-Tries auth auths before rest (err x) e t = (
    rw (until_ok, e)
        (t.0 ∙ append_assoc before (some auth ∷ []) (map some (until_ok f headers auths))),
    rw (first_ok, e) t.1,
  )

  -- One provider
  provider-Tries :
      (decision : Result AuthContext Error) (auths : List AuthContext)
      (before : List (Option AuthContext))
      (rest : Option (Failure Error) → List (Option AuthContext) → Run A Error)
      → ((last : Option (Failure Error)) (b : List (Option AuthContext))
          → Tries b auths (rest last b))
      → Tries before
          (elim decision [ ok auth ↦ auth ∷ auths | err e ↦ auths ])
          (let r = after decision (when_set (handler f)) headers in
            if is_ok r.result
            then record { calls = before ++ r.calls; result = r.result }
            else rest (error_of r.result) (before ++ r.calls))
  unfolding after
  provider-Tries (err e) auths before rest h = rw append-nil (h (some e) before)
  provider-Tries (ok auth) auths before rest h =
      call-Tries auth auths before
        (rest (error_of (f (some auth) headers)) (before ++ (some auth ∷ [])))
        (f (some auth) headers) refl
        (h (error_of (f (some auth) headers)) (before ++ (some auth ∷ [])))

  try_providers-Tries :
      (http : HeaderAccess) (gates : List Gate) (auth : Option AuthContext)
      (last : Option (Failure Error)) (before : List (Option AuthContext))
      → Tries before
          (accepted http Error gates headers)
          (try_providers (map (provider_of http) gates) (handler f) auth headers last before)
  unfolding try_providers accepted until_ok first_ok
  try_providers-Tries http [] auth last before = (sym (append-nil before), refl)
  try_providers-Tries http (g ∷ gs) auth last before =
      rw (server_interceptor-decides http g (when_set (handler f)) auth headers) (
        provider-Tries (decide http g headers) (accepted http Error gs headers) before
          (try_providers (map (provider_of http) gs) (handler f) auth headers)
          (try_providers-Tries http gs auth))

-- Behind token and mTLS providers, in any number but none at all, the handler is called with the
-- contexts of the providers that accept the request, in their order, up to and including the first with
-- which it succeeds; and what it answers there is the answer, or there is an error. Thus a handler that
-- fails is called again where a later provider accepts the request too.
pub handler_runs_until_ok :
    {A Error : Type 0} (http : HeaderAccess) (f : Option AuthContext → Headers → Result A Error)
    (g : Gate) (gs : List Gate) (auth : Option AuthContext) (headers : Headers)
    → (r : Run A Error) × (compose_auth_server
          (map (provider_of http) (g ∷ gs))
          (handler f)
          auth
          headers
        ≡ r)
      × (r.calls ≡ map some (until_ok f headers (accepted http Error (g ∷ gs) headers)))
      × (value_of r.result ≡ first_ok f headers (accepted http Error (g ∷ gs) headers))
unfolding compose_auth_server
handler_runs_until_ok http f g gs auth headers =
    let t = try_providers-Tries f headers http (g ∷ gs) auth none [] in (_, refl, t.0, t.1)
