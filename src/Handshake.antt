-- ===== src/Handshake.antt =====
-- handshake.go: the handshake between a plugin's client and the host, and the runtime tokens that it
-- issues. An expired token is removed when it is next looked at.
pub mod Tokens
use connect_plugin_go.Prelude.{
  ℕ, zero, suc, ◌+◌, ◌-◌, ◌%◌, ◌^◌, String, Bool, true, false, not, ◌&&◌, ◌||◌, Option, none, some,
  List, [], ◌∷◌, map, ltb, nat_eq, ◌==◌, if◌then◌else◌,
}
use connect_plugin_go.Prelude.Int.{ℤ, pos, negsuc, is_zero}
use connect_plugin_go.Prelude.Maps.{Map, get, put, delete}
use connect_plugin_go.Validation.{Invalid, validate_self_id}
use connect_plugin_go.Plugin.{ServiceDeclaration, ServiceDependency, PluginMetadata, PluginSet}
use connect_plugin_go.Random.{generate_runtime_id, generate_token}
use connect_plugin_go.Broker.{CapabilityBroker, Capability, list_capabilities, same_secret}

abbrev pub default_magic_cookie_key : String
default_magic_cookie_key = "CONNECT_PLUGIN"

abbrev pub default_magic_cookie_value : String
default_magic_cookie_value = "d3f40b3c2e1a5f8b9c4d7e6a1b2c3d4e"

-- 24 hours, in nanoseconds
abbrev default_runtime_token_ttl : ℕ
default_runtime_token_ttl = 86_400_000_000_000

pub record TokenInfo : Type 0 where
  pub token : String
  pub issued_at : ℕ
  pub expires_at : ℕ

-- The fields of ServeConfig that the handshake reads.
pub record ServeConfig : Type 0 where
  pub magic_cookie_key : String
  pub magic_cookie_value : String
  pub protocol_version : ℤ
  pub runtime_token_ttl : ℤ
  pub plugins : PluginSet
  pub server_metadata : Map String
  pub capability_broker : Option CapabilityBroker

pub record HandshakeServer : Type 0 where
  pub cfg : ServeConfig
  pub tokens : Map TokenInfo

abbrev pub new_handshake_server : ServeConfig → HandshakeServer
new_handshake_server cfg = record { cfg = cfg; tokens = [] }

pub record HandshakeRequest : Type 0 where
  pub magic_cookie_key : String
  pub magic_cookie_value : String
  pub core_protocol_version : ℤ
  pub app_protocol_version : ℤ
  pub self_id : String
  pub requested_plugins : List String

pub record PluginInfo : Type 0 where
  pub name : String
  pub version : String
  pub service_path : String
  pub provides : List ServiceDeclaration
  pub requires : List ServiceDependency

pub record HandshakeResponse : Type 0 where
  pub core_protocol_version : ℤ
  pub app_protocol_version : ℤ
  pub plugins : List PluginInfo
  pub server_metadata : Map String
  pub host_capabilities : List Capability
  pub runtime_id : String
  pub runtime_token : String

pub data HandshakeError : Type 0 where
  invalid_cookie unsupported_core_version version_mismatch random_failed : HandshakeError
  invalid_self_id : Invalid → HandshakeError

pub data Result (A : Type 0) : Type 0 where
  ok : A → Result A
  err : HandshakeError → Result A

-- The bytes that crypto/rand gives: 2 for the runtime id and 32 for the token.
pub record Entropy : Type 0 where
  pub id_bytes : Option (List ℕ)
  pub token_bytes : Option (List ℕ)

abbrev pub int_eq : ℤ → ℤ → Bool
int_eq (pos a) (pos b) = nat_eq a b
int_eq (negsuc a) (negsuc b) = nat_eq a b
int_eq _ _ = false

-- int32(z)
abbrev pub to_int32 : ℤ → ℤ
to_int32 (pos n) = let m = n % 2 ^ 32 in if ltb m (2 ^ 31) then pos m else negsuc (2 ^ 32 - m - 1)
to_int32 (negsuc n) =
    let m = n % 2 ^ 32 in if ltb m (2 ^ 31) then negsuc m else pos (2 ^ 32 - m - 1)

abbrev pub cookie_matches : ServeConfig → HandshakeRequest → Bool
cookie_matches cfg req =
    if cfg.magic_cookie_key == ""
    then req.magic_cookie_key == default_magic_cookie_key
      && req.magic_cookie_value == default_magic_cookie_value
    else req.magic_cookie_key == cfg.magic_cookie_key
      && req.magic_cookie_value == cfg.magic_cookie_value

abbrev pub server_version : ServeConfig → ℤ
server_version cfg = if is_zero cfg.protocol_version then pos 1 else cfg.protocol_version

abbrev pub token_ttl : ServeConfig → ℕ
token_ttl cfg = elim cfg.runtime_token_ttl [
  | pos zero ↦ default_runtime_token_ttl
  | pos (suc n) ↦ suc n
  | negsuc n ↦ default_runtime_token_ttl
]

-- The runtime identity that is issued; both texts are empty where the plugin gave no self id.
pub record Identity : Type 0 where
  pub runtime_id : String
  pub runtime_token : String

issue : ℕ → Option String → Option String → HandshakeServer → HandshakeServer × Result Identity
issue now none token h = (h, err random_failed)
issue now (some id) none h = (h, err random_failed)
issue now (some id) (some token) h = (
  record h {
    tokens =
        put h.tokens id
          (record { token = token; issued_at = now; expires_at = now + token_ttl h.cfg });
  },
  ok (record { runtime_id = id; runtime_token = token }),
)

unfoldable pub assign_identity :
    ℕ → Entropy → String → HandshakeServer → HandshakeServer × Result Identity
unfolding issue
assign_identity now entropy self_id h =
    if self_id == ""
    then (h, ok (record { runtime_id = ""; runtime_token = "" }))
    else elim (validate_self_id self_id) [
      | some e ↦ (h, err (invalid_self_id e))
      | none ↦
          issue now (generate_runtime_id self_id entropy.id_bytes)
            (generate_token entropy.token_bytes) h
    ]

unfoldable pub info_of : PluginMetadata → PluginInfo
info_of m = record {
  name = m.name;
  version = m.version;
  service_path = m.path;
  provides = m.provides;
  requires = m.requires;
}

-- The loop over the requested plugins; one that the host lacks is left out.
unfoldable pub plugin_infos : PluginSet → List String → List PluginInfo
unfolding info_of
plugin_infos plugins [] = []
plugin_infos plugins (name ∷ names) =
    let rest = plugin_infos plugins names in
    elim (get plugins name) [ none ↦ rest | some m ↦ info_of m ∷ rest ]

put_all : Map String → Map String → Map String
put_all into [] = into
put_all into ((k, v) ∷ m) = put_all (put into k v) m

abbrev capabilities_of : Option CapabilityBroker → List Capability
capabilities_of none = []
capabilities_of (some b) = list_capabilities b

unfoldable pub response_of : ServeConfig → HandshakeRequest → Identity → HandshakeResponse
unfolding plugin_infos put_all
response_of cfg req identity = record {
  core_protocol_version = pos 1;
  app_protocol_version = to_int32 (server_version cfg);
  plugins = plugin_infos cfg.plugins req.requested_plugins;
  server_metadata = put_all (("server_version", "0.1.0") ∷ []) cfg.server_metadata;
  host_capabilities = capabilities_of cfg.capability_broker;
  runtime_id = if identity.runtime_id == "" then "" else identity.runtime_id;
  runtime_token = if identity.runtime_id == "" then "" else identity.runtime_token;
}

unfoldable pub respond :
    HandshakeRequest
    → HandshakeServer × Result Identity
    → HandshakeServer × Result HandshakeResponse
respond req (h, err e) = (h, err e)
respond req (h, ok identity) = (h, ok (response_of h.cfg req identity))

-- Handshake, at the time `now`
unfoldable pub handshake :
    ℕ → Entropy → HandshakeRequest → HandshakeServer → HandshakeServer × Result HandshakeResponse
handshake now entropy req h =
    if not (cookie_matches h.cfg req)
    then (h, err invalid_cookie)
    else if not (int_eq req.core_protocol_version (pos 1))
    then (h, err unsupported_core_version)
    else if not (int_eq req.app_protocol_version (to_int32 (server_version h.cfg)))
    then (h, err version_mismatch)
    else respond req (assign_identity now entropy req.self_id h)

validate_info : ℕ → String → String → Option TokenInfo → HandshakeServer → HandshakeServer × Bool
validate_info now runtime_id token none h = (h, false)
validate_info now runtime_id token (some info) h =
    if ltb info.expires_at now
    then (record h { tokens = delete h.tokens runtime_id }, false)
    else (h, same_secret info.token token)

-- ValidateToken, at the time `now`
unfoldable pub validate_token : ℕ → String → String → HandshakeServer → HandshakeServer × Bool
unfolding validate_info
validate_token now runtime_id token h =
    validate_info now runtime_id token (get h.tokens runtime_id) h
