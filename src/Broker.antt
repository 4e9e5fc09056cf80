-- ===== src/Broker.antt =====
-- broker.go: the host's capabilities and the grants for them. A grant is a bearer token with a time
-- to live; an expired grant is removed when it is next used.
pub mod Grants
pub mod Trace
use Prim.Native.String.{len}
use connect_plugin_go.Prelude.{
  ℕ, suc, ◌+◌, String, Bool, true, false, not, Option, none, some, List, [], ◌∷◌, length, ltb,
  nat_eq, ◌==◌, if◌then◌else◌,
}
use connect_plugin_go.Prelude.Maps.{Map, get, put, delete}
use connect_plugin_go.Prelude.Text.{◌<>◌, has_prefix, trim_prefix, split, join}
use connect_plugin_go.Random.{generate_grant_id, generate_token}

-- The handler is what it says of itself, and a name for what serves its requests.
pub record CapabilityHandler : Type 0 where
  pub capability_type : String
  pub version : String
  pub serves : String

pub record GrantInfo : Type 0 where
  pub grant_id : String
  pub capability_type : String
  pub token : String
  pub handler : CapabilityHandler
  pub issued_at : ℕ
  pub expires_at : ℕ

pub record CapabilityBroker : Type 0 where
  pub capabilities : Map CapabilityHandler
  pub grants : Map GrantInfo
  pub base_url : String
  pub grant_ttl : ℕ

abbrev default_capability_grant_ttl : ℕ
default_capability_grant_ttl = 3_600_000_000_000

abbrev pub new_capability_broker : String → CapabilityBroker
new_capability_broker base_url = record {
  capabilities = [];
  grants = [];
  base_url = base_url;
  grant_ttl = default_capability_grant_ttl;
}

-- RegisterCapability
unfoldable pub register_capability : CapabilityHandler → CapabilityBroker → CapabilityBroker
register_capability handler b = record b {
  capabilities = put b.capabilities handler.capability_type handler;
}

pub record Capability : Type 0 where
  pub type : String
  pub version : String
  pub endpoint : String

list_from : String → Map CapabilityHandler → List Capability
list_from base_url [] = []
list_from base_url ((k, handler) ∷ m) =
    record {
      type = handler.capability_type;
      version = handler.version;
      endpoint = base_url <> "/broker";
    }
    ∷ list_from base_url m

-- ListCapabilities
unfoldable pub list_capabilities : CapabilityBroker → List Capability
unfolding list_from
list_capabilities b = list_from b.base_url b.capabilities

pub record CapabilityGrant : Type 0 where
  pub grant_id : String
  pub endpoint_url : String
  pub bearer_token : String
  pub capability_type : String
  pub version : String

pub data GrantResult : Type 0 where
  granted : CapabilityGrant → GrantResult
  not_available : GrantResult  -- CodeNotFound
  random_failed : GrantResult  -- CodeInternal

grant_with :
    ℕ
    → String
    → CapabilityHandler
    → Option String
    → Option String
    → CapabilityBroker
    → CapabilityBroker × GrantResult
grant_with now type handler none token b = (b, random_failed)
grant_with now type handler (some grant_id) none b = (b, random_failed)
grant_with now type handler (some grant_id) (some token) b = (
  record b {
    grants = put b.grants grant_id (record {
      grant_id = grant_id;
      capability_type = type;
      token = token;
      handler = handler;
      issued_at = now;
      expires_at = now + b.grant_ttl;
    });
  },
  granted (record {
    grant_id = grant_id;
    endpoint_url = b.base_url <> "/capabilities/" <> type <> "/" <> grant_id;
    bearer_token = token;
    capability_type = type;
    version = handler.version;
  }),
)

-- RequestCapability, at the time `now`, with the bytes read for the grant id and for the token
unfoldable pub request_capability :
    ℕ
    → String
    → Option (List ℕ)
    → Option (List ℕ)
    → CapabilityBroker
    → CapabilityBroker × GrantResult
unfolding grant_with
request_capability now type id_bytes token_bytes b = elim (get b.capabilities type) [
  | none ↦ (b, not_available)
  | some handler ↦
      grant_with now type handler (generate_grant_id id_bytes) (generate_token token_bytes) b
]

-- What a request under /capabilities/ comes to: an error reply, or the handler's serving of the path
-- that is left.
pub data Reply : Type 0 where
  bad_path missing_authorization invalid_grant grant_expired invalid_token : Reply
  serve : CapabilityHandler → String → Reply

-- The comparison in constant time of two texts of the same length.
abbrev pub same_secret : String → String → Bool
same_secret expected given =
    if not (nat_eq (len expected) (len given)) then false else expected == given

pub use_grant :
    ℕ → String → String → String → Option GrantInfo → CapabilityBroker → CapabilityBroker × Reply
use_grant now grant_id token path none b = (b, invalid_grant)
use_grant now grant_id token path (some grant) b =
    if ltb grant.expires_at now
    then (record b { grants = delete b.grants grant_id }, grant_expired)
    else if same_secret grant.token token
    then (b, serve grant.handler path)
    else (b, invalid_token)

-- What is left of the path behind the type and the grant id.
abbrev pub handler_path : List String → String
handler_path rest = "/" <> join rest

pub route : ℕ → String → List String → CapabilityBroker → CapabilityBroker × Reply
unfolding use_grant
route now auth [] b = (b, bad_path)
route now auth (type ∷ []) b = (b, bad_path)
route now auth (type ∷ grant_id ∷ rest) b =
    if not (has_prefix "Bearer " auth)
    then (b, missing_authorization)
    else use_grant now grant_id (trim_prefix "Bearer " auth) (handler_path rest)
        (get b.grants grant_id) b

-- handleCapabilityRequest, at the time `now`, for the URL's path and the Authorization header
unfoldable pub handle_capability_request :
    ℕ → String → String → CapabilityBroker → CapabilityBroker × Reply
unfolding route split
handle_capability_request now path auth b =
    route now auth (split (trim_prefix "/capabilities/" path)) b
