-- ===== src/Registry/Register.antt =====
-- RegisterService, UnregisterService and UnregisterPluginServices of registry.go.
use connect_plugin_go.Prelude.{
  ℕ, String, Bool, true, not, Option, none, some, List, [], ◌∷◌, ◌++◌, contains, ◌==◌,
  if◌then◌else◌,
}
use connect_plugin_go.Prelude.Maps.{Map, get, put, delete}
use connect_plugin_go.Validation.{
  Invalid, validate_service_type, validate_version, validate_endpoint_path, validate_metadata,
}
use connect_plugin_go.Random.{generate_registration_id}
use connect_plugin_go.Registry.{ServiceProvider, ServiceRegistry, providers_of, notify_watchers}

pub record RegisterRequest : Type 0 where
  pub service_type : String
  pub version : String
  pub endpoint_path : String
  pub metadata : Map String

pub data RegistryError : Type 0 where
  invalid_argument : Invalid → RegistryError
  header_required permission_denied random_failed registration_not_found : RegistryError

pub data Result (A : Type 0) : Type 0 where
  ok : A → Result A
  err : RegistryError → Result A

-- The first of the four checks to refuse the request.
unfoldable pub first_invalid : RegisterRequest → Option Invalid
first_invalid req = elim (validate_service_type req.service_type) [
  | some e ↦ some e
  | none ↦ elim (validate_version req.version) [
    | some e ↦ some e
    | none ↦ elim (validate_endpoint_path req.endpoint_path) [
      | some e ↦ some e
      | none ↦ validate_metadata req.metadata
    ]
  ]
]

abbrev pub is_authorized : ServiceRegistry → String → String → Bool
is_authorized r runtime_id type = elim (get r.allowed_services runtime_id) [
  | none ↦ true
  | some allowed ↦ contains allowed type
]

-- The part of RegisterService and of the in-memory strategy's registration that stores a provider.
unfoldable pub store_provider : ServiceProvider → ServiceRegistry → ServiceRegistry
store_provider p r = record r {
  providers = put r.providers p.service_type (providers_of r p.service_type ++ p ∷ []);
  registrations = put r.registrations p.registration_id p;
}

abbrev pub provider_of : ℕ → String → RegisterRequest → String → ServiceProvider
provider_of now runtime_id req id = record {
  registration_id = id;
  runtime_id = runtime_id;
  service_type = req.service_type;
  version = req.version;
  endpoint_path = req.endpoint_path;
  metadata = req.metadata;
  registered_at = now;
}

unfoldable pub register_as :
    ℕ → String → RegisterRequest → Option String → ServiceRegistry → ServiceRegistry × Result String
register_as now runtime_id req none r = (r, err random_failed)
register_as now runtime_id req (some id) r =
    (notify_watchers req.service_type (store_provider (provider_of now runtime_id req id) r), ok id)

-- RegisterService, at the time `now`, with the runtime id from the header and the bytes read for the
-- registration id
unfoldable pub register_service :
    ℕ
    → String
    → Option (List ℕ)
    → RegisterRequest
    → ServiceRegistry
    → ServiceRegistry × Result String
unfolding register_as
register_service now runtime_id bytes req r = elim (first_invalid req) [
  | some e ↦ (r, err (invalid_argument e))
  | none ↦
      if runtime_id == ""
      then (r, err header_required)
      else if not (is_authorized r runtime_id req.service_type)
      then (r, err permission_denied)
      else register_as now runtime_id req (generate_registration_id bytes) r
]

-- The loop that takes the first provider with the id out of the list.
unfoldable pub remove_first : String → List ServiceProvider → List ServiceProvider
remove_first id [] = []
remove_first id (p ∷ ps) =
    let rest = remove_first id ps in if p.registration_id == id then ps else p ∷ rest

-- The entry leaves both tables. Where the loop finds nothing it writes nothing.
unfoldable pub forget : String → ServiceProvider → ServiceRegistry → ServiceRegistry
unfolding remove_first
forget id p r = record r {
  providers = put r.providers p.service_type (remove_first id (providers_of r p.service_type));
  registrations = delete r.registrations id;
}

-- UnregisterService
unfoldable pub unregister_service :
    String → ServiceRegistry → ServiceRegistry × Option RegistryError
unregister_service id r = elim (get r.registrations id) [
  | none ↦ (r, some registration_not_found)
  | some p ↦ (notify_watchers p.service_type (forget id p r), none)
]

-- The registration ids of a plugin.
unfoldable pub owned_by : String → Map ServiceProvider → List String
owned_by runtime_id [] = []
owned_by runtime_id ((id, p) ∷ m) =
    let rest = owned_by runtime_id m in if p.runtime_id == runtime_id then id ∷ rest else rest

-- The loop over the ids to remove.
unfoldable pub forget_all : List String → ServiceRegistry → ServiceRegistry
forget_all [] r = r
forget_all (id ∷ ids) r = elim (get r.registrations id) [
  | none ↦ forget_all ids r
  | some p ↦ forget_all ids (forget id p r)
]

-- UnregisterPluginServices
unfoldable pub unregister_plugin_services : String → ServiceRegistry → ServiceRegistry
unfolding owned_by forget_all
unregister_plugin_services runtime_id r = forget_all (owned_by runtime_id r.registrations) r
