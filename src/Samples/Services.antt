-- ===== src/Samples/Services.antt =====
-- A registry with two loggers, and a plugin set.
use connect_plugin_go.Prelude.{
  ℕ, ◌+◌, ◌%◌, ◌≤◌, ◌<◌, String, ◌≡◌, ◌↔◌, refl, subst, true, false, Option, none, some, List, [],
  ◌∷◌, arith, length, ◌==◌, if◌then◌else◌,
}
use connect_plugin_go.Prelude.Maps.{get, get_or, put}
use connect_plugin_go.Prelude.Text.{contains_text}
use Prim.Native.String.{len}
use mathlib.Core.Option.{some-injective}
use connect_plugin_go.Plugin.{PluginSet, path_conflict, validate}
use connect_plugin_go.Validation.{
  validate_service_type, validate_version, validate_endpoint_path, validate_metadata, is_valid_key,
  is_valid_version,
}
use connect_plugin_go.Validation.Accepts.{validate_service_type_iff}
use connect_plugin_go.Random.{generate_registration_id}
use connect_plugin_go.Registry.{
  watch_service, ServiceRegistry, ServiceProvider, new_service_registry, notify_watchers,
  build_service_event, providers_of, filter_available, filter_compatible_versions,
  selection_round_robin,
}
use connect_plugin_go.Registry.Register.{
  RegisterRequest, register_service, first_invalid, store_provider, unregister_service,
  unregister_plugin_services, registration_not_found,
}
use connect_plugin_go.Registry.Discover.{
  available_of, select_provider, provider, no_compatible_providers, apply_strategy, nth,
}
use connect_plugin_go.Registry.Consistency.{
  new_service_registry-IsConsistent, register_service-IsConsistent,
}
use connect_plugin_go.Registry.Tables.{IsConsistent}
use connect_plugin_go.Registry.Removal.{
  is_registered, owns, unregister_service-IsConsistent, unregister_plugin_services_lem,
}
use connect_plugin_go.Registry.Watching.{watchers-unregister_plugin_services}
use connect_plugin_go.Registry.Selection.{
  select_provider_eligible, select_provider_finds, round_robin_rotates, rounds,
}
use connect_plugin_go.Registry.Candidates.{Listed, here, there, routable}
use connect_plugin_go.Registry.Versions.{Fits, compatible-Fits}

abbrev log_request : RegisterRequest
log_request = record {
  service_type = "log";
  version = "1.0.0";
  endpoint_path = "/log.v1.Log/";
  metadata = ("base_url", "http://localhost:8081") ∷ [];
}

abbrev first_bytes : Option (List ℕ)
first_bytes = some (0 ∷ 0 ∷ 0 ∷ 0 ∷ 0 ∷ 0 ∷ 0 ∷ 1 ∷ [])

abbrev second_bytes : Option (List ℕ)
second_bytes = some (0 ∷ 0 ∷ 0 ∷ 0 ∷ 0 ∷ 0 ∷ 0 ∷ 2 ∷ [])

abbrev one : ServiceRegistry
one = (register_service 7 "logger-00a1" first_bytes log_request (new_service_registry none)).0

abbrev two : ServiceRegistry
two = (register_service 8 "logger-00b2" second_bytes log_request one).0

one-IsConsistent : IsConsistent one
unfolding get
one-IsConsistent =
    register_service-IsConsistent 7 "logger-00a1" first_bytes log_request
      (new_service_registry none) (λ id e. refl) (new_service_registry-IsConsistent none)

second_is_new :
    (id : String)
    → generate_registration_id second_bytes ≡ some id
    → get one.registrations id ≡ none
unfolding generate_registration_id register_service first_invalid validate_service_type
    validate_version validate_endpoint_path validate_metadata notify_watchers store_provider
    build_service_event get put get_or filter_available
second_is_new id e =
    subst (λ (x : String). get one.registrations x ≡ none)
      (some-injective "reg-0000000000000002" id e) refl

register_service-IsConsistent_example : IsConsistent two
register_service-IsConsistent_example =
    register_service-IsConsistent 8 "logger-00b2" second_bytes log_request one second_is_new
      one-IsConsistent

unregister_service-IsConsistent_example :
    let (r', answer) = unregister_service "reg-0000000000000001" one in
    IsConsistent r'
    × ((j : String)
        → get r'.registrations j
          ≡ (if "reg-0000000000000001" == j then none else get one.registrations j))
    × (answer ≡ (
        if is_registered (get one.registrations "reg-0000000000000001")
        then none
        else some registration_not_found))
unregister_service-IsConsistent_example =
    unregister_service-IsConsistent "reg-0000000000000001" one one-IsConsistent

unregister_plugin_services_lem_example :
    let r' = unregister_plugin_services "logger-00a1" one in
    IsConsistent r'
    × ((id : String)
        → get r'.registrations id ≡ (
            if owns "logger-00a1" (get one.registrations id)
            then none
            else get one.registrations id))
unregister_plugin_services_lem_example =
    unregister_plugin_services_lem "logger-00a1" one one-IsConsistent

abbrev logger : ServiceProvider
logger = record {
  registration_id = "reg-1";
  runtime_id = "logger-00a1";
  service_type = "log";
  version = "1.0.0";
  endpoint_path = "/log.v1.Log/";
  metadata = [];
  registered_at = 7;
}

abbrev backup : ServiceProvider
backup = record logger { registration_id = "reg-2"; runtime_id = "logger-00b2"; version = "0.9.0" }

abbrev loggers : ServiceRegistry
loggers = record (new_service_registry none) { providers = ("log", backup ∷ logger ∷ []) ∷ [] }

draw_in_range :
    0 < length (available_of loggers "log" "1.0.0")
    → 0 < length (available_of loggers "log" "1.0.0")
draw_in_range h = h

logger_selected : (select_provider "log" "1.0.0" 0 loggers).1 ≡ provider logger
unfolding select_provider get_or filter_available filter_compatible_versions
logger_selected = refl

select_provider_eligible_example :
    Listed logger (providers_of loggers "log")
    × Fits "1.0.0" "1.0.0"
    × (routable loggers.lifecycle_server logger ≡ true)
select_provider_eligible_example =
    select_provider_eligible "log" "1.0.0" 0 loggers draw_in_range logger logger_selected

logger_listed : Listed logger (providers_of loggers "log")
unfolding get_or
logger_listed = there (here refl)

fits : Fits "1.0.0" "1.0.0"
fits = compatible-Fits "1.0.0" logger refl

select_provider_finds_example :
    (q : ServiceProvider) × ((select_provider "log" "1.0.0" 0 loggers).1 ≡ provider q)
select_provider_finds_example =
    select_provider_finds "log" "1.0.0" 0 loggers draw_in_range logger logger_listed fits refl

-- Versions are compared as texts: 9.0.0 is taken for a minimum of 10.0.0, and 10.0.0 is not for 9.0.0.
abbrev versioned : String → ServiceRegistry
versioned v = record (new_service_registry none) {
  providers = ("log", record logger { version = v } ∷ []) ∷ [];
}

older_selected :
    (select_provider "log" "10.0.0" 0 (versioned "9.0.0")).1
    ≡ provider (record logger { version = "9.0.0" })
unfolding select_provider get_or filter_available filter_compatible_versions
older_selected = refl

newer_not_found : (select_provider "log" "9.0.0" 0 (versioned "10.0.0")).1 ≡ no_compatible_providers
unfolding select_provider get_or filter_available filter_compatible_versions
newer_not_found = refl

round_robin_rotates_example :
    (apply_strategy "log"
      (backup ∷ logger ∷ [])
      selection_round_robin
      0
      (rounds "log" (backup ∷ logger ∷ []) 3 loggers)).1
    ≡ nth
        (backup ∷ logger ∷ [])
        ((get_or loggers.round_robin_index "log" 0 + 3) % length (backup ∷ logger ∷ []))
round_robin_rotates_example =
    round_robin_rotates "log" (backup ∷ logger ∷ []) 3 loggers (omega arith)

validate_service_type_iff_example : (validate_service_type "log.v1" ≡ none) ↔ (
    (len "log.v1" ≤ 128) × (is_valid_key "log.v1" ≡ true) × (contains_text "log.v1" ".." ≡ false))
validate_service_type_iff_example = validate_service_type_iff "log.v1"

version_accepted : is_valid_version "1.20.3-rc.1" ≡ true
unfolding is_valid_version
version_accepted = refl

version_refused : is_valid_version "1.20" ≡ false
unfolding is_valid_version
version_refused = refl

null_byte_found : contains_text "a\0b" "\0" ≡ true
unfolding contains_text
null_byte_found = refl

abbrev plugins : PluginSet
plugins =
    (
      "log",
      record { name = "log"; path = "/log/"; version = "1.0.0"; provides = []; requires = [] },
    )
    ∷ (
      "cache",
      record { name = "cache"; path = "/log/"; version = "1.0.0"; provides = []; requires = [] },
    )
    ∷ []

path_conflict_found : validate plugins ≡ some (path_conflict "cache" "log" "/log/")
unfolding validate get put
path_conflict_found = refl

watchers-unregister_plugin_services_example :
    (unregister_plugin_services "logger-00a1" (watch_service 1 "log" one)).watchers
    ≡ (watch_service 1 "log" one).watchers
watchers-unregister_plugin_services_example =
    watchers-unregister_plugin_services "logger-00a1" (watch_service 1 "log" one)
