-- ===== src/Registry/Consistency.antt =====
-- The two tables of the registry describe the same registrations.
use connect_plugin_go.Prelude.{
  ℕ, String, ◌≡◌, ◌≢◌, refl, true, false, Option, none, some, List, arith, eq_iff,
}
use connect_plugin_go.Prelude.Maps.{get, get_or}
use connect_plugin_go.Random.{generate_registration_id}
use connect_plugin_go.Validation.{Invalid}
use connect_plugin_go.Lifecycle.{LifecycleServer}
use connect_plugin_go.Registry.{ServiceRegistry, notify_watchers, new_service_registry}
use connect_plugin_go.Registry.Register.{
  store_provider, register_service, first_invalid, is_authorized, provider_of, Result, ok, err,
  invalid_argument, header_required, permission_denied, random_failed, RegisterRequest,
}
use connect_plugin_go.Registry.Tables.{
  IsConsistent, store_provider-IsConsistent, notify_watchers-IsConsistent,
}

-- The empty registry's two tables agree.
pub new_service_registry-IsConsistent :
    (lifecycle : Option LifecycleServer) → IsConsistent (new_service_registry lifecycle)
unfolding get get_or
new_service_registry-IsConsistent lifecycle = record {
  keyed = λ id p h. cc;
  found = λ id type. refl;
  distinct = λ k. omega arith;
  unique = λ id type. omega arith;
}

-- The answers of RegisterService, each with the registry that it leaves.
pub data Registers (now : ℕ) (runtime_id : String) (bytes : Option (List ℕ)) (req : RegisterRequest)
    (r : ServiceRegistry) : ServiceRegistry × Result String → Type 0 where
  invalid :
      {e : Invalid}
      → first_invalid req ≡ some e
      → Registers now runtime_id bytes req r (r, err (invalid_argument e))
  no_header :
      first_invalid req ≡ none
      → runtime_id ≡ ""
      → Registers now runtime_id bytes req r (r, err header_required)
  denied :
      first_invalid req ≡ none
      → runtime_id ≢ ""
      → is_authorized r runtime_id req.service_type ≡ false
      → Registers now runtime_id bytes req r (r, err permission_denied)
  no_random :
      first_invalid req ≡ none
      → runtime_id ≢ ""
      → is_authorized r runtime_id req.service_type ≡ true
      → generate_registration_id bytes ≡ none
      → Registers now runtime_id bytes req r (r, err random_failed)
  stored :
      {id : String}
      → first_invalid req ≡ none
      → runtime_id ≢ ""
      → is_authorized r runtime_id req.service_type ≡ true
      → generate_registration_id bytes ≡ some id
      → Registers now runtime_id bytes req r (
        notify_watchers req.service_type (store_provider (provider_of now runtime_id req id) r),
        ok id,
      )

-- The cases of RegisterService: it refuses and changes nothing, with the first reason of an invalid
-- request, a missing runtime id, a service type that the plugin is not allowed, a failed draw; or it
-- stores a provider under the id that it draws, tells the watchers, and answers with the id.
pub register_service-Registers :
    (now : ℕ) (runtime_id : String) (bytes : Option (List ℕ)) (req : RegisterRequest)
    (r : ServiceRegistry)
    → Registers now runtime_id bytes req r (register_service now runtime_id bytes req r)
unfolding register_service
register_service-Registers now runtime_id bytes req r =
    grind (arith, eq_iff runtime_id "", invalid, no_header, denied, no_random, stored)

-- The registry's tables agree (each registration stands under its own id, once, and the providers of
-- a service type, looked up by registration id, are the registrations for that type, each listed
-- once) after RegisterService, whatever it answers, provided that the id it draws is not in use.
pub register_service-IsConsistent :
    (now : ℕ) (runtime_id : String) (bytes : Option (List ℕ)) (req : RegisterRequest)
    (r : ServiceRegistry)
    → ((id : String) → generate_registration_id bytes ≡ some id → get r.registrations id ≡ none)
    → IsConsistent r
    → IsConsistent (register_service now runtime_id bytes req r).0
register_service-IsConsistent now runtime_id bytes req r fresh c =
    keeps (register_service-Registers now runtime_id bytes req r)
  where
    keeps :
        {o : ServiceRegistry × Result String}
        → Registers now runtime_id bytes req r o
        → IsConsistent o.0
    keeps (invalid i) = c
    keeps (no_header i h) = c
    keeps (denied i h a) = c
    keeps (no_random i h a g) = c
    keeps (stored {id} i h a g) =
        notify_watchers-IsConsistent req.service_type _
          (store_provider-IsConsistent (provider_of now runtime_id req id) r (fresh id g) c)
