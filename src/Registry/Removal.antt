-- ===== src/Registry/Removal.antt =====
-- What the end of a registration leaves of the tables.
use connect_plugin_go.Prelude.{
  ◌≤◌, String, ◌≡◌, refl, Bool, true, false, Option, none, some, List, [], ◌∷◌, arith, eq_iff,
  Option-cases, inl, inr, contains, count, ◌==◌, if◌then◌else◌,
}
use connect_plugin_go.Prelude.Maps.{Map, get, keys}
use connect_plugin_go.Registry.{ServiceProvider, ServiceRegistry, notify_watchers}
use connect_plugin_go.Registry.Register.{
  forget, forget_all, owned_by, registration_not_found, unregister_service,
  unregister_plugin_services,
}
use connect_plugin_go.Registry.Tables.{
  IsConsistent, forget_registrations, forget-IsConsistent, notify_watchers-IsConsistent,
  forget_all-none, forget_all-some, forget_all-IsConsistent,
}

abbrev pub is_registered : Option ServiceProvider → Bool
is_registered none = false
is_registered (some p) = true

unregister_service_found :
    (id : String) (r : ServiceRegistry) {p : ServiceProvider}
    → get r.registrations id ≡ some p
    → unregister_service id r ≡ (notify_watchers p.service_type (forget id p r), none)
unfolding unregister_service
unregister_service_found id r h = ground arith

unregister_service_missing :
    (id : String) (r : ServiceRegistry)
    → get r.registrations id ≡ none
    → unregister_service id r ≡ (r, some registration_not_found)
unfolding unregister_service
unregister_service_missing id r h = ground arith

-- UnregisterService keeps the tables in agreement. For an id that is registered it answers without
-- an error, and from then on that id, and no other, is no longer registered; for any other id it
-- answers that the registration was not found, and the registrations stay the same.
pub unregister_service-IsConsistent :
    (id : String) (r : ServiceRegistry)
    → IsConsistent r
    → let (r', answer) = unregister_service id r in
      IsConsistent r'
      × ((j : String) → get r'.registrations j ≡ (if id == j then none else get r.registrations j))
      × (answer
          ≡ (if is_registered (get r.registrations id) then none else some registration_not_found))
unregister_service-IsConsistent id r c = elim (Option-cases (get r.registrations id)) [
  | inl lacks ↦
      rw (unregister_service_missing id r lacks) (c, λ j. ground (arith, eq_iff id j), rw lacks)
  | inr (p, e) ↦ rw (unregister_service_found id r e) (
    notify_watchers-IsConsistent p.service_type (forget id p r) (forget-IsConsistent id p r e c),
    λ j. unfold notify_watchers in forget_registrations id p r j,
    rw e,
  )
]

unregister_plugin_services-IsConsistent :
    (runtime_id : String) (r : ServiceRegistry)
    → IsConsistent r
    → IsConsistent (unregister_plugin_services runtime_id r)
unfolding unregister_plugin_services
unregister_plugin_services-IsConsistent runtime_id r c =
    forget_all-IsConsistent (owned_by runtime_id r.registrations) r c

abbrev pub owns : String → Option ServiceProvider → Bool
owns runtime_id none = false
owns runtime_id (some p) = p.runtime_id == runtime_id

not_owned :
    (runtime_id id : String) (m : Map ServiceProvider)
    → count id (keys m) ≡ 0
    → contains (owned_by runtime_id m) id ≡ false
unfolding owned_by
not_owned runtime_id id [] h = refl
not_owned runtime_id id ((j, p) ∷ m) h = ground (arith, not_owned runtime_id id m)

contains-owned_by :
    (runtime_id id : String) (m : Map ServiceProvider)
    → count id (keys m) ≤ 1
    → contains (owned_by runtime_id m) id ≡ owns runtime_id (get m id)
unfolding owned_by get
contains-owned_by runtime_id id [] h = refl
contains-owned_by runtime_id id ((j, p) ∷ m) h =
    ground (arith, contains-owned_by runtime_id id m, not_owned runtime_id id m)

get-forget_all :
    (more : List String) (r : ServiceRegistry) (j : String)
    → get (forget_all more r).registrations j
      ≡ (if contains more j then none else get r.registrations j)
get-forget_all [] r j = unfold forget_all in refl
get-forget_all (id ∷ more) r j = elim (Option-cases (get r.registrations id)) [
  | inl lacks ↦
      rw (forget_all-none id more r lacks) (ground (arith, get-forget_all more r j, eq_iff id j))
  | inr (p, e) ↦
      rw (forget_all-some id more r e)
        (ground (arith, get-forget_all more (forget id p r) j, forget_registrations id p r j))
]

-- UnregisterPluginServices keeps the tables in agreement, and takes away exactly the registrations of
-- the plugin: those of other plugins stay as they were.
pub unregister_plugin_services_lem :
    (runtime_id : String) (r : ServiceRegistry)
    → IsConsistent r
    → let r' = unregister_plugin_services runtime_id r in
      IsConsistent r'
      × ((id : String)
          → get r'.registrations id
            ≡ (if owns runtime_id (get r.registrations id) then none else get r.registrations id))
unregister_plugin_services_lem runtime_id r c = (
  unregister_plugin_services-IsConsistent runtime_id r c,
  λ id.
      unfold unregister_plugin_services in
      rw (get-forget_all (owned_by runtime_id r.registrations) r id)
        (rw (contains-owned_by runtime_id id r.registrations (c.distinct id))),
)
