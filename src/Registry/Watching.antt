-- ===== src/Registry/Watching.antt =====
-- What the watchers of a service type hear of a plugin's removal.
use connect_plugin_go.Prelude.{String, ◌≡◌, refl, inl, inr, List, [], ◌∷◌, Option-cases}
use connect_plugin_go.Prelude.Maps.{get}
use connect_plugin_go.Registry.{ServiceRegistry}
use connect_plugin_go.Registry.Register.{forget, forget_all, owned_by, unregister_plugin_services}

watchers-forget_all :
    (ids : List String) (r : ServiceRegistry) → (forget_all ids r).watchers ≡ r.watchers
unfolding forget_all forget
watchers-forget_all [] r = refl
watchers-forget_all (id ∷ ids) r = elim (Option-cases (get r.registrations id)) [
  | inl lacks ↦ rw (lacks, forget_all) (watchers-forget_all ids r)
  | inr (p, e) ↦ rw (e, forget_all) (watchers-forget_all ids (forget id p r))
]

-- UnregisterPluginServices sends no event to any watcher: the channels of all of them stay as they
-- were.
pub watchers-unregister_plugin_services :
    (runtime_id : String) (r : ServiceRegistry)
    → (unregister_plugin_services runtime_id r).watchers ≡ r.watchers
unfolding unregister_plugin_services
watchers-unregister_plugin_services runtime_id r =
    watchers-forget_all (owned_by runtime_id r.registrations) r
