-- ===== src/Health/Watching.antt =====
-- What the watchers of a service have been sent.
use connect_plugin_go.Prelude.{
  ℕ, String, refl, subst, inl, inr, Bool, true, false, none, some, List, [], ◌∷◌, ◌++◌, eq_iff,
  Bool-cases, ◌==◌, if◌then◌else◌,
}
use connect_plugin_go.Prelude.Maps.{Map, get_or, put, get_or-put}
use connect_plugin_go.Health.{
  ServingStatus, not_serving, HealthWatcher, HealthServer, new_health_server, status_of, watch,
  unwatch, remove_watcher, receive_by, deliver, set_status, set_serving_status, stop_all, shutdown,
}
use connect_plugin_go.Health.Told.{
  AllTold, receive_by-AllTold, remove_watcher-AllTold, AllTold-append, notify_all-AllTold,
}

-- What is done to the server: a status is set, a watch begins or ends, a watcher's goroutine takes its
-- turn, the server shuts down.
pub data Event : Type 0 where
  set : String → ServingStatus → Event
  begin end turn : ℕ → String → Event
  stop : Event

unfoldable pub step : HealthServer → Event → HealthServer
step h (set service status) = set_serving_status service status h
step h (begin identity service) = watch identity service h
step h (end identity service) = unwatch identity service h
step h (turn identity service) = deliver identity service h
step h stop = shutdown h

unfoldable pub run : HealthServer → List Event → HealthServer
unfolding step
run h [] = h
run h (e ∷ es) = run (step h e) es

-- The watchers of each service are told its status.
IsInformed : HealthServer → Type 0
IsInformed h = (service : String) → AllTold (status_of h service) (get_or h.watchers service [])

-- A step that changes the watchers of one service, and not its status.
put-IsInformed :
    (h : HealthServer) (service : String) (ws : List HealthWatcher)
    → IsInformed h
    → AllTold (status_of h service) ws
    → IsInformed (record h { watchers = put h.watchers service ws })
unfolding IsInformed
put-IsInformed h service ws i a other = rw get_or-put (elim (Bool-cases (service == other)) [
  | inl this ↦ rw this (subst (λ s. AllTold (status_of h s) ws) ((eq_iff service other).0 this) a)
  | inr different ↦ rw different (i other)
])

set_status-IsInformed :
    (service : String) (status : ServingStatus) (h : HealthServer)
    → IsInformed h
    → IsInformed (set_status service status h)
unfolding IsInformed set_status
set_status-IsInformed service status h i other =
    rw (get_or-put, get_or-put)
      (elim (Bool-cases (service == other)) [
        | inl this ↦ rw this (
            notify_all-AllTold (status_of h service) status (get_or h.watchers service [])
              (i service))
        | inr different ↦ rw different (i other)
      ])

stop_all-IsInformed :
    (m : Map ServingStatus) (h : HealthServer) → IsInformed h → IsInformed (stop_all m h)
unfolding stop_all
stop_all-IsInformed [] h i = i
stop_all-IsInformed ((service, status) ∷ m) h i =
    stop_all-IsInformed m (set_status service not_serving h)
      (set_status-IsInformed service not_serving h i)

choose-IsInformed :
    (b : Bool) (h h' : HealthServer)
    → IsInformed h
    → IsInformed h'
    → IsInformed (if b then h else h')
choose-IsInformed true h h' i i' = i
choose-IsInformed false h h' i i' = i'

watch-IsInformed :
    (identity : ℕ) (service : String) (h : HealthServer)
    → IsInformed h
    → IsInformed (watch identity service h)
unfolding watch IsInformed
watch-IsInformed identity service h i =
    let watcher : HealthWatcher = record {
      identity = identity;
      ch = some (status_of h service);
      last_sent = none;
      sent = [];
    } in
    put-IsInformed h service (get_or h.watchers service [] ++ watcher ∷ []) i (
      AllTold-append (status_of h service) (get_or h.watchers service []) watcher (i service)
        (record { current = refl; recorded = refl; changes = refl }))

step-IsInformed : (h : HealthServer) (e : Event) → IsInformed h → IsInformed (step h e)
unfolding step set_serving_status unwatch deliver shutdown
step-IsInformed h (set service status) i =
    choose-IsInformed h.is_shutdown h (set_status service status h) i
      (set_status-IsInformed service status h i)
step-IsInformed h (begin identity service) i = watch-IsInformed identity service h i
step-IsInformed h (end identity service) i =
    put-IsInformed h service (remove_watcher identity (get_or h.watchers service [])) i (
      unfold IsInformed in
      remove_watcher-AllTold (status_of h service) identity (get_or h.watchers service [])
        (i service))
step-IsInformed h (turn identity service) i =
    put-IsInformed h service (receive_by identity (get_or h.watchers service [])) i (
      unfold IsInformed in
      receive_by-AllTold (status_of h service) identity (get_or h.watchers service []) (i service))
step-IsInformed h stop i =
    stop_all-IsInformed h.status_map (record h { is_shutdown = true }) (unfold IsInformed in i)

run-IsInformed : (h : HealthServer) (es : List Event) → IsInformed h → IsInformed (run h es)
unfolding run
run-IsInformed h [] i = i
run-IsInformed h (e ∷ es) i = run-IsInformed (step h e) es (step-IsInformed h e i)

-- After any sequence of operations on a new health server, whatever the order in which statuses are
-- set and streams are served, and whatever a slow watcher has missed: what a watcher of a service was
-- sent last, or what still waits in its channel, is the service's present status; and no watcher was
-- sent the same status twice in a row.
pub watchers_are_told :
    (es : List Event) (service : String)
    → let h = run new_health_server es in
      AllTold (status_of h service) (get_or h.watchers service [])
watchers_are_told es service =
    unfold IsInformed in run-IsInformed new_health_server es (λ other. unfold get_or in tt) service
