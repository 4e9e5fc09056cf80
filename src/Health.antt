-- ===== src/Health.antt =====
-- health.go: the health statuses of a server's services, and their watchers. A watcher is its channel,
-- of one place, and what the goroutine that serves its stream has sent: `last_sent` is none where Go
-- has -1.
pub mod Told
pub mod Watching
pub mod Final
use connect_plugin_go.Prelude.{
  ℕ, String, Bool, true, false, not, ◌||◌, Option, none, some, List, [], ◌∷◌, ◌++◌, nat_eq,
  if◌then◌else◌,
}
use connect_plugin_go.Prelude.Maps.{Map, get, get_or, put}

pub data ServingStatus : Type 0 where
  status_unspecified serving not_serving service_unknown : ServingStatus

pub record HealthWatcher : Type 0 where
  pub identity : ℕ
  pub ch : Option ServingStatus
  pub last_sent : Option ServingStatus
  pub sent : List ServingStatus

pub record HealthServer : Type 0 where
  pub is_shutdown : Bool
  pub status_map : Map ServingStatus
  pub watchers : Map (List HealthWatcher)

-- NewHealthServer
abbrev pub new_health_server : HealthServer
new_health_server = record { is_shutdown = false; status_map = ("", serving) ∷ []; watchers = [] }

-- Check; `none` is CodeNotFound.
unfoldable pub check : String → HealthServer → Option ServingStatus
check service h = get h.status_map service

abbrev pub status_of : HealthServer → String → ServingStatus
status_of h service = get_or h.status_map service service_unknown

-- Watch up to its stream: the new watcher's channel holds the present status.
unfoldable pub watch : ℕ → String → HealthServer → HealthServer
watch identity service h =
    let watcher : HealthWatcher = record {
      identity = identity;
      ch = some (status_of h service);
      last_sent = none;
      sent = [];
    } in
    record h { watchers = put h.watchers service (get_or h.watchers service [] ++ watcher ∷ []) }

pub remove_watcher : ℕ → List HealthWatcher → List HealthWatcher
remove_watcher identity [] = []
remove_watcher identity (w ∷ ws) =
    let rest = remove_watcher identity ws in if nat_eq w.identity identity then ws else w ∷ rest

-- The clean-up of Watch when its stream ends.
unfoldable pub unwatch : ℕ → String → HealthServer → HealthServer
unfolding remove_watcher
unwatch identity service h = record h {
  watchers = put h.watchers service (remove_watcher identity (get_or h.watchers service []));
}

abbrev pub same_status : ServingStatus → ServingStatus → Bool
same_status status_unspecified status_unspecified = true
same_status serving serving = true
same_status not_serving not_serving = true
same_status service_unknown service_unknown = true
same_status _ _ = false

abbrev pub was_sent : Option ServingStatus → ServingStatus → Bool
was_sent none status = false
was_sent (some last) status = same_status status last

-- One turn of the loop of Watch: what stands in the channel is taken, and sent if it is not what was
-- sent last.
pub receive : HealthWatcher → HealthWatcher
receive w = elim w.ch [
  | none ↦ w
  | some status ↦
      if was_sent w.last_sent status
      then record w { ch = none }
      else record w { ch = none; last_sent = some status; sent = w.sent ++ status ∷ [] }
]

pub receive_by : ℕ → List HealthWatcher → List HealthWatcher
unfolding receive
receive_by identity [] = []
receive_by identity (w ∷ ws) =
    let rest = receive_by identity ws in
    if nat_eq w.identity identity then receive w ∷ ws else w ∷ rest

-- That turn for a watcher of a service
unfoldable pub deliver : ℕ → String → HealthServer → HealthServer
unfolding receive_by
deliver identity service h = record h {
  watchers = put h.watchers service (receive_by identity (get_or h.watchers service []));
}

-- A send that does not block, into a channel of one place
abbrev offer : ServingStatus → Option ServingStatus → Option ServingStatus
offer status none = some status
offer status (some waiting) = some waiting

-- The old status is cleared, and the new one is sent.
pub notify_all : ServingStatus → List HealthWatcher → List HealthWatcher
notify_all status [] = []
notify_all status (w ∷ ws) =
    let cleared : HealthWatcher = record w { ch = none } in
    record cleared { ch = offer status cleared.ch } ∷ notify_all status ws

-- setStatusLocked, which SetServingStatus repeats
unfoldable pub set_status : String → ServingStatus → HealthServer → HealthServer
unfolding notify_all
set_status service status h = record h {
  status_map = put h.status_map service status;
  watchers = put h.watchers service (notify_all status (get_or h.watchers service []));
}

-- SetServingStatus
unfoldable pub set_serving_status : String → ServingStatus → HealthServer → HealthServer
unfolding set_status
set_serving_status service status h = if h.is_shutdown then h else set_status service status h

-- The loop of Shutdown over the services
pub stop_all : Map ServingStatus → HealthServer → HealthServer
unfolding set_status
stop_all [] h = h
stop_all ((service, status) ∷ m) h = stop_all m (set_status service not_serving h)

-- Shutdown
unfoldable pub shutdown : HealthServer → HealthServer
unfolding stop_all
shutdown h = stop_all h.status_map (record h { is_shutdown = true })

-- The status codes of the two HTTP endpoints
abbrev pub healthz : HealthServer → ℕ
healthz h = 200

abbrev is_serving : Option ServingStatus → Bool
is_serving (some serving) = true
is_serving _ = false

unfoldable pub readyz : HealthServer → ℕ
unfolding check
readyz h = if is_serving (check "" h) then 200 else 503
