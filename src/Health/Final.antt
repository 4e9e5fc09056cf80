-- ===== src/Health/Final.antt =====
-- What a shutdown of the health server leaves behind.
use connect_plugin_go.Prelude.{
  String, ◌≡◌, refl, ◌∙◌, Bool, true, false, Option, none, some, List, [], ◌∷◌, arith,
  if◌then◌else◌,
}
use connect_plugin_go.Prelude.Maps.{Map, get, get-put}
use connect_plugin_go.Health.{
  ServingStatus, not_serving, HealthServer, check, watch, unwatch, deliver, set_status,
  set_serving_status, stop_all, shutdown,
}
use connect_plugin_go.Health.Watching.{Event, set, begin, end, turn, stop, step, run}

abbrev pub is_known : Option ServingStatus → Bool
is_known none = false
is_known (some status) = true

stop_all-get :
    (m : Map ServingStatus) (h : HealthServer) (service : String)
    → get (stop_all m h).status_map service
      ≡ (if is_known (get m service) then some not_serving else get h.status_map service)
unfolding stop_all get set_status
stop_all-get [] h service = refl
stop_all-get ((s, status) ∷ m) h service =
    stop_all-get m (set_status s not_serving h) service
    ∙ unfold set_status in ground (arith, get-put h.status_map s service not_serving)

stop_all-is_shutdown :
    (m : Map ServingStatus) (h : HealthServer) → (stop_all m h).is_shutdown ≡ h.is_shutdown
unfolding stop_all set_status
stop_all-is_shutdown [] h = refl
stop_all-is_shutdown ((s, status) ∷ m) h = stop_all-is_shutdown m (set_status s not_serving h)

-- The server has shut down, and the services that `known` tells stand at NOT_SERVING.
record IsStopped (known : String → Bool) (h : HealthServer) : Type 0 where
  over : h.is_shutdown ≡ true
  statuses : (s : String) → get h.status_map s ≡ (if known s then some not_serving else none)

shutdown-IsStopped :
    (h : HealthServer) → IsStopped (λ s. is_known (get h.status_map s)) (shutdown h)
unfolding shutdown
shutdown-IsStopped h = record {
  over = stop_all-is_shutdown h.status_map (record h { is_shutdown = true });
  statuses = λ s. ground (arith, stop_all-get h.status_map (record h { is_shutdown = true }) s);
}

step-IsStopped :
    (known : String → Bool) (h : HealthServer) (e : Event)
    → IsStopped known h
    → IsStopped known (step h e)
unfolding step set_serving_status watch unwatch deliver
step-IsStopped known h (set service status) i = record {
  over = ground (arith, i.over);
  statuses = λ s. ground (arith, i.over, i.statuses s);
}
step-IsStopped known h (begin identity service) i = record { over = i.over; statuses = i.statuses }
step-IsStopped known h (end identity service) i = record { over = i.over; statuses = i.statuses }
step-IsStopped known h (turn identity service) i = record { over = i.over; statuses = i.statuses }
step-IsStopped known h stop i =
    let again = shutdown-IsStopped h in
    record { over = again.over; statuses = λ s. ground (arith, again.statuses s, i.statuses s) }

run-IsStopped :
    (known : String → Bool) (h : HealthServer) (es : List Event)
    → IsStopped known h
    → IsStopped known (run h es)
unfolding run
run-IsStopped known h [] i = i
run-IsStopped known h (e ∷ es) i = run-IsStopped known (step h e) es (step-IsStopped known h e i)

-- After Shutdown, and whatever is done to the server from then on, Check answers NOT_SERVING for each
-- service that was known at the shutdown, and does not know any other.
pub shutdown_is_final :
    (h : HealthServer) (es : List Event) (service : String)
    → check service (run (shutdown h) es)
      ≡ (if is_known (check service h) then some not_serving else none)
unfolding check
shutdown_is_final h es service =
    (run-IsStopped (λ s. is_known (get h.status_map s)) (shutdown h) es
        (shutdown-IsStopped h)).statuses
      service
