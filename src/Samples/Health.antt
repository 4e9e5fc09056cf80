-- ===== src/Samples/Health.antt =====
-- A health server with a watched service.
use connect_plugin_go.Prelude.{◌≡◌, none, some, List, [], ◌∷◌, refl, if◌then◌else◌}
use connect_plugin_go.Prelude.Maps.{get_or, put}
use connect_plugin_go.Health.{
  serving, not_serving, HealthServer, new_health_server, check, status_of, set_serving_status,
  watch, deliver, set_status, shutdown,
}
use connect_plugin_go.Health.Watching.{Event, set, begin, turn, step, run, watchers_are_told}
use connect_plugin_go.Health.Told.{AllTold}
use connect_plugin_go.Health.Final.{is_known, shutdown_is_final}

-- A watcher that is slow to receive
abbrev day : List Event
day = set "kv" serving ∷ begin 1 "kv" ∷ turn 1 "kv" ∷ set "kv" not_serving ∷ set "kv" serving ∷ []

abbrev watched : HealthServer
watched = run new_health_server day

watchers_are_told_example : AllTold (status_of watched "kv") (get_or watched.watchers "kv" [])
watchers_are_told_example = watchers_are_told day "kv"

kv_serves : status_of watched "kv" ≡ serving
unfolding get_or put run step set_serving_status set_status watch deliver
kv_serves = refl

shutdown_is_final_example :
    check "kv" (run (shutdown watched) (set "kv" serving ∷ []))
    ≡ (if is_known (check "kv" watched) then some not_serving else none)
shutdown_is_final_example = shutdown_is_final watched (set "kv" serving ∷ []) "kv"
