-- ===== src/Lifecycle/Routing.antt =====
-- What a health report changes.
use connect_plugin_go.Prelude.{String, ◌≡◌, ◌≢◌, none, arith, eq_iff, ◌==◌, if◌then◌else◌}
use connect_plugin_go.Prelude.Maps.{get-put}
use connect_plugin_go.Lifecycle.{
  PluginHealthState, LifecycleServer, report_health, should_route_traffic, routes,
}

-- A report under a runtime id is accepted. From then on the plugin's traffic follows the state that
-- it reported, exactly: an unhealthy plugin gets none, any other its traffic; what holds for the
-- other plugins stays as it was.
pub should_route_traffic-report_health :
    (l : LifecycleServer) (runtime_id other_id : String) (h : PluginHealthState)
    → runtime_id ≢ ""
    → let (l', err) = report_health runtime_id h l in
      (err ≡ none)
      × (should_route_traffic l' other_id
          ≡ (if runtime_id == other_id then routes h.state else should_route_traffic l other_id))
unfolding report_health should_route_traffic
should_route_traffic-report_health l runtime_id other_id h named =
    ground (arith, eq_iff runtime_id "", get-put l.states runtime_id other_id h)
