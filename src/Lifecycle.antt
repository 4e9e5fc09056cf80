-- ===== src/Lifecycle.antt =====
-- lifecycle.go: the host's record of the health that the plugins report.
pub mod Routing
use connect_plugin_go.Prelude.{
  String, Bool, true, false, Option, none, some, List, [], ◌==◌, if◌then◌else◌,
}
use connect_plugin_go.Prelude.Maps.{Map, get, put}

-- connectpluginv1.HealthState; a number that the enumeration lacks is `other`.
pub data HealthState : Type 0 where
  unspecified healthy degraded unhealthy other : HealthState

pub record PluginHealthState : Type 0 where
  pub state : HealthState
  pub reason : String
  pub unavailable_dependencies : List String

pub record LifecycleServer : Type 0 where
  pub states : Map PluginHealthState

abbrev pub new_lifecycle_server : LifecycleServer
new_lifecycle_server = record { states = [] }

pub data HealthError : Type 0 where
  header_required : HealthError  -- CodeInvalidArgument

-- ReportHealth; `runtime_id` is the header X-Plugin-Runtime-ID, "" where it is missing.
unfoldable pub report_health :
    String → PluginHealthState → LifecycleServer → LifecycleServer × Option HealthError
report_health runtime_id reported l =
    if runtime_id == ""
    then (l, some header_required)
    else (record l { states = put l.states runtime_id reported }, none)

-- GetHealthState
unfoldable pub get_health_state : LifecycleServer → String → Option PluginHealthState
get_health_state l runtime_id = get l.states runtime_id

abbrev pub routes : HealthState → Bool
routes healthy = true
routes degraded = true
routes unhealthy = false
routes unspecified = true
routes other = true

-- ShouldRouteTraffic
unfoldable pub should_route_traffic : LifecycleServer → String → Bool
unfolding get_health_state
should_route_traffic l runtime_id = elim (get_health_state l runtime_id) [
  | none ↦ true
  | some s ↦ routes s.state
]
