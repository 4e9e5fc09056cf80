-- ===== src/Samples/Graphs.antt =====
-- A graph of two plugins: the cache requires the logger's service.
use connect_plugin_go.Prelude.{◌≡◌, refl, true, false, some, [], ◌∷◌, ◌↔◌, count, contains}
use connect_plugin_go.Prelude.Maps.{keys, put, get, get_or}
use connect_plugin_go.Depgraph.{
  Graph, Node, new_graph, add, get_providers, get_other_providers, append_unique,
}
use connect_plugin_go.Depgraph.Edits.{
  IsWellFormed, new_graph-IsWellFormed, add-IsWellFormed, IsWellFormed-IsOrderable,
}
use connect_plugin_go.Depgraph.Startup.{
  StartupResult, order, no_provider, dependency_cycle, startup_order, sort,
}
use connect_plugin_go.Depgraph.Impact.{get_impact, find_dependents}
use connect_plugin_go.Depgraph.Impact.Reach.{IsAffected, affected_plugins_iff}
use connect_plugin_go.Depgraph.Startup.Order.{Answers, startup_order_lem}

abbrev logger : Node
logger = record {
  runtime_id = "logger-00a1";
  self_id = "logger";
  provides = record { type = "log"; version = "1.0.0" } ∷ [];
  requires = [];
}

abbrev cache : Node
cache = record {
  runtime_id = "cache-77f0";
  self_id = "cache";
  provides = record { type = "cache"; version = "1.2.0" } ∷ [];
  requires =
      record {
        type = "log";
        min_version = "";
        required_for_startup = true;
        watch_for_changes = false;
      }
      ∷ [];
}

-- The logger, once it requires the cache.
abbrev cyclic_logger : Node
cyclic_logger = record logger {
  requires =
      record {
        type = "cache";
        min_version = "";
        required_for_startup = true;
        watch_for_changes = false;
      }
      ∷ [];
}

abbrev one : Graph
one = add cache new_graph

abbrev two : Graph
two = add logger one

logger_is_new : count "logger-00a1" (keys one.nodes) ≡ 0
unfolding add put
logger_is_new = refl

one-IsWellFormed : IsWellFormed one
one-IsWellFormed = add-IsWellFormed new_graph cache refl new_graph-IsWellFormed

two-IsWellFormed : IsWellFormed two
two-IsWellFormed = add-IsWellFormed one logger logger_is_new one-IsWellFormed

order_of_two : startup_order two ≡ some (order ("logger-00a1" ∷ "cache-77f0" ∷ []))
unfolding startup_order add put get_or
order_of_two = refl

order_of_one : startup_order one ≡ some (no_provider "cache-77f0" "log")
unfolding startup_order add put get_or
order_of_one = refl

order_of_cycle : startup_order (add cyclic_logger one) ≡ some (dependency_cycle 0 2)
unfolding startup_order add put get_or
order_of_cycle = refl

startup_order_lem_example : (r : StartupResult) × (startup_order two ≡ some r) × Answers two r
startup_order_lem_example = startup_order_lem two (IsWellFormed-IsOrderable two two-IsWellFormed)

affected_plugins_iff_example :
    (contains (get_impact two "logger-00a1").affected_plugins "cache-77f0" ≡ true)
    ↔ IsAffected two "logger-00a1" "cache-77f0"
affected_plugins_iff_example = affected_plugins_iff two "logger-00a1" "cache-77f0"

cache_affected : (get_impact two "logger-00a1").affected_plugins ≡ "cache-77f0" ∷ []
unfolding get_impact find_dependents add put get get_or get_providers get_other_providers
    append_unique sort
cache_affected = refl

-- Two caches, which both require the logger, and a plugin that requires a cache
abbrev backup : Node
backup = record cache { runtime_id = "cache-88e1" }

abbrev shop : Node
shop = record cache {
  runtime_id = "shop-99d2";
  self_id = "shop";
  provides = [];
  requires =
      record {
        type = "cache";
        min_version = "";
        required_for_startup = true;
        watch_for_changes = false;
      }
      ∷ [];
}

-- Without the logger no cache can run, and still the shop counts as provided for.
shop_not_affected :
    let i = get_impact (add shop (add backup two)) "logger-00a1" in
    (i.affected_plugins ≡ "cache-77f0" ∷ "cache-88e1" ∷ []) × (i.optional_impact ≡ "shop-99d2" ∷ [])
unfolding get_impact find_dependents add put get get_or get_providers get_other_providers
    append_unique sort
shop_not_affected = (refl, refl)
