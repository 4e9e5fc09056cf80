-- ===== src/Depgraph/Impact.antt =====
-- GetImpact and findDependents of internal/depgraph/depgraph.go. The recursion of findDependents runs on
-- fuel, one for each plugin: a plugin is expanded once, when it is not yet visited.
pub mod Actions
pub mod Search
pub mod Reach
use connect_plugin_go.Prelude.{
  ℕ, zero, suc, String, Bool, true, false, not, Option, none, some, List, [], ◌∷◌, contains, length,
  ◌==◌, if◌then◌else◌,
}
use connect_plugin_go.Prelude.Maps.{Map, get}
use connect_plugin_go.Depgraph.{
  Graph, Node, ServiceDeclaration, ServiceDependency, types_of, get_providers, get_other_providers,
  append_unique, is_empty,
}
use connect_plugin_go.Depgraph.Startup.{sort}

pub record ImpactAnalysis : Type 0 where
  pub target_plugin : String
  pub affected_services : List String
  pub affected_plugins : List String
  pub optional_impact : List String

-- What findDependents has found so far: `visited`, and the two lists of the analysis that it extends
pub record Found : Type 0 where
  pub visited : List String
  pub affected : List String
  pub optional : List String

abbrev pub add_affected : String → Found → Found
add_affected other s = record s { affected = append_unique s.affected other }

abbrev pub add_optional : String → Found → Found
add_optional other s = record s { optional = append_unique s.optional other }

-- The recursive call
abbrev pub Recursion : Type 0
Recursion = String → Found → Found

module _ (again : Recursion) (g : Graph) (id : String) where
  -- One requirement of another plugin
  look_at_dependency : String → String → ServiceDependency → Found → Found
  look_at_dependency type other dep s =
      if not (dep.type == type)
      then s
      else if not (is_empty (get_other_providers (get_providers g type) id))
      then add_optional other s
      else if dep.required_for_startup
      then again other (add_affected other s)
      else add_optional other s

  look_at_dependencies : String → String → List ServiceDependency → Found → Found
  look_at_dependencies type other [] s = s
  look_at_dependencies type other (dep ∷ deps) s =
      look_at_dependencies type other deps (look_at_dependency type other dep s)

  look_at_nodes : String → Map Node → Found → Found
  look_at_nodes type [] s = s
  look_at_nodes type ((other, node) ∷ m) s =
      look_at_nodes type m
        (if other == id then s else look_at_dependencies type other node.requires s)

  look_at_services : List ServiceDeclaration → Found → Found
  look_at_services [] s = s
  look_at_services (svc ∷ svcs) s = look_at_services svcs (look_at_nodes svc.type g.nodes s)

  pub expand : Option Node → Found → Found
  expand none s = s
  expand (some node) s = look_at_services node.provides s

-- findDependents
unfoldable pub find_dependents : ℕ → Graph → String → Found → Found
unfolding expand look_at_services look_at_nodes look_at_dependencies look_at_dependency
find_dependents zero g id s = s
find_dependents (suc n) g id s =
    if contains s.visited id
    then s
    else expand (find_dependents n g) g id (get g.nodes id) (record s { visited = id ∷ s.visited })

abbrev pub nothing_found : Found
nothing_found = record { visited = []; affected = []; optional = [] }

-- GetImpact
unfoldable pub get_impact : Graph → String → ImpactAnalysis
get_impact g id = elim (get g.nodes id) [
  | none ↦ record {
    target_plugin = id;
    affected_services = [];
    affected_plugins = [];
    optional_impact = [];
  }
  | some node ↦
      let s = find_dependents (length g.nodes) g id nothing_found in
      record {
        target_plugin = id;
        affected_services = sort (types_of node.provides);
        affected_plugins = sort s.affected;
        optional_impact = sort s.optional;
      }
]
