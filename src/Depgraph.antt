-- ===== src/Depgraph.antt =====
-- internal/depgraph/depgraph.go: the dependency graph of the plugins. `range` over a map visits the
-- entries of its list in order; the theorems are about every list, and so about every order.
pub mod Startup
pub mod Edits
pub mod Impact
use connect_plugin_go.Prelude.{
  ℕ, suc, String, Bool, true, false, Option, none, some, List, [], ◌∷◌, ◌++◌, contains, length,
  ◌==◌, if◌then◌else◌,
}
use connect_plugin_go.Prelude.Maps.{Map, get, get_or, put, delete}

pub record ServiceDeclaration : Type 0 where
  pub type : String
  pub version : String

pub record ServiceDependency : Type 0 where
  pub type : String
  pub min_version : String
  pub required_for_startup : Bool
  pub watch_for_changes : Bool

pub record Node : Type 0 where
  pub runtime_id : String
  pub self_id : String
  pub provides : List ServiceDeclaration
  pub requires : List ServiceDependency

-- nodes: runtime id → node; edges: runtime id → service types required; by_type: service type → the
-- runtime ids of its providers.
pub record Graph : Type 0 where
  pub nodes : Map Node
  pub edges : Map (List String)
  pub by_type : Map (List String)

abbrev pub new_graph : Graph
new_graph = record { nodes = []; edges = []; by_type = [] }

-- The service types required for startup.
abbrev pub required_types : List ServiceDependency → List String
required_types [] = []
required_types (dep ∷ deps) =
    let rest = required_types deps in if dep.required_for_startup then dep.type ∷ rest else rest

abbrev pub types_of : List ServiceDeclaration → List String
types_of [] = []
types_of (svc ∷ svcs) = svc.type ∷ types_of svcs

-- The loop of Add over what the node provides.
pub add_provider : String → List String → Map (List String) → Map (List String)
add_provider id [] m = m
add_provider id (type ∷ types) m = add_provider id types (put m type (get_or m type [] ++ id ∷ []))

-- Add
unfoldable pub add : Node → Graph → Graph
unfolding add_provider
add node g = record {
  nodes = put g.nodes node.runtime_id node;
  edges = put g.edges node.runtime_id (required_types node.requires);
  by_type = add_provider node.runtime_id (types_of node.provides) g.by_type;
}

-- The list without the first place at which the id stands.
unfoldable pub erase : String → List String → List String
erase id [] = []
erase id (x ∷ xs) = let rest = erase id xs in if x == id then xs else x ∷ rest

-- m[type] = providers, or delete(m, type) where none is left
abbrev pub store : String → List String → Map (List String) → Map (List String)
store type [] m = delete m type
store type (p ∷ ps) m = put m type (p ∷ ps)

-- The loop of Remove over what the node provides. Where the id does not stand in the list, Go leaves
-- the entry as it is; it is written back here unchanged.
pub remove_provider : String → List String → Map (List String) → Map (List String)
unfolding erase
remove_provider id [] m = m
remove_provider id (type ∷ types) m =
    remove_provider id types (store type (erase id (get_or m type [])) m)

-- Remove
unfoldable pub remove : String → Graph → Graph
unfolding remove_provider
remove id g = elim (get g.nodes id) [
  | none ↦ g
  | some node ↦ record {
    nodes = delete g.nodes id;
    edges = delete g.edges id;
    by_type = remove_provider id (types_of node.provides) g.by_type;
  }
]

-- GetNode
unfoldable pub get_node : Graph → String → Option Node
get_node g id = get g.nodes id

-- GetProviders
unfoldable pub get_providers : Graph → String → List String
get_providers g type = get_or g.by_type type []

abbrev is_empty : List String → Bool
is_empty [] = true
is_empty (x ∷ xs) = false

-- HasService
unfoldable pub has_service : Graph → String → Bool
has_service g type = elim (is_empty (get_or g.by_type type [])) [ true ↦ false | false ↦ true ]

-- getOtherProviders
unfoldable pub get_other_providers : List String → String → List String
get_other_providers [] exclude = []
get_other_providers (p ∷ ps) exclude =
    let rest = get_other_providers ps exclude in if p == exclude then rest else p ∷ rest

-- appendUnique
unfoldable pub append_unique : List String → String → List String
append_unique slice item = if contains slice item then slice else slice ++ item ∷ []
