-- ===== src/Depgraph/Startup.antt =====
-- depgraph.go, StartupOrder: Kahn's algorithm over the providers of the required services. `int`
-- counts are integers, so that a count that fell below zero would be seen.
pub mod Counts
pub mod Loop
pub mod Edges
pub mod Awaits
pub mod Order
use Prim.Native.Nat.{Ordering}
use Prim.Native.String.{compare}
use connect_plugin_go.Prelude.{
  ℕ, zero, suc, String, Bool, true, false, Option, none, some, List, [], ◌∷◌, ◌++◌, length, nat_eq,
  ◌==◌, if◌then◌else◌,
}
use connect_plugin_go.Prelude.Int.{ℤ, pos, negsuc, is_zero, incr, decr}
use connect_plugin_go.Prelude.Maps.{Map, get_or, put}
use connect_plugin_go.Depgraph.{Graph}

-- s <= t, as texts
abbrev text_le : String → String → Bool
text_le s t = elim (compare s t) [ Ordering.gt ↦ false | _ ↦ true ]

pub insert_sorted : String → List String → List String
insert_sorted s [] = s ∷ []
insert_sorted s (t ∷ ts) =
    let rest = insert_sorted s ts in if text_le s t then s ∷ t ∷ ts else t ∷ rest

-- sort.Strings
unfoldable pub sort : List String → List String
unfolding insert_sorted
sort [] = []
sort (s ∷ ss) = insert_sorted s (sort ss)

-- The in-degree of each plugin, and for each provider the plugins that wait for it, once for each of
-- the services that they require of it.
pub record Tables : Type 0 where
  pub in_degree : Map ℤ
  pub adj_list : Map (List String)

pub data StartupResult : Type 0 where
  order : List String → StartupResult
  no_provider : (runtime_id service_type : String) → StartupResult
  dependency_cycle : (processed all : ℕ) → StartupResult

abbrev pub initial_degrees : {V : Type 0} → Map V → Map ℤ
initial_degrees [] = []
initial_degrees ((id, node) ∷ m) = (id, pos 0) ∷ initial_degrees m

-- for _, providerID := range providers
pub add_edges : String → List String → Tables → Tables
add_edges id [] t = t
add_edges id (provider ∷ providers) t = add_edges id providers (record {
  in_degree = put t.in_degree id (incr (get_or t.in_degree id (pos 0)));
  adj_list = put t.adj_list provider (get_or t.adj_list provider [] ++ id ∷ []);
})

pub data Built : Type 0 where
  tables : Tables → Built
  lacks : (runtime_id service_type : String) → Built

-- for _, serviceType := range requiredServices; then the entries of `edges` that are left
add_requirements : Map (List String) → String → List String → (Tables → Built) → Tables → Built
unfolding add_edges
add_requirements by_type id [] rest t = rest t
add_requirements by_type id (type ∷ types) rest t = elim (get_or by_type type []) [
  | [] ↦ lacks id type
  | provider ∷ providers ↦
      add_requirements by_type id types rest (add_edges id (provider ∷ providers) t)
]

-- for runtimeID, requiredServices := range g.edges
pub build : Map (List String) → Map (List String) → Tables → Built
unfolding add_requirements
build by_type [] t = tables t
build by_type ((id, types) ∷ edges) t = add_requirements by_type id types (build by_type edges) t

-- The ids whose in-degree is zero.
pub sources : Map ℤ → List String
sources [] = []
sources ((id, degree) ∷ m) = let rest = sources m in if is_zero degree then id ∷ rest else rest

-- for _, dependent := range adjList[current]
pub relax : List String → Map ℤ → List String → Map ℤ × List String
unfolding sort
relax [] degrees queue = (degrees, queue)
relax (dependent ∷ dependents) degrees queue =
    let degree = decr (get_or degrees dependent (pos 0)) in
    relax dependents (put degrees dependent degree)
      (if is_zero degree then sort (queue ++ dependent ∷ []) else queue)

-- for len(queue) > 0, on fuel; `none` means that the fuel ran out.
pub process : ℕ → Map (List String) → Map ℤ → List String → List String → Option (List String)
unfolding relax
process fuel adj degrees [] result = some result
process zero adj degrees (current ∷ queue) result = none
process (suc fuel) adj degrees (current ∷ queue) result =
    process fuel adj (relax (get_or adj current []) degrees queue).0
      (relax (get_or adj current []) degrees queue).1 (result ++ current ∷ [])

conclude : ℕ → List String → StartupResult
conclude all result =
    if nat_eq (length result) all then order result else dependency_cycle (length result) all

finish : ℕ → Built → Option StartupResult
unfolding process conclude sources sort
finish all (lacks id type) = some (no_provider id type)
finish all (tables t) =
    elim (process (length t.in_degree) t.adj_list t.in_degree (sort (sources t.in_degree)) []) [
      | none ↦ none
      | some result ↦ some (conclude all result)
    ]

-- StartupOrder, with as many rounds allowed as there are in-degrees; `none` means that they were not
-- enough.
unfoldable pub startup_order : Graph → Option StartupResult
unfolding build finish
startup_order g =
    finish (length g.nodes)
      (build g.by_type g.edges (record { in_degree = initial_degrees g.nodes; adj_list = [] }))
