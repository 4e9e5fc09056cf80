-- ===== src/Depgraph/Impact/Reach.antt =====
-- Which plugins GetImpact calls affected.
use connect_plugin_go.Prelude.{
  ℕ, zero, suc, String, ◌≡◌, ◌↔◌, refl, sym, subst, ap, ◌∙◌, inl, inr, Bool, true, false, not, ◌||◌,
  ◌&&◌, none, some, Option-cases, List, [], ◌∷◌, contains, count, length, arith, eq_iff, eq_self,
  Bool-cases, leb, ◌==◌, if◌then◌else◌,
}
use connect_plugin_go.Prelude.Maps.{Map, get, contains_got}
use connect_plugin_go.Depgraph.{
  Graph, Node, ServiceDeclaration, ServiceDependency, types_of, required_types, get_providers,
  get_other_providers, is_empty,
}
use connect_plugin_go.Depgraph.Startup.{sort}
use connect_plugin_go.Depgraph.Startup.Counts.{count-sort}
use connect_plugin_go.Depgraph.Impact.{
  Found, Recursion, add_affected, add_optional, nothing_found, find_dependents, get_impact,
}
use connect_plugin_go.Depgraph.Impact.Actions.{
  Action, affect, option, perform, of_dependency, of_dependencies, of_nodes, of_services, of_node,
  expand-perform, affects, affects-append, dependents,
}
use connect_plugin_go.Depgraph.Impact.Search.{
  find_dependents-Grows, unvisited-length, contains-append_unique,
}

-- A plugin of that name requires the type for startup.
unfoldable pub requires_type : Map Node → String → String → Bool
requires_type [] b type = false
requires_type ((id, node) ∷ m) b type =
    (id == b && contains (required_types node.requires) type) || requires_type m b type

-- One of the types is provided by `a` and nobody else, and `b` requires it for startup.
unfoldable pub loses_one : Graph → String → List String → String → Bool
loses_one g a [] b = false
loses_one g a (type ∷ types) b =
    (is_empty (get_other_providers (get_providers g type) a)
      && not (b == a)
      && requires_type g.nodes b type)
    || loses_one g a types b

-- Without `a` there is something that `b` requires and nobody provides.
unfoldable pub deprives : Graph → String → String → Bool
deprives g a b = elim (get g.nodes a) [
  | none ↦ false
  | some node ↦ loses_one g a (types_of node.provides) b
]

-- The plugins that are deprived by the removal of `id`, or by that of one that is affected
pub data IsAffected (g : Graph) (id : String) : String → Type 0 where
  directly : {b : String} → deprives g id b ≡ true → IsAffected g id b
  onwards : {a b : String} → IsAffected g id a → deprives g a b ≡ true → IsAffected g id b

affects-of_dependencies :
    (g : Graph) (a type other : String) (deps : List ServiceDependency) (b : String)
    → affects (of_dependencies g a type other deps) b ≡ (
        is_empty (get_other_providers (get_providers g type) a)
        && other == b
        && contains (required_types deps) type)
unfolding of_dependencies of_dependency affects
affects-of_dependencies g a type other [] b = ground arith
affects-of_dependencies g a type other (dep ∷ deps) b = ground (
  arith,
  affects-append (of_dependency g a type other dep) (of_dependencies g a type other deps) b,
  affects-of_dependencies g a type other deps b,
)

affects-of_nodes :
    (g : Graph) (a type : String) (m : Map Node) (b : String)
    → affects (of_nodes g a type m) b ≡ (
        is_empty (get_other_providers (get_providers g type) a)
        && not (b == a)
        && requires_type m b type)
unfolding of_nodes affects requires_type
affects-of_nodes g a type [] b = ground arith
affects-of_nodes g a type ((other, node) ∷ m) b = ground (
  arith,
  affects-append (if other == a then [] else of_dependencies g a type other node.requires)
      (of_nodes g a type m) b,
  affects-of_dependencies g a type other node.requires b,
  affects-of_nodes g a type m b,
  eq_iff other a,
  eq_iff other b,
  eq_iff b a,
)

affects-of_services :
    (g : Graph) (a : String) (svcs : List ServiceDeclaration) (b : String)
    → affects (of_services g a svcs) b ≡ loses_one g a (types_of svcs) b
unfolding of_services affects loses_one
affects-of_services g a [] b = refl
affects-of_services g a (svc ∷ svcs) b = ground (
  arith,
  affects-append (of_nodes g a svc.type g.nodes) (of_services g a svcs) b,
  affects-of_nodes g a svc.type g.nodes b,
  affects-of_services g a svcs b,
)

of_node-deprives : (g : Graph) (a : String) (b : String) → dependents g a b ≡ deprives g a b
unfolding dependents of_node deprives affects
of_node-deprives g a b = elim (Option-cases (get g.nodes a)) [
  | inl e ↦ rw (dependents, deprives, e) refl
  | inr (node, e) ↦ rw (dependents, deprives, e) (affects-of_services g a node.provides b)
]

-- All that has been found affected is.
abbrev IsSound : Graph → String → Found → Type 0
IsSound g id s = (y : String) → contains s.affected y ≡ true → IsAffected g id y

perform-IsSound :
    (g : Graph) (id : String) (again : Recursion) (xs : List Action) (s : Found)
    → ((o : String) (t : Found) → IsAffected g id o → IsSound g id t → IsSound g id (again o t))
    → ((y : String) → affects xs y ≡ true → IsAffected g id y)
    → IsSound g id s
    → IsSound g id (perform again xs s)
unfolding perform affects
perform-IsSound g id again [] s ih all sound = sound
perform-IsSound g id again (option o ∷ xs) s ih all sound =
    perform-IsSound g id again xs (add_optional o s) ih all sound
perform-IsSound g id again (affect o ∷ xs) s ih all sound =
    let this = all o (ground (arith, eq_self o)) in
    perform-IsSound g id again xs (again o (add_affected o s)) ih (λ y h. all y (ground arith))
      (ih o (add_affected o s) this (λ y h. elim (Bool-cases (o == y)) [
        | inl same ↦ subst (IsAffected g id) ((eq_iff o y).0 same) this
        | inr different ↦ sound y (ground (arith, contains-append_unique s.affected o y))
      ]))

find_dependents-IsSound :
    (n : ℕ) (g : Graph) (id a : String) (s : Found)
    → ((b : String) → deprives g a b ≡ true → IsAffected g id b)
    → IsSound g id s
    → IsSound g id (find_dependents n g a s)
unfolding find_dependents
find_dependents-IsSound zero g id a s from sound = sound
find_dependents-IsSound (suc n) g id a s from sound = elim (Bool-cases (contains s.visited a)) [
  | inl before ↦ rw (before, find_dependents) sound
  | inr new ↦
      let s' : Found = record s { visited = a ∷ s.visited } in
      rw (new, find_dependents, expand-perform (find_dependents n g) g a (get g.nodes a) s')
        (perform-IsSound g id (find_dependents n g) (of_node g a (get g.nodes a)) s'
          (λ o t h. find_dependents-IsSound n g id o t (λ b d. onwards h d))
          (λ y h. from y (sym (of_node-deprives g a y) ∙ (unfold dependents in h))) sound)
]

contains-count : (x : String) (l : List String) → contains l x ≡ leb 1 (count x l)
contains-count x [] = ground arith
contains-count x (y ∷ l) = ground (arith, contains-count x l)

contains-sort : (x : String) (l : List String) → contains (sort l) x ≡ contains l x
contains-sort x l =
    contains-count x (sort l) ∙ ap (leb 1) (count-sort x l) ∙ sym (contains-count x l)

abbrev search : Graph → String → Found
search g id = find_dependents (length g.nodes) g id nothing_found

-- The search visits the plugin, and finds and visits what any visited one deprives.
search-closed :
    (g : Graph) (id : String) (node : Node)
    → get g.nodes id ≡ some node
    → (contains (search g id).visited id ≡ true)
      × ((x y : String)
          → contains (search g id).visited x ≡ true
          → deprives g x y ≡ true
          → (contains (search g id).affected y ≡ true) × (contains (search g id).visited y ≡ true))
search-closed g id node known =
    let (grows, marked) =
      find_dependents-Grows (length g.nodes) g id nothing_found (contains_got g.nodes id node known)
        (rw unvisited-length (omega arith)) in
    (
      marked,
      λ x y h d. elim (grows.closed x h) [
        | inl before ↦ absurd (ground arith)
        | inr done ↦ done y (of_node-deprives g x y ∙ d)
      ],
    )

found_all :
    (g : Graph) (id : String) (node : Node) (y : String)
    → get g.nodes id ≡ some node
    → IsAffected g id y
    → (contains (search g id).affected y ≡ true) × (contains (search g id).visited y ≡ true)
found_all g id node y known (directly d) =
    let (marked, closed) = search-closed g id node known in closed id y marked d
found_all g id node y known (onwards {a} earlier d) =
    (search-closed g id node known).1 a y (found_all g id node a known earlier).1 d

not_affected :
    (g : Graph) (id y : String) → get g.nodes id ≡ none → IsAffected g id y → false ≡ true
unfolding deprives
not_affected g id y absent (directly d) = rw (deprives, absent) at d
not_affected g id y absent (onwards {a} earlier d) = not_affected g id a absent earlier

-- GetImpact comes to its answer within one expansion for each plugin, and the plugins that it calls
-- affected are exactly those that are deprived of something they require for startup, which nobody else
-- provides, by the removal of the plugin or of one that is affected in its turn.
pub affected_plugins_iff :
    (g : Graph) (id y : String)
    → (contains (get_impact g id).affected_plugins y ≡ true) ↔ IsAffected g id y
unfolding get_impact
affected_plugins_iff g id y = elim (Option-cases (get g.nodes id)) [
  | inl absent ↦ rw (get_impact, absent) ((λ h. absurd (ground arith)), not_affected g id y absent)
  | inr (node, known) ↦
      rw
        (
          get_impact,
          known,
          contains-sort y (find_dependents (length g.nodes) g id nothing_found).affected,
        )
        (
          find_dependents-IsSound (length g.nodes) g id id nothing_found (λ b d. directly d)
              (λ z h. absurd (ground arith)) y,
          λ a. (found_all g id node y known a).0,
        )
]
