-- ===== src/Depgraph/Impact/Actions.antt =====
-- The loops of findDependents as one list of what they do.
use connect_plugin_go.Prelude.{
  String, ◌≡◌, refl, sym, ap, ◌∙◌, inl, inr, Bool, true, false, not, ◌||◌, Option, none, some, List,
  [], ◌∷◌, ◌++◌, contains, arith, Bool-cases, ◌==◌, if◌then◌else◌,
}
use connect_plugin_go.Prelude.Maps.{Map, get, keys}
use connect_plugin_go.Depgraph.{
  Graph, Node, ServiceDeclaration, ServiceDependency, get_providers, get_other_providers, is_empty,
}
use connect_plugin_go.Depgraph.Impact.{
  Found, Recursion, add_affected, add_optional, look_at_dependency, look_at_dependencies,
  look_at_nodes, look_at_services, expand,
}

-- A plugin is affected and looked at in turn, or has an optional impact.
pub data Action : Type 0 where
  affect option : String → Action

unfoldable pub perform : Recursion → List Action → Found → Found
perform again [] s = s
perform again (affect other ∷ xs) s = perform again xs (again other (add_affected other s))
perform again (option other ∷ xs) s = perform again xs (add_optional other s)

perform-append :
    (again : Recursion) (xs ys : List Action) (s : Found)
    → perform again (xs ++ ys) s ≡ perform again ys (perform again xs s)
unfolding perform
perform-append again [] ys s = refl
perform-append again (affect o ∷ xs) ys s = perform-append again xs ys (again o (add_affected o s))
perform-append again (option o ∷ xs) ys s = perform-append again xs ys (add_optional o s)

module _ (g : Graph) (id : String) where
  -- Another plugin requires the type: it is affected if nobody else provides it and it is required for
  -- startup.
  unfoldable pub of_dependency : String → String → ServiceDependency → List Action
  of_dependency type other dep =
      if not (dep.type == type)
      then []
      else if not (is_empty (get_other_providers (get_providers g type) id))
      then option other ∷ []
      else if dep.required_for_startup
      then affect other ∷ []
      else option other ∷ []

  unfoldable pub of_dependencies : String → String → List ServiceDependency → List Action
  of_dependencies type other [] = []
  of_dependencies type other (dep ∷ deps) =
      of_dependency type other dep ++ of_dependencies type other deps

  unfoldable pub of_nodes : String → Map Node → List Action
  of_nodes type [] = []
  of_nodes type ((other, node) ∷ m) =
      (if other == id then [] else of_dependencies type other node.requires) ++ of_nodes type m

  unfoldable pub of_services : List ServiceDeclaration → List Action
  of_services [] = []
  of_services (svc ∷ svcs) = of_nodes svc.type g.nodes ++ of_services svcs

  unfoldable pub of_node : Option Node → List Action
  of_node none = []
  of_node (some node) = of_services node.provides

module _ (again : Recursion) (g : Graph) (id : String) where
  dependency-perform :
      (type other : String) (dep : ServiceDependency) (s : Found)
      → look_at_dependency again g id type other dep s
        ≡ perform again (of_dependency g id type other dep) s
  unfolding look_at_dependency of_dependency perform
  dependency-perform type other dep s = ground arith

  dependencies-perform :
      (type other : String) (deps : List ServiceDependency) (s : Found)
      → look_at_dependencies again g id type other deps s
        ≡ perform again (of_dependencies g id type other deps) s
  unfolding look_at_dependencies of_dependencies perform
  dependencies-perform type other [] s = refl
  dependencies-perform type other (dep ∷ deps) s =
      dependencies-perform type other deps (look_at_dependency again g id type other dep s)
      ∙ ap (perform again (of_dependencies g id type other deps))
          (dependency-perform type other dep s)
      ∙ sym (
          perform-append again (of_dependency g id type other dep)
            (of_dependencies g id type other deps) s)

  nodes-perform :
      (type : String) (m : Map Node) (s : Found)
      → look_at_nodes again g id type m s ≡ perform again (of_nodes g id type m) s
  unfolding look_at_nodes of_nodes perform
  nodes-perform type [] s = refl
  nodes-perform type ((other, node) ∷ m) s = elim (Bool-cases (other == id)) [
    | inl same ↦ rw (same, look_at_nodes, of_nodes) (nodes-perform type m s)
    | inr different ↦
        rw (different, look_at_nodes, of_nodes)
          (nodes-perform type m (look_at_dependencies again g id type other node.requires s)
            ∙ ap (perform again (of_nodes g id type m))
                (dependencies-perform type other node.requires s)
            ∙ sym (
                perform-append again (of_dependencies g id type other node.requires)
                  (of_nodes g id type m) s))
  ]

  services-perform :
      (svcs : List ServiceDeclaration) (s : Found)
      → look_at_services again g id svcs s ≡ perform again (of_services g id svcs) s
  unfolding look_at_services of_services perform
  services-perform [] s = refl
  services-perform (svc ∷ svcs) s =
      services-perform svcs (look_at_nodes again g id svc.type g.nodes s)
      ∙ ap (perform again (of_services g id svcs)) (nodes-perform svc.type g.nodes s)
      ∙ sym (perform-append again (of_nodes g id svc.type g.nodes) (of_services g id svcs) s)

  pub expand-perform :
      (node : Option Node) (s : Found)
      → expand again g id node s ≡ perform again (of_node g id node) s
  unfolding expand of_node perform
  expand-perform none s = refl
  expand-perform (some node) s = services-perform node.provides s

-- Whether the actions affect the plugin
unfoldable pub affects : List Action → String → Bool
affects [] y = false
affects (affect o ∷ xs) y = o == y || affects xs y
affects (option o ∷ xs) y = affects xs y

pub affects-append :
    (xs ys : List Action) (y : String) → affects (xs ++ ys) y ≡ (affects xs y || affects ys y)
unfolding affects
affects-append [] ys y = refl
affects-append (affect o ∷ xs) ys y = ground (arith, affects-append xs ys y)
affects-append (option o ∷ xs) ys y = affects-append xs ys y

-- The plugins that a plugin's removal affects directly
unfoldable pub dependents : Graph → String → String → Bool
dependents g id = affects (of_node g id (get g.nodes id))

affects-dependencies :
    (g : Graph) (id type other : String) (deps : List ServiceDependency) (y : String)
    → (other == y) ≡ false
    → affects (of_dependencies g id type other deps) y ≡ false
unfolding of_dependencies of_dependency affects
affects-dependencies g id type other [] y ne = refl
affects-dependencies g id type other (dep ∷ deps) y ne = ground (
  arith,
  affects-append (of_dependency g id type other dep) (of_dependencies g id type other deps) y,
  affects-dependencies g id type other deps y ne,
)

affects-known :
    (g : Graph) (id type : String) (m : Map Node) (y : String)
    → affects (of_nodes g id type m) y ≡ true
    → contains (keys m) y ≡ true
unfolding of_nodes affects
affects-known g id type [] y h = h
affects-known g id type ((other, node) ∷ m) y h = elim (Bool-cases (other == y)) [
  | inl same ↦ ground arith
  | inr different ↦
      let none_here = affects-dependencies g id type other node.requires y different in
      ground (
        arith,
        affects-known g id type m y,
        none_here,
        affects-append (if other == id then [] else of_dependencies g id type other node.requires)
            (of_nodes g id type m) y,
      )
]

services-known :
    (g : Graph) (id : String) (svcs : List ServiceDeclaration) (y : String)
    → affects (of_services g id svcs) y ≡ true
    → contains (keys g.nodes) y ≡ true
unfolding of_services affects
services-known g id [] y h = absurd (ground arith)
services-known g id (svc ∷ svcs) y h = ground (
  arith,
  affects-append (of_nodes g id svc.type g.nodes) (of_services g id svcs) y,
  affects-known g id svc.type g.nodes y,
  services-known g id svcs y,
)

pub node-known :
    (g : Graph) (id : String) (node : Option Node) (y : String)
    → affects (of_node g id node) y ≡ true
    → contains (keys g.nodes) y ≡ true
unfolding of_node affects
node-known g id none y h = absurd (ground arith)
node-known g id (some node) y h = services-known g id node.provides y h
