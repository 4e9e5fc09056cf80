-- ===== src/Depgraph/Impact/Search.antt =====
-- What findDependents visits, with enough fuel.
use connect_plugin_go.Prelude.{
  ℕ, zero, suc, ◌≤◌, String, ◌≡◌, refl, sym, subst, ap, ◌⊎◌, inl, inr, true, false, ◌||◌, List, [],
  ◌∷◌, contains, contains-append, length, arith, eq_iff, eq_self, Bool-cases, ◌==◌, if◌then◌else◌,
}
use connect_plugin_go.Prelude.Maps.{Map, get, keys}
use connect_plugin_go.Depgraph.{Graph, Node, append_unique}
use connect_plugin_go.Depgraph.Impact.{
  Found, Recursion, add_affected, add_optional, find_dependents,
}
use connect_plugin_go.Depgraph.Impact.Actions.{
  Action, affect, option, perform, of_node, expand-perform, affects, dependents, node-known,
}

-- How many of the plugins are not visited
unfoldable pub unvisited : Map Node → List String → ℕ
unvisited [] visited = 0
unvisited ((id, node) ∷ m) visited =
    let rest = unvisited m visited in if contains visited id then rest else suc rest

abbrev pub Within : List String → List String → Type 0
Within xs ys = (x : String) → contains xs x ≡ true → contains ys x ≡ true

unvisited-Within : (m : Map Node) (v w : List String) → Within v w → unvisited m w ≤ unvisited m v
unfolding unvisited
unvisited-Within [] v w h = omega arith
unvisited-Within ((id, node) ∷ m) v w h = ground (arith, h id, unvisited-Within m v w h)

unvisited-mark :
    (m : Map Node) (id : String) (v : List String)
    → contains (keys m) id ≡ true
    → contains v id ≡ false
    → suc (unvisited m (id ∷ v)) ≤ unvisited m v
unfolding unvisited
unvisited-mark [] id v k f = absurd (ground arith)
unvisited-mark ((key, node) ∷ m) id v k f = elim (Bool-cases (key == id)) [
  | inl same ↦
      ground (arith, eq_iff key id, eq_self id, unvisited-Within m v (id ∷ v) (λ x h. ground arith))
  | inr different ↦ ground (arith, eq_iff key id, eq_iff id key, unvisited-mark m id v)
]

pub unvisited-length : (m : Map Node) → unvisited m [] ≡ length m
unfolding unvisited
unvisited-length [] = refl
unvisited-length (e ∷ m) = ap suc (unvisited-length m)

-- All that the removal of a plugin affects directly is listed and visited.
abbrev pub IsClosed : Graph → Found → String → Type 0
IsClosed g s x =
    (y : String)
    → dependents g x y ≡ true
    → (contains s.affected y ≡ true) × (contains s.visited y ≡ true)

-- A search goes on from one state to another: nothing is forgotten, and what is newly visited is closed.
pub record Grows (g : Graph) (s t : Found) : Type 0 where
  pub seen : Within s.visited t.visited
  pub kept : Within s.affected t.affected
  pub closed :
      (x : String) → contains t.visited x ≡ true → (contains s.visited x ≡ true) ⊎ IsClosed g t x

Grows-refl : {g : Graph} (s : Found) → Grows g s s
Grows-refl s = record { seen = λ x h. h; kept = λ x h. h; closed = λ x h. inl h }

Grows-trans : {g : Graph} {s t u : Found} → Grows g s t → Grows g t u → Grows g s u
Grows-trans a b = record {
  seen = λ x h. b.seen x (a.seen x h);
  kept = λ x h. b.kept x (a.kept x h);
  closed = λ x h. elim (b.closed x h) [
    | inr done ↦ inr done
    | inl earlier ↦ elim (a.closed x earlier) [
      | inl first ↦ inl first
      | inr done ↦ inr (λ y d. let (p, q) = done y d in (b.kept y p, b.seen y q))
    ]
  ];
}

pub contains-append_unique :
    (xs : List String) (x y : String) → contains (append_unique xs x) y ≡ (contains xs y || x == y)
unfolding append_unique
contains-append_unique xs x y = ground (arith, contains-append xs (x ∷ []) y, eq_iff x y)

add_affected-Grows : (g : Graph) (s : Found) (o : String) → Grows g s (add_affected o s)
add_affected-Grows g s o = record {
  seen = λ x h. h;
  kept = λ x h. ground (arith, h, contains-append_unique s.affected o x);
  closed = λ x h. inl h;
}

add_optional-Grows : (g : Graph) (s : Found) (o : String) → Grows g s (add_optional o s)
add_optional-Grows g s o = record { seen = λ x h. h; kept = λ x h. h; closed = λ x h. inl h }

-- What a recursive call promises while no more than n plugins are unvisited
abbrev Promises : Graph → ℕ → Recursion → Type 0
Promises g n again =
    (o : String) (s : Found)
    → contains (keys g.nodes) o ≡ true
    → unvisited g.nodes s.visited ≤ n
    → Grows g s (again o s) × (contains (again o s).visited o ≡ true)

perform-Grows :
    (g : Graph) (n : ℕ) (again : Recursion) (xs : List Action) (s : Found)
    → Promises g n again
    → ((y : String) → affects xs y ≡ true → contains (keys g.nodes) y ≡ true)
    → unvisited g.nodes s.visited ≤ n
    → Grows g s (perform again xs s)
      × ((y : String)
          → affects xs y ≡ true
          → (contains (perform again xs s).affected y ≡ true)
            × (contains (perform again xs s).visited y ≡ true))
unfolding perform affects
perform-Grows g n again [] s ih known enough = (Grows-refl s, λ y h. absurd (ground arith))
perform-Grows g n again (option o ∷ xs) s ih known enough =
    let (grows, reached) = perform-Grows g n again xs (add_optional o s) ih known enough in
    (Grows-trans (add_optional-Grows g s o) grows, reached)
perform-Grows g n again (affect o ∷ xs) s ih known enough =
    let t = add_affected o s in
    let (called, marked) = ih o t (known o (ground (arith, eq_self o))) enough in
    let fewer = unvisited-Within g.nodes t.visited (again o t).visited called.seen in
    let (grows, reached) =
      perform-Grows g n again xs (again o t) ih (λ y h. known y (ground arith)) (omega arith) in
    (
      Grows-trans (add_affected-Grows g s o) (Grows-trans called grows),
      λ y h. elim (Bool-cases (o == y)) [
        | inr different ↦ reached y (ground arith)
        | inl same ↦ rw (sym ((eq_iff o y).0 same)) (
          grows.kept o
              (called.kept o (ground (arith, contains-append_unique s.affected o o, eq_self o))),
          grows.seen o marked,
        )
      ],
    )

-- A plugin that is marked and then expanded is closed with all that is visited from there.
expanded-Grows :
    (g : Graph) (id : String) (s t : Found)
    → Grows g (record s { visited = id ∷ s.visited }) t
    → IsClosed g t id
    → Grows g s t
expanded-Grows g id s t grows closed = record {
  seen = λ x h. grows.seen x (ground arith);
  kept = grows.kept;
  closed = λ x h. elim (grows.closed x h) [
    | inr done ↦ inr done
    | inl first ↦ elim (Bool-cases (id == x)) [
      | inl same ↦ inr (subst (IsClosed g t) ((eq_iff id x).0 same) closed)
      | inr different ↦ inl (ground arith)
    ]
  ];
}

-- With fuel for the plugins that are not visited, findDependents visits the plugin, and closes all that
-- it newly visits.
pub find_dependents-Grows : (n : ℕ) (g : Graph) → Promises g n (find_dependents n g)
unfolding find_dependents dependents
find_dependents-Grows zero g id s known enough = elim (Bool-cases (contains s.visited id)) [
  | inl before ↦ (Grows-refl s, before)
  | inr new ↦ absurd (omega (arith, unvisited-mark g.nodes id s.visited known new))
]
find_dependents-Grows (suc n) g id s known enough = elim (Bool-cases (contains s.visited id)) [
  | inl before ↦ rw (before, find_dependents) (Grows-refl s, before)
  | inr new ↦
      let s' : Found = record s { visited = id ∷ s.visited } in
      let (grows, reached) =
        perform-Grows g n (find_dependents n g) (of_node g id (get g.nodes id)) s'
          (find_dependents-Grows n g) (node-known g id (get g.nodes id))
          (omega (arith, unvisited-mark g.nodes id s.visited known new)) in
      rw (new, find_dependents, expand-perform (find_dependents n g) g id (get g.nodes id) s')
        (
          expanded-Grows g id s (perform (find_dependents n g) (of_node g id (get g.nodes id)) s')
              grows reached,
          grows.seen id (ground (arith, eq_self id)),
        )
]
