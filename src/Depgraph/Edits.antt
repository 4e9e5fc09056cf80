-- ===== src/Depgraph/Edits.antt =====
-- Add and Remove keep the graph's three maps in step.
use native.Mathlib.Decide.{dec_lt}
use connect_plugin_go.Prelude.{
  ℕ, ◌+◌, ◌≤◌, ◌<◌, String, ◌≡◌, refl, ◌∙◌, inl, inr, Option, none, some, List, [], ◌∷◌, ◌++◌,
  arith, eq_iff, eq_self, Bool-cases, count, count-append, ◌==◌, if◌then◌else◌,
}
use connect_plugin_go.Prelude.Maps.{
  Map, get, get_or, put, keys, IsDistinct, get-put, get-delete, get_or-put, get_or-delete,
  put-IsDistinct, delete-IsDistinct, count-keys-delete, get_absent, put_absent, put_self,
}
use connect_plugin_go.Depgraph.{
  Graph, Node, new_graph, required_types, types_of, add, remove, add_provider, remove_provider,
  erase, store, get_providers,
}
use connect_plugin_go.Depgraph.Startup.Counts.{count-erase}
use connect_plugin_go.Depgraph.Startup.Edges.{KeysAmong}
use connect_plugin_go.Depgraph.Startup.Awaits.{IsOrderable}

-- How often a node provides a service type.
abbrev pub provisions : Option Node → String → ℕ
provisions none type = 0
provisions (some n) type = count type (types_of n.provides)

-- No key twice in any map, requirements for known ids only, and in the index each plugin stands under
-- a type as often as it provides that type.
pub record IsWellFormed (g : Graph) : Type 0 where
  pub single : IsDistinct g.nodes
  pub edges_single : IsDistinct g.edges
  pub required : (x : String) → count x (keys g.edges) ≤ count x (keys g.nodes)
  pub indexed :
      (p type : String) → count p (get_or g.by_type type []) ≡ provisions (get g.nodes p) type

pub new_graph-IsWellFormed : IsWellFormed new_graph
unfolding get get_or
new_graph-IsWellFormed = record {
  single = λ k. omega arith;
  edges_single = λ k. omega arith;
  required = λ x. omega arith;
  indexed = λ p type. refl;
}

add_provider-count :
    (id : String) (types : List String) (m : Map (List String)) (p type : String)
    → count p (get_or (add_provider id types m) type [])
      ≡ count p (get_or m type []) + (if id == p then count type types else 0)
unfolding add_provider
add_provider-count id [] m p type = ground arith
add_provider-count id (t ∷ types) m p type =
    add_provider-count id types (put m t (get_or m t [] ++ id ∷ [])) p type
    ∙ ground (
      arith,
      get_or-put m t type (get_or m t [] ++ id ∷ []) [],
      eq_iff t type,
      count-append p (get_or m t []) (id ∷ []),
    )

get_or-store :
    (m : Map (List String)) (t type : String) (l : List String)
    → get_or (store t l m) type [] ≡ (if t == type then l else get_or m type [])
get_or-store m t type [] = get_or-delete m t type []
get_or-store m t type (x ∷ l) = get_or-put m t type (x ∷ l) []

-- Each provision takes one place of the id out of the list of its type.
remove_provider-count :
    (id : String) (types : List String) (m : Map (List String)) (p type : String)
    → ((u : String) → count u types ≤ count id (get_or m u []))
    → count p (get_or m type [])
      ≡ count p (get_or (remove_provider id types m) type [])
        + (if id == p then count type types else 0)
unfolding remove_provider
remove_provider-count id [] m p type h = ground arith
remove_provider-count id (t ∷ types) m p type h =
    let m' = store t (erase id (get_or m t [])) m in
    let held : 0 < count id (get_or m t []) = ground (arith, h t, eq_self t) in
    let ih = remove_provider-count id types m' p type (λ u. ground (
      arith,
      h u,
      get_or-store m t u (erase id (get_or m t [])),
      eq_iff t u,
      count-erase id id (get_or m t []) held,
      eq_self id,
    )) in
    ground (
      arith,
      ih,
      get_or-store m t type (erase id (get_or m t [])),
      eq_iff t type,
      count-erase id p (get_or m t []) held,
    )

-- A plugin that is new to the graph is added in all three maps.
pub add-IsWellFormed :
    (g : Graph) (node : Node)
    → count node.runtime_id (keys g.nodes) ≡ 0
    → IsWellFormed g
    → IsWellFormed (add node g)
unfolding add
add-IsWellFormed g node fresh w = record {
  single = put-IsDistinct g.nodes node.runtime_id node w.single;
  edges_single =
      put-IsDistinct g.edges node.runtime_id (required_types node.requires) w.edges_single;
  required = λ x. elim (Bool-cases (node.runtime_id == x)) [
    | inl this ↦ ground (
      arith,
      eq_iff node.runtime_id x,
      w.required x,
      w.edges_single x,
      w.single x,
      put_self g.nodes x node,
      put_self g.edges x (required_types node.requires),
    )
    | inr other ↦ ground (
      arith,
      eq_iff node.runtime_id x,
      w.required x,
      put_absent g.nodes node.runtime_id x node,
      put_absent g.edges node.runtime_id x (required_types node.requires),
    )
  ];
  indexed = λ p type. ground (
    arith,
    w.indexed p type,
    get-put g.nodes node.runtime_id p node,
    eq_iff node.runtime_id p,
    get_absent g.nodes node.runtime_id fresh,
    add_provider-count node.runtime_id (types_of node.provides) g.by_type p type,
  );
}

-- Removing a plugin takes it out of all three maps.
pub remove-IsWellFormed : (g : Graph) (id : String) → IsWellFormed g → IsWellFormed (remove id g)
unfolding remove
remove-IsWellFormed g id w = go (get g.nodes id) refl
  where
    go : (found : Option Node) → get g.nodes id ≡ found → IsWellFormed (remove id g)
    go none e = rw (e, remove) w
    go (some n) e =
        rw (e, remove)
          (record {
            single = delete-IsDistinct g.nodes id w.single;
            edges_single = delete-IsDistinct g.edges id w.edges_single;
            required = λ x. ground (
              arith,
              w.required x,
              count-keys-delete g.nodes id x,
              count-keys-delete g.edges id x,
            );
            indexed = λ p type. ground (
              arith,
              w.indexed p type,
              get-delete g.nodes id p,
              eq_iff id p,
              e,
              remove_provider-count id (types_of n.provides) g.by_type p type
                  (λ u. ground (arith, w.indexed id u, e)),
            );
          })

pub get-remove :
    (g : Graph) (id p : String)
    → get (remove id g).nodes p ≡ (if id == p then none else get g.nodes p)
unfolding remove
get-remove g id p = ground (arith, get-delete g.nodes id p, eq_iff id p)

-- After a removal the index lists the plugin nowhere, and the others as before.
pub get_providers-remove :
    (g : Graph) (id p type : String)
    → IsWellFormed g
    → count p (get_providers (remove id g) type)
      ≡ (if id == p then 0 else count p (get_providers g type))
unfolding get_providers
get_providers-remove g id p type w =
    ground (arith, (remove-IsWellFormed g id w).indexed p type, w.indexed p type, get-remove g id p)

KeysAmong-from :
    (all : List String) (edges : Map (List String))
    → ((x : String) → 0 < count x (keys edges) → 0 < count x all)
    → KeysAmong all edges
KeysAmong-from all [] h = tt
KeysAmong-from all ((id, types) ∷ edges) h =
    (h id (ground (arith, eq_self id)), KeysAmong-from all edges (λ x k. h x (ground arith)))

-- What Add and Remove keep is what StartupOrder needs.
pub IsWellFormed-IsOrderable : (g : Graph) → IsWellFormed g → IsOrderable g
IsWellFormed-IsOrderable g w = record {
  single = w.single;
  edges_single = w.edges_single;
  required = KeysAmong-from (keys g.nodes) g.edges (λ x k. omega (arith, w.required x));
  listed = λ p type h. elim (dec_lt 0 (count p (keys g.nodes))) [
    | yes k ↦ k
    | no absent ↦ absurd (ground (arith, w.indexed p type, get_absent g.nodes p))
  ];
}
