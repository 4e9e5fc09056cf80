-- ===== src/Depgraph/Startup/Awaits.antt =====
-- Which plugins wait for which, in the graph and in the tables that StartupOrder builds.
use native.Mathlib.Decide.{dec_lt}
use mathlib.Core.List.{append_assoc, append-nil}
use connect_plugin_go.Prelude.{
  suc, ◌≤◌, ◌<◌, String, ◌≡◌, ◌≢◌, refl, subst, ap, inl, inr, true, List, [], ◌∷◌, ◌++◌, arith,
  eq_iff, eq_self, Bool-cases, length, contains, count, ◌==◌, if◌then◌else◌,
}
use connect_plugin_go.Prelude.Int.{ℤ, pos, is_zero}
use connect_plugin_go.Prelude.Maps.{Map, get_or, keys, IsDistinct}
use connect_plugin_go.Depgraph.{Graph}
use connect_plugin_go.Depgraph.Startup.{Tables, initial_degrees, sources}
use connect_plugin_go.Depgraph.Startup.Edges.{
  IsTallied, edges_between, asks, KeysAmong, Entry, AllProvided,
}
use connect_plugin_go.Depgraph.Startup.Loop.{IsOrdered}

-- The graph's three maps fit together: no id twice, requirements for known ids only, and every
-- provider that the index lists is a plugin of the graph.
pub record IsOrderable (g : Graph) : Type 0 where
  pub single : IsDistinct g.nodes
  pub edges_single : IsDistinct g.edges
  pub required : KeysAmong (keys g.nodes) g.edges
  pub listed :
      (p type : String) → 0 < count p (get_or g.by_type type []) → 0 < count p (keys g.nodes)

-- x requires the service type for its startup.
abbrev pub Requires : Graph → String → String → Type 0
Requires g x type = contains (get_or g.edges x []) type ≡ true

-- p is a provider of a service type that x requires for its startup.
pub record Awaits (g : Graph) (p x : String) : Type 0 where
  pub type : String
  pub needed : Requires g x type
  pub provided : 0 < count p (get_or g.by_type type [])

pub keys-initial_degrees : {V : Type 0} (m : Map V) → keys (initial_degrees m) ≡ keys m
keys-initial_degrees [] = refl
keys-initial_degrees ((id, v) ∷ m) = ap (◌∷◌ id) (keys-initial_degrees m)

pub get_or-initial_degrees :
    {V : Type 0} (m : Map V) (x : String) → get_or (initial_degrees m) x (pos 0) ≡ pos 0
unfolding get_or
get_or-initial_degrees [] x = refl
get_or-initial_degrees ((id, v) ∷ m) x = ground (arith, get_or-initial_degrees m x)

abbrev pub start : Graph → Tables
start g = record { in_degree = initial_degrees g.nodes; adj_list = [] }

pub start-IsTallied : (g : Graph) → IsTallied (keys g.nodes) (start g)
start-IsTallied g = record {
  distinct = λ k. omega arith;
  degree = λ x. get_or-initial_degrees g.nodes x;
  kept = keys-initial_degrees g.nodes;
}

pub length-keys {ℓ} : {V : Type ℓ} (m : Map V) → length (keys m) ≡ length m
length-keys [] = refl
length-keys ((k, v) ∷ m) = ap suc (length-keys m)

count-sources_absent : (x : String) (m : Map ℤ) → count x (keys m) ≡ 0 → count x (sources m) ≡ 0
unfolding sources
count-sources_absent x [] h = refl
count-sources_absent x ((id, z) ∷ m) h = ground (arith, count-sources_absent x m)

pub count-sources :
    (x : String) (m : Map ℤ)
    → count x (keys m) ≤ 1
    → count x (sources m) ≡ (if is_zero (get_or m x (pos 0)) then count x (keys m) else 0)
unfolding sources get_or
count-sources x [] h = refl
count-sources x ((id, z) ∷ m) h = ground (arith, count-sources x m, count-sources_absent x m)

pub asks-pos :
    (by_type : Map (List String)) (p type : String) (types : List String)
    → contains types type ≡ true
    → 0 < count p (get_or by_type type [])
    → 0 < asks by_type p types
asks-pos by_type p type [] c h = cc
asks-pos by_type p type (t ∷ types) c h =
    ground (arith, asks-pos by_type p type types, eq_iff t type)

pub pos-asks :
    (by_type : Map (List String)) (p : String) (types : List String)
    → 0 < asks by_type p types
    → (type : String) × (contains types type ≡ true) × (0 < count p (get_or by_type type []))
pos-asks by_type p [] h = elim h [ ]
pos-asks by_type p (t ∷ types) h = elim (dec_lt 0 (count p (get_or by_type t []))) [
  | yes here ↦ (t, rw (eq_self t), here)
  | no others ↦ let (type, c, k) = pos-asks by_type p types (omega arith) in (type, ground arith, k)
]

pub edges_between_absent :
    (by_type edges : Map (List String)) (p x : String)
    → count x (keys edges) ≡ 0
    → (edges_between by_type edges p x ≡ 0) × (get_or edges x [] ≡ [])
unfolding get_or
edges_between_absent by_type [] p x h = (refl, refl)
edges_between_absent by_type ((id, types) ∷ edges) p x h =
    ground (arith, edges_between_absent by_type edges p x)

pub edges_between-asks :
    (by_type edges : Map (List String)) (p x : String)
    → count x (keys edges) ≤ 1
    → edges_between by_type edges p x ≡ asks by_type p (get_or edges x [])
unfolding get_or
edges_between-asks by_type [] p x h = refl
edges_between-asks by_type ((id, types) ∷ edges) p x h = elim (Bool-cases (id == x)) [
  | inl this ↦ ground (arith, edges_between_absent by_type edges p x)
  | inr other ↦ ground (arith, edges_between-asks by_type edges p x)
]

pub KeysAmong-absent :
    (all : List String) (edges : Map (List String)) (x : String)
    → KeysAmong all edges
    → count x all ≡ 0
    → count x (keys edges) ≡ 0
KeysAmong-absent all [] x k h = refl
KeysAmong-absent all ((id, types) ∷ edges) x k h =
    ground (arith, KeysAmong-absent all edges x, eq_iff id x)

Entry-key :
    (edges : Map (List String)) (id : String) {types : List String}
    → Entry id types edges
    → 0 < count id (keys edges)
Entry-key ((j, ts) ∷ edges) id (Entry.here e f) = ground (arith, eq_iff j id)
Entry-key ((j, ts) ∷ edges) id (Entry.later m) = ground (arith, Entry-key edges id m)
Entry-key [] id m = elim m [ ]

pub Entry-get_or :
    (edges : Map (List String)) (id : String) (types : List String)
    → IsDistinct edges
    → Entry id types edges
    → get_or edges id [] ≡ types
unfolding get_or
Entry-get_or [] id types d m = elim m [ ]
Entry-get_or ((j, ts) ∷ edges) id types d (Entry.here e f) = ground (arith, eq_iff j id)
Entry-get_or ((j, ts) ∷ edges) id types d (Entry.later m) =
    ground
      (arith, d id, Entry-key edges id m, Entry-get_or edges id types (λ k. ground (arith, d k)) m)

pub get_or-Entry :
    (edges : Map (List String)) (id type : String)
    → contains (get_or edges id []) type ≡ true
    → Entry id (get_or edges id []) edges
unfolding get_or
get_or-Entry [] id type h = cc
get_or-Entry ((j, ts) ∷ edges) id type h = elim (Bool-cases (j == id)) [
  | inl this ↦ rw this (Entry.here (ground (arith, eq_iff j id)) refl)
  | inr other ↦ rw other (Entry.later (get_or-Entry edges id type (rw other at h)))
]

pub AllProvided-contains :
    (by_type : Map (List String)) (types : List String) (type : String)
    → AllProvided by_type types
    → contains types type ≡ true
    → get_or by_type type [] ≢ []
AllProvided-contains by_type [] type h c = cc
AllProvided-contains by_type (t ∷ types) type h c = elim (Bool-cases (t == type)) [
  | inl this ↦ subst (λ u. get_or by_type u [] ≢ []) ((eq_iff t type).0 this) h.0
  | inr other ↦ AllProvided-contains by_type types type h.1 (ground arith)
]

pub IsOrdered-split :
    (adj : Map (List String)) (seen before after : List String) (x p : String)
    → IsOrdered adj seen (before ++ x ∷ after)
    → 0 < count x (get_or adj p [])
    → 0 < count p (seen ++ before)
unfolding IsOrdered
IsOrdered-split adj seen [] after x p o h = rw append-nil (o.0 p h)
IsOrdered-split adj seen (y ∷ before) after x p o h =
    rw append_assoc at (IsOrdered-split adj (seen ++ y ∷ []) before after x p o.1 h)
