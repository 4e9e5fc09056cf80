-- ===== src/Depgraph/Startup/Edges.antt =====
-- The tables that StartupOrder builds before its loop.
use connect_plugin_go.Prelude.{
  ℕ, ◌+◌, ◌<◌, String, ◌≡◌, ◌≢◌, ◌⊎◌, refl, subst, ◌∙◌, inl, inr, true, List, [], ◌∷◌, ◌++◌, arith,
  eq_iff, eq_self, List-cases, contains, count, count-append, ◌==◌, if◌then◌else◌,
}
use connect_plugin_go.Prelude.Int.{pos, incr}
use connect_plugin_go.Prelude.Maps.{Map, get_or, put, keys, IsDistinct, get_or-put, put-IsDistinct}
use connect_plugin_go.Depgraph.Startup.{
  Tables, Built, tables, lacks, add_edges, add_requirements, build,
}
use connect_plugin_go.Depgraph.Startup.Counts.{total, total-put}

-- The edges that an id with these requirements gives: how often provider p stands for them.
abbrev pub asks : Map (List String) → String → List String → ℕ
asks by_type p [] = 0
asks by_type p (type ∷ types) = count p (get_or by_type type []) + asks by_type p types

-- How many edges from p to x the requirements in `edges` make.
abbrev pub edges_between : Map (List String) → Map (List String) → String → String → ℕ
edges_between by_type [] p x = 0
edges_between by_type ((id, types) ∷ edges) p x =
    let rest = edges_between by_type edges p x in
    if id == x then asks by_type p types + rest else rest

-- The in-degrees are those of the adjacency lists, and are kept for the ids of `all`.
pub record IsTallied (all : List String) (t : Tables) : Type 0 where
  pub distinct : IsDistinct t.adj_list
  pub degree : (x : String) → get_or t.in_degree x (pos 0) ≡ pos (total x t.adj_list)
  pub kept : keys t.in_degree ≡ all

keys-put_kept :
    {V : Type 0} (m : Map V) (k : String) (v : V) → 0 < count k (keys m) → keys (put m k v) ≡ keys m
unfolding put
keys-put_kept [] k v h = elim h [ ]
keys-put_kept ((j, w) ∷ m) k v h = ground (arith, keys-put_kept m k v)

add_edges-IsTallied :
    (all : List String) (id : String) (ps : List String) (t : Tables)
    → 0 < count id all
    → IsTallied all t
    → IsTallied all (add_edges id ps t)
unfolding add_edges
add_edges-IsTallied all id [] t h i = i
add_edges-IsTallied all id (p ∷ ps) t h i = add_edges-IsTallied all id ps _ h (record {
  distinct = put-IsDistinct t.adj_list p _ i.distinct;
  degree = λ x. ground (
    arith,
    i.degree x,
    i.degree id,
    total-put x p id t.adj_list,
    eq_iff id x,
    get_or-put t.in_degree id x (incr (get_or t.in_degree id (pos 0))) (pos 0),
  );
  kept = keys-put_kept t.in_degree id _ (rw i.kept h) ∙ i.kept;
})

add_edges-count :
    (id : String) (ps : List String) (t : Tables) (p x : String)
    → count x (get_or (add_edges id ps t).adj_list p [])
      ≡ count x (get_or t.adj_list p []) + (if id == x then count p ps else 0)
unfolding add_edges
add_edges-count id [] t p x = ground arith
add_edges-count id (q ∷ ps) t p x =
    let t' : Tables = record {
      in_degree = put t.in_degree id (incr (get_or t.in_degree id (pos 0)));
      adj_list = put t.adj_list q (get_or t.adj_list q [] ++ id ∷ []);
    } in
    add_edges-count id ps t' p x
    ∙ ground (
      arith,
      get_or-put t.adj_list q p (get_or t.adj_list q [] ++ id ∷ []) [],
      eq_iff q p,
      count-append x (get_or t.adj_list q []) (id ∷ []),
    )

-- An entry of a table.
pub data Entry (id : String) (types : List String) : Map (List String) → Type 0 where
  here :
      {id' : String} {types' : List String} {m : Map (List String)}
      → id' ≡ id
      → types' ≡ types
      → Entry id types ((id', types') ∷ m)
  later :
      {id' : String} {types' : List String} {m : Map (List String)}
      → Entry id types m
      → Entry id types ((id', types') ∷ m)

Entry-cases :
    {id id' : String} {types types' : List String} {m : Map (List String)}
    → Entry id types ((id', types') ∷ m)
    → ((id' ≡ id) × (types' ≡ types)) ⊎ Entry id types m
Entry-cases (Entry.here e f) = inl (e, f)
Entry-cases (Entry.later m) = inr m

-- Some provider is known for each of the service types.
abbrev pub AllProvided : Map (List String) → List String → Type 0
AllProvided by_type [] = Unit
AllProvided by_type (type ∷ types) = (get_or by_type type [] ≢ []) × AllProvided by_type types

-- The tables after more requirements have been entered: `more p x` edges from p to x are new.
pub record IsGrown (all : List String) (t t' : Tables) (more : String → String → ℕ) : Type 0 where
  pub tallied : IsTallied all t → IsTallied all t'
  pub counted :
      (p x : String)
      → count x (get_or t'.adj_list p []) ≡ count x (get_or t.adj_list p []) + more p x

pub data Entered (all : List String) (by_type : Map (List String)) (id : String)
    (types : List String) (rest : Tables → Built) (t : Tables) : Built → Type 0 where
  went_on :
      (t' : Tables)
      → IsGrown all t t' (λ p x. if id == x then asks by_type p types else 0)
      → AllProvided by_type types
      → Entered all by_type id types rest t (rest t')
  stopped :
      (type : String)
      → contains types type ≡ true
      → get_or by_type type [] ≡ []
      → Entered all by_type id types rest t (lacks id type)

requirement-lacks :
    (by_type : Map (List String)) (id type : String) (types : List String) (rest : Tables → Built)
    (t : Tables)
    → get_or by_type type [] ≡ []
    → add_requirements by_type id (type ∷ types) rest t ≡ lacks id type
unfolding add_requirements
requirement-lacks by_type id type types rest t e = ground arith

requirement-some :
    (by_type : Map (List String)) (id type : String) (types : List String) (rest : Tables → Built)
    (t : Tables) {p : String} {ps : List String}
    → get_or by_type type [] ≡ p ∷ ps
    → add_requirements by_type id (type ∷ types) rest t
      ≡ add_requirements by_type id types rest (add_edges id (get_or by_type type []) t)
unfolding add_requirements
requirement-some by_type id type types rest t e = ground arith

add_requirements-Entered :
    (all : List String) (by_type : Map (List String)) (id : String) (types : List String)
    (rest : Tables → Built) (t : Tables)
    → 0 < count id all
    → Entered all by_type id types rest t (add_requirements by_type id types rest t)
add_requirements-Entered all by_type id [] rest t h =
    unfold add_requirements in
    went_on t (record { tallied = λ i. i; counted = λ p x. ground arith }) tt
add_requirements-Entered all by_type id (type ∷ types) rest t h =
    elim (List-cases (get_or by_type type [])) [
      | inl lacking ↦
          rw (requirement-lacks by_type id type types rest t lacking)
            (stopped type (rw (eq_self type)) lacking)
      | inr (p, ps, e) ↦ rw (requirement-some by_type id type types rest t e) (
          extend
            (add_requirements-Entered all by_type id types rest
              (add_edges id (get_or by_type type []) t) h)
            (λ none_left. cc))
    ]
  where
    extend :
        {b : Built}
        → Entered all by_type id types rest (add_edges id (get_or by_type type []) t) b
        → get_or by_type type [] ≢ []
        → Entered all by_type id (type ∷ types) rest t b
    extend (went_on t' grown provided) has =
        went_on t'
          (record {
            tallied =
                λ i. grown.tallied (add_edges-IsTallied all id (get_or by_type type []) t h i);
            counted = λ p x.
                ground
                  (arith, grown.counted p x, add_edges-count id (get_or by_type type []) t p x);
          })
          (has, provided)
    extend (stopped other inside lacking) has = stopped other (ground arith) lacking

-- What the requirements in `edges` come to: all are met, and the tables hold an edge for each
-- provider of each; or some id requires a type that nothing provides.
pub data IsBuilt (all : List String) (by_type edges : Map (List String)) (t : Tables)
    : Built → Type 0 where
  complete :
      (t' : Tables)
      → IsGrown all t t' (edges_between by_type edges)
      → ((id : String) (types : List String) → Entry id types edges → AllProvided by_type types)
      → IsBuilt all by_type edges t (tables t')
  incomplete :
      (id : String) (types : List String) (type : String)
      → Entry id types edges
      → contains types type ≡ true
      → get_or by_type type [] ≡ []
      → IsBuilt all by_type edges t (lacks id type)

abbrev pub KeysAmong : List String → Map (List String) → Type 0
KeysAmong all [] = Unit
KeysAmong all ((id, types) ∷ edges) = (0 < count id all) × KeysAmong all edges

pub build-IsBuilt :
    (all : List String) (by_type edges : Map (List String)) (t : Tables)
    → KeysAmong all edges
    → IsBuilt all by_type edges t (build by_type edges t)
unfolding build
build-IsBuilt all by_type [] t h =
    complete t (record { tallied = λ i. i; counted = λ p x. omega arith })
      (λ id types m. elim m [ ])
build-IsBuilt all by_type ((id, types) ∷ edges) t h =
    go (add_requirements-Entered all by_type id types (build by_type edges) t h.0)
      (λ t'. build-IsBuilt all by_type edges t' h.1)
  where
    join :
        (t' : Tables) {b : Built}
        → IsGrown all t t' (λ p x. if id == x then asks by_type p types else 0)
        → AllProvided by_type types
        → IsBuilt all by_type edges t' b
        → IsBuilt all by_type ((id, types) ∷ edges) t b
    join t' grown provided (complete t'' more all_provided) =
        complete t''
          (record {
            tallied = λ i. more.tallied (grown.tallied i);
            counted = λ p x. ground (arith, grown.counted p x, more.counted p x);
          })
          (λ other needs m. elim (Entry-cases m) [
            | inl (e, f) ↦ subst (AllProvided by_type) f provided
            | inr m' ↦ all_provided other needs m'
          ])
    join t' grown provided (incomplete id' types' type m c l) =
        incomplete id' types' type (Entry.later m) c l

    go :
        {b : Built}
        → Entered all by_type id types (build by_type edges) t b
        → ((t' : Tables) → IsBuilt all by_type edges t' (build by_type edges t'))
        → IsBuilt all by_type ((id, types) ∷ edges) t b
    go (went_on t' grown provided) ih = join t' grown provided (ih t')
    go (stopped type inside lacking) ih =
        incomplete id types type (Entry.here refl refl) inside lacking
