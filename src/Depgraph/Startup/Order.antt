-- ===== src/Depgraph/Startup/Order.antt =====
-- What StartupOrder promises of a well-formed graph.
use native.Mathlib.Decide.{dec_lt}
use connect_plugin_go.Prelude.{
  ℕ, suc, ◌<◌, String, ◌≡◌, ◌≢◌, refl, subst, ap, ◌∙◌, inl, inr, false, some, List, [], ◌∷◌, ◌++◌,
  arith, Bool-cases, length, count, nat_eq,
}
use connect_plugin_go.Prelude.Maps.{get_or, keys}
use connect_plugin_go.Depgraph.{Graph}
use connect_plugin_go.Depgraph.Startup.{
  Tables, Built, tables, sources, sort, conclude, finish, startup_order, StartupResult, order,
  no_provider, dependency_cycle,
}
use connect_plugin_go.Depgraph.Startup.Counts.{total, count-sort, length-le, total_key}
use connect_plugin_go.Depgraph.Startup.Edges.{
  IsTallied, IsGrown, IsBuilt, complete, incomplete, edges_between, asks, build-IsBuilt,
}
use connect_plugin_go.Depgraph.Startup.Awaits.{
  IsOrderable, Requires, Awaits, start, start-IsTallied, length-keys, count-sources, asks-pos,
  pos-asks, edges_between_absent, edges_between-asks, KeysAmong-absent, get_or-Entry, Entry-get_or,
  AllProvided-contains, IsOrdered-split,
}
use connect_plugin_go.Depgraph.Startup.Loop.{
  IsOrdered, Inv, Ends, process-Ends, Ends-all, Ends-count, Ends-le,
}

-- What the three answers of StartupOrder mean: the order holds every plugin as often as the graph
-- does (once), each behind all the plugins that it awaits, and every required type is provided; the
-- named plugin requires a type without provider; or no ranking of the plugins respects what awaits what.
pub data Answers (g : Graph) : StartupResult → Type 0 where
  ordered :
      (l : List String)
      → ((id : String) → count id l ≡ count id (keys g.nodes))
      → ((before : List String) (x : String) (after : List String) (p : String)
          → l ≡ before ++ x ∷ after
          → Awaits g p x
          → 0 < count p before)
      → ((x type : String) → Requires g x type → get_or g.by_type type [] ≢ [])
      → Answers g (order l)
  unprovided :
      (id type : String)
      → Requires g id type
      → get_or g.by_type type [] ≡ []
      → Answers g (no_provider id type)
  cyclic :
      (processed all : ℕ)
      → processed < all
      → ((rank : String → ℕ) → ¬ ((p x : String) → Awaits g p x → rank p < rank x))
      → Answers g (dependency_cycle processed all)

module _ (g : Graph) (w : IsOrderable g) where
  module _ (t : Tables)
      (grown : IsGrown (keys g.nodes) (start g) t (edges_between g.by_type g.edges)) where
    edge-asks :
        (p x : String) → count x (get_or t.adj_list p []) ≡ asks g.by_type p (get_or g.edges x [])
    edge-asks p x =
        grown.counted p x
        ∙ unfold get_or in
          omega (arith, edges_between-asks g.by_type g.edges p x (w.edges_single x))

    edge_of_Awaits : (p x : String) → Awaits g p x → 0 < count x (get_or t.adj_list p [])
    edge_of_Awaits p x a =
        rw (edge-asks p x) (asks-pos g.by_type p a.type (get_or g.edges x []) a.needed a.provided)

    Awaits-of_edge : (p x : String) → 0 < count x (get_or t.adj_list p []) → Awaits g p x
    Awaits-of_edge p x h =
        let (type, needed, provided) =
          pos-asks g.by_type p (get_or g.edges x []) (rw edge-asks at h) in
        record { type = type; needed = needed; provided = provided }

    tally : IsTallied (keys g.nodes) t
    tally = grown.tallied (start-IsTallied g)

    known : (x : String) → count x (keys g.nodes) ≡ 0 → total x t.adj_list ≡ 0
    known x h = elim (dec_lt 0 (total x t.adj_list)) [
      | no none_left ↦ omega arith
      | yes waits ↦
          let (p, e) = total_key x t.adj_list tally.distinct waits in
          let (absent, none_asked) =
            edges_between_absent g.by_type g.edges p x
              (KeysAmong-absent (keys g.nodes) g.edges x w.required h) in
          absurd (omega (arith, edge-asks p x ∙ ap (asks g.by_type p) none_asked))
    ]

    begin : Inv (keys g.nodes) t.adj_list t.in_degree (sort (sources t.in_degree)) [] t.adj_list
    begin = record {
      distinct = tally.distinct;
      degree = tally.degree;
      once = λ x. ground (
        arith,
        count-sort x (sources t.in_degree),
        tally.degree x,
        w.single x,
        count-sources x t.in_degree,
        tally.kept,
      );
      known = known;
      same = λ p h. refl;
      gone = λ p h. absurd (omega arith);
      ordered = unfold IsOrdered in tt;
    }

    shorter :
        (l : List String)
        → Ends (keys g.nodes) t.adj_list w.single l
        → nat_eq (length l) (length g.nodes) ≡ false
        → length l < length g.nodes
    shorter l ends part = ground (
      arith,
      length-keys g.nodes,
      length-le l (keys g.nodes) (Ends-le (keys g.nodes) t.adj_list w.single ends),
    )

    -- A ranking would have let the loop process everything.
    unranked :
        (l : List String)
        → Ends (keys g.nodes) t.adj_list w.single l
        → length l < length g.nodes
        → (rank : String → ℕ) → ¬ ((p x : String) → Awaits g p x → rank p < rank x)
    unranked l ends short rank grows =
        let all_out : (x : String) → total x ends.rest ≡ 0 = λ x.
          Ends-all (keys g.nodes) t.adj_list w.single rank
            (λ p y e. grows p y (Awaits-of_edge p y e))
            (λ p y e. let a = Awaits-of_edge p y e in w.listed p a.type a.provided) ends
            (suc (rank x)) x (omega arith) in
        omega (
          arith,
          length-keys g.nodes,
          length-le (keys g.nodes) l (λ x. ground (arith, ends.inv.once x, all_out x)),
        )

    -- The loop's answer for these tables.
    finished :
        ((x type : String) → Requires g x type → get_or g.by_type type [] ≢ [])
        → (r : StartupResult) × (finish (length g.nodes) (tables t) ≡ some r) × Answers g r
    unfolding finish conclude
    finished provided =
        let (l, e, ends) =
          process-Ends (keys g.nodes) t.adj_list w.single (length t.in_degree) t.in_degree
            (sort (sources t.in_degree)) [] t.adj_list begin
            (omega (arith, ap length tally.kept, length-keys t.in_degree)) in
        elim (Bool-cases (nat_eq (length l) (length g.nodes))) [
          | inl whole ↦
              let same =
                Ends-count (keys g.nodes) t.adj_list w.single ends
                  (ground (arith, length-keys g.nodes)) in
              (
                order l,
                ground (arith, e, whole),
                ordered l same
                    (λ before x after p split a.
                      IsOrdered-split t.adj_list [] before after x p
                        (subst (IsOrdered t.adj_list []) split ends.inv.ordered)
                        (edge_of_Awaits p x a))
                    provided,
              )
          | inr part ↦ (
            dependency_cycle (length l) (length g.nodes),
            ground (arith, e, part),
            cyclic (length l) (length g.nodes) (shorter l ends part)
                (unranked l ends (shorter l ends part)),
          )
        ]

-- For a graph whose maps fit together, StartupOrder comes to an answer within as many rounds as there
-- are plugins, and the answer is right: an order is one of all the plugins in which each plugin stands
-- behind the providers of all the types that it requires, with every required type provided; "no
-- provider" names a requirement that nothing meets; and a cycle is reported only if no ranking of the
-- plugins puts providers below those that await them.
pub startup_order_lem :
    (g : Graph) → IsOrderable g → (r : StartupResult) × (startup_order g ≡ some r) × Answers g r
unfolding startup_order
startup_order_lem g w = go (build-IsBuilt (keys g.nodes) g.by_type g.edges (start g) w.required)
  where
    go :
        {b : Built}
        → IsBuilt (keys g.nodes) g.by_type g.edges (start g) b
        → (r : StartupResult) × (finish (length g.nodes) b ≡ some r) × Answers g r
    go (complete t grown provided) = finished g w t grown (λ x type needs.
        AllProvided-contains g.by_type (get_or g.edges x []) type
          (provided x (get_or g.edges x []) (get_or-Entry g.edges x type needs)) needs)
    go (incomplete id types type m inside lacking) = (
      no_provider id type,
      unfold finish in refl,
      unprovided id type (rw (Entry-get_or g.edges id types w.edges_single m) inside) lacking,
    )
