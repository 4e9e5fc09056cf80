-- ===== src/Depgraph/Startup/Loop.antt =====
-- The loop of StartupOrder, for the ids `all` and the adjacency lists `adj`.
use native.Mathlib.Decide.{dec_lt}
use connect_plugin_go.Prelude.{
  ℕ, zero, suc, ◌+◌, ◌≤◌, ◌<◌, String, ◌≡◌, refl, ap, ◌∙◌, some, List, [], ◌∷◌, ◌++◌, arith, eq_iff,
  eq_self, length, length-append, count, count-append, nat_eq, ltb, ◌&&◌, if◌then◌else◌,
}
use mathlib.Core.List.{append_assoc, append-nil}
use connect_plugin_go.Prelude.Int.{ℤ, pos, is_zero, decr}
use connect_plugin_go.Prelude.Maps.{
  Map, get_or, put, delete, IsDistinct, get_or-put, get_or-delete, delete-IsDistinct,
}
use connect_plugin_go.Depgraph.Startup.{sort, relax, process}
use connect_plugin_go.Depgraph.Startup.Counts.{
  count-sort, length-le, count-eq, total, total-delete, count-le-total, total_key,
}

relax_step :
    (d : String) (ds : List String) (degrees : Map ℤ) (queue : List String) {z : ℤ}
    → get_or degrees d (pos 0) ≡ z
    → relax (d ∷ ds) degrees queue
      ≡ relax ds
          (put degrees d (decr z))
          (if is_zero (decr z) then sort (queue ++ d ∷ []) else queue)
unfolding relax
relax_step d ds degrees queue e =
    ap
      (λ (z : ℤ).
        relax ds (put degrees d (decr z))
          (if is_zero (decr z) then sort (queue ++ d ∷ []) else queue))
      e

-- The round for one popped id: the dependents of that id, one by one. `left x` is what
-- the in-degree of x comes down to.
relax_lem :
    (ds : List String) (degrees : Map ℤ) (queue : List String) (left : String → ℕ)
    → ((x : String) → get_or degrees x (pos 0) ≡ pos (left x + count x ds))
    → ((x : String) → get_or (relax ds degrees queue).0 x (pos 0) ≡ pos (left x))
      × ((x : String)
          → count x (relax ds degrees queue).1
            ≡ count x queue + (if nat_eq (left x) 0 && ltb 0 (count x ds) then 1 else 0))
relax_lem [] degrees queue left h = unfold relax in (λ x. ground (arith, h x), λ x. ground arith)
relax_lem (d ∷ ds) degrees queue left h =
    let n = left d + count d ds in
    let here : get_or degrees d (pos 0) ≡ pos (suc n) = ground (arith, h d, eq_self d) in
    let queue' = if is_zero (pos n) then sort (queue ++ d ∷ []) else queue in
    let ih =
      relax_lem ds (put degrees d (pos n)) queue' left
        (λ x. ground (arith, h x, get_or-put degrees d x (pos n) (pos 0), eq_iff d x)) in
    rw (relax_step d ds degrees queue here) (
      ih.0,
      λ x. ground (
        arith,
        ih.1 x,
        count-sort x (queue ++ d ∷ []),
        count-append x queue (d ∷ []),
        eq_iff d x,
      ),
    )

-- Each id stands behind all the ids whose lists hold it, given those in `seen` before.
unfoldable pub IsOrdered : Map (List String) → List String → List String → Type 0
IsOrdered adj seen [] = Unit
IsOrdered adj seen (x ∷ xs) =
    ((p : String) → 0 < count x (get_or adj p []) → 0 < count p seen)
    × IsOrdered adj (seen ++ x ∷ []) xs

IsOrdered-append :
    (adj : Map (List String)) (seen xs : List String) (c : String)
    → IsOrdered adj seen xs
    → ((p : String) → 0 < count c (get_or adj p []) → 0 < count p (seen ++ xs))
    → IsOrdered adj seen (xs ++ c ∷ [])
unfolding IsOrdered
IsOrdered-append adj seen [] c o h = (rw append-nil at h, tt)
IsOrdered-append adj seen (x ∷ xs) c o h =
    (o.0, IsOrdered-append adj (seen ++ x ∷ []) xs c o.1 (rw append_assoc h))

module _ (all : List String) (adj : Map (List String)) where
  -- What holds before each round; `rest` is `adj` without the lists of the popped ids.
  pub record Inv (degrees : Map ℤ) (queue result : List String) (rest : Map (List String))
      : Type 0 where
    pub distinct : IsDistinct rest
    pub degree : (x : String) → get_or degrees x (pos 0) ≡ pos (total x rest)
    pub once :
        (x : String)
        → count x result + count x queue ≡ (if nat_eq (total x rest) 0 then count x all else 0)
    pub known : (x : String) → count x all ≡ 0 → total x rest ≡ 0
    pub same : (p : String) → count p result ≡ 0 → get_or rest p [] ≡ get_or adj p []
    pub gone : (p : String) → 0 < count p result → get_or rest p [] ≡ []
    pub ordered : IsOrdered adj [] result

  module _ (single : (x : String) → count x all ≤ 1) where
    pop :
        (degrees : Map ℤ) (c : String) (queue result : List String) (rest : Map (List String))
        → Inv degrees (c ∷ queue) result rest
        → (count c result ≡ 0) × (total c rest ≡ 0)
    pop degrees c queue result rest inv = ground (arith, inv.once c, single c, eq_self c)

    round :
        (degrees : Map ℤ) (c : String) (queue result : List String) (rest : Map (List String))
        → Inv degrees (c ∷ queue) result rest
        → let r = relax (get_or adj c []) degrees queue in
          Inv r.0 r.1 (result ++ c ∷ []) (delete rest c)
    round degrees c queue result rest inv =
        let (new, none_left) = pop degrees c queue result rest inv in
        let list : get_or rest c [] ≡ get_or adj c [] = inv.same c new in
        let down : (x : String)
            → total x rest ≡ total x (delete rest c) + count x (get_or adj c []) =
          λ x. rw (← list) (total-delete x c rest (inv.distinct c)) in
        let relaxed =
          relax_lem (get_or adj c []) degrees queue (λ x. total x (delete rest c))
            (λ x. inv.degree x ∙ ap pos (down x)) in
        record {
          distinct = delete-IsDistinct rest c inv.distinct;
          degree = relaxed.0;
          once = λ x. ground (
            arith,
            inv.once x,
            relaxed.1 x,
            down x,
            inv.known x,
            single x,
            count-append x result (c ∷ []),
            none_left,
            new,
          );
          known = λ x h. omega (arith, inv.known x h, down x);
          same = λ p h. ground (
            arith,
            inv.same p,
            get_or-delete rest c p [],
            count-append p result (c ∷ []),
            eq_self p,
          );
          gone = λ p h.
              ground (arith, inv.gone p, get_or-delete rest c p [], count-append p result (c ∷ []));
          ordered =
              IsOrdered-append adj [] result c inv.ordered
                (λ p h. ground (arith, inv.same p, count-le-total c p rest));
        }

    -- How the loop ends: no id is in the queue, and the invariant holds.
    pub record Ends (result : List String) : Type 0 where
      pub degrees : Map ℤ
      pub rest : Map (List String)
      pub inv : Inv degrees [] result rest

    room :
        {degrees : Map ℤ} {queue result : List String} {rest : Map (List String)}
        → Inv degrees queue result rest
        → length result + length queue ≤ length all
    room {queue = queue} {result = result} inv = omega (
      arith,
      length-append {0} result queue,
      length-le (result ++ queue) all
          (λ x. ground (arith, inv.once x, count-append x result queue)),
    )

    -- With as many rounds left as ids are left, the loop ends.
    pub process-Ends :
        (fuel : ℕ) (degrees : Map ℤ) (queue result : List String) (rest : Map (List String))
        → Inv degrees queue result rest
        → length all ≤ length result + fuel
        → (final : List String) × (process fuel adj degrees queue result ≡ some final) × Ends final
    unfolding process
    process-Ends zero degrees [] result rest inv enough =
        (result, refl, record { degrees = degrees; rest = rest; inv = inv })
    process-Ends zero degrees (c ∷ queue) result rest inv enough = absurd (omega (arith, room inv))
    process-Ends (suc fuel) degrees [] result rest inv enough =
        (result, refl, record { degrees = degrees; rest = rest; inv = inv })
    process-Ends (suc fuel) degrees (c ∷ queue) result rest inv enough =
        let r = relax (get_or adj c []) degrees queue in
        process-Ends fuel r.0 r.1 (result ++ c ∷ []) (delete rest c)
          (round degrees c queue result rest inv) (omega (arith, length-append {0} result (c ∷ [])))

    -- The result holds an id at most as often as there is such a plugin.
    pub Ends-le : {result : List String} → Ends result → (x : String) → count x result ≤ count x all
    Ends-le ends x = ground (arith, ends.inv.once x)

    -- Without a cycle everything is processed. `rank` grows along the edges.
    pub Ends-all :
        {result : List String} (rank : String → ℕ)
        → ((p x : String) → 0 < count x (get_or adj p []) → rank p < rank x)
        → ((p x : String) → 0 < count x (get_or adj p []) → 0 < count p all)
        → (ends : Ends result) → (k : ℕ) (x : String) → rank x < k
        → total x ends.rest ≡ 0
    Ends-all rank grows known ends zero x h = elim h [ ]
    Ends-all {result} rank grows known ends (suc k) x h = elim (dec_lt 0 (total x ends.rest)) [
      | no none_left ↦ omega arith
      | yes waits ↦
          let (p, holds) = total_key x ends.rest ends.inv.distinct waits in
          absurd (
            stuck p x holds (λ e.
              Ends-all rank grows known ends k p
                (omega (arith, grows p x (rw (ends.inv.same p e) at holds)))))
    ]
      where
        stuck :
            (p x : String)
            → 0 < count x (get_or ends.rest p [])
            → (count p result ≡ 0 → total p ends.rest ≡ 0)
            → ⊥
        stuck p x holds ih = elim (dec_lt 0 (count p result)) [
          | yes popped ↦ ground (arith, ends.inv.gone p)
          | no waiting ↦
              let absent : count p result ≡ 0 = omega arith in
              ground (
                arith,
                known p x (rw (ends.inv.same p absent) at holds),
                ends.inv.once p,
                ih absent,
              )
        ]

    -- If the result is as long as the list of the ids, it holds each as often.
    pub Ends-count :
        {result : List String}
        → Ends result
        → length result ≡ length all
        → (x : String) → count x result ≡ count x all
    Ends-count {result} ends e = count-eq result all (Ends-le ends) e
