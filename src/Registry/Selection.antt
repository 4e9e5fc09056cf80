-- ===== src/Registry/Selection.antt =====
-- Which provider the host selects.
use native.Mathlib.Nat.{mod-add-mod}
use connect_plugin_go.Prelude.{
  ℕ, zero, suc, ◌+◌, ◌%◌, ◌<◌, String, ◌≡◌, ◌≢◌, inl, inr, refl, ap, sym, ◌∙◌, subst, true, false,
  List, [], ◌∷◌, arith, eq_self, List-cases, length,
}
use connect_plugin_go.Prelude.Maps.{get_or, get_or-put}
use connect_plugin_go.Registry.{
  ServiceProvider, ServiceRegistry, selection_first, selection_round_robin, providers_of,
}
use connect_plugin_go.Registry.Discover.{
  provider, select_provider, apply_strategy, compatible_of, available_of, nth, is_empty,
  selected_of,
}
use connect_plugin_go.Registry.Candidates.{
  Listed, routable, compatible, keep, filter_available-keep, filter_compatible_versions-keep,
  nth-Listed, Listed-keep, apply_strategy-nth, nth_within, provider-injective, keep-Listed,
  Listed-pos, available-keep, keep-pos,
}
use connect_plugin_go.Registry.Versions.{Fits, compatible-Fits, Fits-compatible}

not_empty : (ps : List ServiceProvider) → 0 < length ps → is_empty ps ≡ false
not_empty [] h = elim h [ ]
not_empty (p ∷ ps) h = refl

select_provider_available :
    (type min : String) (draw : ℕ) (r : ServiceRegistry)
    → 0 < length (available_of r type min)
    → select_provider type min draw r
      ≡ let (r', chosen) =
          apply_strategy type
            (available_of r type min)
            (get_or r.selection type selection_first)
            draw
            r in
        (r', selected_of chosen)
unfolding select_provider
select_provider_available type min draw r h =
    let some_compatible : 0 < length (compatible_of r type min) =
      keep-pos (routable r.lifecycle_server) (compatible_of r type min)
        (rw filter_available-keep at h) in
    let some_provider : 0 < length (providers_of r type) =
      keep-pos (compatible min) (providers_of r type)
        (rw filter_compatible_versions-keep at some_compatible) in
    rw (not_empty (providers_of r type) some_provider) (
      rw (not_empty (compatible_of r type min) some_compatible)
        (rw (not_empty (available_of r type min) h)))

select_provider_empty :
    (type min : String) (draw : ℕ) (r : ServiceRegistry)
    → available_of r type min ≡ []
    → (p : ServiceProvider) → (select_provider type min draw r).1 ≢ provider p
unfolding select_provider
select_provider_empty type min draw r none_left p = ground (arith)

-- The random draw is in range, where there is something to draw from.
module _ (type min : String) (draw : ℕ) (r : ServiceRegistry)
    (in_range : 0 < length (available_of r type min)
      → draw < length (available_of r type min)) where
  chosen :
      0 < length (available_of r type min)
      → (q : ServiceProvider) × ((select_provider type min draw r).1 ≡ provider q)
        × Listed q (available_of r type min)
  chosen h =
      let (i, within, e) =
        apply_strategy-nth type (available_of r type min) (get_or r.selection type selection_first)
          draw r h (in_range h) in
      let (q, at) = nth_within (available_of r type min) i within in
      (
        q,
        rw (select_provider_available type min draw r h) (ap selected_of (e ∙ at)),
        nth-Listed (available_of r type min) i at,
      )

  eligible :
      (p : ServiceProvider)
      → Listed p (available_of r type min)
      → Listed p (providers_of r type)
        × (compatible min p ≡ true)
        × (routable r.lifecycle_server p ≡ true)
  eligible p m =
      let (m', routes) =
        Listed-keep (routable r.lifecycle_server) p (keep (compatible min) (providers_of r type))
          (rw available-keep at m) in
      let (m'', fits) = Listed-keep (compatible min) p (providers_of r type) m' in
      (m'', fits, routes)

  -- Under every strategy, with the random draw in range, the provider that SelectProvider selects is
  -- registered for the service type, is not reported unhealthy, and has a version that does not come
  -- before the minimum in the order of texts (any version, where the minimum is empty): this is the
  -- order of the code, and not that of semantic versions.
  pub select_provider_eligible :
      (p : ServiceProvider)
      → (select_provider type min draw r).1 ≡ provider p
      → Listed p (providers_of r type) × Fits min p.version × (routable r.lifecycle_server p ≡ true)
  select_provider_eligible p e = elim (List-cases (available_of r type min)) [
    | inl none_left ↦ absurd (select_provider_empty type min draw r none_left p e)
    | inr (x, rest, l) ↦
        let (q, picked, m) = chosen (rw l (omega arith)) in
        let (listed, fits, routes) = eligible p (
          subst (λ z. Listed z (available_of r type min)) (provider-injective (sym picked ∙ e))
            m) in
        (listed, compatible-Fits min p fits, routes)
  ]

  -- With the random draw in range, SelectProvider selects some provider, whenever a provider that is
  -- registered for the service type is not reported unhealthy and has a version that does not come
  -- before the minimum in the order of texts (any version, where the minimum is empty): this is the
  -- order of the code, and not that of semantic versions.
  pub select_provider_finds :
      (p : ServiceProvider)
      → Listed p (providers_of r type)
      → Fits min p.version
      → routable r.lifecycle_server p ≡ true
      → (q : ServiceProvider) × ((select_provider type min draw r).1 ≡ provider q)
  select_provider_finds p m fits routes =
      let (q, picked, _) = chosen (
        Listed-pos {p = p} (
          rw available-keep (
            keep-Listed (routable r.lifecycle_server) p _ routes (
              keep-Listed (compatible min) p (providers_of r type) (Fits-compatible min p fits)
                m)))) in
      (q, picked)

-- k selections in a row.
pub rounds : String → List ServiceProvider → ℕ → ServiceRegistry → ServiceRegistry
rounds type ps zero r = r
rounds type ps (suc k) r = rounds type ps k (apply_strategy type ps selection_round_robin 0 r).0

-- Under round robin, with what is available staying the same, selection number k takes the provider
-- that stands k places behind the one at which the rotation starts, around the end of the list.
pub round_robin_rotates :
    (type : String) (ps : List ServiceProvider) (k : ℕ) (r : ServiceRegistry)
    → 0 < length ps
    → (apply_strategy type ps selection_round_robin 0 (rounds type ps k r)).1
      ≡ nth ps ((get_or r.round_robin_index type 0 + k) % length ps)
unfolding apply_strategy rounds
round_robin_rotates type [] k r h = elim h [ ]
round_robin_rotates type (p ∷ ps) zero r h =
    ap (λ i. nth (p ∷ ps) (i % suc (length ps))) (omega arith)
round_robin_rotates type (p ∷ ps) (suc k) r h =
    let start = get_or r.round_robin_index type 0 in
    let n = suc (length ps) in
    let r' = (apply_strategy type (p ∷ ps) selection_round_robin 0 r).0 in
    let ih = round_robin_rotates type (p ∷ ps) k r' h in
    let moved : get_or r'.round_robin_index type 0 ≡ (start + 1) % n =
      ground (arith, get_or-put r.round_robin_index type type ((start + 1) % n) 0, eq_self type) in
    let around : ((start + 1) % n + k) % n ≡ (start + suc k) % n =
      mod-add-mod (start + 1) n k ∙ ap (λ (s : ℕ). s % n) (omega arith) in
    ih ∙ ap (nth (p ∷ ps)) (ap (λ s. (s + k) % n) moved ∙ around)
