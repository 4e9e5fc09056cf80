-- ===== src/Registry/Candidates.antt =====
-- The providers that a selection chooses from.
use connect_plugin_go.Prelude.{
  ℕ, zero, suc, ◌%◌, ◌<◌, String, ◌≡◌, ◌⊎◌, inl, inr, refl, ap, sym, ◌∙◌, Bool, true, false, ◌||◌,
  Option, none, some, List, [], ◌∷◌, arith, Bool-cases, length, ◌==◌, if◌then◌else◌,
}
use connect_plugin_go.Prelude.Maps.{get_or}
use connect_plugin_go.Lifecycle.{LifecycleServer, should_route_traffic}
use connect_plugin_go.Registry.{
  ServiceProvider, ServiceRegistry, SelectionStrategy, selection_first, selection_round_robin,
  selection_random, selection_weighted, selection_other, providers_of, filter_available,
  filter_routable, filter_versions, filter_compatible_versions, at_least,
}
use connect_plugin_go.Registry.Discover.{provider, apply_strategy, compatible_of, available_of, nth}

-- A provider stands in a list.
pub data Listed (p : ServiceProvider) : List ServiceProvider → Type 0 where
  here : {q : ServiceProvider} {l : List ServiceProvider} → q ≡ p → Listed p (q ∷ l)
  there : {q : ServiceProvider} {l : List ServiceProvider} → Listed p l → Listed p (q ∷ l)

abbrev pub routable : Option LifecycleServer → ServiceProvider → Bool
routable none p = true
routable (some l) p = should_route_traffic l p.runtime_id

abbrev pub compatible : String → ServiceProvider → Bool
compatible min p = min == "" || at_least min p.version

Listed-nil : {p : ServiceProvider} → Listed p [] → ⊥
Listed-nil m = elim m [ ]

abbrev pub keep : (ServiceProvider → Bool) → List ServiceProvider → List ServiceProvider
keep f [] = []
keep f (p ∷ ps) = let rest = keep f ps in if f p then p ∷ rest else rest

pub filter_available-keep :
    (l : Option LifecycleServer) (ps : List ServiceProvider)
    → filter_available l ps ≡ keep (routable l) ps
unfolding filter_available filter_routable
filter_available-keep none [] = refl
filter_available-keep none (p ∷ ps) = ap (◌∷◌ p) (filter_available-keep none ps)
filter_available-keep (some l) [] = refl
filter_available-keep (some l) (p ∷ ps) =
    ap (λ rest. if should_route_traffic l p.runtime_id then p ∷ rest else rest)
      (filter_available-keep (some l) ps)

filter_versions-keep :
    (min : String) (ps : List ServiceProvider)
    → (min == "") ≡ false
    → filter_versions min ps ≡ keep (compatible min) ps
unfolding filter_versions
filter_versions-keep min [] h = refl
filter_versions-keep min (p ∷ ps) h = ground (arith, filter_versions-keep min ps)

keep_all :
    (f : ServiceProvider → Bool) (ps : List ServiceProvider)
    → ((p : ServiceProvider) → f p ≡ true)
    → keep f ps ≡ ps
keep_all f [] h = refl
keep_all f (p ∷ ps) h = rw (h p) (ap (◌∷◌ p) (keep_all f ps h))

pub filter_compatible_versions-keep :
    (min : String) (ps : List ServiceProvider)
    → filter_compatible_versions min ps ≡ keep (compatible min) ps
unfolding filter_compatible_versions
filter_compatible_versions-keep min ps = elim (Bool-cases (min == "")) [
  | inl any ↦ rw any (sym (keep_all (compatible min) ps (λ p. rw any)))
  | inr some_min ↦ rw some_min (filter_versions-keep min ps some_min)
]

pub nth-Listed :
    (ps : List ServiceProvider) (i : ℕ) {p : ServiceProvider} → nth ps i ≡ some p → Listed p ps
nth-Listed [] i h = cc
nth-Listed (q ∷ ps) zero h = here (cc)
nth-Listed (q ∷ ps) (suc i) h = there (nth-Listed ps i h)

Listed-tail :
    {p q : ServiceProvider} {l : List ServiceProvider} → Listed p (q ∷ l) → (q ≡ p) ⊎ Listed p l
Listed-tail (here e) = inl e
Listed-tail (there m) = inr m

pub Listed-keep :
    (f : ServiceProvider → Bool) (p : ServiceProvider) (ps : List ServiceProvider)
    → Listed p (keep f ps)
    → Listed p ps × (f p ≡ true)
Listed-keep f p [] m = elim (Listed-nil m) [ ]
Listed-keep f p (q ∷ ps) m = elim (Bool-cases (f q)) [
  | inl kept ↦ elim (Listed-tail (rw kept at m)) [
    | inl e ↦ (here e, rw (← e) kept)
    | inr r ↦ let (r', k) = Listed-keep f p ps r in (there r', k)
  ]
  | inr dropped ↦ let (r', k) = Listed-keep f p ps (rw dropped at m) in (there r', k)
]

-- What the strategies choose is in the list, and of a list that is not empty they choose something.
pub apply_strategy-nth :
    (type : String) (ps : List ServiceProvider) (strategy : SelectionStrategy) (draw : ℕ)
    (r : ServiceRegistry)
    → 0 < length ps
    → draw < length ps
    → (i : ℕ) × (i < length ps) × ((apply_strategy type ps strategy draw r).1 ≡ nth ps i)
unfolding apply_strategy
apply_strategy-nth type [] strategy draw r h d = elim h [ ]
apply_strategy-nth type (p ∷ ps) selection_first draw r h d = (0, h, refl)
apply_strategy-nth type (p ∷ ps) selection_round_robin draw r h d =
    (get_or r.round_robin_index type 0 % suc (length ps), omega arith, refl)
apply_strategy-nth type (p ∷ ps) selection_random draw r h d = (draw, d, refl)
apply_strategy-nth type (p ∷ ps) selection_weighted draw r h d = (0, h, refl)
apply_strategy-nth type (p ∷ ps) (selection_other n) draw r h d = (0, h, refl)

pub nth_within :
    (ps : List ServiceProvider) (i : ℕ)
    → i < length ps
    → (p : ServiceProvider) × (nth ps i ≡ some p)
nth_within [] i h = elim h [ ]
nth_within (p ∷ ps) zero h = (p, refl)
nth_within (p ∷ ps) (suc i) h = nth_within ps i (omega arith)

pub provider-injective : {p q : ServiceProvider} → provider p ≡ provider q → p ≡ q
provider-injective e = cc

pub keep-Listed :
    (f : ServiceProvider → Bool) (p : ServiceProvider) (ps : List ServiceProvider)
    → f p ≡ true
    → Listed p ps
    → Listed p (keep f ps)
keep-Listed f p [] k m = elim m [ ]
keep-Listed f p (q ∷ ps) k (here e) = rw (e, k) (here refl)
keep-Listed f p (q ∷ ps) k (there m) = elim (Bool-cases (f q)) [
  | inl kept ↦ rw kept (there (keep-Listed f p ps k m))
  | inr dropped ↦ rw dropped (keep-Listed f p ps k m)
]

pub Listed-pos : {p : ServiceProvider} {l : List ServiceProvider} → Listed p l → 0 < length l
Listed-pos (here e) = omega arith
Listed-pos (there m) = omega arith

pub available-keep :
    (r : ServiceRegistry) (type min : String)
    → available_of r type min
      ≡ keep (routable r.lifecycle_server) (keep (compatible min) (providers_of r type))
available-keep r type min =
    filter_available-keep r.lifecycle_server (compatible_of r type min)
    ∙ ap (keep (routable r.lifecycle_server))
        (filter_compatible_versions-keep min (providers_of r type))

pub keep-pos :
    (f : ServiceProvider → Bool) (ps : List ServiceProvider)
    → 0 < length (keep f ps)
    → 0 < length ps
keep-pos f [] h = elim h [ ]
keep-pos f (p ∷ ps) h = omega arith
