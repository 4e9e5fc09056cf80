-- ===== src/Registry/Discover.antt =====
-- The selection of a provider in registry.go, and the discovery that answers with it.
use connect_plugin_go.Prelude.{
  ℕ, zero, suc, ◌+◌, ◌%◌, String, Bool, true, false, Option, none, some, List, [], ◌∷◌, length,
  if◌then◌else◌,
}
use connect_plugin_go.Prelude.Maps.{get_or, put}
use connect_plugin_go.Registry.{
  SelectionStrategy, selection_first, selection_round_robin, selection_random, selection_weighted,
  selection_other, ServiceProvider, ServiceEndpoint, ServiceRegistry, providers_of,
  filter_available, filter_compatible_versions, endpoint_of,
}

abbrev pub nth : List ServiceProvider → ℕ → Option ServiceProvider
nth [] i = none
nth (p ∷ ps) zero = some p
nth (p ∷ ps) (suc i) = nth ps i

-- applyStrategy; `draw` is what rand.Intn returns, a number below the length of the list.
unfoldable pub apply_strategy :
    String
    → List ServiceProvider
    → SelectionStrategy
    → ℕ
    → ServiceRegistry
    → ServiceRegistry × Option ServiceProvider
apply_strategy type ps selection_first draw r = (r, nth ps 0)
apply_strategy type ps selection_round_robin draw r = elim ps [
  | [] ↦ (r, none)
  | p ∷ rest ↦
      let idx = get_or r.round_robin_index type 0 in
      let n = length (p ∷ rest) in
      (
        record r { round_robin_index = put r.round_robin_index type ((idx + 1) % n) },
        nth (p ∷ rest) (idx % n),
      )
]
apply_strategy type ps selection_random draw r = (r, nth ps draw)
apply_strategy type ps selection_weighted draw r = (r, nth ps 0)
apply_strategy type ps (selection_other n) draw r = (r, nth ps 0)

pub data Selected : Type 0 where
  provider : ServiceProvider → Selected
  no_providers no_compatible_providers no_available_providers : Selected

abbrev pub selected_of : Option ServiceProvider → Selected
selected_of none = no_available_providers
selected_of (some p) = provider p

abbrev pub compatible_of : ServiceRegistry → String → String → List ServiceProvider
compatible_of r type min = filter_compatible_versions min (providers_of r type)

abbrev pub available_of : ServiceRegistry → String → String → List ServiceProvider
available_of r type min = filter_available r.lifecycle_server (compatible_of r type min)

abbrev pub is_empty : List ServiceProvider → Bool
is_empty [] = true
is_empty (p ∷ ps) = false

-- SelectProvider
unfoldable pub select_provider : String → String → ℕ → ServiceRegistry → ServiceRegistry × Selected
unfolding apply_strategy
select_provider type min draw r =
    if is_empty (providers_of r type)
    then (r, no_providers)
    else if is_empty (compatible_of r type min)
    then (r, no_compatible_providers)
    else if is_empty (available_of r type min)
    then (r, no_available_providers)
    else let (r', chosen) =
        apply_strategy type (available_of r type min) (get_or r.selection type selection_first) draw
          r in
      (r', selected_of chosen)

-- HasService
unfoldable pub has_service : String → String → ℕ → ServiceRegistry → ServiceRegistry × Bool
unfolding select_provider
has_service type min draw r =
    let (r', selected) = select_provider type min draw r in
    (r', elim selected [ provider p ↦ true | _ ↦ false ])

pub record DiscoverResponse : Type 0 where
  pub endpoint : ServiceEndpoint
  pub single_provider : Bool

abbrev pub is_single : List ServiceProvider → Bool
is_single (p ∷ []) = true
is_single _ = false

unfoldable pub discovered : ServiceRegistry → String → Selected → Option DiscoverResponse
unfolding endpoint_of
discovered r type (provider p) =
    some (record { endpoint = endpoint_of p; single_provider = is_single (providers_of r type) })
discovered r type _ = none

-- DiscoverService; `none` is CodeNotFound.
unfoldable pub discover_service :
    String → String → ℕ → ServiceRegistry → ServiceRegistry × Option DiscoverResponse
unfolding select_provider discovered
discover_service type min draw r =
    let (r', selected) = select_provider type min draw r in (r', discovered r' type selected)
