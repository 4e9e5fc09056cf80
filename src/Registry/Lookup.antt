-- ===== src/Registry/Lookup.antt =====
-- The look-up of a provider by its plugin's runtime id.
use connect_plugin_go.Prelude.{
  String, ◌≡◌, ap, ◌∙◌, inl, inr, Bool-cases, some, [], ◌∷◌, arith, eq_iff, eq_self, count, ◌==◌,
}
use connect_plugin_go.Prelude.Maps.{Map, get, keys, IsDistinct}
use connect_plugin_go.Registry.{
  ServiceProvider, ServiceRegistry, find_runtime, get_provider_by_runtime_id,
}

find_runtime-key :
    (runtime_id : String) (m : Map ServiceProvider) (p : ServiceProvider)
    → IsDistinct m
    → find_runtime runtime_id m ≡ some p
    → (id : String) × (get m id ≡ some p) × (p.runtime_id ≡ runtime_id) × (count id (keys m) ≡ 1)
unfolding find_runtime get
find_runtime-key runtime_id [] p d h = absurd (ground arith)
find_runtime-key runtime_id ((j, q) ∷ m) p d h = elim (Bool-cases (q.runtime_id == runtime_id)) [
  | inl this ↦ (
    j,
    ground (arith, eq_self j),
    ground (arith, eq_iff q.runtime_id runtime_id),
    ground (arith, eq_self j, d j),
  )
  | inr other ↦
      let (id, e, f, one) =
        find_runtime-key runtime_id m p (λ k. ground (arith, d k)) (ground arith) in
      (id, ground (arith, d id, eq_iff j id), f, ground (arith, d id))
]

-- What GetProviderByRuntimeID finds is registered, and the plugin's.
pub get_provider_by_runtime_id_lem :
    (r : ServiceRegistry) (runtime_id : String) (p : ServiceProvider)
    → IsDistinct r.registrations
    → get_provider_by_runtime_id r runtime_id ≡ some p
    → (id : String) × (get r.registrations id ≡ some p) × (p.runtime_id ≡ runtime_id)
unfolding get_provider_by_runtime_id
get_provider_by_runtime_id_lem r runtime_id p d h =
    let (id, e, f, one) = find_runtime-key runtime_id r.registrations p d h in (id, e, f)

find_runtime-some :
    (id : String) (m : Map ServiceProvider) (p : ServiceProvider)
    → get m id ≡ some p
    → (q : ServiceProvider) × (find_runtime p.runtime_id m ≡ some q)
unfolding find_runtime get
find_runtime-some id [] p h = absurd (ground arith)
find_runtime-some id ((j, r) ∷ m) p h = elim (Bool-cases (r.runtime_id == p.runtime_id)) [
  | inl this ↦ (r, ground arith)
  | inr other ↦
      let (q, e) = find_runtime-some id m p (ground (arith, eq_self p.runtime_id)) in
      (q, ground arith)
]

-- GetProviderByRuntimeID finds a registration that is its plugin's only one.
pub get_provider_by_runtime_id-only :
    (r : ServiceRegistry) (id : String) (p : ServiceProvider)
    → IsDistinct r.registrations
    → get r.registrations id ≡ some p
    → ((other : String) (q : ServiceProvider)
        → get r.registrations other ≡ some q
        → q.runtime_id ≡ p.runtime_id
        → q ≡ p)
    → get_provider_by_runtime_id r p.runtime_id ≡ some p
unfolding get_provider_by_runtime_id
get_provider_by_runtime_id-only r id p d h only =
    let (q, found) = find_runtime-some id r.registrations p h in
    let (other, e, own) = get_provider_by_runtime_id_lem r p.runtime_id q d found in
    found ∙ ap some (only other q e own)
