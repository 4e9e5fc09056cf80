-- ===== src/Registry/Tables.antt =====
-- The two tables of the registry, and what keeps them describing the same registrations.
use connect_plugin_go.Prelude.{
  suc, ◌≤◌, String, ◌≡◌, ◌≢◌, refl, Option, none, some, List, [], ◌∷◌, ◌++◌, arith, eq_iff,
  Option-cases, inl, inr, count, ◌==◌, if◌then◌else◌,
}
use connect_plugin_go.Prelude.Maps.{
  get, get-put, get-delete, get_or-put, IsDistinct, put-IsDistinct, delete-IsDistinct,
}
use connect_plugin_go.Registry.{ServiceProvider, ServiceRegistry, providers_of, notify_watchers}
use connect_plugin_go.Registry.Register.{store_provider, remove_first, forget, forget_all}

abbrev pub ids : List ServiceProvider → List String
ids [] = []
ids (p ∷ ps) = p.registration_id ∷ ids ps

-- The first provider of a list with a registration id.
abbrev pub find : String → List ServiceProvider → Option ServiceProvider
find id [] = none
find id (p ∷ ps) = let rest = find id ps in if p.registration_id == id then some p else rest

abbrev only_type : String → Option ServiceProvider → Option ServiceProvider
only_type type none = none
only_type type (some p) = if p.service_type == type then some p else none

-- The registration under an id, if it is for the service type.
abbrev pub registered : ServiceRegistry → String → String → Option ServiceProvider
registered r id type = only_type type (get r.registrations id)

pub record IsConsistent (r : ServiceRegistry) : Type 0 where
  pub keyed :
      (id : String) (p : ServiceProvider) → get r.registrations id ≡ some p → p.registration_id ≡ id
  pub found : (id type : String) → find id (providers_of r type) ≡ registered r id type
  pub distinct : IsDistinct r.registrations
  pub unique : (id type : String) → count id (ids (providers_of r type)) ≤ 1

find-none : (id : String) (l : List ServiceProvider) → count id (ids l) ≡ 0 → find id l ≡ none
find-none id [] h = refl
find-none id (p ∷ ps) h = ground (arith, find-none id ps)

count-none : (id : String) (l : List ServiceProvider) → find id l ≡ none → count id (ids l) ≡ 0
count-none id [] h = refl
count-none id (p ∷ ps) h = ground (arith, count-none id ps)

find-remove_first :
    (id j : String) (l : List ServiceProvider)
    → count id (ids l) ≤ 1
    → find j (remove_first id l) ≡ (if id == j then none else find j l)
unfolding remove_first
find-remove_first id j [] h = ground arith
find-remove_first id j (p ∷ ps) h = ground (
  arith,
  eq_iff id j,
  eq_iff p.registration_id id,
  eq_iff p.registration_id j,
  find-remove_first id j ps,
  find-none id ps,
)

count-remove_first :
    (id j : String) (l : List ServiceProvider) → count j (ids (remove_first id l)) ≤ count j (ids l)
unfolding remove_first
count-remove_first id j [] = omega arith
count-remove_first id j (p ∷ ps) = ground (arith, count-remove_first id j ps)

find-append :
    (id : String) (l : List ServiceProvider) (p : ServiceProvider)
    → find id l ≡ none
    → find id (l ++ p ∷ []) ≡ (if p.registration_id == id then some p else none)
find-append id [] p h = refl
find-append id (q ∷ l) p h = ground (arith, find-append id l p)

find-append_ne :
    (id : String) (l : List ServiceProvider) (p : ServiceProvider)
    → p.registration_id ≢ id
    → find id (l ++ p ∷ []) ≡ find id l
find-append_ne id [] p h = ground (arith, eq_iff p.registration_id id)
find-append_ne id (q ∷ l) p h = ground (arith, find-append_ne id l p)

count-ids_append :
    (id : String) (l : List ServiceProvider) (p : ServiceProvider)
    → count id (ids (l ++ p ∷ []))
      ≡ (if p.registration_id == id then suc (count id (ids l)) else count id (ids l))
count-ids_append id [] p = ground arith
count-ids_append id (q ∷ l) p = ground (arith, count-ids_append id l p)

pub forget_registrations :
    (id : String) (p : ServiceProvider) (r : ServiceRegistry) (j : String)
    → get (forget id p r).registrations j ≡ (if id == j then none else get r.registrations j)
unfolding forget
forget_registrations id p r j = get-delete r.registrations id j

pub forget-IsConsistent :
    (id : String) (p : ServiceProvider) (r : ServiceRegistry)
    → get r.registrations id ≡ some p
    → IsConsistent r
    → IsConsistent (forget id p r)
unfolding forget
forget-IsConsistent id p r g c = record {
  keyed = λ j q h. ground (arith, get-delete r.registrations id j, c.keyed j q);
  found = λ j t. ground (
    arith,
    get-delete r.registrations id j,
    c.found j t,
    c.unique id t,
    get_or-put r.providers p.service_type t (remove_first id (providers_of r p.service_type)) [],
    find-remove_first id j (providers_of r t),
    eq_iff p.service_type t,
    eq_iff id j,
  );
  distinct = delete-IsDistinct r.registrations id c.distinct;
  unique = λ j t. ground (
    arith,
    c.unique j t,
    get_or-put r.providers p.service_type t (remove_first id (providers_of r p.service_type)) [],
    count-remove_first id j (providers_of r t),
    eq_iff p.service_type t,
  );
}

pub store_provider-IsConsistent :
    (p : ServiceProvider) (r : ServiceRegistry)
    → get r.registrations p.registration_id ≡ none
    → IsConsistent r
    → IsConsistent (store_provider p r)
unfolding store_provider
store_provider-IsConsistent p r fresh c = record {
  keyed = λ j q h. ground (
    arith,
    get-put r.registrations p.registration_id j p,
    c.keyed j q,
    eq_iff p.registration_id j,
  );
  found = λ j t. ground (
    arith,
    get-put r.registrations p.registration_id j p,
    c.found j t,
    get_or-put r.providers p.service_type t (providers_of r p.service_type ++ p ∷ []) [],
    find-append j (providers_of r t) p,
    find-append_ne j (providers_of r t) p,
    eq_iff p.service_type t,
    eq_iff p.registration_id j,
  );
  distinct = put-IsDistinct r.registrations p.registration_id p c.distinct;
  unique = λ j t. ground (
    arith,
    c.unique j t,
    c.found j t,
    get_or-put r.providers p.service_type t (providers_of r p.service_type ++ p ∷ []) [],
    count-ids_append j (providers_of r t) p,
    count-none j (providers_of r t),
    eq_iff p.service_type t,
    eq_iff p.registration_id j,
  );
}

pub notify_watchers-IsConsistent :
    (type : String) (r : ServiceRegistry) → IsConsistent r → IsConsistent (notify_watchers type r)
unfolding notify_watchers
notify_watchers-IsConsistent type r c = record {
  keyed = c.keyed;
  found = c.found;
  distinct = c.distinct;
  unique = c.unique;
}

pub forget_all-none :
    (id : String) (more : List String) (r : ServiceRegistry)
    → get r.registrations id ≡ none
    → forget_all (id ∷ more) r ≡ forget_all more r
unfolding forget_all
forget_all-none id more r h = ground arith

pub forget_all-some :
    (id : String) (more : List String) (r : ServiceRegistry) {p : ServiceProvider}
    → get r.registrations id ≡ some p
    → forget_all (id ∷ more) r ≡ forget_all more (forget id p r)
unfolding forget_all
forget_all-some id more r h = ground arith

pub forget_all-IsConsistent :
    (more : List String) (r : ServiceRegistry) → IsConsistent r → IsConsistent (forget_all more r)
forget_all-IsConsistent [] r c = unfold forget_all in c
forget_all-IsConsistent (id ∷ more) r c = elim (Option-cases (get r.registrations id)) [
  | inl lacks ↦ rw (forget_all-none id more r lacks) (forget_all-IsConsistent more r c)
  | inr (p, e) ↦
      rw (forget_all-some id more r e)
        (forget_all-IsConsistent more (forget id p r) (forget-IsConsistent id p r e c))
]
