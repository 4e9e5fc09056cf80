-- ===== src/Prelude/Maps.antt =====
-- Go's `map[string]V` as an association list. `range` visits the entries in the order of the list;
-- what is proved for every list is proved for every order in which Go may visit them.
use Prim.Native.String.{String}
use Prim.Native.Nat.{◌+◌, ◌≤◌}
use mathlib.Core.Logic.{◌≢◌}
use mathlib.Core.Path.{◌≡◌, refl}
use mathlib.Core.Option.{Option, none, some}
use mathlib.Core.List.{List, [], ◌∷◌}
use native.Mathlib.Omega.{arith}
use text.Mathlib.TextEquality.{eq_iff}
use mathlib.Core.Bool.{true}
use mathlib.Core.Logic.{inl, inr}
use connect_plugin_go.Prelude.Tests.{Bool-cases, ◌==◌, if◌then◌else◌}
use connect_plugin_go.Prelude.Lists.{count, contains}

abbrev pub Map {ℓ} : Type ℓ → Type ℓ
Map V = List (String × V)

module _ {ℓ} {V : Type ℓ} where
  -- v, ok := m[k]
  unfoldable pub get : Map V → String → Option V
  get [] k = none
  get ((j, v) ∷ m) k = if j == k then some v else get m k

  -- m[k], where a missing key reads as `d`
  unfoldable pub get_or : Map V → String → V → V
  get_or [] k d = d
  get_or ((j, v) ∷ m) k d = if j == k then v else get_or m k d

  -- m[k] = v
  unfoldable pub put : Map V → String → V → Map V
  put [] k v = (k, v) ∷ []
  put ((j, w) ∷ m) k v = if j == k then (j, v) ∷ m else (j, w) ∷ put m k v

  -- delete(m, k)
  unfoldable pub delete : Map V → String → Map V
  delete [] k = []
  delete ((j, v) ∷ m) k = let rest = delete m k in if j == k then rest else (j, v) ∷ rest

  abbrev pub keys : Map V → List String
  keys [] = []
  keys ((j, v) ∷ m) = j ∷ keys m

  pub get-put :
      (m : Map V) (k j : String) (v : V) → get (put m k v) j ≡ (if k == j then some v else get m j)
  unfolding get put
  get-put [] k j v = refl
  get-put ((i, w) ∷ m) k j v = ground (arith, eq_iff k j, eq_iff i k, eq_iff i j, get-put m k j v)

  pub get-delete :
      (m : Map V) (k j : String) → get (delete m k) j ≡ (if k == j then none else get m j)
  unfolding get delete
  get-delete [] k j = ground arith
  get-delete ((i, v) ∷ m) k j = ground (arith, eq_iff k j, eq_iff i k, eq_iff i j, get-delete m k j)

  pub get_or-put :
      (m : Map V) (k j : String) (v d : V)
      → get_or (put m k v) j d ≡ (if k == j then v else get_or m j d)
  unfolding get_or put
  get_or-put [] k j v d = refl
  get_or-put ((i, w) ∷ m) k j v d =
      ground (arith, eq_iff k j, eq_iff i k, eq_iff i j, get_or-put m k j v d)

  pub get_or-delete :
      (m : Map V) (k j : String) (d : V)
      → get_or (delete m k) j d ≡ (if k == j then d else get_or m j d)
  unfolding get_or delete
  get_or-delete [] k j d = ground arith
  get_or-delete ((i, v) ∷ m) k j d =
      ground (arith, eq_iff k j, eq_iff i k, eq_iff i j, get_or-delete m k j d)

  -- A Go map has a key once.
  abbrev pub IsDistinct : Map V → Type 0
  IsDistinct m = (k : String) → count k (keys m) ≤ 1

  pub get_absent : (m : Map V) (k : String) → count k (keys m) ≡ 0 → get m k ≡ none
  unfolding get
  get_absent [] k h = refl
  get_absent ((j, v) ∷ m) k h = ground (arith, get_absent m k)

  pub count-keys-put :
      (m : Map V) (k j : String) (v : V) → count j (keys (put m k v)) ≤ 1 + count j (keys m)
  unfolding put
  count-keys-put [] k j v = ground arith
  count-keys-put ((i, w) ∷ m) k j v = ground (arith, count-keys-put m k j v)

  pub put_absent :
      (m : Map V) (k j : String) (v : V) → k ≢ j → count j (keys (put m k v)) ≡ count j (keys m)
  unfolding put
  put_absent [] k j v h = ground (arith, eq_iff k j)
  put_absent ((i, w) ∷ m) k j v h = ground (arith, put_absent m k j v)

  pub put_self :
      (m : Map V) (k : String) (v : V) → count k (keys m) ≤ 1 → count k (keys (put m k v)) ≡ 1
  unfolding put
  put_self [] k v h = ground (arith, eq_iff k k)
  put_self ((i, w) ∷ m) k v h = ground (arith, put_self m k v)

  pub put-IsDistinct : (m : Map V) (k : String) (v : V) → IsDistinct m → IsDistinct (put m k v)
  put-IsDistinct m k v d j = ground (arith, d j, put_self m k v, put_absent m k j v, eq_iff k j)

  pub count-keys-delete :
      (m : Map V) (k j : String)
      → count j (keys (delete m k)) ≡ (if k == j then 0 else count j (keys m))
  unfolding delete
  count-keys-delete [] k j = ground arith
  count-keys-delete ((i, w) ∷ m) k j =
      ground (arith, count-keys-delete m k j, eq_iff i k, eq_iff i j, eq_iff k j)

  pub delete-IsDistinct : (m : Map V) (k : String) → IsDistinct m → IsDistinct (delete m k)
  delete-IsDistinct m k d j = ground (arith, d j, count-keys-delete m k j)

  pub get_contains :
      (m : Map V) (name : String) → contains (keys m) name ≡ true → (v : V) × (get m name ≡ some v)
  unfolding get
  get_contains [] name h = absurd (ground arith)
  get_contains ((key, v) ∷ m) name h = elim (Bool-cases (key == name)) [
    | inl e ↦ (v, ground arith)
    | inr e ↦ let (w, g) = get_contains m name (ground arith) in (w, ground arith)
  ]

  pub contains_got :
      (m : Map V) (name : String) (v : V) → get m name ≡ some v → contains (keys m) name ≡ true
  unfolding get
  contains_got [] name v h = absurd (ground arith)
  contains_got ((key, w) ∷ m) name v h = elim (Bool-cases (key == name)) [
    | inl e ↦ ground arith
    | inr e ↦ ground (arith, contains_got m name v (ground arith))
  ]
