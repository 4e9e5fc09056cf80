-- ===== src/Router/Forwarding.antt =====
-- Which headers the router sends on.
use mathlib.Core.List.{append-nil}
use connect_plugin_go.Prelude.{
  String, ◌≡◌, refl, ap, inl, inr, Bool, ◌||◌, Bool-cases, List, [], ◌∷◌, ◌++◌, arith, eq_iff,
  count, ◌==◌, if◌then◌else◌,
}
use connect_plugin_go.Prelude.Maps.{Map, get_or, keys, IsDistinct}
use connect_plugin_go.Router.{NetHttp, add_values, copy_headers}

-- The values that are added under a key, in their order.
abbrev pub values_of : String → List (String × String) → List String
values_of key [] = []
values_of key ((k, v) ∷ added) =
    let rest = values_of key added in if k == key then v ∷ rest else rest

-- The key names one of the two headers that carry the caller's credentials.
abbrev pub is_credential : NetHttp → String → Bool
is_credential http key =
    http.canonical_header_key key == "Authorization"
    || http.canonical_header_key key == "X-Plugin-Runtime-Id"

values_of-append :
    (key : String) (xs ys : List (String × String))
    → values_of key (xs ++ ys) ≡ values_of key xs ++ values_of key ys
values_of-append key [] ys = refl
values_of-append key ((k, v) ∷ xs) ys = ground (arith, values_of-append key xs ys)

values_of-add_values :
    (key k : String) (values : List String)
    → values_of key (add_values k values) ≡ (if k == key then values else [])
unfolding add_values
values_of-add_values key k [] = ground arith
values_of-add_values key k (v ∷ values) = ground (arith, values_of-add_values key k values)

absent :
    (http : NetHttp) (headers : Map (List String)) (key : String)
    → count key (keys headers) ≡ 0
    → values_of key (copy_headers http headers) ≡ []
unfolding copy_headers
absent http [] key h = refl
absent http ((k, vs) ∷ headers) key h = ground (
  arith,
  absent http headers key,
  values_of-append key (add_values k vs) (copy_headers http headers),
  values_of-add_values key k vs,
)

-- Of the caller's headers the router sends on all values of each in their order, and no value of the
-- two that carry the caller's credentials, however their keys are spelled.
pub values_of-copy_headers :
    (http : NetHttp) (headers : Map (List String)) (key : String)
    → IsDistinct headers
    → values_of key (copy_headers http headers)
      ≡ (if is_credential http key then [] else get_or headers key [])
unfolding copy_headers get_or
values_of-copy_headers http [] key d = ground arith
values_of-copy_headers http ((k, vs) ∷ headers) key d =
    let ih = values_of-copy_headers http headers key (λ x. ground (arith, d x)) in
    elim (Bool-cases (k == key)) [
      | inr other ↦ ground (
        arith,
        ih,
        values_of-append key (add_values k vs) (copy_headers http headers),
        values_of-add_values key k vs,
      )
      | inl this ↦
          let same = ap http.canonical_header_key ((eq_iff k key).0 this) in
          ground (
            arith,
            same,
            absent http headers key,
            d key,
            append-nil vs,
            values_of-append key (add_values k vs) (copy_headers http headers),
            values_of-add_values key k vs,
          )
    ]
