-- ===== src/Depgraph/Startup/Counts.antt =====
-- Counting in lists and in adjacency lists, for the proofs about StartupOrder.
use native.Mathlib.Decide.{dec_lt}
use connect_plugin_go.Prelude.{
  ℕ, suc, ◌+◌, ◌≤◌, ◌<◌, String, ◌≡◌, refl, List, [], ◌∷◌, ◌++◌, arith, eq_iff, eq_self, length,
  count, count-append, ◌==◌, if◌then◌else◌,
}
use connect_plugin_go.Prelude.Maps.{Map, get_or, put, delete, keys, IsDistinct}
use connect_plugin_go.Depgraph.{erase}
use connect_plugin_go.Depgraph.Startup.{insert_sorted, sort}

count-insert_sorted :
    (x s : String) (l : List String)
    → count x (insert_sorted s l) ≡ (if s == x then suc (count x l) else count x l)
unfolding insert_sorted
count-insert_sorted x s [] = refl
count-insert_sorted x s (t ∷ l) = ground (arith, count-insert_sorted x s l)

pub count-sort : (x : String) (l : List String) → count x (sort l) ≡ count x l
unfolding sort
count-sort x [] = refl
count-sort x (s ∷ l) = ground (arith, count-insert_sorted x s (sort l), count-sort x l)

pub count-erase :
    (x y : String) (l : List String)
    → 0 < count x l
    → count y l ≡ (if x == y then suc (count y (erase x l)) else count y (erase x l))
unfolding erase
count-erase x y [] h = elim h [ ]
count-erase x y (z ∷ l) h = ground (arith, eq_iff x y, eq_iff z x, eq_iff z y, count-erase x y l)

pub length-erase :
    (x : String) (l : List String) → 0 < count x l → length l ≡ suc (length (erase x l))
unfolding erase
length-erase x [] h = elim h [ ]
length-erase x (z ∷ l) h = ground (arith, length-erase x l)

head_in :
    (x : String) (l k : List String) → ((y : String) → count y (x ∷ l) ≤ count y k) → 0 < count x k
head_in x l k h = ground (arith, h x, eq_self x)

rest_le :
    (x : String) (l k : List String)
    → ((y : String) → count y (x ∷ l) ≤ count y k)
    → (y : String) → count y l ≤ count y (erase x k)
rest_le x l k h y = ground (arith, h y, count-erase x y k, head_in x l k h)

-- A list that holds nothing more often than another is no longer than it,
pub length-le : (l k : List String) → ((x : String) → count x l ≤ count x k) → length l ≤ length k
length-le [] k h = omega arith
length-le (x ∷ l) k h =
    omega (arith, length-le l (erase x k) (rest_le x l k h), length-erase x k (head_in x l k h))

-- and if it is as long, then it holds everything as often.
pub count-eq :
    (l k : List String)
    → ((x : String) → count x l ≤ count x k)
    → length l ≡ length k
    → (x : String) → count x l ≡ count x k
count-eq [] [] h e x = refl
count-eq [] (y ∷ k) h e x = absurd (omega arith)
count-eq (y ∷ l) k h e x =
    let longer = length-erase y k (head_in y l k h) in
    let ih = count-eq l (erase y k) (rest_le y l k h) (omega (arith, longer)) x in
    ground (arith, ih, count-erase y x k, head_in y l k h)

-- How often an id stands in the lists of a table.
abbrev pub total : String → Map (List String) → ℕ
total x [] = 0
total x ((p, l) ∷ m) = count x l + total x m

pub total-put :
    (x p id : String) (m : Map (List String))
    → total x (put m p (get_or m p [] ++ id ∷ []))
      ≡ (if id == x then suc (total x m) else total x m)
unfolding put get_or
total-put x p id [] = ground arith
total-put x p id ((q, l) ∷ m) = ground (arith, total-put x p id m, count-append x l (id ∷ []))

total-delete_absent :
    (x p : String) (m : Map (List String))
    → count p (keys m) ≡ 0
    → (total x (delete m p) ≡ total x m) × (get_or m p [] ≡ [])
unfolding delete get_or
total-delete_absent x p [] h = (refl, refl)
total-delete_absent x p ((q, l) ∷ m) h = ground (arith, total-delete_absent x p m)

pub total-delete :
    (x p : String) (m : Map (List String))
    → count p (keys m) ≤ 1
    → total x m ≡ total x (delete m p) + count x (get_or m p [])
unfolding delete get_or
total-delete x p [] h = refl
total-delete x p ((q, l) ∷ m) h = ground (arith, total-delete x p m, total-delete_absent x p m)

pub count-le-total : (x p : String) (m : Map (List String)) → count x (get_or m p []) ≤ total x m
unfolding get_or
count-le-total x p [] = omega arith
count-le-total x p ((q, l) ∷ m) = ground (arith, count-le-total x p m)

-- What a table holds stands in the list of some key.
pub total_key :
    (x : String) (m : Map (List String))
    → IsDistinct m
    → 0 < total x m
    → (p : String) × (0 < count x (get_or m p []))
unfolding get_or
total_key x [] d h = elim h [ ]
total_key x ((q, l) ∷ m) d h = elim (dec_lt 0 (count x l)) [
  | yes here ↦ (q, rw (eq_self q) here)
  | no others ↦
      let (p, there) = total_key x m (λ k. ground (arith, d k)) (omega arith) in
      (p, ground (arith, total-delete_absent x q m, d q, eq_iff q p))
]
