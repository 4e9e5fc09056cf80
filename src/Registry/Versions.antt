-- ===== src/Registry/Versions.antt =====
-- The order in which registry.go compares versions: that of Go's texts.
use Prim.Native.Nat.{Ordering, compare as compare_ℕ}
use Prim.Native.Nat.compare as compare_ℕ
use Prim.Native.Char.{Char, code}
use Prim.Native.String.compare
use Prim.Native.String.{[], ◌∷◌, compare, then}
use text.Mathlib.TextEquality.{codes_equal}
use connect_plugin_go.Prelude.{
  ℕ, zero, suc, ◌<◌, String, ◌≡◌, ◌⊎◌, inl, inr, refl, sym, ap, subst, ◌∙◌, true, arith, Bool-cases,
  ◌==◌, eq_iff,
}
use connect_plugin_go.Registry.{ServiceProvider, at_least}
use connect_plugin_go.Registry.Candidates.{compatible}

-- One text comes before another as a beginning of it, or by the first character in which they differ.
-- (The characters' numbers stand in the order of their bytes in UTF-8.)
pub data Precedes : String → String → Type 0 where
  shorter : {d : Char} {t : String} → Precedes [] (d ∷ t)
  smaller : {c d : Char} {s t : String} → code c < code d → Precedes (c ∷ s) (d ∷ t)
  later : {c : Char} {s t : String} → Precedes s t → Precedes (c ∷ s) (c ∷ t)

-- What the comparison of two numbers says.
data Compared (m n : ℕ) : Ordering → Type 0 where
  below : m < n → Compared m n Ordering.lt
  same : m ≡ n → Compared m n Ordering.eq
  above : n < m → Compared m n Ordering.gt

suc-Compared : {m n : ℕ} {o : Ordering} → Compared m n o → Compared (suc m) (suc n) o
suc-Compared (below h) = below (omega arith)
suc-Compared (same h) = same (ap suc h)
suc-Compared (above h) = above (omega arith)

compare_ℕ-Compared : (m n : ℕ) → Compared m n (compare_ℕ m n)
compare_ℕ-Compared zero zero = rw compare_ℕ.zero-zero (same refl)
compare_ℕ-Compared zero (suc n) = rw compare_ℕ.zero-suc (below (omega arith))
compare_ℕ-Compared (suc m) zero = rw compare_ℕ.suc-zero (above (omega arith))
compare_ℕ-Compared (suc m) (suc n) = rw compare_ℕ.suc-suc (suc-Compared (compare_ℕ-Compared m n))

first_difference :
    (c d : Char) (s t : String) (o : Ordering)
    → Compared (code c) (code d) o
    → compare_ℕ (code c) (code d) ≡ o
    → then o (compare s t) ≡ Ordering.lt
    → (compare s t ≡ Ordering.lt → Precedes s t)
    → Precedes (c ∷ s) (d ∷ t)
first_difference c d s t Ordering.lt (below h) e less rest = smaller h
first_difference c d s t Ordering.eq (same h) e less rest =
    subst (λ x. Precedes (c ∷ s) (x ∷ t)) (codes_equal c d e) (later (rest less))
first_difference c d s t Ordering.gt (above h) e less rest = absurd (ground arith)

lt-Precedes : (s t : String) → compare s t ≡ Ordering.lt → Precedes s t
lt-Precedes [] [] h = absurd (ground (arith, compare.nil-nil))
lt-Precedes [] (d ∷ t) h = shorter
lt-Precedes (c ∷ s) [] h = absurd (ground (arith, compare.cons-nil c s))
lt-Precedes (c ∷ s) (d ∷ t) h =
    first_difference c d s t (compare_ℕ (code c) (code d)) (compare_ℕ-Compared (code c) (code d))
      refl (sym (compare.cons-cons c d s t) ∙ h) (lt-Precedes s t)

below_lt : (m n : ℕ) (o : Ordering) → Compared m n o → m < n → o ≡ Ordering.lt
below_lt m n Ordering.lt (below h) l = refl
below_lt m n Ordering.eq (same h) l = absurd (omega arith)
below_lt m n Ordering.gt (above h) l = absurd (omega arith)

self_eq : (n : ℕ) (o : Ordering) → Compared n n o → o ≡ Ordering.eq
self_eq n Ordering.lt (below h) = absurd (omega arith)
self_eq n Ordering.eq (same h) = refl
self_eq n Ordering.gt (above h) = absurd (omega arith)

Precedes-lt : {s t : String} → Precedes s t → compare s t ≡ Ordering.lt
Precedes-lt (shorter {d} {t}) = compare.nil-cons d t
Precedes-lt (smaller {c} {d} {s} {t} h) =
    compare.cons-cons c d s t
    ∙ ap (λ o. then o (compare s t))
        (below_lt (code c) (code d) _ (compare_ℕ-Compared (code c) (code d)) h)
Precedes-lt (later {c} {s} {t} h) =
    compare.cons-cons c c s t
    ∙ ap (λ o. then o (compare s t)) (self_eq (code c) _ (compare_ℕ-Compared (code c) (code c)))
    ∙ Precedes-lt h

-- A version fits a minimum: there is no minimum, or the version does not come before it as a text.
abbrev pub Fits : String → String → Type 0
Fits min version = (min ≡ "") ⊎ (¬ Precedes version min)

pub compatible-Fits :
    (min : String) (p : ServiceProvider) → compatible min p ≡ true → Fits min p.version
compatible-Fits min p h = elim (Bool-cases (min == "")) [
  | inl any ↦ inl ((eq_iff min "").0 any)
  | inr some_min ↦ inr (λ before. absurd (ground (arith, Precedes-lt before)))
]

at_least-not_before : (min v : String) → ¬ Precedes v min → at_least min v ≡ true
at_least-not_before min v h = elim (Bool-cases (at_least min v)) [
  | inl fits ↦ fits
  | inr less ↦ absurd (h (lt-Precedes v min (ground arith)))
]

pub Fits-compatible :
    (min : String) (p : ServiceProvider) → Fits min p.version → compatible min p ≡ true
Fits-compatible min p (inl none_asked) = ground (arith, (eq_iff min "").1 none_asked)
Fits-compatible min p (inr h) = ground (arith, at_least-not_before min p.version h)
