-- ===== src/Prelude/Text.antt =====
-- The functions of Go's `strings` that the program uses, by recursion on the text's characters.
use Prim.Native.Nat.{ℕ, zero, suc}
use Prim.Native.Char.{Char, code}
use Prim.Native.String
use Prim.Native.String.{String}
use mathlib.Core.Logic.{◌≢◌, inl, inr}
use mathlib.Core.Path.{◌≡◌, refl, ap, ap₂, ◌∙◌}
use mathlib.Core.Bool.{Bool, true, false, not, ◌&&◌, ◌||◌}
use mathlib.Core.Option.{Option, none, some}
use mathlib.Core.List.{List, [], ◌∷◌}
use native.Mathlib.Omega.{arith}
use text.Mathlib.TextLemmas.{nil-append, cons-append}
use text.Mathlib.TextEquality.{Char-path}
use connect_plugin_go.Prelude.Tests.{nat_eq, Bool-cases, if◌then◌else◌}

infixr 66 ◌<>◌
abbrev pub ◌<>◌ : String → String → String
s <> t = String.◌++◌ s t

-- strings.HasPrefix(s, p), with p first
unfoldable pub has_prefix : String → String → Bool
has_prefix String.[] s = true
has_prefix (String.◌∷◌ c p) String.[] = false
has_prefix (String.◌∷◌ c p) (String.◌∷◌ d s) = nat_eq (code c) (code d) && has_prefix p s

-- what stands behind a prefix of the length of p
drop_prefix : String → String → String
drop_prefix String.[] s = s
drop_prefix (String.◌∷◌ c p) String.[] = String.[]
drop_prefix (String.◌∷◌ c p) (String.◌∷◌ d s) = drop_prefix p s

-- strings.TrimPrefix(s, p), with p first
unfoldable pub trim_prefix : String → String → String
unfolding drop_prefix
trim_prefix p s = if has_prefix p s then drop_prefix p s else s

-- strings.Contains(s, t)
unfoldable pub contains_text : String → String → Bool
unfolding has_prefix
contains_text String.[] t = has_prefix t String.[]
contains_text (String.◌∷◌ c s) t = has_prefix t (String.◌∷◌ c s) || contains_text s t

-- The text up to the first "/", and what follows it if there is one.
unfoldable pub cut : String → String × Option String
cut String.[] = (String.[], none)
cut (String.◌∷◌ c s) =
    let (before, after) = cut s in
    if nat_eq (code c) b'/' then (String.[], some s) else (String.◌∷◌ c before, after)

-- strings.SplitN(s, "/", n)
unfoldable pub split_n : ℕ → String → List String
unfolding cut
split_n zero s = []
split_n (suc zero) s = s ∷ []
split_n (suc (suc n)) s = elim (cut s).1 [
  | none ↦ (cut s).0 ∷ []
  | some rest ↦ (cut s).0 ∷ split_n (suc n) rest
]

put_in_front : Char → List String → List String
put_in_front c [] = String.◌∷◌ c String.[] ∷ []
put_in_front c (part ∷ parts) = String.◌∷◌ c part ∷ parts

-- strings.Split(s, "/")
unfoldable pub split : String → List String
unfolding put_in_front
split String.[] = String.[] ∷ []
split (String.◌∷◌ c s) =
    let rest = split s in if nat_eq (code c) b'/' then String.[] ∷ rest else put_in_front c rest

-- strings.Join(parts, "/")
unfoldable pub join : List String → String
join [] = String.[]
join (part ∷ []) = part
join (part ∷ next ∷ parts) = part <> "/" <> join (next ∷ parts)

-- No "/" stands in the text.
abbrev pub has_no_slash : String → Bool
has_no_slash String.[] = true
has_no_slash (String.◌∷◌ c s) = not (nat_eq (code c) b'/') && has_no_slash s

-- A text and another behind a "/" are told apart again by the first "/".
pub cut-append : (s t : String) → has_no_slash s ≡ true → cut (s <> "/" <> t) ≡ (s, some t)
unfolding cut
cut-append String.[] t h = rw (nil-append, cons-append, nil-append)
cut-append (String.◌∷◌ c s) t h = rw cons-append (ground (arith, cut-append s t))

pub split-append : (s t : String) → has_no_slash s ≡ true → split (s <> "/" <> t) ≡ s ∷ split t
unfolding split
split-append String.[] t h = rw (nil-append, cons-append, nil-append)
split-append (String.◌∷◌ c s) t h = rw cons-append (ground (arith, split-append s t))

-- A text without a "/" is one part.
pub split_no_slash : (s : String) → has_no_slash s ≡ true → split s ≡ s ∷ []
unfolding split
split_no_slash String.[] h = refl
split_no_slash (String.◌∷◌ c s) h = ground (arith, split_no_slash s)

pub has_prefix-append : (p s : String) → has_prefix p (p <> s) ≡ true
unfolding has_prefix
has_prefix-append String.[] s = refl
has_prefix-append (String.◌∷◌ c p) s = rw cons-append (ground (arith, has_prefix-append p s))

drop_prefix-append : (p s : String) → drop_prefix p (p <> s) ≡ s
unfolding drop_prefix
drop_prefix-append String.[] s = rw nil-append
drop_prefix-append (String.◌∷◌ c p) s = rw cons-append (drop_prefix-append p s)

pub trim_prefix-append : (p s : String) → trim_prefix p (p <> s) ≡ s
unfolding trim_prefix
trim_prefix-append p s = rw has_prefix-append (drop_prefix-append p s)

split-cons : (s : String) → (part : String) × (parts : List String) × (split s ≡ part ∷ parts)
unfolding split
split-cons String.[] = (String.[], [], refl)
split-cons (String.◌∷◌ c s) =
    let (part, parts, e) = split-cons s in
    elim (Bool-cases (nat_eq (code c) b'/')) [
      | inl slash ↦ (String.[], split s, rw slash)
      | inr other ↦ (String.◌∷◌ c part, parts, rw (other, e))
    ]

join-put_in_front :
    (c : Char) (part : String) (parts : List String)
    → join (put_in_front c (part ∷ parts)) ≡ String.◌∷◌ c (join (part ∷ parts))
unfolding join put_in_front
join-put_in_front c part [] = refl
join-put_in_front c part (next ∷ parts) = rw cons-append

join-empty_front :
    (parts : List String) → parts ≢ [] → join ("" ∷ parts) ≡ String.◌∷◌ "/" (join parts)
unfolding join
join-empty_front [] h = absurd (h refl)
join-empty_front (part ∷ parts) h = rw (nil-append, cons-append, nil-append)

join-split_cons :
    (c : Char) (s : String) → join (split s) ≡ s → join (split (String.◌∷◌ c s)) ≡ String.◌∷◌ c s
unfolding split
join-split_cons c s ih =
    let (part, parts, e) = split-cons s in
    elim (Bool-cases (nat_eq (code c) b'/')) [
      | inl slash ↦ rw slash (
          join-empty_front (split s) (λ z. cc) ∙ ap₂ String.◌∷◌ (Char-path "/" c (ground arith)) ih)
      | inr other ↦ rw (other, e) (join-put_in_front c part parts ∙ ap (String.◌∷◌ c) (rw e at ih))
    ]

-- Joining the parts gives the text back.
pub join-split : (s : String) → join (split s) ≡ s
unfolding split join
join-split String.[] = refl
join-split (String.◌∷◌ c s) = join-split_cons c s (join-split s)
