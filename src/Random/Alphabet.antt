-- ===== src/Random/Alphabet.antt =====
-- The characters of grant ids.
use native.Mathlib.Decide.{dec_lt}
use text.Mathlib.TextLemmas.{nil-append, cons-append}
use mathlib.Core.Option.{some-injective}
use connect_plugin_go.Prelude.{
  ℕ, zero, suc, ◌+◌, ◌/◌, ◌%◌, ◌*◌, ◌<◌, String, ◌≡◌, refl, sym, ap, ◌∙◌, Bool, true, ◌&&◌, some,
  List, [], ◌∷◌, arith, subst,
}
use connect_plugin_go.Prelude.Text.{◌<>◌, has_no_slash}
use connect_plugin_go.Random.{url_digit, base64_encode, generate_grant_id}

has_no_slash-append :
    (s t : String) → has_no_slash s ≡ true → has_no_slash t ≡ true → has_no_slash (s <> t) ≡ true
has_no_slash-append String.[] t h k = rw nil-append k
has_no_slash-append (String.◌∷◌ c s) t h k =
    rw cons-append (ground (arith, has_no_slash-append s t))

-- p holds of all the numbers below n
abbrev all_below : ℕ → (ℕ → Bool) → Bool
all_below zero p = true
all_below (suc n) p = p n && all_below n p

all_below-get : (n k : ℕ) (p : ℕ → Bool) → all_below n p ≡ true → k < n → p k ≡ true
all_below-get zero k p h l = absurd (omega arith)
all_below-get (suc n) k p h l = elim (dec_lt k n) [
  | yes below ↦ all_below-get n k p (ground arith) below
  | no last ↦ let e : n ≡ k = omega arith in ap p (sym e) ∙ ground arith
]

-- Bytes, as crypto/rand gives them.
abbrev pub IsBytes : List ℕ → Type 0
IsBytes [] = Unit
IsBytes (b ∷ bs) = (b < 256) × IsBytes bs

url_digit_no_slash : (n : ℕ) → n < 64 → has_no_slash (url_digit n) ≡ true
url_digit_no_slash n = all_below-get 64 n (λ k. has_no_slash (url_digit k)) refl

digit_before :
    (n : ℕ) (t : String) → n < 64 → has_no_slash t ≡ true → has_no_slash (url_digit n <> t) ≡ true
digit_before n t h = has_no_slash-append (url_digit n) t (url_digit_no_slash n h)

base64_no_slash : (bs : List ℕ) → IsBytes bs → has_no_slash (base64_encode bs) ≡ true
unfolding base64_encode
base64_no_slash [] h = refl
base64_no_slash (a ∷ []) h =
    digit_before (a / 4) (url_digit (a % 4 * 16) <> "==") (omega arith)
      (digit_before (a % 4 * 16) "==" (omega arith) refl)
base64_no_slash (a ∷ b ∷ []) h =
    let last = url_digit (b % 16 * 4) <> "=" in
    digit_before (a / 4) (url_digit (a % 4 * 16 + b / 16) <> last) (omega arith) (
      digit_before (a % 4 * 16 + b / 16) last (omega arith)
        (digit_before (b % 16 * 4) "=" (omega arith) refl))
base64_no_slash (a ∷ b ∷ c ∷ bs) h =
    let rest = base64_encode bs in
    let fourth = url_digit (c % 64) <> rest in
    let third = url_digit (b % 16 * 4 + c / 64) <> fourth in
    digit_before (a / 4) (url_digit (a % 4 * 16 + b / 16) <> third) (omega arith) (
      digit_before (a % 4 * 16 + b / 16) third (omega arith) (
        digit_before (b % 16 * 4 + c / 64) fourth (omega arith)
          (digit_before (c % 64) rest (omega arith) (base64_no_slash bs h.1.1.1))))

-- A grant id is one part of a path.
pub generate_grant_id_no_slash :
    (bs : List ℕ) (id : String)
    → IsBytes bs
    → generate_grant_id (some bs) ≡ some id
    → has_no_slash id ≡ true
unfolding generate_grant_id
generate_grant_id_no_slash bs id h e =
    subst (λ (s : String). has_no_slash s ≡ true) (some-injective _ _ e) (base64_no_slash bs h)
