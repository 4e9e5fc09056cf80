-- ===== src/Validation/Accepts.antt =====
-- Exactly which texts the checks let through.
use Prim.Native.Char.{Char, code}
use Prim.Native.String.{len}
use text.Mathlib.TextLemmas.{cons-ne-nil}
use connect_plugin_go.Prelude.{
  ℕ, ◌≤◌, String, ◌≡◌, ◌≢◌, ◌↔◌, refl, Bool, true, false, none, arith, eq_iff,
}
use connect_plugin_go.Prelude.Text.{contains_text}
use connect_plugin_go.Validation.{all_chars, is_key_char, is_valid_key, validate_service_type}

-- A text all of whose characters pass p holds no character that fails it.
contains_char-all_chars :
    (p : ℕ → Bool) (c : Char) (s : String)
    → p (code c) ≡ false
    → all_chars p s ≡ true
    → contains_text s (String.◌∷◌ c String.[]) ≡ false
unfolding contains_text all_chars
contains_char-all_chars p c String.[] f h = refl
contains_char-all_chars p c (String.◌∷◌ d s) f h = ground (arith, contains_char-all_chars p c s)

key-lacks :
    (c : Char) (s : String)
    → is_key_char (code c) ≡ false
    → is_valid_key s ≡ true
    → contains_text s (String.◌∷◌ c String.[]) ≡ false
unfolding is_valid_key contains_text
key-lacks c String.[] f h = refl
key-lacks c (String.◌∷◌ d s) f h = ground (arith, contains_char-all_chars is_key_char c s)

key-ne-empty : (s : String) → is_valid_key s ≡ true → s ≢ ""
unfolding is_valid_key
key-ne-empty String.[] h e = cc
key-ne-empty (String.◌∷◌ c s) h e = cons-ne-nil c s e

-- ValidateServiceType accepts exactly the texts of at most 128 bytes that match the key pattern and
-- hold no "..": no such text is empty or holds a "/", a "\" or a null byte, so the checks for those
-- refuse nothing that the pattern lets through.
pub validate_service_type_iff :
    (s : String)
    → (validate_service_type s ≡ none)
      ↔ ((len s ≤ 128) × (is_valid_key s ≡ true) × (contains_text s ".." ≡ false))
unfolding validate_service_type
validate_service_type_iff s = (λ h. accepted h, λ h. accepts h)
  where
    accepted :
        validate_service_type s ≡ none
        → (len s ≤ 128) × (is_valid_key s ≡ true) × (contains_text s ".." ≡ false)
    accepted h = ground arith

    accepts :
        (len s ≤ 128) × (is_valid_key s ≡ true) × (contains_text s ".." ≡ false)
        → validate_service_type s ≡ none
    accepts h =
        ground
          (arith, key-lacks "/" s, key-lacks "\\" s, key-lacks "\0" s, key-ne-empty s, eq_iff s "")
