-- ===== src/Random.antt =====
-- The identifiers and tokens of handshake.go, broker.go and registry.go, from the bytes that
-- crypto/rand gives; `none` where reading them fails. Lower case is that of ASCII, which holds all
-- texts that ValidateSelfID accepts.
pub mod Alphabet
use Prim.Native.Char.{code}
use Prim.Native.String.{slice}
use text.Mathlib.TextLemmas.{cons-append, append-ne-nil_of_right_ne-nil, cons-ne-nil}
use mathlib.Core.Option
use mathlib.Core.Option.{some-injective}
use connect_plugin_go.Prelude.{
  ℕ, ◌+◌, ◌-◌, ◌*◌, ◌/◌, ◌%◌, String, ◌≡◌, ◌≢◌, subst, Bool, ◌&&◌, Option, none, some, List, [],
  ◌∷◌, arith, leb, nat_eq, if◌then◌else◌,
}
use connect_plugin_go.Prelude.Text.{◌<>◌}

abbrev digit : String → ℕ → String
digit digits n = slice digits n (n + 1)

abbrev hex_digit : ℕ → String
hex_digit = digit "0123456789abcdef"

-- hex.EncodeToString
hex_encode : List ℕ → String
hex_encode [] = ""
hex_encode (b ∷ bs) = hex_digit (b / 16) <> hex_digit (b % 16) <> hex_encode bs

abbrev pub url_digit : ℕ → String
url_digit = digit "ABCDEFGHIJKLMNOPQRSTUVWXYZabcdefghijklmnopqrstuvwxyz0123456789-_"

-- base64.URLEncoding.EncodeToString
pub base64_encode : List ℕ → String
base64_encode [] = ""
base64_encode (a ∷ []) = url_digit (a / 4) <> url_digit (a % 4 * 16) <> "=="
base64_encode (a ∷ b ∷ []) =
    url_digit (a / 4) <> url_digit (a % 4 * 16 + b / 16) <> url_digit (b % 16 * 4) <> "="
base64_encode (a ∷ b ∷ c ∷ bs) =
    url_digit (a / 4)
    <> url_digit (a % 4 * 16 + b / 16)
    <> url_digit (b % 16 * 4 + c / 64)
    <> url_digit (c % 64)
    <> base64_encode bs

-- generateRandomHex, from the (length + 1) / 2 bytes read
unfoldable pub generate_random_hex : ℕ → Option (List ℕ) → Option String
unfolding hex_encode
generate_random_hex length bytes = Option.map (λ bs. slice (hex_encode bs) 0 length) bytes

-- strings.ToLower(strings.ReplaceAll(s, " ", "-"))
normalize : String → String
normalize String.[] = ""
normalize (String.◌∷◌ c s) =
    let rest = normalize s in
    if nat_eq (code c) b' '
    then "-" <> rest
    else if leb b'A' (code c) && leb (code c) b'Z'
    then digit "abcdefghijklmnopqrstuvwxyz" (code c - b'A') <> rest
    else String.◌∷◌ c rest

abbrev runtime_id_of : String → String → String
runtime_id_of normalized suffix = normalized <> "-" <> suffix

-- generateRuntimeID, from the 2 bytes read
unfoldable pub generate_runtime_id : String → Option (List ℕ) → Option String
unfolding normalize generate_random_hex
generate_runtime_id self_id bytes =
    Option.map (runtime_id_of (normalize self_id)) (generate_random_hex 4 bytes)

-- generateToken from 32 bytes, and generateGrantID from 16
unfoldable pub generate_token : Option (List ℕ) → Option String
unfolding base64_encode
generate_token bytes = Option.map base64_encode bytes

unfoldable pub generate_grant_id : Option (List ℕ) → Option String
unfolding base64_encode
generate_grant_id bytes = Option.map base64_encode bytes

-- generateRegistrationID, from 8 bytes
unfoldable pub generate_registration_id : Option (List ℕ) → Option String
unfolding generate_random_hex
generate_registration_id bytes = Option.map (λ hex. "reg-" <> hex) (generate_random_hex 16 bytes)

dash-ne-empty : (t : String) → "-" <> t ≢ ""
dash-ne-empty t e =
    let e' : Path String (String.◌∷◌ "-" ("" <> t)) "" = rw cons-append at e in cons-ne-nil _ _ e'

pub generate_runtime_id-ne-empty :
    (self_id : String) (bytes : Option (List ℕ)) {id : String}
    → generate_runtime_id self_id bytes ≡ some id
    → id ≢ ""
unfolding generate_runtime_id
generate_runtime_id-ne-empty self_id none h = cc
generate_runtime_id-ne-empty self_id (some bs) {id} h =
    subst (λ (x : String). x ≢ "") (some-injective _ _ h)
      (append-ne-nil_of_right_ne-nil (normalize self_id)
        (dash-ne-empty (slice (hex_encode bs) 0 4)))
