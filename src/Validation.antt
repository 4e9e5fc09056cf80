-- ===== src/Validation.antt =====
-- validation.go: the checks on what plugins send. A length counts the bytes of the text, as Go's
-- `len` does. The patterns are those of the two regular expressions of the file.
pub mod Accepts
use Prim.Native.Char.{Char, code}
use Prim.Native.String.{len}
use connect_plugin_go.Prelude.{
  ℕ, ◌-◌, String, Bool, true, false, not, ◌&&◌, ◌||◌, Option, none, some, List, [], ◌∷◌, length,
  leb, ltb, nat_eq, ◌==◌, if◌then◌else◌,
}
use connect_plugin_go.Prelude.Maps.{Map}
use connect_plugin_go.Prelude.Text.{contains_text, has_prefix}

abbrev max_metadata_entries : ℕ
max_metadata_entries = 100

abbrev max_metadata_key_len : ℕ
max_metadata_key_len = 256

abbrev max_metadata_value_len : ℕ
max_metadata_value_len = 4096

abbrev max_service_type_len : ℕ
max_service_type_len = 128

abbrev max_self_id_len : ℕ
max_self_id_len = 128

abbrev max_version_len : ℕ
max_version_len = 64

pub data Invalid : Type 0 where
  empty too_long invalid_characters path_traversal null_bytes too_many_entries : Invalid
  value_too_long not_semantic_version no_leading_slash : Invalid

abbrev is_letter : ℕ → Bool
is_letter c = (leb b'a' c && leb c b'z') || (leb b'A' c && leb c b'Z')

abbrev is_digit : ℕ → Bool
is_digit c = leb b'0' c && leb c b'9'

-- [a-zA-Z0-9_.\-]
abbrev is_key_char : ℕ → Bool
is_key_char c = is_letter c || is_digit c || nat_eq c b'_' || nat_eq c b'.' || nat_eq c b'-'

-- p holds of every character
all_chars : (ℕ → Bool) → String → Bool
all_chars p String.[] = true
all_chars p (String.◌∷◌ c s) = p (code c) && all_chars p s

-- validKeyPattern: ^[a-zA-Z][a-zA-Z0-9_.\-]*$
unfoldable pub is_valid_key : String → Bool
unfolding all_chars
is_valid_key String.[] = false
is_valid_key (String.◌∷◌ c s) = is_letter (code c) && all_chars is_key_char s

-- [a-zA-Z0-9.-]
abbrev is_suffix_char : ℕ → Bool
is_suffix_char c = is_letter c || is_digit c || nat_eq c b'.' || nat_eq c b'-'

-- (-[a-zA-Z0-9.-]+)?$
version_suffix : String → Bool
unfolding all_chars
version_suffix String.[] = true
version_suffix (String.◌∷◌ c String.[]) = false
version_suffix (String.◌∷◌ c (String.◌∷◌ d s)) =
    nat_eq (code c) b'-' && is_suffix_char (code d) && all_chars is_suffix_char s

-- [0-9]* and then what follows: a "." and `more` components, or with none left the suffix. `some_yet`
-- tells that a digit has been read.
version_from : ℕ → Bool → String → Bool
unfolding version_suffix
version_from more some_yet String.[] = some_yet && nat_eq more 0
version_from more some_yet (String.◌∷◌ c s) =
    let digit = version_from more true s in
    let next = version_from (more - 1) false s in
    if is_digit (code c)
    then digit
    else if nat_eq more 0
    then some_yet && version_suffix (String.◌∷◌ c s)
    else some_yet && nat_eq (code c) b'.' && next

-- validVersionPattern: ^[0-9]+\.[0-9]+\.[0-9]+(-[a-zA-Z0-9.-]+)?$
unfoldable pub is_valid_version : String → Bool
unfolding version_from
is_valid_version s = version_from 2 false s

abbrev contains_nul : String → Bool
contains_nul s = contains_text s "\0"

-- ValidateServiceType
unfoldable pub validate_service_type : String → Option Invalid
unfolding is_valid_key contains_text
validate_service_type s =
    if s == ""
    then some empty
    else if ltb max_service_type_len (len s)
    then some too_long
    else if not (is_valid_key s)
    then some invalid_characters
    else if contains_text s ".." || contains_text s "/" || contains_text s "\\"
    then some path_traversal
    else if contains_nul s
    then some null_bytes
    else none

-- ValidateSelfID
unfoldable pub validate_self_id : String → Option Invalid
unfolding is_valid_key contains_text
validate_self_id s =
    if s == ""
    then some empty
    else if ltb max_self_id_len (len s)
    then some too_long
    else if not (is_valid_key s)
    then some invalid_characters
    else if contains_nul s
    then some null_bytes
    else none

-- ValidateVersion
unfoldable pub validate_version : String → Option Invalid
unfolding is_valid_version contains_text
validate_version s =
    if s == ""
    then some empty
    else if ltb max_version_len (len s)
    then some too_long
    else if not (is_valid_version s)
    then some not_semantic_version
    else if contains_nul s
    then some null_bytes
    else none

-- ValidateEndpointPath
unfoldable pub validate_endpoint_path : String → Option Invalid
unfolding contains_text has_prefix
validate_endpoint_path path =
    if path == ""
    then some empty
    else if not (has_prefix "/" path)
    then some no_leading_slash
    else if ltb 256 (len path)
    then some too_long
    else if contains_nul path
    then some null_bytes
    else none

validate_entry : String → String → Option Invalid
unfolding is_valid_key contains_text
validate_entry key value =
    if key == ""
    then some empty
    else if ltb max_metadata_key_len (len key)
    then some too_long
    else if not (is_valid_key key)
    then some invalid_characters
    else if ltb max_metadata_value_len (len value)
    then some value_too_long
    else if contains_nul key || contains_nul value
    then some null_bytes
    else none

-- The loop over the entries: the first entry that is refused decides.
validate_entries : Map String → Option Invalid
unfolding validate_entry
validate_entries [] = none
validate_entries ((key, value) ∷ m) = elim (validate_entry key value) [
  | some e ↦ some e
  | none ↦ validate_entries m
]

-- ValidateMetadata
unfoldable pub validate_metadata : Map String → Option Invalid
unfolding validate_entries
validate_metadata metadata =
    if ltb max_metadata_entries (length metadata)
    then some too_many_entries
    else validate_entries metadata
