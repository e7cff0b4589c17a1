-- ===== src/Provider/Text.antt =====
-- The tests on texts of internal/provider. A text is a sequence of Unicode characters, and `len` is
-- the length in bytes of its UTF-8; Go texts that are not valid UTF-8 are not represented.
use Prim.Native.Char.{Char, code}
use Prim.Native.String.{slice}
use jimu_studio.Base.{
  ℕ, String, len, Bool, true, false, not, ◌||◌, ◌&&◌, List, [], ◌∷◌, leb, ltb, eqb, ◌==◌,
  if◌then◌else◌,
}

-- `hasControl`: `unicode.IsControl` on the runes of a text, U+0000 to U+001F and U+007F to U+009F.
unfoldable pub has_control : String → Bool
has_control String.[] = false
has_control (String.◌∷◌ c s) =
    ltb (code c) 32 || (leb 127 (code c) && leb (code c) 159) || has_control s

-- `strings.ContainsAny` with the four characters.
abbrev is_path_mark : Char → Bool
is_path_mark c = eqb (code c) b'/' || eqb (code c) b'\\' || eqb (code c) b'?' || eqb (code c) b'#'

unfoldable pub has_path_mark : String → Bool
has_path_mark String.[] = false
has_path_mark (String.◌∷◌ c s) = is_path_mark c || has_path_mark s

unfoldable pub safe_path_value : String → ℕ → Bool
safe_path_value value limit =
    not (value == "")
    && leb (len value) limit
    && not (has_control value)
    && not (has_path_mark value)

-- `boundedText`, `boundedIdentityText` and `boundedPlanText`.
unfoldable pub bounded_text : String → ℕ → Bool
bounded_text value limit = not (value == "") && leb (len value) limit && not (has_control value)

-- The regular expression of `safeToken`.
abbrev is_token_char : Char → Bool
is_token_char c =
    (leb b'A' (code c) && leb (code c) b'Z')
    || (leb b'a' (code c) && leb (code c) b'z')
    || (leb b'0' (code c) && leb (code c) b'9')
    || eqb (code c) b'.'
    || eqb (code c) b'_'
    || eqb (code c) b'~'
    || eqb (code c) b'+'
    || eqb (code c) b'/'
    || eqb (code c) b'='
    || eqb (code c) b'-'

unfoldable pub all_token_chars : String → Bool
all_token_chars String.[] = true
all_token_chars (String.◌∷◌ c s) = is_token_char c && all_token_chars s

unfoldable pub is_token : String → Bool
is_token s = not (s == "") && all_token_chars s

unfoldable pub safe_identity_key : String → Bool
safe_identity_key value = not (value == "") && leb (len value) 256 && is_token value

unfoldable pub one_of : String → List String → Bool
one_of value [] = false
one_of value (candidate ∷ values) = value == candidate || one_of value values

-- `safePublicText`; `map_runes` is `strings.Map` with the function that deletes the controls.
unfoldable pub safe_public_text : (String → String) → String → ℕ → String
safe_public_text map_runes value limit =
    map_runes (if ltb limit (len value) then slice value 0 limit else value)
