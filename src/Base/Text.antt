-- ===== src/Base/Text.antt =====
-- The functions of Go's package strings that the program calls, over native texts, and the order
-- of texts with `sort.Strings`. Positions count bytes, as in Go.
use Prim.Native.Nat.{◌-◌}
use Prim.Native.String.{String, len, compare, slice}
use Prim.Native.String.compare
use text.Mathlib.Text.{◌==◌, starts_with, is_le, find?}
use text.Mathlib.TextEquality.{Char-path}
use mathlib.Core.Path.{◌≡◌, refl}
use mathlib.Core.Bool.{Bool, true, false, ◌&&◌}
use native.Mathlib.Omega.{arith}
use Prim.Native.Char.{Char, code}
use mathlib.Core.List.{List, [], ◌∷◌}
use jimu_studio.Base.Tests.{if◌then◌else◌, leb, eqb, is_some}

abbrev pub has_prefix : String → String → Bool
has_prefix s p = starts_with s p

abbrev pub has_suffix : String → String → Bool
has_suffix s p = leb (len p) (len s) && slice s (len s - len p) (len s) == p

abbrev pub contains_text : String → String → Bool
contains_text s p = is_some (find? s p)

abbrev pub trim_prefix : String → String → String
trim_prefix s p = if has_prefix s p then slice s (len p) (len s) else s

abbrev pub trim_suffix : String → String → String
trim_suffix s p = if has_suffix s p then slice s 0 (len s - len p) else s

-- The order of Go's `<=` on strings.
abbrev pub str_leb : String → String → Bool
str_leb s t = is_le (compare s t)

pub str_leb_total : (s t : String) → str_leb s t ≡ false → str_leb t s ≡ true
str_leb_total String.[] String.[] h = refl
str_leb_total String.[] (String.◌∷◌ d t) h = ground (arith, compare.nil-cons d t)
str_leb_total (String.◌∷◌ c s) String.[] h = ground (arith, compare.nil-cons c s)
str_leb_total (String.◌∷◌ c s) (String.◌∷◌ d t) h =
    ground (arith, compare.cons-cons c d s t, compare.cons-cons d c t s, str_leb_total s t)

pub str_leb_trans : (s t u : String) → str_leb s t ≡ true → str_leb t u ≡ true → str_leb s u ≡ true
str_leb_trans String.[] t String.[] h k = refl
str_leb_trans String.[] t (String.◌∷◌ e u) h k = ground (arith, compare.nil-cons e u)
str_leb_trans (String.◌∷◌ c s) String.[] u h k = ground (arith, compare.cons-nil c s)
str_leb_trans (String.◌∷◌ c s) (String.◌∷◌ d t) String.[] h k = ground (arith, compare.cons-nil d t)
str_leb_trans (String.◌∷◌ c s) (String.◌∷◌ d t) (String.◌∷◌ e u) h k = ground (
  arith,
  compare.cons-cons c d s t,
  compare.cons-cons c e s u,
  compare.cons-cons d e t u,
  str_leb_trans s t u,
)

pub str_leb_antisymm : (s t : String) → str_leb s t ≡ true → str_leb t s ≡ true → s ≡ t
str_leb_antisymm String.[] String.[] h k = refl
str_leb_antisymm String.[] (String.◌∷◌ d t) h k = ground (arith, compare.cons-nil d t)
str_leb_antisymm (String.◌∷◌ c s) String.[] h k = ground (arith, compare.cons-nil c s)
str_leb_antisymm (String.◌∷◌ c s) (String.◌∷◌ d t) h k = ground (
  arith,
  compare.cons-cons c d s t,
  compare.cons-cons d c t s,
  str_leb_antisymm s t,
  Char-path c d,
)

abbrev is_slash : Char → Bool
is_slash c = eqb (code c) b'/'

abbrev attach : Char → List String → List String
attach c [] = String.◌∷◌ c String.[] ∷ []
attach c (p ∷ ps) = String.◌∷◌ c p ∷ ps

-- `strings.Split(s, "/")`.
unfoldable pub split_slash : String → List String
split_slash String.[] = "" ∷ []
split_slash (String.◌∷◌ c s) =
    let rest = split_slash s in if is_slash c then "" ∷ rest else attach c rest

unfoldable trim_left : String → String
trim_left String.[] = String.[]
trim_left (String.◌∷◌ c s) = let rest = trim_left s in if is_slash c then rest else String.◌∷◌ c s

unfoldable trim_right : String → String
trim_right String.[] = String.[]
trim_right (String.◌∷◌ c s) =
    let rest = trim_right s in if is_slash c && rest == "" then String.[] else String.◌∷◌ c rest

-- `strings.Trim(s, "/")`.
unfoldable pub trim_slashes : String → String
unfolding trim_left trim_right
trim_slashes s = trim_right (trim_left s)

split_slash_test :
    split_slash (trim_slashes "/studio//users/a/") ≡ "studio" ∷ "" ∷ "users" ∷ "a" ∷ []
unfolding split_slash trim_slashes
split_slash_test = refl
