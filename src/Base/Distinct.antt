-- ===== src/Base/Distinct.antt =====
-- Lists of texts without a double, as Go's loops over a map of the texts seen demand.
use Prim.Native.Nat.{suc, ◌≤◌}
use Prim.Native.String.{String}
use text.Mathlib.Text.{◌==◌}
use text.Mathlib.TextEquality.{eq_iff}
use mathlib.Core.Path.{◌≡◌, refl}
use mathlib.Core.Logic.{inl, inr}
use mathlib.Core.Bool.{true, false}
use mathlib.Core.List.{List, [], ◌∷◌}
use native.Mathlib.Omega.{arith}
use jimu_studio.Base.Lists.{length, contains}
use jimu_studio.Base.Tests.{Bool-cases, if◌then◌else◌}

-- No text stands twice.
abbrev pub Distinct : List String → Type 0
Distinct [] = Unit
Distinct (x ∷ xs) = (contains xs x ≡ false) × Distinct xs

-- Every text of the first list is in the second.
abbrev pub Within : List String → List String → Type 0
Within [] ys = Unit
Within (x ∷ xs) ys = (contains ys x ≡ true) × Within xs ys

-- A list without the first copy of a text.
abbrev remove : String → List String → List String
remove x [] = []
remove x (y ∷ ys) = if x == y then ys else y ∷ remove x ys

length-remove :
    (x : String) (ys : List String) → contains ys x ≡ true → length ys ≡ suc (length (remove x ys))
length-remove x [] h = ground arith
length-remove x (y ∷ ys) h = ground (arith, length-remove x ys, eq_iff x y, eq_iff y x)

contains-remove :
    (x t : String) (ys : List String) → (x == t) ≡ false → contains (remove x ys) t ≡ contains ys t
contains-remove x t [] h = refl
contains-remove x t (y ∷ ys) h =
    ground (arith, contains-remove x t ys h, eq_iff x y, eq_iff x t, eq_iff y t)

Within-remove :
    (x : String) (xs ys : List String)
    → contains xs x ≡ false
    → Within xs ys
    → Within xs (remove x ys)
Within-remove x [] ys h w = tt
Within-remove x (z ∷ zs) ys h (found, w) =
    ground (arith, Within-remove x zs ys, contains-remove x z ys, eq_iff x z, eq_iff z x)

-- Distinct texts within a list that is not longer are all of that list.
pub Within-covers :
    (xs ys : List String) (t : String)
    → Distinct xs
    → Within xs ys
    → length ys ≤ length xs
    → contains ys t ≡ true
    → contains xs t ≡ true
Within-covers [] [] t d w h found = found
Within-covers [] (y ∷ ys) t d w h found = absurd (omega (arith, h))
Within-covers (x ∷ xs) ys t (fresh, d) (given, w) h found = elim (Bool-cases (x == t)) [
  | inl same ↦ ground (arith, same)
  | inr other ↦
      let rest : contains xs t ≡ true =
        Within-covers xs (remove x ys) t d (Within-remove x xs ys fresh w)
          (omega (arith, length-remove x ys given, h)) (rw (contains-remove x t ys other) found) in
      ground (arith, rest)
]

-- No text of the first list is in the second.
abbrev pub Apart : List String → List String → Type 0
Apart [] ys = Unit
Apart (x ∷ xs) ys = (contains ys x ≡ false) × Apart xs ys

pub Apart-tail :
    (xs ys : List String) (y : String) → Apart xs (y ∷ ys) → Apart xs ys × (contains xs y ≡ false)
Apart-tail [] ys y h = (tt, refl)
Apart-tail (x ∷ xs) ys y (h, hs) = ground (arith, Apart-tail xs ys y hs, eq_iff x y, eq_iff y x)
