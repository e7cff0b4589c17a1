-- ===== src/Base/Sort.antt =====
-- `sort.Strings`: an insertion sort of texts, sorted and with the same members.
use Prim.Native.String.{String}
use text.Mathlib.Text.{◌==◌}
use mathlib.Core.Path.{◌≡◌, refl}
use mathlib.Core.Bool.{true, ◌||◌}
use mathlib.Core.List.{List, [], ◌∷◌}
use native.Mathlib.Omega.{arith}
use jimu_studio.Base.Tests.{if◌then◌else◌}
use jimu_studio.Base.Text.{str_leb, str_leb_total, str_leb_trans}
use jimu_studio.Base.Lists.{contains, All}

abbrev insert_sorted : String → List String → List String
insert_sorted s [] = s ∷ []
insert_sorted s (x ∷ xs) =
    let rest = insert_sorted s xs in if str_leb s x then s ∷ x ∷ xs else x ∷ rest

unfoldable pub sort : List String → List String
sort [] = []
sort (x ∷ xs) = insert_sorted x (sort xs)

-- Each text stands before those after it.
abbrev pub IsSorted : List String → Type 0
IsSorted [] = Unit
IsSorted (x ∷ xs) = All (λ y. str_leb x y ≡ true) xs × IsSorted xs

All-leb_trans :
    (s x : String) (xs : List String)
    → str_leb s x ≡ true
    → All (λ y. str_leb x y ≡ true) xs
    → All (λ y. str_leb s y ≡ true) xs
All-leb_trans s x [] h k = tt
All-leb_trans s x (y ∷ ys) h (k, ks) = (str_leb_trans s x y h k, All-leb_trans s x ys h ks)

All-insert_sorted {ℓ} :
    (P : String → Type ℓ) (s : String) (xs : List String)
    → P s
    → All P xs
    → All P (insert_sorted s xs)
All-insert_sorted P s [] p ps = (p, tt)
All-insert_sorted P s (x ∷ xs) p (q, qs) = ground (arith, All-insert_sorted P s xs p qs)

insert_sorted-IsSorted :
    (s : String) (xs : List String) → IsSorted xs → IsSorted (insert_sorted s xs)
insert_sorted-IsSorted s [] h = (tt, tt)
insert_sorted-IsSorted s (x ∷ xs) (h, hs) = ground (
  arith,
  All-leb_trans s x xs,
  All-insert_sorted (λ y. str_leb x y ≡ true) s xs,
  insert_sorted-IsSorted s xs hs,
  str_leb_total s x,
)

pub sort-IsSorted : (xs : List String) → IsSorted (sort xs)
unfolding sort
sort-IsSorted [] = tt
sort-IsSorted (x ∷ xs) = insert_sorted-IsSorted x (sort xs) (sort-IsSorted xs)

contains-insert_sorted :
    (s t : String) (xs : List String) → contains (insert_sorted s xs) t ≡ (s == t || contains xs t)
contains-insert_sorted s t [] = refl
contains-insert_sorted s t (x ∷ xs) = ground (arith, contains-insert_sorted s t xs)

pub contains-sort : (xs : List String) (t : String) → contains (sort xs) t ≡ contains xs t
unfolding sort
contains-sort [] t = refl
contains-sort (x ∷ xs) t = ground (arith, contains-insert_sorted x t (sort xs), contains-sort xs t)
