-- ===== src/Base/Dict.antt =====
-- Go maps with text keys, as association lists. The order of the entries stands for the
-- unspecified order of Go's iteration; `IsDict` says that a key occurs once.
use Prim.Native.Nat.{suc, ◌≤◌, ◌<◌}
use Prim.Native.String.{String}
use text.Mathlib.Text.{◌==◌}
use text.Mathlib.TextEquality.{eq_iff}
use text.Mathlib.TextPositions.{eq_refl}
use mathlib.Core.Path.{◌≡◌, refl}
use mathlib.Core.Bool.{Bool}
use mathlib.Core.Option.{Option, none, some}
use mathlib.Core.List.{List, [], ◌∷◌}
use native.Mathlib.Omega.{arith}
use jimu_studio.Base.Tests.{if◌then◌else◌}
use jimu_studio.Base.Lists.{length}

abbrev pub Dict {ℓ} : Type ℓ → Type ℓ
Dict V = List (String × V)

module _ {ℓ} {V : Type ℓ} where
  unfoldable pub lookup : String → Dict V → Option V
  lookup k [] = none
  lookup k ((j, v) ∷ m) = if j == k then some v else lookup k m

  unfoldable pub delete : String → Dict V → Dict V
  delete k [] = []
  delete k ((j, v) ∷ m) = let rest = delete k m in if j == k then rest else (j, v) ∷ rest

  unfoldable pub insert : String → V → Dict V → Dict V
  unfolding delete
  insert k v m = (k, v) ∷ delete k m

  -- The entries whose value passes the test: a loop that deletes the others.
  unfoldable pub keep : (V → Bool) → Dict V → Dict V
  keep p [] = []
  keep p ((j, v) ∷ m) = let rest = keep p m in if p v then (j, v) ∷ rest else rest

  -- The values that `keep` leaves out.
  unfoldable pub drop_values : (V → Bool) → Dict V → List V
  drop_values p [] = []
  drop_values p ((j, v) ∷ m) = let rest = drop_values p m in if p v then rest else v ∷ rest

  unfoldable pub keys : Dict V → List String
  keys [] = []
  keys ((j, v) ∷ m) = j ∷ keys m

  abbrev pub sift : (V → Bool) → Option V → Option V
  sift p none = none
  sift p (some v) = if p v then some v else none

  abbrev pub IsDict : Dict V → Type ℓ
  IsDict [] = Unit
  IsDict ((k, v) ∷ m) = (lookup k m ≡ none) × IsDict m

  pub lookup-delete :
      (k j : String) (m : Dict V) → lookup j (delete k m) ≡ (if k == j then none else lookup j m)
  unfolding lookup delete
  lookup-delete k j [] = ground arith
  lookup-delete k j ((i, w) ∷ m) =
      ground (arith, eq_iff k j, eq_iff i k, eq_iff i j, lookup-delete k j m)

  pub lookup-insert :
      (k j : String) (v : V) (m : Dict V)
      → lookup j (insert k v m) ≡ (if k == j then some v else lookup j m)
  unfolding lookup insert
  lookup-insert k j v m = ground (arith, lookup-delete k j m)

  pub lookup-insert_self : (k : String) (v : V) (m : Dict V) → lookup k (insert k v m) ≡ some v
  unfolding lookup insert
  lookup-insert_self k v m = ground (arith, eq_refl k)

  pub lookup-keep :
      (p : V → Bool) (j : String) (m : Dict V)
      → IsDict m
      → lookup j (keep p m) ≡ sift p (lookup j m)
  unfolding lookup keep
  lookup-keep p j [] h = refl
  lookup-keep p j ((i, w) ∷ m) (fresh, h) = ground (arith, eq_iff i j, lookup-keep p j m h)

  pub delete-IsDict : (k : String) (m : Dict V) → IsDict m → IsDict (delete k m)
  unfolding delete
  delete-IsDict k [] h = tt
  delete-IsDict k ((i, w) ∷ m) (fresh, h) =
      ground (arith, eq_iff i k, delete-IsDict k m h, lookup-delete k i m)

  pub insert-IsDict : (k : String) (v : V) (m : Dict V) → IsDict m → IsDict (insert k v m)
  unfolding insert
  insert-IsDict k v m h = ground (arith, eq_refl k, delete-IsDict k m h, lookup-delete k k m)

  pub keep-IsDict : (p : V → Bool) (m : Dict V) → IsDict m → IsDict (keep p m)
  unfolding keep
  keep-IsDict p [] h = tt
  keep-IsDict p ((i, w) ∷ m) (fresh, h) = ground (arith, keep-IsDict p m h, lookup-keep p i m h)

  pub length-delete-le : (k : String) (m : Dict V) → length (delete k m) ≤ length m
  unfolding delete
  length-delete-le k [] = omega arith
  length-delete-le k ((i, w) ∷ m) = ground (arith, length-delete-le k m)

  pub length-delete-lt :
      (k : String) (v : V) (m : Dict V) → lookup k m ≡ some v → length (delete k m) < length m
  unfolding lookup delete
  length-delete-lt k v [] e = ground arith
  length-delete-lt k v ((i, w) ∷ m) e = ground (arith, length-delete-lt k v m, length-delete-le k m)

  pub length-insert-le : (k : String) (v : V) (m : Dict V) → length (insert k v m) ≤ suc (length m)
  unfolding insert
  length-insert-le k v m = omega (arith, length-delete-le k m)

  pub length-keep-le : (p : V → Bool) (m : Dict V) → length (keep p m) ≤ length m
  unfolding keep
  length-keep-le p [] = omega arith
  length-keep-le p ((i, w) ∷ m) = ground (arith, length-keep-le p m)
