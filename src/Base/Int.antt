-- ===== src/Base/Int.antt =====
-- Go's int64 and int as integers, with the wrap-around of `++`, and the tests on them.
use Prim.Native.Nat.{ℕ, ◌+◌, ◌-◌, ◌^◌}
use mathlib.Core.Path.{◌≡◌}
use mathlib.Core.Logic.{◌≢◌, ◌↔◌}
use mathlib.Core.Bool.{Bool, true, false}
use native.Mathlib.Omega.{arith}
use jimu_studio.Base.Tests.{eqb, leb, ltb, if◌then◌else◌}

-- `negsuc n` is -(n + 1).
pub data ℤ : Type 0 where
  pos : ℕ → ℤ
  negsuc : ℕ → ℤ

abbrev pub eqb_ℤ : ℤ → ℤ → Bool
eqb_ℤ (pos m) (pos n) = eqb m n
eqb_ℤ (negsuc m) (negsuc n) = eqb m n
eqb_ℤ _ _ = false

abbrev pub leb_ℤ : ℤ → ℤ → Bool
leb_ℤ (pos m) (pos n) = leb m n
leb_ℤ (pos m) (negsuc n) = false
leb_ℤ (negsuc m) (pos n) = true
leb_ℤ (negsuc m) (negsuc n) = leb n m

abbrev pub ltb_ℤ : ℤ → ℤ → Bool
ltb_ℤ (pos m) (pos n) = ltb m n
ltb_ℤ (pos m) (negsuc n) = false
ltb_ℤ (negsuc m) (pos n) = true
ltb_ℤ (negsuc m) (negsuc n) = ltb n m

-- The largest int64.
abbrev pub max_int64 : ℕ
max_int64 = 2 ^ 63 - 1

-- `x++` on an int64.
unfoldable pub incr : ℤ → ℤ
incr (pos n) = if eqb n max_int64 then negsuc max_int64 else pos (n + 1)
incr (negsuc n) = if eqb n 0 then pos 0 else negsuc (n - 1)

pub eqb_ℤ_iff : (a b : ℤ) → (eqb_ℤ a b ≡ true) ↔ (a ≡ b)
eqb_ℤ_iff (pos m) (pos n) = (λ h. ground arith, λ h. ground arith)
eqb_ℤ_iff (pos m) (negsuc n) = (λ h. ground arith, λ h. ground arith)
eqb_ℤ_iff (negsuc m) (pos n) = (λ h. ground arith, λ h. ground arith)
eqb_ℤ_iff (negsuc m) (negsuc n) = (λ h. ground arith, λ h. ground arith)

-- Also where it wraps, an increment gives another number.
pub incr-ne : (a : ℤ) → incr a ≢ a
unfolding incr
incr-ne (pos n) = ground arith
incr-ne (negsuc n) = ground arith

pub eqb_ℤ-incr : (a : ℤ) → eqb_ℤ (incr a) a ≡ false
unfolding incr
eqb_ℤ-incr (pos n) = ground arith
eqb_ℤ-incr (negsuc n) = ground arith
