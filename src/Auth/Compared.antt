-- ===== src/Auth/Compared.antt =====
-- internal/auth/broker.go: what the comparison in constant time tells apart.
use Prim.Native.Nat.{
  zero, ◌/◌, ◌%◌, ◌≤◌, max, bit_or, bit_xor, digits, differ, bit_or-bitwise, bit_xor-bitwise,
}
use Prim.Native.Char.{code}
use text.Mathlib.TextEquality.{Char-path}
use jimu_studio.Base.{ℕ, suc, String, true, List, [], ◌∷◌, ◌≡◌, refl, arith, eqb}
use jimu_studio.Base.Lists.{length}
use jimu_studio.Auth.Compare.{encode, bytes, difference, constant_time_compare, constant_time_equal}

digits_or-zero : (n a b : ℕ) → a ≤ n → digits (λ b. b) max n a b ≡ 0 → (a ≡ 0) × (b ≡ 0)
digits_or-zero zero zero b h e = (refl, e)
digits_or-zero zero (suc a) b h e = absurd (omega arith)
digits_or-zero (suc n) zero b h e = (refl, e)
digits_or-zero (suc n) (suc a) b h e =
    let (halves, rest) = digits_or-zero n (suc a / 2) (b / 2) (omega arith) (omega (arith, e)) in
    absurd (omega (arith, e, halves))

bit_or-zero : (a b : ℕ) → bit_or a b ≡ 0 → (a ≡ 0) × (b ≡ 0)
bit_or-zero a b e = digits_or-zero a a b (omega arith) (omega (arith, e, bit_or-bitwise a b))

differ-zero : (x y : ℕ) → differ x y ≡ 0 → x ≡ y
differ-zero zero y e = omega (arith, e)
differ-zero (suc x) zero e = e
differ-zero (suc x) (suc y) e = omega (arith, differ-zero x y e)

differ_self : (x : ℕ) → differ x x ≡ 0
differ_self zero = refl
differ_self (suc x) = differ_self x

digits_xor-zero : (n a b : ℕ) → a ≤ n → digits (λ b. b) differ n a b ≡ 0 → a ≡ b
digits_xor-zero zero zero b h e = omega (arith, e)
digits_xor-zero zero (suc a) b h e = absurd (omega arith)
digits_xor-zero (suc n) zero b h e = omega (arith, e)
digits_xor-zero (suc n) (suc a) b h e = omega (
  arith,
  digits_xor-zero n (suc a / 2) (b / 2) (omega arith) (omega (arith, e)),
  differ-zero (suc a % 2) (b % 2) (omega (arith, e)),
)

bit_xor-zero : (a b : ℕ) → bit_xor a b ≡ 0 → a ≡ b
bit_xor-zero a b e = digits_xor-zero a a b (omega arith) (omega (arith, e, bit_xor-bitwise a b))

digits_xor_self : (n a : ℕ) → a ≤ n → digits (λ b. b) differ n a a ≡ 0
digits_xor_self zero zero h = refl
digits_xor_self zero (suc a) h = absurd (omega arith)
digits_xor_self (suc n) zero h = refl
digits_xor_self (suc n) (suc a) h =
    omega (arith, digits_xor_self n (suc a / 2) (omega arith), differ_self (suc a % 2))

bit_xor_self : (a : ℕ) → bit_xor a a ≡ 0
bit_xor_self a = omega (arith, bit_xor-bitwise a a, digits_xor_self a a (omega arith))

-- The loop ends in 0 just where it has met no difference.
difference-zero :
    (v : ℕ) (xs ys : List ℕ)
    → eqb (length xs) (length ys) ≡ true
    → difference v xs ys ≡ 0
    → (v ≡ 0) × (xs ≡ ys)
unfolding difference
difference-zero v [] [] same e = (e, refl)
difference-zero v [] (y ∷ ys) same e = absurd (ground arith)
difference-zero v (x ∷ xs) [] same e = absurd (ground arith)
difference-zero v (x ∷ xs) (y ∷ ys) same e =
    let (met, rest) = difference-zero (bit_or v (bit_xor x y)) xs ys (ground arith) e in
    let (before, here) = bit_or-zero v (bit_xor x y) met in
    let head = bit_xor-zero x y here in (before, cc)

difference_self : (xs : List ℕ) → difference 0 xs xs ≡ 0
unfolding difference
difference_self [] = refl
difference_self (x ∷ xs) = rw (bit_xor_self x) (difference_self xs)

encode_inj : (n m : ℕ) (xs ys : List ℕ) → encode n xs ≡ encode m ys → (n ≡ m) × (xs ≡ ys)
encode_inj n m xs ys e = ground arith

bytes_inj : (s t : String) → bytes s ≡ bytes t → s ≡ t
unfolding bytes
bytes_inj String.[] String.[] e = refl
bytes_inj String.[] (String.◌∷◌ d t) e = absurd (ground arith)
bytes_inj (String.◌∷◌ c s) String.[] e = absurd (ground arith)
bytes_inj (String.◌∷◌ c s) (String.◌∷◌ d t) e =
    let (same, rest) = encode_inj (code c) (code d) (bytes s) (bytes t) e in
    let head = Char-path c d same in let tail = bytes_inj s t rest in cc

pub constant_time_equal_sound : (s t : String) → constant_time_equal s t ≡ true → s ≡ t
unfolding constant_time_equal constant_time_compare
constant_time_equal_sound s t h =
    let compared : constant_time_compare (bytes s) (bytes t) ≡ 1 = ground arith in
    bytes_inj s t (difference-zero 0 (bytes s) (bytes t) (ground arith) (ground arith)).1

pub constant_time_equal_self : (s : String) → constant_time_equal s s ≡ true
unfolding constant_time_equal constant_time_compare
constant_time_equal_self s = ground (arith, difference_self (bytes s))
