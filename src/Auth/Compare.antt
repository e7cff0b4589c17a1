-- ===== src/Auth/Compare.antt =====
-- `constantTimeEqual` of internal/auth/broker.go, with the loop of `subtle.ConstantTimeCompare` on
-- the bytes of the two texts.
use Prim.Native.Nat.{◌/◌, ◌%◌, bit_or, bit_xor}
use Prim.Native.Char.{code}
use jimu_studio.Base.{ℕ, ◌+◌, String, len, Bool, false, not, List, [], ◌∷◌, ltb, eqb, if◌then◌else◌}
use jimu_studio.Base.Lists.{length}

-- The UTF-8 of a character before further bytes.
abbrev pub encode : ℕ → List ℕ → List ℕ
encode n rest =
    if ltb n 128
    then n ∷ rest
    else if ltb n 2048
    then (192 + n / 64) ∷ (128 + n % 64) ∷ rest
    else if ltb n 65536
    then (224 + n / 64 / 64) ∷ (128 + n / 64 % 64) ∷ (128 + n % 64) ∷ rest
    else (240 + n / 64 / 64 / 64)
      ∷ (128 + n / 64 / 64 % 64)
      ∷ (128 + n / 64 % 64)
      ∷ (128 + n % 64)
      ∷ rest

-- The conversion `[]byte(text)`.
unfoldable pub bytes : String → List ℕ
bytes String.[] = []
bytes (String.◌∷◌ c s) = encode (code c) (bytes s)

-- The loop `v |= x[i] ^ y[i]`.
unfoldable pub difference : ℕ → List ℕ → List ℕ → ℕ
difference v (x ∷ xs) (y ∷ ys) = difference (bit_or v (bit_xor x y)) xs ys
difference v _ _ = v

unfoldable pub constant_time_compare : List ℕ → List ℕ → ℕ
unfolding difference
constant_time_compare xs ys =
    if not (eqb (length xs) (length ys)) then 0 else if eqb (difference 0 xs ys) 0 then 1 else 0

unfoldable pub constant_time_equal : String → String → Bool
unfolding constant_time_compare bytes
constant_time_equal left right =
    if not (eqb (len left) (len right))
    then false
    else eqb (constant_time_compare (bytes left) (bytes right)) 1
