-- ===== src/Storage/LittleEndian.antt =====
-- `to_le_bytes` and `from_le_bytes` of an integer of a number of bytes, as lists, and slices of lists.
use ams.Common.{
  ℕ, zero, suc, ◌+◌, ◌*◌, ◌/◌, ◌%◌, ◌<◌, ◌≡◌, refl, ap, List, [], ◌∷◌, ◌++◌, length, arith,
}

-- How many values fit in a number of bytes.
abbrev pub values_of : ℕ → ℕ
values_of zero = 1
values_of (suc n) = 256 * values_of n

abbrev pub to_le_bytes : ℕ → ℕ → List ℕ
to_le_bytes zero v = []
to_le_bytes (suc n) v = v % 256 ∷ to_le_bytes n (v / 256)

abbrev pub from_le_bytes : List ℕ → ℕ
from_le_bytes [] = 0
from_le_bytes (b ∷ bytes) = b + from_le_bytes bytes * 256

module _ {ℓ} {A : Type ℓ} where
  abbrev pub take : ℕ → List A → List A
  take zero xs = []
  take (suc n) [] = []
  take (suc n) (x ∷ xs) = x ∷ take n xs

  abbrev pub skip : ℕ → List A → List A
  skip zero xs = xs
  skip (suc n) [] = []
  skip (suc n) (x ∷ xs) = skip n xs

pub from_le_bytes-to_le_bytes : (n v : ℕ) → v < values_of n → from_le_bytes (to_le_bytes n v) ≡ v
from_le_bytes-to_le_bytes zero v h = omega arith
from_le_bytes-to_le_bytes (suc n) v h =
    omega (arith, from_le_bytes-to_le_bytes n (v / 256) (omega arith))

pub length-to_le_bytes : (n v : ℕ) → length (to_le_bytes n v) ≡ n
length-to_le_bytes zero v = refl
length-to_le_bytes (suc n) v = ap (λ (t : ℕ). suc t) (length-to_le_bytes n (v / 256))

pub take-to_le_bytes :
    (n v : ℕ) (rest : List ℕ) → take n (to_le_bytes n v ++ rest) ≡ to_le_bytes n v
take-to_le_bytes zero v rest = refl
take-to_le_bytes (suc n) v rest =
    ap (λ (t : List ℕ). v % 256 ∷ t) (take-to_le_bytes n (v / 256) rest)

pub skip-to_le_bytes : (n v : ℕ) (rest : List ℕ) → skip n (to_le_bytes n v ++ rest) ≡ rest
skip-to_le_bytes zero v rest = refl
skip-to_le_bytes (suc n) v rest = skip-to_le_bytes n (v / 256) rest
