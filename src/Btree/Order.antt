-- ===== src/Btree/Order.antt =====
-- Big-endian bytes, the order of strings of bytes, and the top bit of a word: what the keys of
-- crates/pg-am-btree/src/key.rs are made of.
use Prim.Native.Nat.{bit_xor, bit_xor-bitwise, differ}
use ams.Common.{
  ℕ, zero, suc, ◌+◌, ◌*◌, ◌/◌, ◌%◌, ◌≤◌, ◌<◌, ◌≡◌, refl, ap, ◌⊎◌, inl, inr, Bool, true, false, List,
  [], ◌∷◌, length, arith, ltb, ◌==◌, if◌then◌else◌,
}
use native.Mathlib.Nat.{mod-lt, div-lt_iff_lt-mul, div-add-mod'}
use ams.Common.Bits.{lowest_digit, two_to}
use ams.Storage.LittleEndian.{values_of}

-- `Ord` on `[u8]`: lexicographic, the shorter one first.
unfoldable pub lex_less : List ℕ → List ℕ → Bool
lex_less [] [] = false
lex_less [] (y ∷ ys) = true
lex_less (x ∷ xs) [] = false
lex_less (x ∷ xs) (y ∷ ys) =
    let rest = lex_less xs ys in if ltb x y then true else if x == y then rest else false

-- `to_be_bytes` and `from_be_bytes` of an integer of a number of bytes.
unfoldable pub to_be_bytes : ℕ → ℕ → List ℕ
to_be_bytes zero v = []
to_be_bytes (suc n) v = v / values_of n % 256 ∷ to_be_bytes n (v % values_of n)

unfoldable pub from_be_bytes : List ℕ → ℕ
from_be_bytes [] = 0
from_be_bytes (b ∷ bytes) = b * values_of (length bytes) + from_be_bytes bytes

pub length-to_be_bytes : (n v : ℕ) → length (to_be_bytes n v) ≡ n
unfolding to_be_bytes
length-to_be_bytes zero v = refl
length-to_be_bytes (suc n) v = ap (λ (t : ℕ). suc t) (length-to_be_bytes n (v % values_of n))

values_of_pos : (n : ℕ) → 0 < values_of n
values_of_pos zero = omega arith
values_of_pos (suc n) = omega (arith, values_of_pos n)

-- The highest byte and the rest of a number.
module _ (V v : ℕ) (pos : 0 < V) (small : v < 256 * V) where
  top_small : v / V < 256
  top_small = (div-lt_iff_lt-mul {k = V} {x = v} {y = 256} pos).1 small

  top_byte : v / V % 256 ≡ v / V
  top_byte = omega (arith, top_small)

  rest_small : v % V < V
  rest_small = mod-lt v pos

pub from_be_bytes-to_be_bytes : (n v : ℕ) → v < values_of n → from_be_bytes (to_be_bytes n v) ≡ v
unfolding to_be_bytes from_be_bytes
from_be_bytes-to_be_bytes zero v h = omega arith
from_be_bytes-to_be_bytes (suc n) v h =
    let V = values_of n in
    let pos = values_of_pos n in
    let rest = from_be_bytes-to_be_bytes n (v % V) (rest_small V v pos h) in
    rw (length-to_be_bytes n (v % V), rest, top_byte V v pos h) (div-add-mod' v V)

higher : (V q p r s : ℕ) → q < p → r < V → q * V + r < p * V + s
higher V q p r s h hr = grind arith

higher_byte : (V a b : ℕ) → 0 < V → a / V < b / V → a < b
higher_byte V a b pos h = omega (
  arith,
  higher V (a / V) (b / V) (a % V) (b % V) h (mod-lt a pos),
  div-add-mod' a V,
  div-add-mod' b V,
)

same_byte : (V a b : ℕ) → a / V ≡ b / V → ltb (a % V) (b % V) ≡ ltb a b
same_byte V a b h =
    let product : a / V * V ≡ b / V * V = ap (λ (t : ℕ). t * V) h in
    ground (arith, product, div-add-mod' a V, div-add-mod' b V)

-- Numbers of the same width are in the order of their big-endian bytes.
pub lex_less-to_be_bytes :
    (n a b : ℕ)
    → a < values_of n
    → b < values_of n
    → lex_less (to_be_bytes n a) (to_be_bytes n b) ≡ ltb a b
unfolding lex_less to_be_bytes
lex_less-to_be_bytes zero a b ha hb = ground arith
lex_less-to_be_bytes (suc n) a b ha hb =
    let V = values_of n in
    let pos = values_of_pos n in
    let rest =
      lex_less-to_be_bytes n (a % V) (b % V) (rest_small V a pos ha) (rest_small V b pos hb) in
    rw (top_byte V a pos ha, top_byte V b pos hb, rest)
      (elim (order (a / V) (b / V)) [
        | inl less ↦ let lt = higher_byte V a b pos less in ground (arith, lt, less)
        | inr (inl same) ↦ let eq = same_byte V a b same in ground (arith, eq, same)
        | inr (inr more) ↦ let gt = higher_byte V b a pos more in ground (arith, gt, more)
      ])
  where
    order : (x y : ℕ) → (x < y) ⊎ (x ≡ y) ⊎ (y < x)
    order x y = omega arith

digit_xor : (x y : ℕ) → x < 2 → y < 2 → differ x y ≡ (x + y) % 2
digit_xor zero y hx hy = omega arith
digit_xor (suc zero) zero hx hy = refl
digit_xor (suc zero) (suc zero) hx hy = refl
digit_xor (suc zero) (suc (suc y)) hx hy = absurd (omega arith)
digit_xor (suc (suc x)) y hx hy = absurd (omega arith)

xor_nothing : (b : ℕ) → bit_xor 0 b ≡ b
xor_nothing b = bit_xor-bitwise 0 b

pub bit_xor-digit : (a b : ℕ) → bit_xor a b ≡ bit_xor (a / 2) (b / 2) * 2 + (a % 2 + b % 2) % 2
bit_xor-digit zero b = omega (arith, xor_nothing b, xor_nothing (b / 2))
bit_xor-digit (suc a) b =
    let step : bit_xor (suc a) b ≡ bit_xor (suc a / 2) (b / 2) * 2 + differ (suc a % 2) (b % 2) =
      rw (bit_xor-bitwise (suc a) b, bit_xor-bitwise (suc a / 2) (b / 2))
        (lowest_digit (λ y. y) differ a b) in
    omega (arith, step, digit_xor (suc a % 2) (b % 2) (omega arith) (omega arith))

-- Flipping the top bit of a word exchanges its halves.
pub flip_top :
    (n v : ℕ)
    → v < 2 * two_to n
    → (v < two_to n) × (bit_xor v (two_to n) ≡ v + two_to n)
      ⊎ (two_to n ≤ v) × (bit_xor v (two_to n) + two_to n ≡ v)
flip_top zero zero h = inl (omega arith, refl)
flip_top zero (suc zero) h = inr (omega arith, refl)
flip_top zero (suc (suc v)) h = absurd (omega arith)
flip_top (suc n) v h =
    let half : 2 * two_to n / 2 ≡ two_to n = omega arith in
    let step = bit_xor-digit v (2 * two_to n) in
    omega (arith, step, ap (bit_xor (v / 2)) half, flip_top n (v / 2) (omega arith))
