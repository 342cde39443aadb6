-- ===== src/Heap/Tuple/Bitmap.antt =====
-- The null bitmap of a tuple: crates/pg-am-heap/src/tuple.rs.
use Prim.Native.Nat.{bit_and, bit_or}
use ams.Common.{
  ℕ, zero, suc, ◌+◌, ◌*◌, ◌/◌, ◌%◌, ◌^◌, ◌<◌, ◌≡◌, refl, ap, ◌∙◌, Bool, true, false, ◌||◌, not,
  Option, none, some, List, [], ◌∷◌, ◌++◌, arith, ltb, ◌==◌, if◌then◌else◌, Bool-cases, inl, inr,
}
use ams.Common.Bits.{agree_below, agree_below_sound, and_nothing}
use ams.Storage.LittleEndian.{from_le_bytes, take, skip}
use ams.Heap.Bytes.{Buffer, slice}
use ams.Heap.Tuple.{set_nulls, bit_at}
use ams.Heap.Tuple.Values.{null_at}

-- Whether the bit of a column is set in a byte.
abbrev pub has_bit : ℕ → ℕ → Bool
has_bit byte i = not (bit_and byte (bit_at i) == 0)

abbrev bit_number : Bool → ℕ
bit_number true = 1
bit_number false = 0

abbrev changed : ℕ → ℕ
changed x = bit_number (has_bit (bit_or (x / 64) (2 ^ (x / 8 % 8))) (x % 8))

abbrev expected : ℕ → ℕ
expected x = bit_number ((x / 8 % 8 == x % 8) || has_bit (x / 64) (x % 8))

abbrev fits : ℕ → ℕ
fits x = bit_number (ltb (bit_or (x / 8) (2 ^ (x % 8))) 256)

-- Setting one bit of a byte changes no other: a table over the bytes and the bits.
set_table : (x : ℕ) → x < 16384 → changed x ≡ expected x
unfolding agree_below
set_table = agree_below_sound 16384 changed expected refl

byte_table : (x : ℕ) → x < 2048 → fits x ≡ 1
unfolding agree_below
byte_table = agree_below_sound 2048 fits (λ x. 1) refl

bit_number_same : (b c : Bool) → bit_number b ≡ bit_number c → b ≡ c
bit_number_same true true h = refl
bit_number_same true false h = absurd (omega (arith, h))
bit_number_same false true h = absurd (omega (arith, h))
bit_number_same false false h = refl

set_bit :
    (b i j : ℕ) → b < 256 → has_bit (bit_or b (bit_at i)) j ≡ ((i % 8 == j % 8) || has_bit b j)
set_bit b i j h =
    let x = b * 64 + i % 8 * 8 + j % 8 in
    let byte : x / 64 ≡ b = omega arith in
    let row : x / 8 % 8 ≡ i % 8 = omega arith in
    let column : x % 8 ≡ j % 8 = omega arith in
    let small : j % 8 % 8 ≡ j % 8 = omega arith in
    let e = set_table x (omega (arith, h)) in
    bit_number_same _ _ (rw (byte, row, column, small) at e)

byte_bound : (b i : ℕ) → b < 256 → bit_or b (bit_at i) < 256
byte_bound b i h =
    let x = b * 8 + i % 8 in
    let byte : x / 8 ≡ b = omega arith in
    let column : x % 8 ≡ i % 8 = omega arith in
    let e = rw (byte, column) at (byte_table x (omega (arith, h))) in ground (arith, e)

-- One step of the loop.
abbrev set_one : ℕ → Buffer → Buffer
set_one i bitmap j = if j == i / 8 then bit_or (bitmap j) (bit_at i) else bitmap j

set_one_bound :
    (i : ℕ) (bitmap : Buffer) → ((j : ℕ) → bitmap j < 256) → (j : ℕ) → set_one i bitmap j < 256
set_one_bound i bitmap bytes j = ground (arith, bytes j, byte_bound (bitmap j) i (bytes j))

set_one_lem :
    (i j : ℕ) (bitmap : Buffer)
    → ((q : ℕ) → bitmap q < 256)
    → has_bit (set_one i bitmap (j / 8)) j ≡ ((i == j) || has_bit (bitmap (j / 8)) j)
set_one_lem i j bitmap bytes = elim (Bool-cases (j / 8 == i / 8)) [
  | inl same ↦
      let digits : (i % 8 == j % 8) ≡ (i == j) = ground (arith, same) in
      rw (same, set_bit (bitmap (j / 8)) i j (bytes (j / 8)), digits) refl
  | inr other ↦ let apart : (i == j) ≡ false = ground (arith, other) in rw (other, apart) refl
]

-- The columns that are null, numbered from one on.
abbrev null_from : {A : Type 0} → ℕ → List (Option A) → ℕ → Bool
null_from i [] j = false
null_from i (some _ ∷ values) j = null_from (i + 1) values j
null_from i (none ∷ values) j = (i == j) || null_from (i + 1) values j

null_from_low :
    {A : Type 0} (i j : ℕ) (values : List (Option A)) → j < i → null_from i values j ≡ false
null_from_low i j [] h = refl
null_from_low i j (some v ∷ values) h = null_from_low (i + 1) j values (omega (arith, h))
null_from_low i j (none ∷ values) h =
    ground (arith, null_from_low (i + 1) j values (omega (arith, h)), h)

null_from_lem :
    {A : Type 0} (i k : ℕ) (values : List (Option A))
    → null_from i values (i + k) ≡ null_at values k
null_from_lem i k [] = refl
null_from_lem i zero (some v ∷ values) = null_from_low (i + 1) (i + 0) values (omega arith)
null_from_lem i zero (none ∷ values) = ground arith
null_from_lem i (suc k) (some v ∷ values) =
    let moved : i + suc k ≡ i + 1 + k = omega arith in
    ap (null_from (i + 1) values) moved ∙ null_from_lem (i + 1) k values
null_from_lem i (suc k) (none ∷ values) =
    let moved : i + suc k ≡ i + 1 + k = omega arith in
    let next = ap (null_from (i + 1) values) moved ∙ null_from_lem (i + 1) k values in
    let apart : (i == i + suc k) ≡ false = ground arith in rw (apart, next) refl

swap_or : (a b c : Bool) → ((a || b) || c) ≡ (b || (a || c))
swap_or true true c = refl
swap_or true false c = refl
swap_or false b c = refl

-- The bits are those of the columns that are null.
set_nulls_lem :
    {A : Type 0} (i j : ℕ) (values : List (Option A)) (bitmap : Buffer)
    → ((q : ℕ) → bitmap q < 256)
    → has_bit (set_nulls i values bitmap (j / 8)) j
      ≡ (has_bit (bitmap (j / 8)) j || null_from i values j)
unfolding set_nulls
set_nulls_lem i j [] bitmap bytes = ground arith
set_nulls_lem i j (some v ∷ values) bitmap bytes = set_nulls_lem (i + 1) j values bitmap bytes
set_nulls_lem i j (none ∷ values) bitmap bytes =
    set_nulls_lem (i + 1) j values (set_one i bitmap) (set_one_bound i bitmap bytes)
    ∙ ap (λ (t : Bool). t || null_from (i + 1) values j) (set_one_lem i j bitmap bytes)
    ∙ swap_or (i == j) (has_bit (bitmap (j / 8)) j) (null_from (i + 1) values j)

empty_bit : (k : ℕ) → has_bit 0 k ≡ false
empty_bit k = ground (arith, and_nothing (bit_at k))

-- The loop from an empty bitmap sets the bits of the columns that are null.
pub set_nulls-null_at :
    {A : Type 0} (k : ℕ) (values : List (Option A))
    → has_bit (set_nulls 0 values (λ _. 0) (k / 8)) k ≡ null_at values k
set_nulls-null_at k values =
    set_nulls_lem 0 k values (λ _. 0) (λ q. omega arith)
    ∙ ap (λ (t : Bool). t || null_from 0 values k) (empty_bit k)
    ∙ ap (null_from 0 values) moved
    ∙ null_from_lem 0 k values
  where
    moved : k ≡ 0 + k
    moved = omega arith

-- A byte of a slice that stands in a list.
pub byte_of_slice :
    (n at j : ℕ) (page : Buffer) (rest : List ℕ)
    → j < n
    → from_le_bytes (take 1 (skip j (slice n at page ++ rest))) ≡ page (at + j)
byte_of_slice zero at j page rest h = absurd (omega (arith, h))
byte_of_slice (suc n) at zero page rest h = ground arith
byte_of_slice (suc n) at (suc j) page rest h =
    byte_of_slice n (at + 1) j page rest (omega (arith, h)) ∙ ap page (omega arith)
