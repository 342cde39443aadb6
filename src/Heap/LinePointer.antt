-- ===== src/Heap/LinePointer.antt =====
-- Line pointers: crates/pg-am-heap/src/line_pointer.rs. Offset, state and length in 32 bits.
use Prim.Native.Nat.{bit_and, bit_or}
use ams.Common.{ℕ, ◌+◌, ◌*◌, ◌/◌, ◌%◌, ◌^◌, ◌<◌, ◌≡◌, refl, arith, ◌==◌, if◌then◌else◌}
use ams.Common.Bits.{bit_and-ones, bit_or_disjoint}

pub data LpFlags : Type 0 where
  unused normal redirect dead : LpFlags

-- `LpFlags as u32`.
abbrev pub flag_bits : LpFlags → ℕ
flag_bits unused = 0
flag_bits normal = 1
flag_bits redirect = 2
flag_bits dead = 3

-- `LpFlags::from_bits`
unfoldable pub flags_from_bits : ℕ → LpFlags
flags_from_bits bits =
    let masked = bit_and bits 0x3 in
    if masked == 0
    then unused
    else if masked == 1
    then normal
    else if masked == 2
    then redirect
    else dead

-- The raw 32 bits.
abbrev pub LinePointer : Type 0
LinePointer = ℕ

-- A word of 32 bits keeps its low bits under `<<`.
unfoldable pub new : ℕ → LpFlags → ℕ → LinePointer
new off flags len =
    bit_or (bit_or (bit_and off 0x7FFF) (flag_bits flags * 2 ^ 15 % 2 ^ 32)) (len * 2 ^ 17 % 2 ^ 32)

unfoldable pub off : LinePointer → ℕ
off lp = bit_and lp 0x7FFF % 2 ^ 16

unfoldable pub flags : LinePointer → LpFlags
flags lp = flags_from_bits (lp / 2 ^ 15)

unfoldable pub len : LinePointer → ℕ
len lp = lp / 2 ^ 17 % 2 ^ 16

unfoldable pub with_flags : LpFlags → LinePointer → LinePointer
with_flags f lp = new (off lp) f (len lp)

flag_bits_lt : (f : LpFlags) → flag_bits f < 4
flag_bits_lt unused = omega arith
flag_bits_lt normal = omega arith
flag_bits_lt redirect = omega arith
flag_bits_lt dead = omega arith

flags_from_bits-flag_bits : (b : ℕ) (f : LpFlags) → b % 4 ≡ flag_bits f → flags_from_bits b ≡ f
unfolding flags_from_bits
flags_from_bits-flag_bits b f h = ground (arith, bit_and-ones 2 b)

-- The three fields side by side.
new_sum :
    (o l : ℕ) (f : LpFlags)
    → o < 2 ^ 15
    → l < 2 ^ 15
    → new o f l ≡ o + flag_bits f * 2 ^ 15 + l * 2 ^ 17
unfolding new
new_sum o l f ho hl =
    let fl = flag_bits_lt f in
    let a : bit_and o 0x7FFF ≡ o = omega (arith, bit_and-ones 15 o) in
    let b : flag_bits f * 2 ^ 15 % 2 ^ 32 ≡ flag_bits f * 32768 = omega (arith, fl) in
    let c : l * 2 ^ 17 % 2 ^ 32 ≡ l * 131072 = omega arith in
    rw
      (
        a,
        b,
        c,
        bit_or_disjoint 15 o (flag_bits f) (omega arith),
        bit_or_disjoint 17 (o + flag_bits f * 32768) l (omega (arith, fl)),
      )
      refl

-- A line pointer of an offset and a length of 15 bits gives back each field that it was built from,
-- and fits in 32 bits.
pub new_lem :
    (o l : ℕ) (f : LpFlags)
    → o < 2 ^ 15
    → l < 2 ^ 15
    → (off (new o f l) ≡ o) × (flags (new o f l) ≡ f) × (len (new o f l) ≡ l) × (new o f l < 2 ^ 32)
unfolding off flags len
new_lem o l f ho hl =
    let s = new_sum o l f ho hl in
    let fl = flag_bits_lt f in
    rw s (
      omega (arith, bit_and-ones 15 (o + flag_bits f * 2 ^ 15 + l * 2 ^ 17), fl),
      flags_from_bits-flag_bits _ f (omega (arith, fl)),
      omega (arith, fl),
      omega (arith, fl),
    )

off_small : (lp : LinePointer) → off lp < 2 ^ 15
unfolding off
off_small lp = omega (arith, bit_and-ones 15 lp)

-- Replacing the state of a line pointer of 32 bits keeps its offset and its length.
pub with_flags_lem :
    (lp : LinePointer) (f : LpFlags)
    → lp < 2 ^ 32
    → (off (with_flags f lp) ≡ off lp)
      × (flags (with_flags f lp) ≡ f)
      × (len (with_flags f lp) ≡ len lp)
      × (with_flags f lp < 2 ^ 32)
unfolding with_flags
with_flags_lem lp f h = new_lem (off lp) (len lp) f (off_small lp) (unfold len in omega arith)
