-- ===== src/Common/Bits.antt =====
-- Masks and shifts as arithmetic. A fact on few bits is a table, checked by evaluation; on words of
-- any width a fact goes by the lowest binary digit.
use Prim.Native.Nat.{
  ℕ, zero, suc, ◌+◌, ◌*◌, ◌/◌, ◌%◌, ◌≤◌, ◌<◌, min, max, bit_and, bit_or, digits, bitwise,
  bit_and-bitwise, bit_or-bitwise,
}
use mathlib.Core.Path.{◌≡◌, refl, sym, ap, ◌∙◌}
use mathlib.Core.Bool.{Bool, true, ◌&&◌}
use mathlib.Core.Logic.{◌⊎◌, inl, inr}
use native.Mathlib.Omega.{arith}
use ams.Common.Tests.{◌==◌}

-- Two functions agree at every argument below a bound.
unfoldable pub agree_below : ℕ → (ℕ → ℕ) → (ℕ → ℕ) → Bool
agree_below zero f g = true
agree_below (suc bound) f g = (f bound == g bound) && agree_below bound f g

pub agree_below_sound :
    (bound : ℕ) (f g : ℕ → ℕ) → agree_below bound f g ≡ true → (x : ℕ) → x < bound → f x ≡ g x
unfolding agree_below
agree_below_sound zero f g table x inside = absurd (omega arith)
agree_below_sound (suc bound) f g table x inside =
    let rest = agree_below_sound bound f g in
    let last : (f bound == g bound) ≡ true = ground arith in
    let below : agree_below bound f g ≡ true = ground arith in grind (arith, last, rest below x)

-- What holds at zero, and at a number if it holds at its half.
by_halves {ℓ} :
    (P : ℕ → Type ℓ) → P 0 → ((a : ℕ) → P (suc a / 2) → P (suc a)) → (n a : ℕ) → a ≤ n → P a
by_halves P base step n zero h = base
by_halves P base step zero (suc a) h = absurd (omega arith)
by_halves P base step (suc n) (suc a) h = step a (by_halves P base step n (suc a / 2) (omega arith))

-- The binary operations are recursions on digits with the first argument as fuel; more fuel than
-- that changes nothing.
module _ (z : ℕ → ℕ) (f : ℕ → ℕ → ℕ) where
  one_more : (n a b : ℕ) → a ≤ n → digits z f (suc n) a b ≡ digits z f n a b
  one_more zero zero b h = refl
  one_more zero (suc a) b h = absurd (omega arith)
  one_more (suc n) zero b h = refl
  one_more (suc n) (suc a) b h =
      ap (λ (t : ℕ). t * 2 + f (suc a % 2) (b % 2)) (one_more n (suc a / 2) (b / 2) (omega arith))

  own_fuel : (n a b : ℕ) → a ≤ n → digits z f n a b ≡ digits z f a a b
  own_fuel zero zero b h = refl
  own_fuel zero (suc a) b h = absurd (omega arith)
  own_fuel (suc n) a b h = elim (reached a n h) [
    | inl below ↦ one_more n a b below ∙ own_fuel n a b below
    | inr top ↦ ap (λ (t : ℕ). digits z f t a b) (sym top)
  ]
    where
      reached : (a n : ℕ) → a ≤ suc n → (a ≤ n) ⊎ (a ≡ suc n)
      reached a n h = omega arith

  pub lowest_digit :
      (a b : ℕ)
      → bitwise z f (suc a) b ≡ bitwise z f (suc a / 2) (b / 2) * 2 + f (suc a % 2) (b % 2)
  lowest_digit a b =
      ap (λ (t : ℕ). t * 2 + f (suc a % 2) (b % 2)) (own_fuel a (suc a / 2) (b / 2) (omega arith))

pub and_nothing : (b : ℕ) → bit_and 0 b ≡ 0
and_nothing b = bit_and-bitwise 0 b

pub bit_and-digit : (a b : ℕ) → bit_and a b ≡ bit_and (a / 2) (b / 2) * 2 + min (a % 2) (b % 2)
bit_and-digit zero b = omega (arith, and_nothing b, and_nothing (b / 2))
bit_and-digit (suc a) b =
    rw (bit_and-bitwise (suc a) b, bit_and-bitwise (suc a / 2) (b / 2))
      (lowest_digit (λ _. 0) min a b)

pub bit_and-zero : (a : ℕ) → bit_and a 0 ≡ 0
bit_and-zero a =
    by_halves (λ n. bit_and n 0 ≡ 0) refl (λ n ih. omega (arith, bit_and-digit (suc n) 0, ih)) a a
      (omega arith)

pub bit_and-one : (a : ℕ) → bit_and a 1 ≡ a % 2
bit_and-one a = ground (arith, bit_and-digit a 1, bit_and-zero (a / 2))

pub mod_double : (a k : ℕ) → 0 < k → a / 2 % k * 2 + a % 2 ≡ a % (2 * k)
mod_double a k pos = grind arith

-- A mask of ones is the remainder by a power of two: one more digit.
ones_step :
    (k mask a : ℕ)
    → ((b : ℕ) → bit_and b mask ≡ b % k)
    → 0 < k
    → bit_and a (2 * mask + 1) ≡ a % (2 * k)
ones_step k mask a ih pos = omega (
  arith,
  bit_and-digit a (2 * mask + 1),
  ih (a / 2),
  mod_double a k pos,
  ap (bit_and (a / 2)) halved,
)
  where
    halved : (2 * mask + 1) / 2 ≡ mask
    halved = omega arith

-- 2 ^ n - 1, digit by digit.
abbrev pub ones : ℕ → ℕ
ones zero = 0
ones (suc n) = 2 * ones n + 1

abbrev pub two_to : ℕ → ℕ
two_to zero = 1
two_to (suc n) = 2 * two_to n

pub two_to_pos : (n : ℕ) → 0 < two_to n
two_to_pos zero = omega arith
two_to_pos (suc n) = omega (arith, two_to_pos n)

pub bit_and-ones : (n a : ℕ) → bit_and a (ones n) ≡ a % two_to n
bit_and-ones zero a = omega (arith, bit_and-zero a)
bit_and-ones (suc n) a = ones_step (two_to n) (ones n) a (bit_and-ones n) (two_to_pos n)

pub or_nothing : (b : ℕ) → bit_or 0 b ≡ b
or_nothing b = bit_or-bitwise 0 b

pub bit_or-digit : (a b : ℕ) → bit_or a b ≡ bit_or (a / 2) (b / 2) * 2 + max (a % 2) (b % 2)
bit_or-digit zero b = omega (arith, or_nothing b, or_nothing (b / 2))
bit_or-digit (suc a) b =
    rw (bit_or-bitwise (suc a) b, bit_or-bitwise (suc a / 2) (b / 2))
      (lowest_digit (λ y. y) max a b)

pub bit_or-zero : (a : ℕ) → bit_or a 0 ≡ a
bit_or-zero a =
    by_halves (λ n. bit_or n 0 ≡ n) refl (λ n ih. omega (arith, ih, bit_or-digit (suc n) 0)) a a
      (omega arith)

-- Fields that do not overlap are added by `|`.
pub bit_or_disjoint : (n a b : ℕ) → a < two_to n → bit_or a (b * two_to n) ≡ a + b * two_to n
bit_or_disjoint zero a b h =
    let none_low : a ≡ 0 = omega arith in
    omega (arith, or_nothing (b * 1), ap (λ (t : ℕ). bit_or t (b * 1)) none_low)
bit_or_disjoint (suc n) a b h =
    let halved : b * (2 * two_to n) / 2 ≡ b * two_to n = omega arith in
    omega (
      arith,
      bit_or-digit a (b * (2 * two_to n)),
      ap (bit_or (a / 2)) halved,
      bit_or_disjoint n (a / 2) b (omega arith),
    )

pub bit_or_comm : (a b : ℕ) → bit_or a b ≡ bit_or b a
bit_or_comm a b =
    by_halves (λ n. (b : ℕ) → bit_or n b ≡ bit_or b n) left_zero swapped a a (omega arith) b
  where
    right_zero : (b : ℕ) → bit_or b 0 ≡ b
    right_zero b =
        by_halves (λ n. bit_or n 0 ≡ n) refl (λ n ih. omega (arith, bit_or-digit (suc n) 0, ih)) b b
          (omega arith)

    left_zero : (b : ℕ) → bit_or 0 b ≡ bit_or b 0
    left_zero b = omega (arith, or_nothing b, right_zero b)

    swapped :
        (n : ℕ)
        → ((b : ℕ) → bit_or (suc n / 2) b ≡ bit_or b (suc n / 2))
        → (b : ℕ) → bit_or (suc n) b ≡ bit_or b (suc n)
    swapped n ih b = omega (arith, bit_or-digit (suc n) b, bit_or-digit b (suc n), ih (b / 2))
