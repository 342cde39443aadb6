-- ===== src/Common/Masks.antt =====
-- `&` and `|` by the parts of a number: the digits below a power of two, and those above.
use Prim.Native.Nat.{ℕ, zero, suc, ◌+◌, ◌*◌, ◌/◌, ◌%◌, ◌<◌, bit_and, bit_or, min, max}
use mathlib.Core.Path.{◌≡◌, sym, ap, ◌∙◌}
use native.Mathlib.Omega.{arith}
use ams.Common.Bits.{two_to, two_to_pos, and_nothing, bit_and-digit, bit_or-digit}

-- A mask above a number.
pub bit_and_above : (n a m : ℕ) → a < two_to n → bit_and a (m * two_to n) ≡ 0
bit_and_above zero a m h = let nothing : a ≡ 0 = omega arith in rw nothing (and_nothing (m * 1))
bit_and_above (suc n) a m h =
    let halved : m * (2 * two_to n) / 2 ≡ m * two_to n = omega arith in
    omega (
      arith,
      bit_and-digit a (m * (2 * two_to n)),
      bit_and_above n (a / 2) m (omega arith),
      ap (λ (t : ℕ). bit_and (a / 2) t) halved,
    )

half_mod : (a t : ℕ) → 0 < t → a % (2 * t) ≡ a / 2 % t * 2 + a % 2
half_mod a t pos = grind arith

half_div : (a t : ℕ) → 0 < t → a / (2 * t) ≡ a / 2 / t
half_div a t pos = grind arith

module _ (f : ℕ → ℕ → ℕ) (digit : ℕ → ℕ → ℕ)
    (law : (a b : ℕ) → f a b ≡ f (a / 2) (b / 2) * 2 + digit (a % 2) (b % 2))
    (bound : (a b : ℕ) → digit (a % 2) (b % 2) < 2) where
  halves : (a b : ℕ) → (f a b / 2 ≡ f (a / 2) (b / 2)) × (f a b % 2 ≡ digit (a % 2) (b % 2))
  halves a b = omega (arith, law a b, bound a b)

  one_step :
      (t : ℕ)
      → 0 < t
      → (a b : ℕ) → f a b % (2 * t) ≡ f (a / 2) (b / 2) % t * 2 + digit (a % 2) (b % 2)
  one_step t pos a b = rw ((halves a b).0, (halves a b).1) at (half_mod (f a b) t pos)

  low_digits : (n a b : ℕ) → f a b % two_to n ≡ f (a % two_to n) (b % two_to n) % two_to n
  low_digits zero a b = omega arith
  low_digits (suc n) a b =
      let t = two_to n in
      let pos = two_to_pos n in
      let x : a % (2 * t) / 2 ≡ a / 2 % t = omega (arith, half_mod a t pos) in
      let x' : a % (2 * t) % 2 ≡ a % 2 = omega (arith, half_mod a t pos) in
      let y : b % (2 * t) / 2 ≡ b / 2 % t = omega (arith, half_mod b t pos) in
      let y' : b % (2 * t) % 2 ≡ b % 2 = omega (arith, half_mod b t pos) in
      one_step t pos a b
      ∙ ap (λ (u : ℕ). u * 2 + digit (a % 2) (b % 2)) (low_digits n (a / 2) (b / 2))
      ∙ sym (rw (x, x', y, y') at (one_step t pos (a % (2 * t)) (b % (2 * t))))

  high_digits : (n a b : ℕ) → f a b / two_to n ≡ f (a / two_to n) (b / two_to n)
  high_digits zero a b =
      let x : a / 1 ≡ a = omega arith in let y : b / 1 ≡ b = omega arith in rw (x, y) (omega arith)
  high_digits (suc n) a b =
      let pos = two_to_pos n in
      half_div (f a b) (two_to n) pos
      ∙ ap (λ (t : ℕ). t / two_to n) (halves a b).0
      ∙ high_digits n (a / 2) (b / 2)
      ∙ ap (λ (t : ℕ). f t (b / 2 / two_to n)) (sym (half_div a (two_to n) pos))
      ∙ ap (λ (t : ℕ). f (a / (2 * two_to n)) t) (sym (half_div b (two_to n) pos))

max_bound : (a b : ℕ) → max (a % 2) (b % 2) < 2
max_bound a b = omega arith

min_bound : (a b : ℕ) → min (a % 2) (b % 2) < 2
min_bound a b = omega arith

pub bit_or_low :
    (n a b : ℕ) → bit_or a b % two_to n ≡ bit_or (a % two_to n) (b % two_to n) % two_to n
bit_or_low = low_digits bit_or max bit_or-digit max_bound

pub bit_or_high : (n a b : ℕ) → bit_or a b / two_to n ≡ bit_or (a / two_to n) (b / two_to n)
bit_or_high = high_digits bit_or max bit_or-digit max_bound

pub bit_and_low :
    (n a b : ℕ) → bit_and a b % two_to n ≡ bit_and (a % two_to n) (b % two_to n) % two_to n
bit_and_low = low_digits bit_and min bit_and-digit min_bound

pub bit_and_high : (n a b : ℕ) → bit_and a b / two_to n ≡ bit_and (a / two_to n) (b / two_to n)
bit_and_high = high_digits bit_and min bit_and-digit min_bound
