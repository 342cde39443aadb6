-- ===== src/Storage/Types.antt =====
-- `align_up` and `Oid::FIRST_USER` of crates/pg-storage/src/types.rs on words of 64 bits, and slices of lists of bytes.
use Prim.Native.Nat.{bit_and}
use ams.Common.{
  ℕ, zero, suc, ◌+◌, ◌-◌, ◌*◌, ◌/◌, ◌^◌, ◌≤◌, ◌<◌, ◌≡◌, refl, ap, ◌∙◌, List, [], ◌∷◌, ◌++◌, length,
  arith,
}
use ams.Common.Bits.{bit_and-digit, bit_and-ones}
use ams.Storage.LittleEndian.{take, skip}

-- `Oid::FIRST_USER`.
abbrev pub first_user : ℕ
first_user = 16384

unfoldable pub align_up : ℕ → ℕ → ℕ
align_up n align = bit_and (n + align - 1) (2 ^ 64 - align)

clear_low_bits : (x : ℕ) → x < 2 ^ 64 → bit_and x (2 ^ 64 - 8) ≡ x / 8 * 8
clear_low_bits x h = omega (
  arith,
  bit_and-digit x (2 ^ 64 - 8),
  bit_and-digit (x / 2) (2 ^ 63 - 4),
  bit_and-digit (x / 2 / 2) (2 ^ 62 - 2),
  bit_and-ones 61 (x / 2 / 2 / 2),
)

-- The least multiple of 8 that is not smaller.
pub align_up_lem : (n : ℕ) → n + 7 < 2 ^ 64 → align_up n 8 ≡ (n + 7) / 8 * 8
unfolding align_up
align_up_lem n h =
    let sum : n + 8 - 1 ≡ n + 7 = omega arith in
    ap (λ (t : ℕ). bit_and t (2 ^ 64 - 8)) sum ∙ clear_low_bits (n + 7) h

-- `Vec::resize` with zeros.
unfoldable pub resize : ℕ → List ℕ → List ℕ
resize zero xs = []
resize (suc n) [] = 0 ∷ resize n []
resize (suc n) (x ∷ xs) = x ∷ resize n xs

pub length-resize : (n : ℕ) (xs : List ℕ) → length (resize n xs) ≡ n
unfolding resize
length-resize zero xs = refl
length-resize (suc n) [] = ap (λ (t : ℕ). suc t) (length-resize n [])
length-resize (suc n) (x ∷ xs) = ap (λ (t : ℕ). suc t) (length-resize n xs)

pub resize-append :
    (n m : ℕ) (xs ys : List ℕ) → n ≡ length xs + m → resize n (xs ++ ys) ≡ xs ++ resize m ys
unfolding resize
resize-append n m [] ys h = ap (λ (t : ℕ). resize t ys) (omega arith)
resize-append zero m (x ∷ xs) ys h = absurd (omega arith)
resize-append (suc n) m (x ∷ xs) ys h =
    ap (λ (t : List ℕ). x ∷ t) (resize-append n m xs ys (omega arith))

pub take-resize :
    (n : ℕ) (xs rest : List ℕ) → length xs ≤ n → take (length xs) (resize n xs ++ rest) ≡ xs
unfolding resize
take-resize n [] rest h = refl
take-resize zero (x ∷ xs) rest h = absurd (omega arith)
take-resize (suc n) (x ∷ xs) rest h =
    ap (λ (t : List ℕ). x ∷ t) (take-resize n xs rest (omega arith))

pub take-append : (n : ℕ) (xs ys : List ℕ) → length xs ≡ n → take n (xs ++ ys) ≡ xs
take-append zero [] ys h = refl
take-append zero (x ∷ xs) ys h = absurd (omega arith)
take-append (suc n) [] ys h = absurd (omega arith)
take-append (suc n) (x ∷ xs) ys h = ap (λ (t : List ℕ). x ∷ t) (take-append n xs ys (omega arith))

pub length-take : (n : ℕ) (xs : List ℕ) → n ≤ length xs → length (take n xs) ≡ n
length-take zero xs h = refl
length-take (suc n) [] h = absurd (omega arith)
length-take (suc n) (x ∷ xs) h = ap (λ (t : ℕ). suc t) (length-take n xs (omega arith))

pub take_all : (n : ℕ) (xs : List ℕ) → length xs ≤ n → take n xs ≡ xs
take_all zero [] h = refl
take_all (suc n) [] h = refl
take_all zero (x ∷ xs) h = absurd (omega arith)
take_all (suc n) (x ∷ xs) h = ap (λ (t : List ℕ). x ∷ t) (take_all n xs (omega arith))

pub skip-append : (n m : ℕ) (xs ys : List ℕ) → length xs ≡ n → skip (n + m) (xs ++ ys) ≡ skip m ys
skip-append zero m [] ys h = ap (λ (t : ℕ). skip t ys) (omega arith)
skip-append zero m (x ∷ xs) ys h = absurd (omega arith)
skip-append (suc n) m [] ys h = absurd (omega arith)
skip-append (suc n) m (x ∷ xs) ys h =
    ap (λ (t : ℕ). skip t (x ∷ (xs ++ ys))) one_more ∙ skip-append n m xs ys (omega arith)
  where
    one_more : suc n + m ≡ suc (n + m)
    one_more = omega arith

pub take-past :
    (n m : ℕ) (xs ys : List ℕ) → length xs ≡ n → take (n + m) (xs ++ ys) ≡ xs ++ take m ys
take-past zero m [] ys h = ap (λ (t : ℕ). take t ys) (omega arith)
take-past zero m (x ∷ xs) ys h = absurd (omega arith)
take-past (suc n) m [] ys h = absurd (omega arith)
take-past (suc n) m (x ∷ xs) ys h =
    ap (λ (t : ℕ). take t (x ∷ (xs ++ ys))) one_more
    ∙ ap (λ (t : List ℕ). x ∷ t) (take-past n m xs ys (omega arith))
  where
    one_more : suc n + m ≡ suc (n + m)
    one_more = omega arith

pub length-skip : (n : ℕ) (xs : List ℕ) → length (skip n xs) ≡ length xs - n
length-skip zero xs = omega arith
length-skip (suc n) [] = omega arith
length-skip (suc n) (x ∷ xs) = omega (arith, length-skip n xs)

pub skip-length : (xs ys : List ℕ) → skip (length xs) (xs ++ ys) ≡ ys
skip-length [] ys = refl
skip-length (x ∷ xs) ys = skip-length xs ys
