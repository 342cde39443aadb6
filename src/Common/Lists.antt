-- ===== src/Common/Lists.antt =====
-- Lists measured by native numbers, membership of a number, and predicates by recursion.
use Prim.Native.Nat.{ℕ, suc, ◌+◌}
use mathlib.Core.Path.{ap, refl, ◌≡◌}
use mathlib.Core.Bool.{Bool, false, ◌||◌}
use mathlib.Core.List.{List, [], ◌∷◌, ◌++◌}
use native.Mathlib.Omega.{arith}
use ams.Common.Tests.{◌==◌, if◌then◌else◌}

module _ {ℓ} {A : Type ℓ} where
  abbrev pub length : List A → ℕ
  length [] = 0
  length (x ∷ xs) = suc (length xs)

  pub append_assoc : (xs ys zs : List A) → (xs ++ ys) ++ zs ≡ xs ++ (ys ++ zs)
  append_assoc [] ys zs = refl
  append_assoc (x ∷ xs) ys zs = ap (λ (t : List A). x ∷ t) (append_assoc xs ys zs)

  pub length-append : (xs ys : List A) → length (xs ++ ys) ≡ length xs + length ys
  length-append [] ys = omega arith
  length-append (x ∷ xs) ys = omega (arith, length-append xs ys)

  abbrev pub All {κ} : (A → Type κ) → List A → Type κ
  All P [] = Unit {κ}
  All P (x ∷ xs) = P x × All P xs

  pub All-append {κ} : (P : A → Type κ) (xs ys : List A) → All P xs → All P ys → All P (xs ++ ys)
  All-append P [] ys hx hy = hy
  All-append P (x ∷ xs) ys hx hy = (hx.0, All-append P xs ys hx.1 hy)

  -- `Iterator::filter`, and `retain` on a vector or a deque.
  abbrev pub retain : (A → Bool) → List A → List A
  retain p [] = []
  retain p (x ∷ xs) = let rest = retain p xs in if p x then x ∷ rest else rest

-- `contains` of a slice or a set of ids.
abbrev pub contains : ℕ → List ℕ → Bool
contains a [] = false
contains a (x ∷ xs) = x == a || contains a xs

-- `HashSet::insert` and `HashSet::remove`.
abbrev pub set_insert : ℕ → List ℕ → List ℕ
set_insert a xs = if contains a xs then xs else a ∷ xs

abbrev pub set_remove : ℕ → List ℕ → List ℕ
set_remove a [] = []
set_remove a (x ∷ xs) = let rest = set_remove a xs in if x == a then rest else x ∷ rest

pub contains-set_insert :
    (a b : ℕ) (xs : List ℕ) → contains b (set_insert a xs) ≡ (a == b || contains b xs)
contains-set_insert a b [] = ground arith
contains-set_insert a b (x ∷ xs) = ground (arith, contains-set_insert a b xs)

pub contains-set_remove :
    (a b : ℕ) (xs : List ℕ)
    → contains b (set_remove a xs) ≡ (if a == b then false else contains b xs)
contains-set_remove a b [] = ground arith
contains-set_remove a b (x ∷ xs) = ground (arith, contains-set_remove a b xs)
