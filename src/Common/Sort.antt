-- ===== src/Common/Sort.antt =====
-- `sort_unstable` on a vector of integers, and the least element of a collection.
use Prim.Native.Nat.{ℕ, ◌≤◌}
use mathlib.Core.Path.{◌≡◌, refl}
use mathlib.Core.Bool.{true, false, ◌||◌}
use mathlib.Core.Option.{Option, none, some}
use mathlib.Core.List.{List, [], ◌∷◌}
use native.Mathlib.Omega.{arith}
use mathlib.Core.Logic.{inl, inr}
use ams.Common.Tests.{leb, ◌==◌, if◌then◌else◌, Bool-cases, Option-cases}
use ams.Common.Lists.{All, contains}

abbrev pub insert_sorted : ℕ → List ℕ → List ℕ
insert_sorted a [] = a ∷ []
insert_sorted a (x ∷ xs) = let rest = insert_sorted a xs in if leb a x then a ∷ x ∷ xs else x ∷ rest

unfoldable pub sort : List ℕ → List ℕ
sort [] = []
sort (x ∷ xs) = insert_sorted x (sort xs)

-- `first` of a slice.
abbrev pub first : List ℕ → Option ℕ
first [] = none
first (x ∷ xs) = some x

-- `Iterator::min`.
abbrev pub min? : List ℕ → Option ℕ
min? [] = none
min? (x ∷ xs) = elim (min? xs) [ none ↦ some x | some m ↦ if leb x m then some x else some m ]

contains-insert_sorted :
    (a b : ℕ) (xs : List ℕ) → contains b (insert_sorted a xs) ≡ (a == b || contains b xs)
contains-insert_sorted a b [] = refl
contains-insert_sorted a b (x ∷ xs) = ground (arith, contains-insert_sorted a b xs)

-- Sorting keeps the members.
pub contains-sort : (b : ℕ) (xs : List ℕ) → contains b (sort xs) ≡ contains b xs
unfolding sort
contains-sort b [] = refl
contains-sort b (x ∷ xs) = ground (arith, contains-insert_sorted x b (sort xs), contains-sort b xs)

abbrev pub IsSorted : List ℕ → Type 0
IsSorted [] = Unit {0}
IsSorted (x ∷ xs) = All (λ y. x ≤ y) xs × IsSorted xs

All-le_trans : {a b : ℕ} (xs : List ℕ) → a ≤ b → All (λ y. b ≤ y) xs → All (λ y. a ≤ y) xs
All-le_trans [] h p = tt
All-le_trans (x ∷ xs) h p = (omega arith, All-le_trans xs h p.1)

All-insert_sorted :
    (c a : ℕ) (xs : List ℕ) → c ≤ a → All (λ y. c ≤ y) xs → All (λ y. c ≤ y) (insert_sorted a xs)
All-insert_sorted c a [] h p = (h, tt)
All-insert_sorted c a (x ∷ xs) h p = ground (arith, All-insert_sorted c a xs h p.1)

insert_sorted-IsSorted : (a : ℕ) (xs : List ℕ) → IsSorted xs → IsSorted (insert_sorted a xs)
insert_sorted-IsSorted a [] h = (tt, tt)
insert_sorted-IsSorted a (x ∷ xs) h = elim (Bool-cases (leb a x)) [
  | inl le ↦ rw le ((ground arith, All-le_trans {a = a} {b = x} xs (ground arith) h.0), h)
  | inr gt ↦ rw gt (All-insert_sorted x a xs (ground arith) h.0, insert_sorted-IsSorted a xs h.1)
]

pub sort-IsSorted : (xs : List ℕ) → IsSorted (sort xs)
unfolding sort
sort-IsSorted [] = tt
sort-IsSorted (x ∷ xs) = insert_sorted-IsSorted x (sort xs) (sort-IsSorted xs)

All-contains : (c b : ℕ) (xs : List ℕ) → All (λ y. c ≤ y) xs → contains b xs ≡ true → c ≤ b
All-contains c b [] p h = cc
All-contains c b (x ∷ xs) p h = ground (arith, All-contains c b xs p.1)

first_le : (xs : List ℕ) (m b : ℕ) → IsSorted xs → first xs ≡ some m → contains b xs ≡ true → m ≤ b
first_le [] m b s e h = cc
first_le (x ∷ xs) m b s e h = ground (arith, All-contains x b xs s.0)

-- The first of a sorted collection is at most every member.
pub first-sort_le :
    (xs : List ℕ) (m b : ℕ) → first (sort xs) ≡ some m → contains b xs ≡ true → m ≤ b
first-sort_le xs m b e h = first_le (sort xs) m b (sort-IsSorted xs) e (rw contains-sort h)

contains-first : (xs : List ℕ) (m : ℕ) → first xs ≡ some m → contains m xs ≡ true
contains-first [] m e = cc
contains-first (x ∷ xs) m e = ground arith

pub contains-first-sort : (xs : List ℕ) (m : ℕ) → first (sort xs) ≡ some m → contains m xs ≡ true
contains-first-sort xs m e = rw contains-sort at (contains-first (sort xs) m e)

not-contains-first : (xs : List ℕ) (b : ℕ) → first xs ≡ none → contains b xs ≡ false
not-contains-first [] b e = refl
not-contains-first (x ∷ xs) b e = cc

pub not-contains-first-sort : (xs : List ℕ) (b : ℕ) → first (sort xs) ≡ none → contains b xs ≡ false
not-contains-first-sort xs b e = rw contains-sort at (not-contains-first (sort xs) b e)

pub min?-none : (xs : List ℕ) (b : ℕ) → min? xs ≡ none → contains b xs ≡ false
min?-none [] b e = refl
min?-none (x ∷ xs) b e = ground (arith, min?-none xs b)

-- The least element is a member, and is at most every member.
pub min?-le : (xs : List ℕ) (m b : ℕ) → min? xs ≡ some m → contains b xs ≡ true → m ≤ b
min?-le [] m b e h = cc
min?-le (x ∷ xs) m b e h = elim (Option-cases (min? xs)) [
  | inl n ↦ ground (arith, min?-none xs b n)
  | inr (k, n) ↦ ground (arith, min?-le xs k b n)
]

pub contains-min? : (xs : List ℕ) (m : ℕ) → min? xs ≡ some m → contains m xs ≡ true
contains-min? [] m e = cc
contains-min? (x ∷ xs) m e = elim (Option-cases (min? xs)) [
  | inl n ↦ ground arith
  | inr (k, n) ↦ ground (arith, contains-min? xs k n)
]
