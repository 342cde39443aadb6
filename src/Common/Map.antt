-- ===== src/Common/Map.antt =====
-- `HashMap` and `BTreeMap` with integer keys, as association lists. The first entry of a key
-- counts; `HasKeysOnce` says that there is no other.
use Prim.Native.Nat.{ℕ}
use mathlib.Core.Path.{◌≡◌, refl}
use mathlib.Core.Bool.{Bool, true, false, ◌&&◌}
use mathlib.Core.Option.{Option, none, some}
use mathlib.Core.List.{List, [], ◌∷◌}
use native.Mathlib.Omega.{arith}
use mathlib.Core.Logic.{inl, inr}
use ams.Common.Lists.{contains}
use ams.Common.Tests.{◌==◌, if◌then◌else◌, ==-refl, Bool-cases}

abbrev pub Map {ℓ} : Type ℓ → Type ℓ
Map V = List (ℕ × V)

module _ {ℓ} {V : Type ℓ} where
  abbrev pub lookup : ℕ → Map V → Option V
  lookup k [] = none
  lookup k ((j, v) ∷ m) = if j == k then some v else lookup k m

  -- Replaces the value of a key that is there.
  abbrev pub insert : ℕ → V → Map V → Map V
  insert k v [] = (k, v) ∷ []
  insert k v ((j, w) ∷ m) = let rest = insert k v m in if j == k then (k, v) ∷ m else (j, w) ∷ rest

  abbrev pub remove : ℕ → Map V → Map V
  remove k [] = []
  remove k ((j, v) ∷ m) = let rest = remove k m in if j == k then rest else (j, v) ∷ rest

  abbrev pub all : (ℕ → V → Bool) → Map V → Bool
  all p [] = true
  all p ((k, v) ∷ m) = p k v && all p m

  abbrev pub HasKeysOnce : Map V → Type ℓ
  HasKeysOnce [] = Unit {ℓ}
  HasKeysOnce ((k, v) ∷ m) = (lookup k m ≡ none) × HasKeysOnce m

  pub lookup-insert :
      (k j : ℕ) (v : V) (m : Map V)
      → lookup j (insert k v m) ≡ (if k == j then some v else lookup j m)
  lookup-insert k j v [] = refl
  lookup-insert k j v ((i, w) ∷ m) = ground (arith, lookup-insert k j v m)

  pub lookup-remove :
      (k j : ℕ) (m : Map V) → lookup j (remove k m) ≡ (if k == j then none else lookup j m)
  lookup-remove k j [] = ground arith
  lookup-remove k j ((i, w) ∷ m) = ground (arith, lookup-remove k j m)

  pub insert-HasKeysOnce : (k : ℕ) (v : V) (m : Map V) → HasKeysOnce m → HasKeysOnce (insert k v m)
  insert-HasKeysOnce k v [] h = (refl, tt)
  insert-HasKeysOnce k v ((j, w) ∷ m) h =
      ground (arith, insert-HasKeysOnce k v m h.1, lookup-insert k j v m)

  pub remove-HasKeysOnce : (k : ℕ) (m : Map V) → HasKeysOnce m → HasKeysOnce (remove k m)
  remove-HasKeysOnce k [] h = tt
  remove-HasKeysOnce k ((j, w) ∷ m) h =
      ground (arith, remove-HasKeysOnce k m h.1, lookup-remove k j m)

  pub all-lookup :
      (p : ℕ → V → Bool) (m : Map V) (k : ℕ) (v : V)
      → all p m ≡ true
      → lookup k m ≡ some v
      → p k v ≡ true
  all-lookup p [] k v h e = cc
  all-lookup p ((j, w) ∷ m) k v h e = ground (arith, all-lookup p m k v)

  -- A test that fails on a map fails at one of its keys.
  pub not-all-lookup :
      (p : ℕ → V → Bool) (m : Map V)
      → HasKeysOnce m
      → all p m ≡ false
      → (k : ℕ) × (v : V) × (lookup k m ≡ some v) × (p k v ≡ false)
  not-all-lookup p [] u h = cc
  not-all-lookup p ((j, w) ∷ m) u h = elim (Bool-cases (p j w)) [
    | inr bad ↦ (j, w, rw (==-refl j), bad)
    | inl good ↦
        let (k, v, found, bad) = not-all-lookup p m u.1 (rw good at h) in
        (k, v, ground (arith, u.0), bad)
  ]

  -- Writing what is there changes nothing.
  pub insert_same : (k : ℕ) (v : V) (m : Map V) → lookup k m ≡ some v → insert k v m ≡ m
  insert_same k v [] h = cc
  insert_same k v ((j, w) ∷ m) h = ground (arith, insert_same k v m)

  pub remove_absent : (k : ℕ) (m : Map V) → lookup k m ≡ none → remove k m ≡ m
  remove_absent k [] h = refl
  remove_absent k ((j, v) ∷ m) h = ground (arith, remove_absent k m)

  abbrev pub keys : Map V → List ℕ
  keys [] = []
  keys ((k, v) ∷ m) = k ∷ keys m

  pub contains-keys :
      (k : ℕ) (m : Map V)
      → contains k (keys m) ≡ (elim (lookup k m) [ none ↦ false | some _ ↦ true ])
  contains-keys k [] = refl
  contains-keys k ((j, v) ∷ m) = ground (arith, contains-keys k m)
