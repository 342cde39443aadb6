-- ===== src/Storage/PageAllocator/Pages.antt =====
-- The list of free pages as a set, and the invariant of the page allocator
-- (crates/pg-storage/src/page_allocator.rs).
use ams.Common.{
  ℕ, ◌+◌, ◌<◌, ◌≡◌, refl, inl, inr, Bool, true, false, ◌&&◌, ◌||◌, not, none, some, List, [], ◌∷◌,
  All, All-append, contains, retain, arith, ltb, ◌==◌, Option-cases,
}
use ams.Storage.PageAllocator.{PageAllocator, pop, push}

abbrev pub HasNoDuplicates : List ℕ → Type 0
HasNoDuplicates [] = Unit
HasNoDuplicates (x ∷ xs) = (contains x xs ≡ false) × HasNoDuplicates xs

abbrev pub IsPage : ℕ → ℕ → Type 0
IsPage next p = (0 < p) × (p < next)

-- Page 0 is never handed out, and free pages were handed out before and are listed once.
pub record IsSound (a : PageAllocator) : Type 0 where
  pub next_positive : 0 < a.next_page_id
  pub free_pages : All (IsPage a.next_page_id) a.freelist
  pub free_once : HasNoDuplicates a.freelist

-- A page that was handed out and is not free.
unfoldable pub is_in_use : ℕ → PageAllocator → Bool
is_in_use p a = not (p == 0) && (ltb p a.next_page_id && not (contains p a.freelist))

pub pop-none : (xs : List ℕ) → pop xs ≡ none → xs ≡ []
unfolding pop
pop-none [] h = refl
pop-none (x ∷ xs) h = ground arith

pub pop-some : (xs rest : List ℕ) (p : ℕ) → pop xs ≡ some (p, rest) → xs ≡ push p rest
unfolding pop push
pop-some [] rest p h = ground arith
pop-some (x ∷ xs) rest p h = elim (Option-cases (pop xs)) [
  | inl e ↦ ground (arith, pop-none xs e)
  | inr ((last, before), e) ↦ ground (arith, pop-some xs before last e)
]

pub contains-push : (p q : ℕ) (xs : List ℕ) → contains p (push q xs) ≡ (contains p xs || (q == p))
unfolding push
contains-push p q [] = ground arith
contains-push p q (x ∷ xs) = ground (arith, contains-push p q xs)

pub HasNoDuplicates-push :
    (p : ℕ) (xs : List ℕ) → HasNoDuplicates xs → contains p xs ≡ false → HasNoDuplicates (push p xs)
unfolding push
HasNoDuplicates-push p [] h new = (refl, tt)
HasNoDuplicates-push p (x ∷ xs) h new =
    (ground (arith, contains-push x p xs), HasNoDuplicates-push p xs h.1 (ground arith))

pub push-HasNoDuplicates :
    (p : ℕ) (xs : List ℕ)
    → HasNoDuplicates (push p xs)
    → (contains p xs ≡ false) × HasNoDuplicates xs
unfolding push
push-HasNoDuplicates p [] h = (refl, tt)
push-HasNoDuplicates p (x ∷ xs) h =
    let before = push-HasNoDuplicates p xs h.1 in
    let once = contains-push x p xs in (ground (arith, before.0), (ground arith, before.1))

-- Removing a page that is not there.
pub retain-absent :
    (p : ℕ) (xs : List ℕ) → contains p xs ≡ false → retain (λ id. not (id == p)) xs ≡ xs
retain-absent p [] h = refl
retain-absent p (x ∷ xs) h = ground (arith, retain-absent p xs)

pub retain-push :
    (p : ℕ) (xs : List ℕ) → contains p xs ≡ false → retain (λ id. not (id == p)) (push p xs) ≡ xs
unfolding push
retain-push p [] h = ground arith
retain-push p (x ∷ xs) h = ground (arith, retain-push p xs)

pub All-push {κ} : (P : ℕ → Type κ) (p : ℕ) (xs : List ℕ) → All P (push p xs) → All P xs × P p
unfolding push
All-push P p [] h = (tt, h.0)
All-push P p (x ∷ xs) h = let rest = All-push P p xs h.1 in ((h.0, rest.0), rest.1)

pub absent-above : (next p : ℕ) (xs : List ℕ) → All (IsPage next) xs → contains next xs ≡ false
absent-above next p [] h = refl
absent-above next p (x ∷ xs) h = ground (arith, absent-above next p xs h.1, h.0)

pub IsPage-grow : (n : ℕ) (xs : List ℕ) → All (IsPage n) xs → All (IsPage (n + 1)) xs
IsPage-grow n [] h = tt
IsPage-grow n (x ∷ xs) h = ((h.0.0, omega (arith, h.0.1)), IsPage-grow n xs h.1)

pub push-All {κ} : (P : ℕ → Type κ) (p : ℕ) (xs : List ℕ) → All P xs → P p → All P (push p xs)
unfolding push
push-All P p xs h hp = All-append P xs (p ∷ []) h (hp, tt)

pub in_use_not_free :
    (p : ℕ) (a : PageAllocator) → is_in_use p a ≡ true → contains p a.freelist ≡ false
unfolding is_in_use
in_use_not_free p a h = ground arith
