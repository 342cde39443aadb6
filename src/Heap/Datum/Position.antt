-- ===== src/Heap/Datum/Position.antt =====
-- Where a field stands in the bytes of a tuple: crates/pg-am-heap/src/tuple.rs.
use ams.Common.{
  ℕ, zero, suc, ◌+◌, ◌≤◌, ◌≡◌, refl, sym, ap, ◌∙◌, List, [], ◌∷◌, ◌++◌, length, length-append,
  arith,
}
use ams.Storage.LittleEndian.{skip}
use ams.Storage.Types.{take-append}
use ams.Heap.Page.{ok}
use ams.Heap.Datum.{take_at}

-- From a position on, a list of bytes is a given list.
pub record StandsAt (bytes : List ℕ) (at : ℕ) (suffix : List ℕ) : Type 0 where
  pub from : skip at bytes ≡ suffix
  pub size : length bytes ≡ at + length suffix

skip-nil : (n : ℕ) → skip {A = ℕ} n [] ≡ []
skip-nil zero = refl
skip-nil (suc n) = refl

skip-skip : (m n : ℕ) (xs : List ℕ) → skip (m + n) xs ≡ skip n (skip m xs)
skip-skip zero n xs = ap (λ (t : ℕ). skip t xs) (omega arith)
skip-skip (suc m) n [] = skip-nil (suc m + n) ∙ sym (skip-nil n)
skip-skip (suc m) n (x ∷ xs) =
    let next : suc m + n ≡ suc (m + n) = omega arith in
    ap (λ (t : ℕ). skip t (x ∷ xs)) next ∙ skip-skip m n xs

pub skip-append_whole : (xs ys : List ℕ) → skip (length xs) (xs ++ ys) ≡ ys
skip-append_whole [] ys = refl
skip-append_whole (x ∷ xs) ys = skip-append_whole xs ys

pub StandsAt-advance :
    (bytes : List ℕ) (at n : ℕ) (field rest : List ℕ)
    → StandsAt bytes at (field ++ rest)
    → length field ≡ n
    → StandsAt bytes (at + n) rest
StandsAt-advance bytes at n field rest s e = record {
  from =
      skip-skip at n bytes
      ∙ ap (λ (t : List ℕ). skip n t) s.from
      ∙ rw (← e) (skip-append_whole field rest);
  size = omega (arith, s.size, length-append field rest, e);
}

pub take_at_lem :
    (bytes : List ℕ) (at n : ℕ) (field rest : List ℕ)
    → StandsAt bytes at (field ++ rest)
    → length field ≡ n
    → take_at bytes at n ≡ ok (field, at + n)
unfolding take_at
take_at_lem bytes at n field rest s e =
    let enough : at + n ≤ length bytes = omega (arith, s.size, length-append field rest, e) in
    ground (arith, enough, s.from, take-append n field rest e)
