-- ===== src/Storage/PageAllocator/Release.antt =====
-- Release of pages, with every error: `free_page` of crates/pg-storage/src/page_allocator.rs.
use ams.Common.{
  ℕ, ◌≡◌, ap, ◌⊎◌, inl, inr, Bool, true, false, ◌&&◌, [], ◌∷◌, ◌++◌, contains, arith, Bool-cases,
}
use ams.Storage.Error.{Result, ok, err, Result-cases, StorageError}
use ams.Storage.PageAllocator.{PageAllocator, page_free, push, free_page}
use ams.Storage.PageAllocator.Pages.{
  IsPage, IsSound, is_in_use, contains-push, HasNoDuplicates-push, push-All,
}

pub free_page_granted :
    (appended : Bool) (p : ℕ) (a : PageAllocator)
    → is_in_use p a ≡ true
    → appended ≡ true
    → free_page appended p a
      ≡ (ok tt, record a { wal = a.wal ++ (page_free p ∷ []); freelist = push p a.freelist })
unfolding is_in_use free_page
free_page_granted appended p a used logged = ground arith

pub free_page_refused :
    (appended : Bool) (p : ℕ) (a : PageAllocator)
    → (is_in_use p a && appended) ≡ false
    → ((e : StorageError) × ((free_page appended p a).0 ≡ err e)) × ((free_page appended p a).1 ≡ a)
unfolding is_in_use free_page
free_page_refused appended p a refused = elim (Result-cases (free_page appended p a).0) [
  | inl found ↦ (found, ground arith)
  | inr (_, good) ↦ absurd (ground arith)
]

-- A release succeeds exactly of a page in use whose record is logged; then the page alone is no
-- longer in use and the invariant is kept, and otherwise the allocator stays as it is.
pub free_page_lem :
    (appended : Bool) (p other : ℕ) (a : PageAllocator)
    → IsSound a
    → (is_in_use p a ≡ true)
        × (appended ≡ true)
        × ((free_page appended p a).0 ≡ ok tt)
        × (is_in_use p (free_page appended p a).1 ≡ false)
        × ((other ≡ p) ⊎ (is_in_use other (free_page appended p a).1 ≡ is_in_use other a))
        × IsSound (free_page appended p a).1
      ⊎ ((is_in_use p a ≡ false) ⊎ (appended ≡ false))
        × ((e : StorageError) × ((free_page appended p a).0 ≡ err e))
        × ((free_page appended p a).1 ≡ a)
unfolding is_in_use
free_page_lem appended p other a sound = elim (Bool-cases (is_in_use p a && appended)) [
  | inl allowed ↦
      let used : is_in_use p a ≡ true = ground arith in
      let logged : appended ≡ true = ground arith in
      let done = free_page_granted appended p a used logged in
      let absent : contains p a.freelist ≡ false = ground (arith, used) in
      let inside : IsPage a.next_page_id p = (ground (arith, used), ground (arith, used)) in
      inl (
        used,
        logged,
        ap (λ (x : Result Unit × PageAllocator). x.0) done,
        rw done (ground (arith, contains-push p p a.freelist)),
        rw done (ground (arith, contains-push other p a.freelist)),
        rw done (record {
          next_positive = sound.next_positive;
          free_pages = push-All (IsPage a.next_page_id) p a.freelist sound.free_pages inside;
          free_once = HasNoDuplicates-push p a.freelist sound.free_once absent;
        }),
      )
  | inr refused ↦
      let why : (is_in_use p a ≡ false) ⊎ (appended ≡ false) = ground arith in
      let same = free_page_refused appended p a refused in inr (why, same.0, same.1)
]
