-- ===== src/Storage/PageAllocator/Calls.antt =====
-- Allocation of pages, with every error: `alloc_page` of
-- crates/pg-storage/src/page_allocator.rs.
use ams.Common.{
  ℕ, ◌+◌, ◌*◌, ◌%◌, ◌^◌, ◌≤◌, ◌<◌, ◌≡◌, refl, sym, ap, ◌∙◌, ◌⊎◌, inl, inr, Bool, true, false, ◌||◌,
  List, [], ◌∷◌, ◌++◌, All, contains, arith, ◌==◌, Bool-cases, Option-cases, if◌then◌else◌,
}
use ams.Storage.Error.{ok, err, Result-cases, StorageError}
use ams.Storage.PageAllocator.{
  PageAllocator, PageRecord, page_alloc, pop, push, ensure_data_file_capacity, take_page, log_alloc,
  alloc_page, needs_recovery,
}
use ams.Storage.PageAllocator.Pages.{
  HasNoDuplicates, IsPage, IsSound, is_in_use, pop-none, pop-some, contains-push,
  push-HasNoDuplicates, All-push, IsPage-grow,
}

-- The page that is handed out is not in use, and the list is what remains.
pub record IsTaken (a : PageAllocator) (p : ℕ) (rest : List ℕ) : Type 0 where
  pub shape : (a.freelist ≡ push p rest) ⊎ (a.freelist ≡ []) × (rest ≡ []) × (p ≡ a.next_page_id)

pub take_page_lem :
    (a : PageAllocator)
    → (p : ℕ) × (rest : List ℕ) × (take_page a ≡ (p, record a { freelist = rest }))
      × IsTaken a p rest
unfolding take_page
take_page_lem a = elim (Option-cases (pop a.freelist)) [
  | inl e ↦ (
    a.next_page_id,
    a.freelist,
    ground arith,
    record { shape = inr (pop-none a.freelist e, pop-none a.freelist e, refl) },
  )
  | inr ((p, rest), e) ↦
      (p, rest, ground arith, record { shape = inl (pop-some a.freelist rest p e) })
]

-- The file has its old length, or was grown to hold the page.
pub ensure_data_file_capacity_lem :
    (grows : Bool) (p : ℕ) (a b : PageAllocator)
    → ensure_data_file_capacity grows p a ≡ ok b
    → (b ≡ record a { current_file_len = b.current_file_len })
      × (p * a.page_size % 2 ^ 64 + 2 ^ 20 < 2 ^ 64 → p * a.page_size % 2 ^ 64 ≤ b.current_file_len)
unfolding ensure_data_file_capacity
ensure_data_file_capacity_lem grows p a b h = (ground arith, λ room. ground (arith, room))

-- What an allocation that succeeds does to the allocator.
pub record IsAllocated (a : PageAllocator) (p : ℕ) (a' : PageAllocator) : Type 0 where
  pub rest : List ℕ
  pub taken : IsTaken a p rest
  pub freelist_left : a'.freelist ≡ rest
  pub next_moved :
      a'.next_page_id
      ≡ (if p == a.next_page_id then (a.next_page_id + 1) % 2 ^ 64 else a.next_page_id)
  pub logged : a'.wal ≡ a.wal ++ (page_alloc p ∷ [])
  pub same_size : a'.page_size ≡ a.page_size
  pub held :
      p * a.page_size % 2 ^ 64 + 2 ^ 20 < 2 ^ 64 → p * a.page_size % 2 ^ 64 ≤ a'.current_file_len

log_alloc_lem :
    (b : PageAllocator) (appended : Bool) (q p : ℕ) (a' : PageAllocator)
    → log_alloc appended q b ≡ (ok p, a')
    → (p ≡ q)
      × (a' ≡ record b {
        wal = b.wal ++ (page_alloc p ∷ []);
        next_page_id =
            if p == b.next_page_id then (b.next_page_id + 1) % 2 ^ 64 else b.next_page_id;
      })
unfolding log_alloc
log_alloc_lem b appended q p a' h = (ground arith, ground arith)

pub alloc_page_done :
    (grows appended : Bool) (a a' : PageAllocator) (p : ℕ)
    → alloc_page grows appended a ≡ (ok p, a')
    → IsAllocated a p a'
unfolding alloc_page
alloc_page_done grows appended a a' p h =
    let (q, rest, e, taken) = take_page_lem a in
    let left : PageAllocator = record a { freelist = rest } in
    elim (Bool-cases (needs_recovery a)) [
      | inl old ↦ absurd (ground arith)
      | inr new ↦ elim (Result-cases (ensure_data_file_capacity grows q left)) [
        | inl (_, bad) ↦ absurd (ground arith)
        | inr (b, good) ↦
            let ended : log_alloc appended q b ≡ (ok p, a') = ground arith in
            let (same, state) = log_alloc_lem b appended q p a' ended in
            let (kept, wide) = ensure_data_file_capacity_lem grows q left b good in
            let next : b.next_page_id ≡ a.next_page_id =
              ap (λ (x : PageAllocator). x.next_page_id) kept in
            let size : b.page_size ≡ a.page_size = ap (λ (x : PageAllocator). x.page_size) kept in
            let log : b.wal ≡ a.wal = ap (λ (x : PageAllocator). x.wal) kept in
            let len : a'.current_file_len ≡ b.current_file_len =
              ap (λ (x : PageAllocator). x.current_file_len) state in
            record {
              rest = rest;
              taken = rw same taken;
              freelist_left =
                  ap (λ (x : PageAllocator). x.freelist) state
                  ∙ ap (λ (x : PageAllocator). x.freelist) kept;
              next_moved =
                  ap (λ (x : PageAllocator). x.next_page_id) state
                  ∙ ap (λ (n : ℕ). if p == n then (n + 1) % 2 ^ 64 else n) next;
              logged =
                  ap (λ (x : PageAllocator). x.wal) state
                  ∙ ap (λ (l : List PageRecord). l ++ (page_alloc p ∷ [])) log;
              same_size = ap (λ (x : PageAllocator). x.page_size) state ∙ size;
              held = λ room. rw (same, len) (wide (rw (sym same) room));
            }
      ]
    ]

pub taken-IsPage :
    (a : PageAllocator) (p : ℕ) (rest : List ℕ)
    → IsSound a
    → IsTaken a p rest
    → (0 < p)
      × (p ≤ a.next_page_id)
      × (contains p rest ≡ false)
      × HasNoDuplicates rest
      × All (IsPage a.next_page_id) rest
      × ((p ≡ a.next_page_id) × (rest ≡ []) × (a.freelist ≡ [])
          ⊎ (p < a.next_page_id) × (a.freelist ≡ push p rest))
taken-IsPage a p rest sound taken = elim (taken.shape) [
  | inl e ↦
      let pages = All-push (IsPage a.next_page_id) p rest (rw (sym e) sound.free_pages) in
      let once = push-HasNoDuplicates p rest (rw (sym e) sound.free_once) in
      (pages.1.0, omega (arith, pages.1.1), once.0, once.1, pages.0, inr (pages.1.1, e))
  | inr (e, none_left, p_next) ↦ (
    rw p_next sound.next_positive,
    omega arith,
    rw none_left refl,
    rw none_left tt,
    rw none_left tt,
    inl (p_next, none_left, e),
  )
]

-- An allocation that succeeds hands out a page that was not in use, which is then in use; what is
-- in use of the other pages stays as it is, the invariant is kept, and the data file holds the page
-- as long as its length fits 64 bits.
pub alloc_page_fresh :
    (grows appended : Bool) (a a' : PageAllocator) (p other : ℕ)
    → IsSound a
    → a.next_page_id + 1 < 2 ^ 64
    → alloc_page grows appended a ≡ (ok p, a')
    → (is_in_use p a ≡ false)
      × (is_in_use p a' ≡ true)
      × ((other ≡ p) ⊎ (is_in_use other a' ≡ is_in_use other a))
      × IsSound a'
      × ((p * a.page_size % 2 ^ 64 ≤ a'.current_file_len)
          ⊎ (2 ^ 64 ≤ p * a.page_size % 2 ^ 64 + 2 ^ 20))
unfolding is_in_use
alloc_page_fresh grows appended a a' p other sound small h =
    let done = alloc_page_done grows appended a a' p h in
    let (pos, bound, absent, once, pages, from) = taken-IsPage a p done.rest sound done.taken in
    let left = done.freelist_left in
    let moved = done.next_moved in
    let now : (x : ℕ) → contains x a'.freelist ≡ contains x done.rest =
      λ x. ap (λ (t : List ℕ). contains x t) left in
    let wide : (p * a.page_size % 2 ^ 64 ≤ a'.current_file_len)
        ⊎ (2 ^ 64 ≤ p * a.page_size % 2 ^ 64 + 2 ^ 20) =
      elim (fits (p * a.page_size % 2 ^ 64)) [
        | inl room ↦ inl (done.held room)
        | inr full ↦ inr full
      ] in
    elim from [
      | inl (p_next, nil, empty) ↦
          let grown : a'.next_page_id ≡ a.next_page_id + 1 = ground (arith, moved, p_next) in
          let before : (x : ℕ) → contains x a.freelist ≡ false =
            λ x. ap (λ (t : List ℕ). contains x t) empty in
          (
            ground (arith, p_next),
            ground (arith, grown, p_next, absent, now p),
            ground (
              arith,
              grown,
              p_next,
              now other,
              before other,
              ap (λ (t : List ℕ). contains other t) nil,
            ),
            record {
              next_positive = omega (arith, grown);
              free_pages = rw (grown, left) (IsPage-grow a.next_page_id done.rest pages);
              free_once = rw left once;
            },
            wide,
          )
      | inr (below, e) ↦
          let kept : a'.next_page_id ≡ a.next_page_id = ground (arith, moved, below) in
          let before : (x : ℕ) → contains x a.freelist ≡ (contains x done.rest || (p == x)) =
            λ x. ap (λ (t : List ℕ). contains x t) e ∙ contains-push x p done.rest in
          (
            ground (arith, before p),
            ground (arith, kept, below, pos, absent, now p),
            ground (arith, kept, now other, before other),
            record {
              next_positive = omega (arith, kept, sound.next_positive);
              free_pages = rw (kept, left) pages;
              free_once = rw left once;
            },
            wide,
          )
    ]
  where
    fits : (n : ℕ) → (n + 2 ^ 20 < 2 ^ 64) ⊎ (2 ^ 64 ≤ n + 2 ^ 20)
    fits n = omega arith

-- An allocation that fails logs nothing and leaves the counter; the page that it had taken off the
-- list of free pages does not go back.
pub alloc_page_failed :
    (grows appended : Bool) (a a' : PageAllocator) (e : StorageError)
    → alloc_page grows appended a ≡ (err e, a')
    → (a'.wal ≡ a.wal)
      × (a'.next_page_id ≡ a.next_page_id)
      × ((needs_recovery a ≡ true) × (a'.freelist ≡ a.freelist)
          ⊎ (a'.freelist ≡ (take_page a).1.freelist))
unfolding alloc_page log_alloc
alloc_page_failed grows appended a a' e h =
    let (q, rest, t, taken) = take_page_lem a in
    let left : PageAllocator = record a { freelist = rest } in
    elim (Bool-cases (needs_recovery a)) [
      | inl old ↦ (ground arith, ground arith, inl (old, ground arith))
      | inr new ↦ elim (Result-cases (ensure_data_file_capacity grows q left)) [
        | inl (_, bad) ↦
            let same : a' ≡ left = ground arith in
            (
              ap (λ (x : PageAllocator). x.wal) same,
              ap (λ (x : PageAllocator). x.next_page_id) same,
              inr (
                  ap (λ (x : PageAllocator). x.freelist) same
                  ∙ sym (ap (λ (x : ℕ × PageAllocator). x.1.freelist) t)),
            )
        | inr (b, good) ↦
            let kept = (ensure_data_file_capacity_lem grows q left b good).0 in
            let same : a' ≡ b = ground arith in
            (
              ap (λ (x : PageAllocator). x.wal) (same ∙ kept),
              ap (λ (x : PageAllocator). x.next_page_id) (same ∙ kept),
              inr (
                  ap (λ (x : PageAllocator). x.freelist) (same ∙ kept)
                  ∙ sym (ap (λ (x : ℕ × PageAllocator). x.1.freelist) t)),
            )
      ]
    ]

pub nothing_to_take : (a : PageAllocator) → a.freelist ≡ [] → (take_page a).1.freelist ≡ []
unfolding take_page pop
nothing_to_take a h = ground (arith, h)
