-- ===== src/Storage/PageAllocator/Examples.antt =====
-- Runs of the page allocator.
use ams.Common.{ℕ, ◌+◌, ◌*◌, ◌%◌, ◌^◌, ◌≤◌, ◌≡◌, refl, ◌⊎◌, true, false, [], ◌∷◌, arith}
use ams.Storage.Error.{ok, io}
use ams.Storage.PageAllocator.{
  PageAllocator, page_alloc, pop, open_at, ensure_data_file_capacity, take_page, log_alloc,
  needs_recovery, alloc_page, free_page, snapshot, seed_freelist, replay,
}
use ams.Storage.PageAllocator.Pages.{IsSound, is_in_use}
use ams.Storage.PageAllocator.Calls.{alloc_page_fresh, alloc_page_failed}
use ams.Storage.PageAllocator.Replay.{Run, begin, allocate, free, replay_rebuilds}

-- Pages 1 to 4 were handed out, 2 and 3 are free; the file has 128 pages.
abbrev two_free : PageAllocator
two_free = record {
  wal = [];
  current_file_len = 1048576;
  next_page_id = 5;
  freelist = 2 ∷ 3 ∷ [];
  page_size = 8192;
  recovery_applied = true;
}

two_free-IsSound : IsSound two_free
two_free-IsSound = record {
  next_positive = omega arith;
  free_pages = ((omega arith, omega arith), ((omega arith, omega arith), tt));
  free_once = (refl, (refl, tt));
}

abbrev after_alloc : PageAllocator
after_alloc = record two_free { wal = page_alloc 3 ∷ []; freelist = 2 ∷ [] }

alloc_page_fresh_example :
    (is_in_use 3 two_free ≡ false)
    × (is_in_use 3 after_alloc ≡ true)
    × (◌≡◌ {A = ℕ} 2 3 ⊎ (is_in_use 2 after_alloc ≡ is_in_use 2 two_free))
    × IsSound after_alloc
    × ((3 * 8192 % 2 ^ 64 ≤ 1048576) ⊎ (2 ^ 64 ≤ 3 * 8192 % 2 ^ 64 + 2 ^ 20))
unfolding alloc_page needs_recovery take_page pop ensure_data_file_capacity log_alloc
alloc_page_fresh_example =
    alloc_page_fresh true true two_free after_alloc 3 2 two_free-IsSound (omega arith) refl

-- The file cannot grow to page 300, which leaves the list of free pages all the same.
abbrev far_free : PageAllocator
far_free = record two_free { next_page_id = 400; freelist = 300 ∷ [] }

abbrev after_failure : PageAllocator
after_failure = record far_free { freelist = [] }

alloc_page_failed_example :
    (after_failure.wal ≡ far_free.wal)
    × (after_failure.next_page_id ≡ far_free.next_page_id)
    × ((needs_recovery far_free ≡ true) × (after_failure.freelist ≡ far_free.freelist)
        ⊎ (after_failure.freelist ≡ (take_page far_free).1.freelist))
unfolding alloc_page needs_recovery take_page pop ensure_data_file_capacity
alloc_page_failed_example = alloc_page_failed false true far_free after_failure io refl

abbrev opened : PageAllocator
opened = record {
  wal = [];
  current_file_len = 1048576;
  next_page_id = 5;
  freelist = [];
  page_size = 8192;
  recovery_applied = false;
}

allocated_then_freed : Run two_free (free_page true 4 after_alloc).1
unfolding alloc_page needs_recovery take_page pop ensure_data_file_capacity log_alloc
allocated_then_freed =
    free true 4 after_alloc (allocate true true two_free after_alloc 3 begin (omega arith) refl)

replay_rebuilds_example :
    (b : PageAllocator) × (replay
        (free_page true 4 after_alloc).1.wal
        (seed_freelist (snapshot 64 two_free).page_ids opened)
      ≡ ok b)
    × (b.next_page_id ≡ (free_page true 4 after_alloc).1.next_page_id)
    × (b.freelist ≡ (free_page true 4 after_alloc).1.freelist)
unfolding open_at
replay_rebuilds_example =
    replay_rebuilds two_free (free_page true 4 after_alloc).1 opened 1048576 64 two_free-IsSound
      refl refl allocated_then_freed
