-- ===== src/Storage/PageAllocator/Replay.antt =====
-- Recovery of the page allocator: replaying the log from a checkpoint rebuilds the counter and the
-- list of free pages (crates/pg-storage/src/page_allocator.rs, `replay_record`).
use ams.Common.{
  ℕ, ◌+◌, ◌%◌, ◌^◌, ◌<◌, ◌≡◌, refl, sym, ap, ◌∙◌, inl, inr, Bool, true, false, not, List, [], ◌∷◌,
  ◌++◌, contains, retain, arith, leb, ◌==◌, if◌then◌else◌,
}
use ams.Storage.Error.{ok, err, Result-cases, StorageError}
use ams.Storage.PageAllocator.{
  PageAllocator, PageRecord, page_alloc, page_free, push, open_at, ensure_data_file_capacity,
  alloc_page, free_page, snapshot, apply_page_alloc, apply_page_free, seed_freelist, replay_record,
  replay,
}
use ams.Storage.PageAllocator.Pages.{IsSound, in_use_not_free, retain-push}
use ams.Storage.PageAllocator.Calls.{
  IsAllocated, alloc_page_done, alloc_page_fresh, alloc_page_failed, nothing_to_take, taken-IsPage,
}
use ams.Storage.PageAllocator.Release.{free_page_lem, free_page_granted}

-- Sequences of calls on an allocator: allocations that succeed, releases with any outcome, and
-- allocations that fail while no page is free.
pub data Run (start : PageAllocator) : PageAllocator → Type 0 where
  begin : Run start start
  allocate :
      (grows appended : Bool) (a a' : PageAllocator) (p : ℕ)
      → Run start a
      → a.next_page_id + 1 < 2 ^ 64
      → alloc_page grows appended a ≡ (ok p, a')
      → Run start a'
  fail :
      (grows appended : Bool) (a a' : PageAllocator) (e : StorageError)
      → Run start a
      → a.freelist ≡ []
      → alloc_page grows appended a ≡ (err e, a')
      → Run start a'
  free :
      (appended : Bool) (p : ℕ) (a : PageAllocator)
      → Run start a
      → Run start (free_page appended p a).1

-- An allocator that agrees on the counter and on the list of free pages.
pub record Agrees (a b : PageAllocator) : Type 0 where
  pub same_next : b.next_page_id ≡ a.next_page_id
  pub same_free : b.freelist ≡ a.freelist

grown :
    (p : ℕ) (a : PageAllocator)
    → (b : PageAllocator) × (ensure_data_file_capacity true p a ≡ ok b)
      × (b.next_page_id ≡ a.next_page_id)
      × (b.freelist ≡ a.freelist)
unfolding ensure_data_file_capacity
grown p a = elim (Result-cases (ensure_data_file_capacity true p a)) [
  | inl (_, bad) ↦ absurd (ground arith)
  | inr (b, good) ↦ (b, good, ground arith, ground arith)
]

replay-snoc :
    (log : List PageRecord) (r : PageRecord) (a b c : PageAllocator)
    → replay log a ≡ ok b
    → replay_record true r b ≡ ok c
    → replay (log ++ (r ∷ [])) a ≡ ok c
unfolding replay
replay-snoc [] r a b c h step = ground (arith, h, step)
replay-snoc (s ∷ log) r a b c h step = elim (Result-cases (replay_record true s a)) [
  | inl (_, bad) ↦ absurd (ground (arith, h))
  | inr (d, good) ↦
      let rest : replay log d ≡ ok b = ground (arith, h, good) in
      ground (arith, good, replay-snoc log r d b c rest step)
]

redo_alloc :
    (a a' b : PageAllocator) (p : ℕ)
    → IsSound a
    → a.next_page_id + 1 < 2 ^ 64
    → IsAllocated a p a'
    → Agrees a b
    → (c : PageAllocator) × (replay_record true (page_alloc p) b ≡ ok c) × Agrees a' c
unfolding replay_record apply_page_alloc
redo_alloc a a' b p sound small done same =
    let (pos, bound, absent, once, pages, from) = taken-IsPage a p done.rest sound done.taken in
    let without = retain (λ id. not (id == p)) in
    let b1 : PageAllocator = record b {
      next_page_id = if leb b.next_page_id p then (p + 1) % 2 ^ 64 else b.next_page_id;
      freelist = without b.freelist;
    } in
    let (c, good, next, left) = grown p b1 in
    let rest : without a.freelist ≡ done.rest = elim from [
      | inl (_, nil, empty) ↦ rw (empty, nil) refl
      | inr (_, e) ↦ rw e (retain-push p done.rest absent)
    ] in
    (
      record c { recovery_applied = true },
      rw (replay_record, apply_page_alloc, good) refl,
      record {
        same_next = next ∙ ground (arith, same.same_next, done.next_moved, bound);
        same_free =
            left ∙ ap (λ (l : List ℕ). without l) same.same_free ∙ rest ∙ sym done.freelist_left;
      },
    )

redo_free :
    (a b : PageAllocator) (p : ℕ)
    → contains p a.freelist ≡ false
    → Agrees a b
    → (c : PageAllocator) × (replay_record true (page_free p) b ≡ ok c)
      × (c.next_page_id ≡ a.next_page_id)
      × (c.freelist ≡ push p a.freelist)
unfolding replay_record apply_page_free
redo_free a b p absent same =
    let absent_there : contains p b.freelist ≡ false = ground (arith, same.same_free) in
    (
      record b { freelist = push p b.freelist; recovery_applied = true },
      ground (arith, absent_there),
      same.same_next,
      ap (λ (l : List ℕ). push p l) same.same_free,
    )

-- What a run keeps: the invariant, and the rebuilding of its state from its log.
record IsRebuilt (b a : PageAllocator) : Type 0 where
  sound : IsSound a
  rebuilt : PageAllocator
  replayed : replay a.wal b ≡ ok rebuilt
  agrees : Agrees a rebuilt

Run-IsRebuilt :
    (start b a : PageAllocator)
    → IsSound start
    → start.wal ≡ []
    → Agrees start b
    → Run start a
    → IsRebuilt b a
unfolding replay
Run-IsRebuilt start b _ sound empty same begin = record {
  sound = sound;
  rebuilt = b;
  replayed = rw empty refl;
  agrees = same;
}
Run-IsRebuilt start b _ sound empty same (allocate grows appended a a' p run small h) =
    let before = Run-IsRebuilt start b a sound empty same run in
    let done = alloc_page_done grows appended a a' p h in
    let (c, step, agrees) =
      redo_alloc a a' before.rebuilt p before.sound small done before.agrees in
    record {
      sound = (alloc_page_fresh grows appended a a' p p before.sound small h).3;
      rebuilt = c;
      replayed =
          rw done.logged (replay-snoc a.wal (page_alloc p) b before.rebuilt c before.replayed step);
      agrees = agrees;
    }
Run-IsRebuilt start b _ sound empty same (fail grows appended a a' e run none_free h) =
    let before = Run-IsRebuilt start b a sound empty same run in
    let (log, next, left) = alloc_page_failed grows appended a a' e h in
    let free : a'.freelist ≡ a.freelist = elim left [
      | inl (_, kept) ↦ kept
      | inr took ↦ took ∙ nothing_to_take a none_free ∙ sym none_free
    ] in
    record {
      sound = record {
        next_positive = rw next before.sound.next_positive;
        free_pages = rw (next, free) before.sound.free_pages;
        free_once = rw free before.sound.free_once;
      };
      rebuilt = before.rebuilt;
      replayed = rw log before.replayed;
      agrees = record {
        same_next = before.agrees.same_next ∙ sym next;
        same_free = before.agrees.same_free ∙ sym free;
      };
    }
Run-IsRebuilt start b _ sound empty same (free appended p a run) =
    let before = Run-IsRebuilt start b a sound empty same run in
    elim (free_page_lem appended p p a before.sound) [
      | inl (used, logged, _, _, _, sound') ↦
          let done = free_page_granted appended p a used logged in
          let (c, step, next, left) =
            redo_free a before.rebuilt p (in_use_not_free p a used) before.agrees in
          record {
            sound = sound';
            rebuilt = c;
            replayed =
                rw done (replay-snoc a.wal (page_free p) b before.rebuilt c before.replayed step);
            agrees = rw done (record { same_next = next; same_free = left });
          }
      | inr (_, _, unchanged) ↦ rw unchanged before
    ]

-- Replaying the log that was written since a checkpoint, on the counter and the list of free pages
-- that the checkpoint stored, rebuilds the counter and the list that the run ended with, in order;
-- the run allocates and frees pages with any outcome, but no allocation fails while a page is free.
pub replay_rebuilds :
    (start a opened : PageAllocator) (file_len lsn : ℕ)
    → IsSound start
    → start.wal ≡ []
    → open_at file_len start.page_size start.next_page_id ≡ ok opened
    → Run start a
    → (b : PageAllocator) × (replay a.wal (seed_freelist (snapshot lsn start).page_ids opened)
        ≡ ok b)
      × (b.next_page_id ≡ a.next_page_id)
      × (b.freelist ≡ a.freelist)
unfolding open_at snapshot seed_freelist
replay_rebuilds start a opened file_len lsn sound empty h run =
    let opened_next : opened.next_page_id ≡ start.next_page_id = ground arith in
    let seeded : PageAllocator = record opened { freelist = start.freelist } in
    let end =
      Run-IsRebuilt start seeded a sound empty
        (record { same_next = opened_next; same_free = refl }) run in
    (end.rebuilt, end.replayed, end.agrees.same_next, end.agrees.same_free)
