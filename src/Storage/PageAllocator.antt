-- ===== src/Storage/PageAllocator.antt =====
-- The page allocator: crates/pg-storage/src/page_allocator.rs. Whether the data file can be grown
-- and whether the log takes a record is not decided here: each call takes that as an argument. The
-- allocator's log is the list of the records that it appended, the first one first.
pub mod Pages
pub mod Calls
pub mod Release
pub mod Replay
mod Examples
use ams.Common.{
  ℕ, ◌+◌, ◌-◌, ◌*◌, ◌/◌, ◌%◌, ◌^◌, Bool, true, false, ◌&&◌, not, Option, none, some, List, [], ◌∷◌,
  ◌++◌, contains, retain, leb, ltb, ◌==◌, if◌then◌else◌,
}
use ams.Storage.Error.{
  Result, ok, err, io, wal_write_failed, invalid_operation, recovery_required, metadata_corrupted,
}
use ams.Storage.FreelistMeta.{FreelistMeta}

pub data PageRecord : Type 0 where
  page_alloc : ℕ → PageRecord
  page_free : ℕ → PageRecord

pub record PageAllocator : Type 0 where
  pub wal : List PageRecord
  pub current_file_len : ℕ
  pub next_page_id : ℕ
  pub freelist : List ℕ
  pub page_size : ℕ
  pub recovery_applied : Bool

-- `Vec::pop` and `Vec::push`.
unfoldable pub pop : List ℕ → Option (ℕ × List ℕ)
pop [] = none
pop (x ∷ xs) = elim (pop xs) [ none ↦ some (x, []) | some (last, rest) ↦ some (last, x ∷ rest) ]

unfoldable pub push : ℕ → List ℕ → List ℕ
push x xs = xs ++ (x ∷ [])

abbrev pub data_file_growth_bytes : ℕ
data_file_growth_bytes = 1024 * 1024

-- The allocator after the data file was opened with its length.
unfoldable pub open_at : ℕ → ℕ → ℕ → Result PageAllocator
open_at file_len page_size next =
    if not (file_len % page_size == 0)
    then err metadata_corrupted
    else ok (record {
      wal = [];
      current_file_len = file_len;
      next_page_id = next;
      freelist = [];
      page_size = page_size;
      recovery_applied = false;
    })

-- Whether the data file holds the page after the call, and the allocator: `grows` tells if
-- `set_len` and `sync_all` succeed.
unfoldable pub ensure_data_file_capacity : Bool → ℕ → PageAllocator → Result PageAllocator
ensure_data_file_capacity grows page_id a =
    let required = page_id * a.page_size % 2 ^ 64 in
    if ltb a.current_file_len required
    then if grows
      then ok (record a {
        current_file_len =
            (required + data_file_growth_bytes - 1)
            / data_file_growth_bytes
            * data_file_growth_bytes
            % 2 ^ 64;
      })
      else err io
    else ok a

unfoldable pub needs_recovery : PageAllocator → Bool
needs_recovery a =
    leb a.page_size a.current_file_len && (a.next_page_id == 1) && not a.recovery_applied

-- The page to hand out, and the allocator without it in its list.
unfoldable pub take_page : PageAllocator → ℕ × PageAllocator
take_page a = elim (pop a.freelist) [
  | none ↦ (a.next_page_id, a)
  | some (page_id, rest) ↦ (page_id, record a { freelist = rest })
]

-- The record is appended, and the counter moves past the page.
unfoldable pub log_alloc : Bool → ℕ → PageAllocator → Result ℕ × PageAllocator
log_alloc appended page_id a = if not appended then (err wal_write_failed, a) else (
  ok page_id,
  record a {
    wal = a.wal ++ (page_alloc page_id ∷ []);
    next_page_id =
        if page_id == a.next_page_id then (a.next_page_id + 1) % 2 ^ 64 else a.next_page_id;
  },
)

unfoldable pub alloc_page : Bool → Bool → PageAllocator → Result ℕ × PageAllocator
alloc_page grows appended a =
    if needs_recovery a
    then (err recovery_required, a)
    else let taken = take_page a in
      elim (ensure_data_file_capacity grows taken.0 taken.1) [
        | err e ↦ (err e, taken.1)
        | ok b ↦ log_alloc appended taken.0 b
      ]

unfoldable pub free_page : Bool → ℕ → PageAllocator → Result Unit × PageAllocator
free_page appended page_id a =
    if page_id == 0
    then (err invalid_operation, a)
    else if leb a.next_page_id page_id
    then (err invalid_operation, a)
    else if contains page_id a.freelist
    then (err invalid_operation, a)
    else if not appended
    then (err wal_write_failed, a)
    else (
      ok tt,
      record a { wal = a.wal ++ (page_free page_id ∷ []); freelist = push page_id a.freelist },
    )

unfoldable pub mark_recovery_complete : PageAllocator → PageAllocator
mark_recovery_complete a = record a { recovery_applied = true }

unfoldable pub snapshot : ℕ → PageAllocator → FreelistMeta
snapshot lsn a = record { checkpoint_lsn = lsn; page_ids = a.freelist }

unfoldable pub apply_page_alloc : Bool → ℕ → PageAllocator → Result PageAllocator
apply_page_alloc grows page_id a =
    let b : PageAllocator = record a {
      next_page_id = if leb a.next_page_id page_id then (page_id + 1) % 2 ^ 64 else a.next_page_id;
      freelist = retain (λ id. not (id == page_id)) a.freelist;
    } in
    elim (ensure_data_file_capacity grows page_id b) [
      | err e ↦ err e
      | ok c ↦ ok (record c { recovery_applied = true })
    ]

unfoldable pub apply_page_free : ℕ → PageAllocator → PageAllocator
apply_page_free page_id a =
    if contains page_id a.freelist
    then a
    else record a { freelist = push page_id a.freelist; recovery_applied = true }

unfoldable pub seed_freelist : List ℕ → PageAllocator → PageAllocator
seed_freelist page_ids a = record a { freelist = page_ids }

-- A record of the log that is an allocation or a release, its payload decoded.
unfoldable pub replay_record : Bool → PageRecord → PageAllocator → Result PageAllocator
replay_record grows (page_alloc page_id) a = apply_page_alloc grows page_id a
replay_record grows (page_free page_id) a = ok (apply_page_free page_id a)

-- The loop of recovery over the records, on a file that can be grown.
unfoldable pub replay : List PageRecord → PageAllocator → Result PageAllocator
replay [] a = ok a
replay (r ∷ rest) a = elim (replay_record true r a) [ err e ↦ err e | ok b ↦ replay rest b ]
