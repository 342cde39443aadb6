-- ===== src/Txn/Clog/Segments.antt =====
-- The segment files of the commit log, `ClogSegmentStore` of crates/pg-txn/src/clog_file.rs. A file is
-- the byte at each offset, zero where nothing was written. `files` is what a read sees, `synced` what
-- the last fsync of each segment made durable. Which calls of the operating system succeed is an
-- argument. Opening a segment and keeping it open is left out.
use ams.Common.{
  ℕ, ◌+◌, ◌-◌, ◌/◌, ◌<◌, ◌≡◌, refl, Bool, true, false, ◌&&◌, List, [], ◌∷◌, arith, ltb, leb, ◌==◌,
  if◌then◌else◌, contains, set_insert, set_remove, contains-set_remove, contains-set_insert,
  Bool-cases, inl, inr,
}
use ams.Heap.Bytes.{Buffer}
use ams.Storage.Error.{Result, ok, err, io}
use ams.Txn.Clog.Address.{segment_id_of_page, page_offset_in_segment, clog_page_bytes}

-- On which segments reads, writes and fsyncs succeed.
pub record Os : Type 0 where
  pub reads : ℕ → Bool
  pub writes : ℕ → Bool
  pub syncs : ℕ → Bool

pub record ClogSegmentStore : Type 0 where
  pub files : ℕ → Buffer
  pub synced : ℕ → Buffer
  pub unsynced_segments : List ℕ

unfoldable pub read_page : ℕ → ClogSegmentStore → Buffer
read_page page_no s i = s.files (segment_id_of_page page_no) (page_offset_in_segment page_no + i)

-- `write_all_at` of a page, on the offsets of its segment.
unfoldable pub write_all_at : ℕ → Buffer → Buffer → Buffer
write_all_at offset buf file i =
    if leb offset i && ltb i (offset + clog_page_bytes) then buf (i - offset) else file i

unfoldable pub write_page : ℕ → Buffer → ClogSegmentStore → ClogSegmentStore
write_page page_no buf s = record s {
  files = λ segment.
      if segment == segment_id_of_page page_no
      then write_all_at (page_offset_in_segment page_no) buf (s.files segment)
      else s.files segment;
  unsynced_segments = set_insert (segment_id_of_page page_no) s.unsynced_segments;
}

unfoldable pub sync_segment : ℕ → ClogSegmentStore → ClogSegmentStore
sync_segment segment s = record s {
  synced = λ other. if other == segment then s.files segment else s.synced other;
}

-- The loop of `sync_unsynced` over the segments that were pending.
unfoldable pub sync_pending : Os → List ℕ → ClogSegmentStore → Result (Unit {0}) × ClogSegmentStore
sync_pending os [] s = (ok tt, s)
sync_pending os (segment ∷ pending) s =
    let rest = sync_pending os pending (record (sync_segment segment s) {
      unsynced_segments = set_remove segment s.unsynced_segments;
    }) in
    if os.syncs segment then rest else (err io, s)

unfoldable pub sync_unsynced : Os → ClogSegmentStore → Result (Unit {0}) × ClogSegmentStore
sync_unsynced os s = sync_pending os s.unsynced_segments s

-- A page that was written is read, and no other page changes.
pub read_page-write_page :
    (p q i : ℕ) (buf : Buffer) (s : ClogSegmentStore)
    → i < clog_page_bytes
    → read_page q (write_page p buf s) i ≡ (if q == p then buf i else read_page q s i)
unfolding read_page write_page write_all_at segment_id_of_page page_offset_in_segment
read_page-write_page p q i buf s h = elim (Bool-cases (q / 16384 == p / 16384)) [
  | inl same ↦ rw same (ground arith)
  | inr other ↦ rw other (ground arith)
]

-- A segment that has no pending write is durable.
abbrev pub IsTracked : ClogSegmentStore → Type 0
IsTracked s =
    (segment offset : ℕ)
    → contains segment s.unsynced_segments ≡ false
    → s.synced segment offset ≡ s.files segment offset

pub write_page-IsTracked :
    (p : ℕ) (buf : Buffer) (s : ClogSegmentStore) → IsTracked s → IsTracked (write_page p buf s)
unfolding write_page
write_page-IsTracked p buf s h segment offset out = ground (
  arith,
  contains-set_insert (segment_id_of_page p) segment s.unsynced_segments,
  h segment offset,
)

dropped :
    (segment : ℕ) (s : ClogSegmentStore)
    → IsTracked s
    → IsTracked (record (sync_segment segment s) {
      unsynced_segments = set_remove segment s.unsynced_segments;
    })
unfolding sync_segment
dropped segment s h other offset out =
    ground (arith, contains-set_remove segment other s.unsynced_segments, h other offset)

-- An fsync changes no file. The segments that it leaves pending are tracked still, and when it
-- succeeds none of those that it was given is pending.
pub sync_pending_lem :
    (os : Os) (pending : List ℕ) (s : ClogSegmentStore)
    → IsTracked s
    → ((sync_pending os pending s).1.files ≡ s.files) × IsTracked (sync_pending os pending s).1
unfolding sync_pending sync_segment
sync_pending_lem os [] s h = (refl, h)
sync_pending_lem os (segment ∷ pending) s h = elim (Bool-cases (os.syncs segment)) [
  | inl good ↦ rw good (sync_pending_lem os pending _ (dropped segment s h))
  | inr bad ↦ rw bad (refl, h)
]

pub sync_pending_done :
    (os : Os) (pending : List ℕ) (s : ClogSegmentStore)
    → (sync_pending os pending s).0 ≡ ok tt
    → (x : ℕ) → (contains x s.unsynced_segments ≡ true → contains x pending ≡ true)
    → contains x (sync_pending os pending s).1.unsynced_segments ≡ false
unfolding sync_pending sync_segment
sync_pending_done os [] s h x sub = elim (Bool-cases (contains x s.unsynced_segments)) [
  | inl there ↦ cc (sub there)
  | inr gone ↦ gone
]
sync_pending_done os (segment ∷ pending) s h x sub = elim (Bool-cases (os.syncs segment)) [
  | inl good ↦ rw good (
      sync_pending_done os pending _ (rw good at h) x (λ there. ground (
        arith,
        contains-set_remove segment x s.unsynced_segments,
        sub (ground (arith, contains-set_remove segment x s.unsynced_segments)),
      )))
  | inr bad ↦ absurd (ground (arith, bad, h))
]
