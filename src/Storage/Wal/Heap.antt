-- ===== src/Storage/Wal/Heap.antt =====
-- The records of the page file, of the heap, of transactions and of checkpoints:
-- crates/pg-storage/src/wal/record.rs, their structs, constructors and `decode`.
use ams.Common.{
  ◌^◌, ℕ, ◌-◌, ◌*◌, ◌/◌, Bool, false, ◌||◌, not, List, [], ◌∷◌, length, leb, ◌==◌, if◌then◌else◌,
}
use ams.Storage.Types.{first_user}
use ams.Storage.Error.{Result, ok, err, serialize, wal_read_failed}
use ams.Storage.Wal.RecordType.{
  page_alloc, page_free, full_page_image, checkpoint_begin, checkpoint_end, heap_insert,
  heap_update, heap_delete, heap_hot_update, heap_cleanup, txn_commit, txn_abort,
}
use ams.Storage.Wal.Frame.{WalRecord}
use ams.Storage.Wal.Codec.{
  Codec, decode_payload, new_record, with_payload, stamp_xid, stamp_flags, unstamped,
}

pub record PageAllocRecord : Type 0 where
  pub page_id : ℕ

pub record PageFreeRecord : Type 0 where
  pub page_id : ℕ

pub record FullPageImageRecord : Type 0 where
  pub page_id : ℕ
  pub image : List ℕ

-- `Tid` of crates/pg-storage/src/types.rs.
pub record Tid : Type 0 where
  pub page_id : ℕ
  pub slot_id : ℕ

pub record HeapInsertRecord : Type 0 where
  pub page_id : ℕ
  pub slot_id : ℕ
  pub tuple_bytes : List ℕ

pub record HeapUpdateRecord : Type 0 where
  pub old_tid : Tid
  pub new_tid : Tid
  pub xmax_old : ℕ
  pub new_tuple_bytes : List ℕ

pub record HeapDeleteRecord : Type 0 where
  pub tid : Tid
  pub xmax : ℕ

pub record HeapHotUpdateRecord : Type 0 where
  pub page_id : ℕ
  pub old_slot : ℕ
  pub new_slot : ℕ
  pub new_tuple_bytes : List ℕ
  pub xmax : ℕ

pub record HeapCleanupRecord : Type 0 where
  pub page_id : ℕ
  pub unlink_prev_page : ℕ
  pub unlink_next_page : ℕ
  pub dead_slots : List ℕ

pub record TxnCommitRecord : Type 0 where
  pub xid : ℕ

pub record TxnAbortRecord : Type 0 where
  pub xid : ℕ

-- The names of files are their characters' codes.
pub record CheckpointEndRecord : Type 0 where
  pub checkpoint_lsn : ℕ
  pub next_page_id : ℕ
  pub next_txn_id : ℕ
  pub next_oid : ℕ
  pub att_file : List ℕ
  pub dpt_file : List ℕ

pub record CheckpointEndRecordV1 : Type 0 where
  pub checkpoint_lsn : ℕ
  pub next_page_id : ℕ
  pub next_txn_id : ℕ

abbrev pub max_heap_cleanup_slots : ℕ
max_heap_cleanup_slots = (8192 - 32 - 16) / 4

abbrev pub checkpoint_end_version_v2 : ℕ
checkpoint_end_version_v2 = 1

abbrev pub checkpoint_end_v2_flags : ℕ
checkpoint_end_v2_flags = checkpoint_end_version_v2 * 16

-- `windows(2).any(|w| w[0] >= w[1])`.
unfoldable pub any_descent : List ℕ → Bool
any_descent [] = false
any_descent (x ∷ []) = false
any_descent (x ∷ y ∷ rest) = leb y x || any_descent (y ∷ rest)

unfoldable pub page_alloc_record : Codec PageAllocRecord → ℕ → Result WalRecord
page_alloc_record c page = with_payload c (record { page_id = page }) page_alloc unstamped

unfoldable pub page_free_record : Codec PageFreeRecord → ℕ → Result WalRecord
page_free_record c page = with_payload c (record { page_id = page }) page_free unstamped

unfoldable pub full_page_image_record : Codec FullPageImageRecord → ℕ → List ℕ → Result WalRecord
full_page_image_record c page bytes =
    with_payload c (record { page_id = page; image = bytes }) full_page_image unstamped

unfoldable pub checkpoint_begin_record : WalRecord
checkpoint_begin_record = new_record checkpoint_begin []

unfoldable pub heap_insert_record : Codec HeapInsertRecord → ℕ → ℕ → List ℕ → ℕ → Result WalRecord
heap_insert_record c page slot bytes xid =
    with_payload c (record { page_id = page; slot_id = slot; tuple_bytes = bytes }) heap_insert
      (stamp_xid xid)

unfoldable pub heap_update_record :
    Codec HeapUpdateRecord → Tid → Tid → ℕ → List ℕ → ℕ → Result WalRecord
heap_update_record c old new xmax bytes xid =
    with_payload c
      (record { old_tid = old; new_tid = new; xmax_old = xmax; new_tuple_bytes = bytes })
      heap_update (stamp_xid xid)

unfoldable pub heap_delete_record : Codec HeapDeleteRecord → Tid → ℕ → ℕ → Result WalRecord
heap_delete_record c t x xid =
    with_payload c (record { tid = t; xmax = x }) heap_delete (stamp_xid xid)

unfoldable pub heap_hot_update_record :
    Codec HeapHotUpdateRecord → ℕ → ℕ → ℕ → List ℕ → ℕ → ℕ → Result WalRecord
heap_hot_update_record c page old new bytes x xid =
    with_payload c
      (record { page_id = page; old_slot = old; new_slot = new; new_tuple_bytes = bytes; xmax = x })
      heap_hot_update (stamp_xid xid)

unfoldable pub heap_cleanup_record : Codec HeapCleanupRecord → ℕ → List ℕ → ℕ → ℕ → Result WalRecord
heap_cleanup_record c page dead prev next =
    if any_descent dead
    then err serialize
    else if not (leb (length dead) max_heap_cleanup_slots)
    then err serialize
    else with_payload c
        (record {
          page_id = page;
          unlink_prev_page = prev;
          unlink_next_page = next;
          dead_slots = dead;
        })
        heap_cleanup unstamped

unfoldable pub txn_commit_record : Codec TxnCommitRecord → ℕ → Result WalRecord
txn_commit_record c x = with_payload c (record { xid = x }) txn_commit (stamp_xid x)

unfoldable pub txn_abort_record : Codec TxnAbortRecord → ℕ → Result WalRecord
txn_abort_record c x = with_payload c (record { xid = x }) txn_abort (stamp_xid x)

unfoldable pub checkpoint_end_record :
    Codec CheckpointEndRecord → ℕ → ℕ → ℕ → ℕ → List ℕ → List ℕ → Result WalRecord
checkpoint_end_record c lsn page txn oid att dpt =
    with_payload c
      (record {
        checkpoint_lsn = lsn;
        next_page_id = page;
        next_txn_id = txn;
        next_oid = oid;
        att_file = att;
        dpt_file = dpt;
      })
      checkpoint_end (stamp_flags checkpoint_end_v2_flags)

unfoldable pub heap_insert_decode : Codec HeapInsertRecord → List ℕ → Result HeapInsertRecord
heap_insert_decode c payload = decode_payload c payload

unfoldable pub heap_update_decode : Codec HeapUpdateRecord → List ℕ → Result HeapUpdateRecord
heap_update_decode c payload = decode_payload c payload

unfoldable pub heap_delete_decode : Codec HeapDeleteRecord → List ℕ → Result HeapDeleteRecord
heap_delete_decode c payload = decode_payload c payload

unfoldable pub heap_hot_update_decode :
    Codec HeapHotUpdateRecord → List ℕ → Result HeapHotUpdateRecord
heap_hot_update_decode c payload = decode_payload c payload

unfoldable pub heap_cleanup_decode : Codec HeapCleanupRecord → List ℕ → Result HeapCleanupRecord
heap_cleanup_decode c payload = elim (decode_payload c payload) [
  | err e ↦ err e
  | ok rec ↦
      if not (leb (length rec.dead_slots) max_heap_cleanup_slots) then err serialize else ok rec
]

unfoldable pub txn_commit_decode : Codec TxnCommitRecord → List ℕ → Result TxnCommitRecord
txn_commit_decode c payload = decode_payload c payload

unfoldable pub txn_abort_decode : Codec TxnAbortRecord → List ℕ → Result TxnAbortRecord
txn_abort_decode c payload = decode_payload c payload

-- The version is the high nibble of the flags: 0 is the format without the last three fields.
unfoldable pub checkpoint_end_decode :
    Codec CheckpointEndRecord
    → Codec CheckpointEndRecordV1
    → List ℕ
    → ℕ
    → Result CheckpointEndRecord
checkpoint_end_decode c c1 payload flags =
    let version = flags / 2 ^ 4 in
    if version == 0
    then elim (decode_payload c1 payload) [
      | err e ↦ err e
      | ok v1 ↦ ok (record {
        checkpoint_lsn = v1.checkpoint_lsn;
        next_page_id = v1.next_page_id;
        next_txn_id = v1.next_txn_id;
        next_oid = first_user;
        att_file = [];
        dpt_file = [];
      })
    ]
    else if version == checkpoint_end_version_v2
    then decode_payload c payload
    else err wal_read_failed
