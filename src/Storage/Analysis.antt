-- ===== src/Storage/Analysis.antt =====
-- The analysis phase of recovery: crates/pg-storage/src/analysis.rs, and its call in
-- crates/pg-storage/src/engine.rs. The reader of the log is its records, in order, with what it gives
-- after the last of them. A snapshot file is what reading it gives. bincode and the checksum are
-- parameters.
pub mod Active
pub mod Dirty
pub mod Anchor
mod Examples
use ams.Common.{
  ℕ, zero, suc, ◌+◌, ◌<◌, ◌≡◌, refl, Bool, true, false, ◌&&◌, ◌||◌, not, Option, none, some, List,
  [], ◌∷◌, ◌++◌, length, ltb, leb, ◌==◌, if◌then◌else◌, set_insert, set_remove,
}
use ams.Common.Map.{Map, lookup, insert}
use ams.Common.Sort.{sort}
use ams.Storage.Error.{Result, ok, err, StorageError, wal_corrupted, metadata_corrupted, serialize}
use ams.Storage.LittleEndian.{from_le_bytes, take, skip}
use ams.Storage.Wal.RecordType.{
  WalRecordType, heap_insert, heap_update, heap_delete, btree_insert, btree_split_prepare,
  btree_delete, heap_hot_update, heap_cleanup, full_page_image, txn_commit, txn_abort,
  checkpoint_end, page_alloc, page_free, btree_split_clr, btree_split_copy, btree_split_commit,
  hnsw_node_init, hnsw_set_neighbors, hnsw_meta_update, hnsw_node_tombstone, hnsw_dir_append,
  hnsw_dir_link, hnsw_publish_live,
}
use ams.Storage.Wal.Frame.{WalRecord}
use ams.Storage.Wal.Codec.{Codec, decode_payload}
use ams.Storage.Wal.Heap.{Tid, CheckpointEndRecord, CheckpointEndRecordV1, checkpoint_end_decode}
use ams.Storage.Wal.Hnsw.{
  HnswSeqHead, HnswNodeTombstoneRecord, HnswPublishLiveRecord, hnsw_node_tombstone_decode,
  hnsw_publish_live_decode,
}
use ams.Txn.Clog.{Clog, TxnState, in_progress}
use ams.Storage.Touched.{◌>>=◌, Codecs, for_each_touched_page}

pub record AnalysisResult : Type 0 where
  pub redo_start : ℕ
  pub att : List ℕ
  pub dpt : Map ℕ

-- What the reader gives: records, and then the end of the log or an error.
pub record Log : Type 0 where
  pub records : List WalRecord
  pub stop : Option StorageError

unfoldable pub is_hard_error : StorageError → Bool
is_hard_error (wal_corrupted _) = false
is_hard_error _ = true

-- `Some(Err(e))` from the reader ends a scan, and fails it if the error is hard.
unfoldable pub at_stop : {A : Type 0} → Option StorageError → A → Result A
at_stop none a = ok a
at_stop (some e) a = if is_hard_error e then err e else ok a

abbrev pub is_checkpoint_end : WalRecordType → Bool
is_checkpoint_end checkpoint_end = true
is_checkpoint_end _ = false

-- `TxnCommit | TxnAbort`
abbrev pub is_terminal : WalRecordType → Bool
is_terminal txn_commit = true
is_terminal txn_abort = true
is_terminal _ = false

-- The body of the loop on a record.
unfoldable pub latest_after :
    Codecs
    → WalRecord
    → Option (CheckpointEndRecord × ℕ)
    → Result (Option (CheckpointEndRecord × ℕ))
latest_after c r latest =
    if is_checkpoint_end r.record_type
    then (do
      decoded ← checkpoint_end_decode c.checkpoint_end c.checkpoint_end_v1 r.payload r.flags
      ok (some (decoded, r.lsn)))
    else ok latest

unfoldable pub find_checkpoint_end :
    Codecs
    → List WalRecord
    → Option StorageError
    → Option (CheckpointEndRecord × ℕ)
    → Result (Option (CheckpointEndRecord × ℕ))
find_checkpoint_end c [] stop latest = at_stop stop latest
find_checkpoint_end c (r ∷ records) stop latest =
    latest_after c r latest >>= λ next. find_checkpoint_end c records stop next

unfoldable pub find_latest_checkpoint_end : Codecs → Log → Result (Option (CheckpointEndRecord × ℕ))
find_latest_checkpoint_end c log = find_checkpoint_end c log.records log.stop none

unfoldable pub track_xid : WalRecord → List ℕ → List ℕ
track_xid r att =
    if is_terminal r.record_type
    then set_remove r.txn_id att
    else if not (r.txn_id == 0)
    then set_insert r.txn_id att
    else att

-- `dpt.entry(page_id).or_insert(lsn)`
unfoldable pub or_insert : ℕ → ℕ → Map ℕ → Map ℕ
or_insert page_id lsn dpt = elim (lookup page_id dpt) [
  | none ↦ insert page_id lsn dpt
  | some _ ↦ dpt
]

unfoldable pub or_insert_all : List ℕ → ℕ → Map ℕ → Map ℕ
or_insert_all [] lsn dpt = dpt
or_insert_all (p ∷ pages) lsn dpt = or_insert_all pages lsn (or_insert p lsn dpt)

-- The loop of `run_analysis`.
unfoldable pub scan :
    Codecs → List WalRecord → Option StorageError → List ℕ → Map ℕ → Result (List ℕ × Map ℕ)
scan c [] stop att dpt = at_stop stop (att, dpt)
scan c (r ∷ records) stop att dpt = do
  pages ← for_each_touched_page c r
  scan c records stop (track_xid r att) (or_insert_all pages r.lsn dpt)

-- `sort_unstable_by_key` on the pairs of a map.
unfoldable pub insert_by_key : ℕ → ℕ → Map ℕ → Map ℕ
insert_by_key k v [] = (k, v) ∷ []
insert_by_key k v ((j, w) ∷ m) =
    let rest = insert_by_key k v m in if leb k j then (k, v) ∷ (j, w) ∷ m else (j, w) ∷ rest

unfoldable pub sort_by_key : Map ℕ → Map ℕ
sort_by_key [] = []
sort_by_key ((k, v) ∷ m) = insert_by_key k v (sort_by_key m)

-- `collect` into a set and into a map.
unfoldable pub collect_set : List ℕ → List ℕ
collect_set [] = []
collect_set (x ∷ xs) = set_insert x (collect_set xs)

unfoldable pub collect_map : Map ℕ → Map ℕ → Map ℕ
collect_map [] m = m
collect_map ((k, v) ∷ entries) m = collect_map entries (insert k v m)

module _ (crc : List ℕ → ℕ) (files : List ℕ → Result (List ℕ)) where
  unfoldable pub read_snapshot : {T : Type 0} → Codec T → List ℕ → Result T
  read_snapshot c path = do
    bytes ← files path
    if ltb (length bytes) 4
        then err metadata_corrupted
        else if not (from_le_bytes (take 4 bytes) == crc (skip 4 bytes))
        then err metadata_corrupted
        else decode_payload c (skip 4 bytes)

  unfoldable pub load_att_snapshot : Codecs → List ℕ → List ℕ
  load_att_snapshot c att_file =
      if length att_file == 0
      then []
      else (elim (read_snapshot c.xids att_file) [ err _ ↦ [] | ok xids ↦ collect_set xids ])

  unfoldable pub load_dpt_snapshot : Codecs → List ℕ → Map ℕ
  load_dpt_snapshot c dpt_file =
      if length dpt_file == 0 then [] else (elim (read_snapshot c.entries dpt_file) [
        | err _ ↦ []
        | ok entries ↦ collect_map entries []
      ])

  unfoldable pub run_analysis : Codecs → CheckpointEndRecord → Log → Result AnalysisResult
  run_analysis c end log = do
    (att, dpt) ←
        scan c log.records log.stop (load_att_snapshot c end.att_file)
          (load_dpt_snapshot c end.dpt_file)
    ok (record { redo_start = end.checkpoint_lsn; att = sort att; dpt = sort_by_key dpt })

  -- `StorageEngine::run_analysis`, on the log from each position. `Lsn::FIRST` is 8.
  unfoldable pub analyze : Codecs → ℕ → (ℕ → Log) → Result AnalysisResult
  analyze c checkpoint_lsn log_at =
      let scan_start = if checkpoint_lsn == 0 then 8 else checkpoint_lsn in
      let synthesized : CheckpointEndRecord = record {
        checkpoint_lsn = scan_start;
        next_page_id = 0;
        next_txn_id = 0;
        next_oid = 0;
        att_file = [];
        dpt_file = [];
      } in
      do
        found ← find_latest_checkpoint_end c (log_at scan_start)
        let anchor : CheckpointEndRecord = elim found [
          | none ↦ synthesized
          | some (end, _) ↦ if end.checkpoint_lsn == checkpoint_lsn then end else synthesized
        ]
        run_analysis c anchor (log_at anchor.checkpoint_lsn)

-- The filter of the recovered transactions, after redo has rebuilt the commit log.
abbrev pub is_unfinished : TxnState → Bool
is_unfinished s = elim s [ TxnState.committed ↦ false | TxnState.aborted ↦ false | _ ↦ true ]

unfoldable pub filter_recovered : Clog → List ℕ → List ℕ
filter_recovered clog [] = []
filter_recovered clog (xid ∷ att) =
    let rest = filter_recovered clog att in if is_unfinished (clog xid) then xid ∷ rest else rest
