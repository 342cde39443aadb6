-- ===== src/Storage/Touched.antt =====
-- The pages that a log record modifies, `for_each_touched_page` of crates/pg-storage/src/analysis.rs.
-- bincode is a parameter.
use ams.Common.{ℕ, ◌+◌, none, some, List, [], ◌∷◌, ◌++◌, ◌==◌, if◌then◌else◌}
use ams.Common.Map.{Map}
use ams.Storage.Error.{Result, ok, err, serialize}
use ams.Storage.LittleEndian.{skip}
use ams.Storage.Wal.RecordType.{
  heap_insert, heap_update, heap_delete, btree_insert, btree_split_prepare, btree_delete,
  heap_hot_update, heap_cleanup, full_page_image, page_alloc, page_free, btree_split_clr,
  btree_split_copy, btree_split_commit, hnsw_node_init, hnsw_set_neighbors, hnsw_meta_update,
  hnsw_node_tombstone, hnsw_dir_append, hnsw_dir_link, hnsw_publish_live,
}
use ams.Storage.Wal.Frame.{WalRecord}
use ams.Storage.Wal.Codec.{Codec}
use ams.Storage.Wal.Heap.{Tid, CheckpointEndRecord, CheckpointEndRecordV1}
use ams.Storage.Wal.Hnsw.{
  HnswSeqHead, HnswNodeTombstoneRecord, HnswPublishLiveRecord, hnsw_node_tombstone_decode,
  hnsw_publish_live_decode,
}

infixl 5 ◌>>=◌
abbrev pub ◌>>=◌ : {A B : Type 0} → Result A → (A → Result B) → Result B
ok a >>= f = f a
err e >>= f = err e

-- The codecs of the fields and payloads that the phase decodes.
pub record Codecs : Type 0 where
  pub page_id : Codec ℕ
  pub tid : Codec Tid
  pub byte : Codec ℕ
  pub short : Codec ℕ
  pub lsn : Codec ℕ
  pub seq_head : Codec HnswSeqHead
  pub tombstone : Codec HnswNodeTombstoneRecord
  pub publish_live : Codec HnswPublishLiveRecord
  pub checkpoint_end : Codec CheckpointEndRecord
  pub checkpoint_end_v1 : Codec CheckpointEndRecordV1
  pub xids : Codec (List ℕ)
  pub entries : Codec (Map ℕ)

-- A value and the offset after it.
unfoldable pub decode_prefix : {T : Type 0} → Codec T → List ℕ → ℕ → Result (T × ℕ)
decode_prefix c payload offset = elim (c.decode_from_slice (skip offset payload)) [
  | none ↦ err serialize
  | some (value, read) ↦ ok (value, offset + read)
]

abbrev pub unless_invalid : ℕ → List ℕ
unless_invalid p = if p == 0 then [] else p ∷ []

unfoldable pub one_page : Codecs → List ℕ → Result (List ℕ)
one_page c payload = do (p, _) ← decode_prefix c.page_id payload 0; ok (p ∷ [])

unfoldable pub two_pages : Codecs → List ℕ → Result (List ℕ)
two_pages c payload = do
  (p, off) ← decode_prefix c.page_id payload 0
  (q, _) ← decode_prefix c.page_id payload off
  ok (p ∷ q ∷ [])

unfoldable pub three_pages : Codecs → List ℕ → Result (List ℕ)
three_pages c payload = do
  (left, off) ← decode_prefix c.page_id payload 0
  (right, off') ← decode_prefix c.page_id payload off
  (parent, _) ← decode_prefix c.page_id payload off'
  ok (left ∷ right ∷ parent ∷ [])

unfoldable pub cleanup_pages : Codecs → List ℕ → Result (List ℕ)
cleanup_pages c payload = do
  (page, off) ← decode_prefix c.page_id payload 0
  (prev, _) ← decode_prefix c.page_id payload off
  ok (page ∷ unless_invalid prev)

unfoldable pub clr_pages : Codecs → List ℕ → Result (List ℕ)
clr_pages c payload = do
  (left, o1) ← decode_prefix c.page_id payload 0
  (right, o2) ← decode_prefix c.page_id payload o1
  (_, o3) ← decode_prefix c.byte payload o2
  (_, o4) ← decode_prefix c.short payload o3
  (_, o5) ← decode_prefix c.lsn payload o4
  (parent, o6) ← decode_prefix c.page_id payload o5
  (_, o7) ← decode_prefix c.short payload o6
  (new_root, o8) ← decode_prefix c.page_id payload o7
  (meta, _) ← decode_prefix c.page_id payload o8
  ok (left ∷ right ∷ (unless_invalid parent ++ (unless_invalid new_root ++ unless_invalid meta)))

-- The pages for which `f` is called, in order. Every field is decoded before the first call.
unfoldable pub for_each_touched_page : Codecs → WalRecord → Result (List ℕ)
for_each_touched_page c r = elim r.record_type [
  | page_alloc ↦ one_page c r.payload
  | page_free ↦ one_page c r.payload
  | full_page_image ↦ one_page c r.payload
  | heap_insert ↦ one_page c r.payload
  | btree_insert ↦ one_page c r.payload
  | btree_delete ↦ one_page c r.payload
  | heap_hot_update ↦ one_page c r.payload
  | hnsw_meta_update ↦ one_page c r.payload
  | hnsw_dir_append ↦ one_page c r.payload
  | hnsw_dir_link ↦ one_page c r.payload
  | heap_delete ↦ do (tid, _) ← decode_prefix c.tid r.payload 0; ok (tid.page_id ∷ [])
  | heap_update ↦ do
    (old_tid, off) ← decode_prefix c.tid r.payload 0
    (new_tid, _) ← decode_prefix c.tid r.payload off
    ok (old_tid.page_id ∷ new_tid.page_id ∷ [])
  | heap_cleanup ↦ cleanup_pages c r.payload
  | btree_split_prepare ↦ two_pages c r.payload
  | btree_split_copy ↦ two_pages c r.payload
  | btree_split_commit ↦ three_pages c r.payload
  | btree_split_clr ↦ clr_pages c r.payload
  | hnsw_node_init ↦ do (head, _) ← decode_prefix c.seq_head r.payload 0; ok (head.page_id ∷ [])
  | hnsw_set_neighbors ↦ do (head, _) ← decode_prefix c.seq_head r.payload 0; ok (head.page_id ∷ [])
  | hnsw_node_tombstone ↦ do
    tombstone ← hnsw_node_tombstone_decode c.tombstone r.payload r.flags
    ok (tombstone.page_id ∷ [])
  | hnsw_publish_live ↦ do
    live ← hnsw_publish_live_decode c.publish_live r.payload r.flags
    ok (live.page_id ∷ [])
  | _ ↦ ok []
]
