-- ===== src/Storage/Wal/Hnsw.antt =====
-- The records of the HNSW graph: crates/pg-storage/src/wal/record.rs, their structs and
-- bounded decoders. A floating-point number is a parameter, with its test of being finite.
pub mod Create
pub mod Accepted
mod Examples
use ams.Common.{
  ℕ, ◌+◌, ◌-◌, ◌*◌, ◌/◌, ◌%◌, ◌^◌, Bool, true, false, ◌&&◌, ◌||◌, not, Option, none, some, List, [],
  ◌∷◌, length, contains, leb, ltb, ◌==◌, if◌then◌else◌,
}
use ams.Storage.LittleEndian.{skip}
use ams.Storage.Error.{Result, ok, err, serialize, wal_read_failed}
use ams.Storage.Wal.RecordType.{
  hnsw_node_init, hnsw_set_neighbors, hnsw_meta_update, hnsw_node_tombstone, hnsw_dir_append,
  hnsw_dir_link, hnsw_publish_live,
}
use ams.Storage.Wal.Frame.{WalRecord}
use ams.Storage.Wal.Codec.{Codec, with_payload, stamp_flags, unstamped}
use ams.Storage.Wal.Heap.{any_descent}

pub record HnswSeqHead : Type 0 where
  pub meta_page_id : ℕ
  pub page_id : ℕ
  pub slot_id : ℕ
  pub node_id : ℕ
  pub level : ℕ
  pub tail : ℕ

pub record HnswNodeInitRecord (F : Type 0) : Type 0 where
  pub head : HnswSeqHead
  pub vector : List F

pub record HnswSetNeighborsRecord : Type 0 where
  pub head : HnswSeqHead
  pub neighbors : List ℕ

pub record HnswMetaUpdateRecord : Type 0 where
  pub meta_page_id : ℕ
  pub entry_point : ℕ
  pub max_level : ℕ

pub record HnswNodeTombstoneRecord : Type 0 where
  pub page_id : ℕ
  pub slot_id : ℕ
  pub node_id : ℕ
  pub dim : ℕ
  pub meta_page_id : ℕ

pub record HnswDirAppendRecord : Type 0 where
  pub dir_tail_page : ℕ
  pub node_id : ℕ
  pub target_page : ℕ
  pub target_slot : ℕ

pub record HnswDirLinkRecord : Type 0 where
  pub old_tail_page : ℕ
  pub next_page : ℕ

pub record HnswPublishLiveRecord : Type 0 where
  pub page_id : ℕ
  pub slot_id : ℕ
  pub node_id : ℕ
  pub dim : ℕ
  pub meta_page_id : ℕ

abbrev pub hnsw_state_version_v1 : ℕ
hnsw_state_version_v1 = 1

abbrev pub hnsw_state_v1_flags : ℕ
hnsw_state_v1_flags = hnsw_state_version_v1 * 16

-- `u32::MAX`, the node that is none.
abbrev pub u32_max : ℕ
u32_max = 2 ^ 32 - 1

-- A payload must be consumed to its last byte.
unfoldable pub decode_hnsw_payload : {T : Type 0} → Codec T → List ℕ → Result T
decode_hnsw_payload c payload = elim (c.decode_from_slice payload) [
  | none ↦ err serialize
  | some (rec, read) ↦ if not (read == length payload) then err serialize else ok rec
]

-- The test before a list is allocated: its length, as the payload says, fits in the bytes that
-- remain, each element at least so wide, and is the length that the head declares. `ok tt` passes.
unfoldable pub bounded_seq_gate : Codec HnswSeqHead → Codec ℕ → List ℕ → ℕ → Result Unit
bounded_seq_gate heads lengths payload elem_min = elim (heads.decode_from_slice payload) [
  | none ↦ err serialize
  | some (head, off) ↦ elim (lengths.decode_from_slice (skip off payload)) [
    | none ↦ err serialize
    | some (wire_len, len_bytes) ↦
        if not (leb wire_len ((length payload - off - len_bytes) / elem_min))
        then err serialize
        else if not (wire_len == head.tail)
        then err serialize
        else ok tt
  ]
]

unfoldable pub hnsw_node_init_decode :
    {F : Type 0}
    → Codec HnswSeqHead
    → Codec ℕ
    → Codec (HnswNodeInitRecord F)
    → List ℕ
    → Result (HnswNodeInitRecord F)
hnsw_node_init_decode heads lengths c payload = elim (bounded_seq_gate heads lengths payload 4) [
  | err e ↦ err e
  | ok _ ↦ decode_hnsw_payload c payload
]

unfoldable pub hnsw_set_neighbors_decode :
    Codec HnswSeqHead
    → Codec ℕ
    → Codec HnswSetNeighborsRecord
    → List ℕ
    → Result HnswSetNeighborsRecord
hnsw_set_neighbors_decode heads lengths c payload =
    elim (bounded_seq_gate heads lengths payload 1) [
      | err e ↦ err e
      | ok _ ↦ decode_hnsw_payload c payload
    ]

unfoldable pub hnsw_meta_update_decode :
    Codec HnswMetaUpdateRecord → List ℕ → Result HnswMetaUpdateRecord
hnsw_meta_update_decode c payload = elim (decode_hnsw_payload c payload) [
  | err e ↦ err e
  | ok rec ↦
      if rec.entry_point == u32_max && not (rec.max_level == 0) then err serialize else ok rec
]

-- A payload under its version, the high nibble of the flags: 0 was never released.
unfoldable pub decode_versioned : {T : Type 0} → Codec T → List ℕ → ℕ → Result T
decode_versioned c payload flags =
    let version = flags / 2 ^ 4 in
    if version == 0
    then err serialize
    else if version == hnsw_state_version_v1
    then decode_hnsw_payload c payload
    else err wal_read_failed

unfoldable pub hnsw_node_tombstone_decode :
    Codec HnswNodeTombstoneRecord → List ℕ → ℕ → Result HnswNodeTombstoneRecord
hnsw_node_tombstone_decode c payload flags = decode_versioned c payload flags

unfoldable pub hnsw_dir_append_decode :
    Codec HnswDirAppendRecord → List ℕ → Result HnswDirAppendRecord
hnsw_dir_append_decode c payload = decode_hnsw_payload c payload

unfoldable pub hnsw_dir_link_decode : Codec HnswDirLinkRecord → List ℕ → Result HnswDirLinkRecord
hnsw_dir_link_decode c payload = decode_hnsw_payload c payload

unfoldable pub hnsw_publish_live_decode :
    Codec HnswPublishLiveRecord → List ℕ → ℕ → Result HnswPublishLiveRecord
hnsw_publish_live_decode c payload flags = decode_versioned c payload flags
