-- ===== src/Storage/Wal/Hnsw/Create.antt =====
-- The constructors of the records of the HNSW graph: crates/pg-storage/src/wal/record.rs.
use ams.Common.{
  ℕ, ◌%◌, ◌^◌, Bool, true, ◌&&◌, not, List, [], ◌∷◌, length, contains, leb, ◌==◌, if◌then◌else◌,
}
use ams.Storage.Error.{Result, err, serialize}
use ams.Storage.Wal.RecordType.{
  hnsw_node_init, hnsw_set_neighbors, hnsw_meta_update, hnsw_node_tombstone, hnsw_dir_append,
  hnsw_dir_link, hnsw_publish_live,
}
use ams.Storage.Wal.Frame.{WalRecord}
use ams.Storage.Wal.Codec.{Codec, with_payload, stamp_flags, unstamped}
use ams.Storage.Wal.Heap.{any_descent}
use ams.Storage.Wal.Hnsw.{
  HnswNodeInitRecord, HnswSetNeighborsRecord, HnswMetaUpdateRecord, HnswNodeTombstoneRecord,
  HnswDirAppendRecord, HnswDirLinkRecord, HnswPublishLiveRecord, u32_max, hnsw_state_v1_flags,
}

-- `reject_invalid_page_id` and `reject_invalid_node_id`: `PageId::INVALID`, and `u32::MAX`.
unfoldable pub rejected_page : ℕ → Bool
rejected_page page = page == 0

unfoldable pub rejected_node : ℕ → Bool
rejected_node node = node == u32_max

module _ {F : Type 0} (is_finite : F → Bool) where
  unfoldable pub all_finite : List F → Bool
  all_finite [] = true
  all_finite (x ∷ xs) = is_finite x && all_finite xs

  unfoldable pub hnsw_node_init_record :
      Codec (HnswNodeInitRecord F) → ℕ → ℕ → ℕ → ℕ → ℕ → ℕ → List F → Result WalRecord
  hnsw_node_init_record c meta_page page slot node l dim v =
      if rejected_page meta_page
      then err serialize
      else if rejected_page page
      then err serialize
      else if rejected_node node
      then err serialize
      else if dim == 0
      then err serialize
      else if not (length v == dim)
      then err serialize
      else if not (all_finite v)
      then err serialize
      else if not (leb l 63)
      then err serialize
      else with_payload c
          (record {
            head = record {
              meta_page_id = meta_page;
              page_id = page;
              slot_id = slot;
              node_id = node;
              level = l;
              tail = dim;
            };
            vector = v;
          })
          hnsw_node_init unstamped

unfoldable pub hnsw_set_neighbors_record :
    Codec HnswSetNeighborsRecord → ℕ → ℕ → ℕ → ℕ → ℕ → List ℕ → Result WalRecord
hnsw_set_neighbors_record c meta_page page slot node l ns =
    if rejected_page meta_page
    then err serialize
    else if rejected_page page
    then err serialize
    else if rejected_node node
    then err serialize
    else if contains u32_max ns
    then err serialize
    else if not (leb l 63)
    then err serialize
    else if not (leb (length ns) 65535)
    then err serialize
    else if any_descent ns
    then err serialize
    else if contains node ns
    then err serialize
    else with_payload c
        (record {
          head = record {
            meta_page_id = meta_page;
            page_id = page;
            slot_id = slot;
            node_id = node;
            level = l;
            tail = length ns % 2 ^ 16;
          };
          neighbors = ns;
        })
        hnsw_set_neighbors unstamped

unfoldable pub hnsw_meta_update_record : Codec HnswMetaUpdateRecord → ℕ → ℕ → ℕ → Result WalRecord
hnsw_meta_update_record c meta_page entry max =
    if rejected_page meta_page
    then err serialize
    else if not (leb max 63)
    then err serialize
    else if entry == u32_max && not (max == 0)
    then err serialize
    else with_payload c (record { meta_page_id = meta_page; entry_point = entry; max_level = max })
        hnsw_meta_update unstamped

unfoldable pub hnsw_node_tombstone_record :
    Codec HnswNodeTombstoneRecord → ℕ → ℕ → ℕ → ℕ → ℕ → Result WalRecord
hnsw_node_tombstone_record c meta_page page slot node d =
    if rejected_page meta_page
    then err serialize
    else if rejected_page page
    then err serialize
    else if rejected_node node
    then err serialize
    else if d == 0
    then err serialize
    else with_payload c
        (record {
          page_id = page;
          slot_id = slot;
          node_id = node;
          dim = d;
          meta_page_id = meta_page;
        })
        hnsw_node_tombstone (stamp_flags hnsw_state_v1_flags)

unfoldable pub hnsw_dir_append_record : Codec HnswDirAppendRecord → ℕ → ℕ → ℕ → ℕ → Result WalRecord
hnsw_dir_append_record c dir node page slot =
    if rejected_page dir
    then err serialize
    else if rejected_node node
    then err serialize
    else if rejected_page page
    then err serialize
    else with_payload c
        (record { dir_tail_page = dir; node_id = node; target_page = page; target_slot = slot })
        hnsw_dir_append unstamped

unfoldable pub hnsw_dir_link_record : Codec HnswDirLinkRecord → ℕ → ℕ → Result WalRecord
hnsw_dir_link_record c old next =
    if rejected_page old
    then err serialize
    else if rejected_page next
    then err serialize
    else if next == old
    then err serialize
    else with_payload c (record { old_tail_page = old; next_page = next }) hnsw_dir_link unstamped

unfoldable pub hnsw_publish_live_record :
    Codec HnswPublishLiveRecord → ℕ → ℕ → ℕ → ℕ → ℕ → Result WalRecord
hnsw_publish_live_record c meta_page page slot node d =
    if rejected_page meta_page
    then err serialize
    else if rejected_page page
    then err serialize
    else if rejected_node node
    then err serialize
    else if d == 0
    then err serialize
    else with_payload c
        (record {
          page_id = page;
          slot_id = slot;
          node_id = node;
          dim = d;
          meta_page_id = meta_page;
        })
        hnsw_publish_live (stamp_flags hnsw_state_v1_flags)
