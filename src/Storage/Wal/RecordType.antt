-- ===== src/Storage/Wal/RecordType.antt =====
-- The types of log records and their discriminants: crates/pg-storage/src/wal/record.rs.
use ams.Common.{ℕ, ◌≡◌, refl, arith, ◌==◌, if◌then◌else◌}
use ams.Storage.Error.{Result, ok, err, wal_read_failed}

pub data WalRecordType : Type 0 where
  heap_insert : WalRecordType
  heap_update : WalRecordType
  heap_delete : WalRecordType
  btree_insert : WalRecordType
  btree_split_prepare : WalRecordType
  btree_delete : WalRecordType
  heap_hot_update : WalRecordType
  heap_cleanup : WalRecordType
  full_page_image : WalRecordType
  txn_begin : WalRecordType
  txn_commit : WalRecordType
  txn_abort : WalRecordType
  checkpoint_begin : WalRecordType
  checkpoint_end : WalRecordType
  page_alloc : WalRecordType
  page_free : WalRecordType
  btree_split_clr : WalRecordType
  btree_split_copy : WalRecordType
  btree_split_commit : WalRecordType
  logical_hnsw : WalRecordType
  logical_inverted : WalRecordType
  logical_graph : WalRecordType
  logical_time_series : WalRecordType
  segment_seal : WalRecordType
  segment_merge : WalRecordType
  hnsw_node_init : WalRecordType
  hnsw_set_neighbors : WalRecordType
  hnsw_meta_update : WalRecordType
  hnsw_node_tombstone : WalRecordType
  hnsw_dir_append : WalRecordType
  hnsw_dir_link : WalRecordType
  hnsw_publish_live : WalRecordType

unfoldable pub to_u8 : WalRecordType → ℕ
to_u8 heap_insert = 1
to_u8 heap_update = 2
to_u8 heap_delete = 3
to_u8 btree_insert = 4
to_u8 btree_split_prepare = 5
to_u8 btree_delete = 6
to_u8 heap_hot_update = 7
to_u8 heap_cleanup = 8
to_u8 full_page_image = 10
to_u8 txn_begin = 20
to_u8 txn_commit = 21
to_u8 txn_abort = 22
to_u8 checkpoint_begin = 30
to_u8 checkpoint_end = 31
to_u8 page_alloc = 40
to_u8 page_free = 41
to_u8 btree_split_clr = 50
to_u8 btree_split_copy = 51
to_u8 btree_split_commit = 52
to_u8 logical_hnsw = 100
to_u8 logical_inverted = 101
to_u8 logical_graph = 102
to_u8 logical_time_series = 103
to_u8 segment_seal = 110
to_u8 segment_merge = 111
to_u8 hnsw_node_init = 121
to_u8 hnsw_set_neighbors = 122
to_u8 hnsw_meta_update = 123
to_u8 hnsw_node_tombstone = 124
to_u8 hnsw_dir_append = 125
to_u8 hnsw_dir_link = 126
to_u8 hnsw_publish_live = 127

unfoldable pub from_u8 : ℕ → Result WalRecordType
from_u8 v =
    if v == 1
    then ok heap_insert
    else if v == 2
    then ok heap_update
    else if v == 3
    then ok heap_delete
    else if v == 4
    then ok btree_insert
    else if v == 5
    then ok btree_split_prepare
    else if v == 6
    then ok btree_delete
    else if v == 7
    then ok heap_hot_update
    else if v == 8
    then ok heap_cleanup
    else if v == 10
    then ok full_page_image
    else if v == 20
    then ok txn_begin
    else if v == 21
    then ok txn_commit
    else if v == 22
    then ok txn_abort
    else if v == 30
    then ok checkpoint_begin
    else if v == 31
    then ok checkpoint_end
    else if v == 40
    then ok page_alloc
    else if v == 41
    then ok page_free
    else if v == 50
    then ok btree_split_clr
    else if v == 51
    then ok btree_split_copy
    else if v == 52
    then ok btree_split_commit
    else if v == 100
    then ok logical_hnsw
    else if v == 101
    then ok logical_inverted
    else if v == 102
    then ok logical_graph
    else if v == 103
    then ok logical_time_series
    else if v == 110
    then ok segment_seal
    else if v == 111
    then ok segment_merge
    else if v == 121
    then ok hnsw_node_init
    else if v == 122
    then ok hnsw_set_neighbors
    else if v == 123
    then ok hnsw_meta_update
    else if v == 124
    then ok hnsw_node_tombstone
    else if v == 125
    then ok hnsw_dir_append
    else if v == 126
    then ok hnsw_dir_link
    else if v == 127
    then ok hnsw_publish_live
    else err wal_read_failed

-- Every record type is read back from its discriminant.
pub from_u8-to_u8 : (t : WalRecordType) → from_u8 (to_u8 t) ≡ ok t
unfolding from_u8 to_u8
from_u8-to_u8 heap_insert = refl
from_u8-to_u8 heap_update = refl
from_u8-to_u8 heap_delete = refl
from_u8-to_u8 btree_insert = refl
from_u8-to_u8 btree_split_prepare = refl
from_u8-to_u8 btree_delete = refl
from_u8-to_u8 heap_hot_update = refl
from_u8-to_u8 heap_cleanup = refl
from_u8-to_u8 full_page_image = refl
from_u8-to_u8 txn_begin = refl
from_u8-to_u8 txn_commit = refl
from_u8-to_u8 txn_abort = refl
from_u8-to_u8 checkpoint_begin = refl
from_u8-to_u8 checkpoint_end = refl
from_u8-to_u8 page_alloc = refl
from_u8-to_u8 page_free = refl
from_u8-to_u8 btree_split_clr = refl
from_u8-to_u8 btree_split_copy = refl
from_u8-to_u8 btree_split_commit = refl
from_u8-to_u8 logical_hnsw = refl
from_u8-to_u8 logical_inverted = refl
from_u8-to_u8 logical_graph = refl
from_u8-to_u8 logical_time_series = refl
from_u8-to_u8 segment_seal = refl
from_u8-to_u8 segment_merge = refl
from_u8-to_u8 hnsw_node_init = refl
from_u8-to_u8 hnsw_set_neighbors = refl
from_u8-to_u8 hnsw_meta_update = refl
from_u8-to_u8 hnsw_node_tombstone = refl
from_u8-to_u8 hnsw_dir_append = refl
from_u8-to_u8 hnsw_dir_link = refl
from_u8-to_u8 hnsw_publish_live = refl

-- A byte that is read as a record type is the discriminant of that type alone.
pub to_u8-from_u8 : (v : ℕ) (t : WalRecordType) → from_u8 v ≡ ok t → to_u8 t ≡ v
unfolding from_u8 to_u8
to_u8-from_u8 v t h = ground arith
