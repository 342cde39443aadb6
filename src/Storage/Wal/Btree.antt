-- ===== src/Storage/Wal/Btree.antt =====
-- The records of the B-tree: crates/pg-storage/src/wal/record.rs, their structs, constructors and
-- `decode`.
use ams.Common.{ℕ, ◌-◌, ◌/◌, not, List, length, leb, if◌then◌else◌}
use ams.Storage.Error.{Result, ok, err, serialize}
use ams.Storage.Wal.RecordType.{
  btree_insert, btree_delete, btree_split_prepare, btree_split_copy, btree_split_commit,
  btree_split_clr,
}
use ams.Storage.Wal.Frame.{WalRecord}
use ams.Storage.Wal.Codec.{Codec, decode_payload, with_payload, unstamped}

pub record BTreeInsertRecord : Type 0 where
  pub page_id : ℕ
  pub slot_id : ℕ
  pub level : ℕ
  pub flags : ℕ
  pub tuple_bytes : List ℕ

pub record BTreeDeleteRecord : Type 0 where
  pub page_id : ℕ
  pub slot_id : ℕ

pub record BTreeSplitPrepareRecord : Type 0 where
  pub left_page : ℕ
  pub new_right_page : ℕ
  pub level : ℕ
  pub left_old_next : ℕ
  pub high_key_bytes : List ℕ

pub record BTreeSplitCopyRecord : Type 0 where
  pub left_page : ℕ
  pub right_page : ℕ
  pub copy_start_slot : ℕ
  pub left_page_pre_lsn : ℕ

pub record BTreeSplitCommitRecord : Type 0 where
  pub left_page : ℕ
  pub right_page : ℕ
  pub parent_page : ℕ
  pub separator_key : List ℕ
  pub parent_insert_slot : ℕ

pub record BTreeSplitClrRecord : Type 0 where
  pub left_page : ℕ
  pub right_page : ℕ
  pub level : ℕ
  pub copy_start_slot : ℕ
  pub redo_ref_lsn : ℕ
  pub parent_page : ℕ
  pub parent_insert_slot : ℕ
  pub new_root_page : ℕ
  pub meta_page : ℕ
  pub separator_key : List ℕ

abbrev pub max_clr_separator_key_bytes : ℕ
max_clr_separator_key_bytes = (8192 - 32 - 16) / 3

unfoldable pub btree_insert_record :
    Codec BTreeInsertRecord → ℕ → ℕ → ℕ → ℕ → List ℕ → Result WalRecord
btree_insert_record c page slot l f bytes =
    with_payload c
      (record { page_id = page; slot_id = slot; level = l; flags = f; tuple_bytes = bytes })
      btree_insert unstamped

unfoldable pub btree_delete_record : Codec BTreeDeleteRecord → ℕ → ℕ → Result WalRecord
btree_delete_record c page slot =
    with_payload c (record { page_id = page; slot_id = slot }) btree_delete unstamped

unfoldable pub btree_split_prepare_record :
    Codec BTreeSplitPrepareRecord → ℕ → ℕ → ℕ → ℕ → List ℕ → Result WalRecord
btree_split_prepare_record c left right l old_next high_key =
    with_payload c
      (record {
        left_page = left;
        new_right_page = right;
        level = l;
        left_old_next = old_next;
        high_key_bytes = high_key;
      })
      btree_split_prepare unstamped

unfoldable pub btree_split_copy_record :
    Codec BTreeSplitCopyRecord → ℕ → ℕ → ℕ → ℕ → Result WalRecord
btree_split_copy_record c left right start pre_lsn =
    with_payload c
      (record {
        left_page = left;
        right_page = right;
        copy_start_slot = start;
        left_page_pre_lsn = pre_lsn;
      })
      btree_split_copy unstamped

unfoldable pub btree_split_commit_record :
    Codec BTreeSplitCommitRecord → ℕ → ℕ → ℕ → List ℕ → ℕ → Result WalRecord
btree_split_commit_record c left right parent key slot =
    with_payload c
      (record {
        left_page = left;
        right_page = right;
        parent_page = parent;
        separator_key = key;
        parent_insert_slot = slot;
      })
      btree_split_commit unstamped

unfoldable pub btree_split_clr_record :
    Codec BTreeSplitClrRecord → BTreeSplitClrRecord → Result WalRecord
btree_split_clr_record c rec = with_payload c rec btree_split_clr unstamped

unfoldable pub btree_insert_decode : Codec BTreeInsertRecord → List ℕ → Result BTreeInsertRecord
btree_insert_decode c bytes = decode_payload c bytes

unfoldable pub btree_delete_decode : Codec BTreeDeleteRecord → List ℕ → Result BTreeDeleteRecord
btree_delete_decode c bytes = decode_payload c bytes

unfoldable pub btree_split_prepare_decode :
    Codec BTreeSplitPrepareRecord → List ℕ → Result BTreeSplitPrepareRecord
btree_split_prepare_decode c bytes = decode_payload c bytes

unfoldable pub btree_split_copy_decode :
    Codec BTreeSplitCopyRecord → List ℕ → Result BTreeSplitCopyRecord
btree_split_copy_decode c bytes = decode_payload c bytes

unfoldable pub btree_split_commit_decode :
    Codec BTreeSplitCommitRecord → List ℕ → Result BTreeSplitCommitRecord
btree_split_commit_decode c bytes = decode_payload c bytes

unfoldable pub btree_split_clr_decode :
    Codec BTreeSplitClrRecord → List ℕ → Result BTreeSplitClrRecord
btree_split_clr_decode c bytes = elim (decode_payload c bytes) [
  | err e ↦ err e
  | ok rec ↦
      if not (leb (length rec.separator_key) max_clr_separator_key_bytes)
      then err serialize
      else ok rec
]
