-- ===== src/Storage/Superblock.antt =====
-- The superblock and its file of two copies: crates/pg-storage/src/superblock.rs. The checksum is a
-- parameter, a function of the two slices that the source feeds to it, joined. The file is its two
-- copies, each as it was written last; calls of the operating system that fail are left out, but for
-- a crash in the middle of a write, which leaves any bytes in the copy that was being written.
pub mod Copies
mod Examples
use ams.Common.{
  ℕ, ◌+◌, Bool, true, false, ◌||◌, not, List, [], ◌∷◌, ◌++◌, length, ltb, leb, ◌==◌, if◌then◌else◌,
}
use ams.Storage.Error.{Result, ok, err, metadata_corrupted, checkpoint_failed}
use ams.Storage.LittleEndian.{to_le_bytes, from_le_bytes, take, skip}
use ams.Storage.Types.{first_user, resize}

abbrev pub superblock_magic : ℕ
superblock_magic = 0x50475253

abbrev pub superblock_version : ℕ
superblock_version = 2

abbrev pub superblock_version_v1 : ℕ
superblock_version_v1 = 1

abbrev pub superblock_size : ℕ
superblock_size = 512

pub record Superblock : Type 0 where
  pub version : ℕ
  pub page_size : ℕ
  pub checkpoint_lsn : ℕ
  pub next_page_id : ℕ
  pub next_txn_id : ℕ
  pub next_oid : ℕ
  pub created_at : ℕ

-- A new superblock, at a time.
unfoldable pub new_superblock : ℕ → ℕ → Superblock
new_superblock size now = record {
  version = superblock_version;
  page_size = size;
  checkpoint_lsn = 0;
  next_page_id = 1;
  next_txn_id = 1;
  next_oid = first_user;
  created_at = now;
}

-- The bytes `[0..56]`, and the zeros of `[60..512]`.
unfoldable pub fields : Superblock → List ℕ
fields sb =
    to_le_bytes 4 superblock_magic
    ++ (to_le_bytes 4 sb.version
        ++ (to_le_bytes 4 sb.page_size
            ++ (to_le_bytes 4 0
                ++ (to_le_bytes 8 sb.checkpoint_lsn
                    ++ (to_le_bytes 8 sb.next_page_id
                        ++ (to_le_bytes 8 sb.next_txn_id
                            ++ (to_le_bytes 8 sb.next_oid ++ to_le_bytes 8 sb.created_at)))))))

unfoldable pub reserved : List ℕ
reserved = resize 452 []

pub record SuperblockFile : Type 0 where
  pub copy_a : List ℕ
  pub copy_b : List ℕ

-- `write_copy`, given the bytes that reach the file.
unfoldable pub with_copy : ℕ → List ℕ → SuperblockFile → SuperblockFile
with_copy offset bytes file =
    if offset == 0 then record file { copy_a = bytes } else record file { copy_b = bytes }

unfoldable pub inactive : ℕ → ℕ
inactive active_offset = if active_offset == 0 then superblock_size else 0

module _ (crc : List ℕ → ℕ) where
  unfoldable pub encode_superblock : Superblock → List ℕ
  encode_superblock sb = fields sb ++ (to_le_bytes 4 (crc (fields sb ++ reserved)) ++ reserved)

  unfoldable pub decode_v2 : List ℕ → Result Superblock
  decode_v2 bytes =
      if not (crc (take 56 bytes ++ skip 60 bytes) == from_le_bytes (take 4 (skip 56 bytes)))
      then err metadata_corrupted
      else ok (record {
        version = superblock_version;
        page_size = from_le_bytes (take 4 (skip 8 bytes));
        checkpoint_lsn = from_le_bytes (take 8 (skip 16 bytes));
        next_page_id = from_le_bytes (take 8 (skip 24 bytes));
        next_txn_id = from_le_bytes (take 8 (skip 32 bytes));
        next_oid = from_le_bytes (take 8 (skip 40 bytes));
        created_at = from_le_bytes (take 8 (skip 48 bytes));
      })

  unfoldable pub decode_v1 : List ℕ → Result Superblock
  decode_v1 bytes =
      if not (crc (take 48 bytes ++ skip 52 bytes) == from_le_bytes (take 4 (skip 48 bytes)))
      then err metadata_corrupted
      else ok (record {
        version = superblock_version;
        page_size = from_le_bytes (take 4 (skip 8 bytes));
        checkpoint_lsn = from_le_bytes (take 8 (skip 16 bytes));
        next_page_id = from_le_bytes (take 8 (skip 24 bytes));
        next_txn_id = from_le_bytes (take 8 (skip 32 bytes));
        next_oid = first_user;
        created_at = from_le_bytes (take 8 (skip 40 bytes));
      })

  -- The superblock, and whether the copy was in the format of version 1.
  unfoldable pub decode_superblock : List ℕ → Result (Superblock × Bool)
  decode_superblock bytes =
      let version = from_le_bytes (take 4 (skip 4 bytes)) in
      if not (length bytes == superblock_size)
      then err metadata_corrupted
      else if not (from_le_bytes (take 4 bytes) == superblock_magic)
      then err metadata_corrupted
      else if version == superblock_version
      then elim (decode_v2 bytes) [ err e ↦ err e | ok sb ↦ ok (sb, false) ]
      else if version == superblock_version_v1
      then elim (decode_v1 bytes) [ err e ↦ err e | ok sb ↦ ok (sb, true) ]
      else err metadata_corrupted

  -- The choice between two copies that were decoded or not.
  unfoldable pub choose :
      Result (Superblock × Bool) → Result (Superblock × Bool) → Result (Superblock × (ℕ × Bool))
  choose (ok (a, migrated_a)) (ok (b, migrated_b)) =
      if ltb a.checkpoint_lsn b.checkpoint_lsn
      then ok (b, (superblock_size, migrated_a || migrated_b))
      else ok (a, (0, migrated_a || migrated_b))
  choose (ok (a, migrated)) (err _) = ok (a, (0, migrated))
  choose (err _) (ok (b, migrated)) = ok (b, (superblock_size, migrated))
  choose (err _) (err _) = err metadata_corrupted

  unfoldable pub read_with_offset : SuperblockFile → Result (Superblock × (ℕ × Bool))
  read_with_offset file = choose (decode_superblock file.copy_a) (decode_superblock file.copy_b)

  unfoldable pub write_both_copies : Superblock → SuperblockFile
  write_both_copies sb = record { copy_a = encode_superblock sb; copy_b = encode_superblock sb }

  unfoldable pub read_superblock : SuperblockFile → Result Superblock × SuperblockFile
  read_superblock file = elim (read_with_offset file) [
    | err e ↦ (err e, file)
    | ok (sb, (_, migrated)) ↦ (ok sb, if migrated then write_both_copies sb else file)
  ]

  unfoldable pub write_superblock : Superblock → SuperblockFile → Result Unit × SuperblockFile
  write_superblock sb file = elim (read_with_offset file) [
    | err _ ↦ (ok tt, write_both_copies sb)
    | ok (current, (active_offset, _)) ↦
        if leb sb.checkpoint_lsn current.checkpoint_lsn
        then (err checkpoint_failed, file)
        else (ok tt, with_copy (inactive active_offset) (encode_superblock sb) file)
  ]
