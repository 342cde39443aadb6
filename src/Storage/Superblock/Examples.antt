-- ===== src/Storage/Superblock/Examples.antt =====
-- Runs of the superblock.
use ams.Common.{ℕ, ◌%◌, ◌^◌, ◌<◌, ◌≡◌, refl, Bool, false, List, [], length, arith}
use ams.Storage.Error.{ok, err, metadata_corrupted}
use ams.Storage.Superblock.{
  Superblock, new_superblock, with_copy, encode_superblock, decode_superblock, choose,
  read_with_offset, write_both_copies, read_superblock, inactive, write_superblock,
}
use ams.Storage.Superblock.Copies.{
  IsStorable, decode-encode_superblock, write_survives_crash, read_superblock_idempotent,
}

abbrev crc : List ℕ → ℕ
crc bytes = length bytes % 2 ^ 32

abbrev old : Superblock
old = new_superblock 8192 77

abbrev newer : Superblock
newer = record old { checkpoint_lsn = 300; next_page_id = 12 }

old-IsStorable : IsStorable crc old
unfolding new_superblock
old-IsStorable = record {
  checksum = λ bytes. omega arith;
  version = refl;
  page_size = omega arith;
  checkpoint_lsn = omega arith;
  next_page_id = omega arith;
  next_txn_id = omega arith;
  next_oid = omega arith;
  created_at = omega arith;
}

newer-IsStorable : IsStorable crc newer
unfolding new_superblock
newer-IsStorable = record {
  checksum = λ bytes. omega arith;
  version = refl;
  page_size = omega arith;
  checkpoint_lsn = omega arith;
  next_page_id = omega arith;
  next_txn_id = omega arith;
  next_oid = omega arith;
  created_at = omega arith;
}

read_new : read_with_offset crc (write_both_copies crc old) ≡ ok (old, (0, false))
unfolding read_with_offset choose write_both_copies
read_new = ground (arith, decode-encode_superblock crc old old-IsStorable)

decode_nothing : decode_superblock crc [] ≡ err metadata_corrupted
unfolding decode_superblock
decode_nothing = refl

old_newer : old.checkpoint_lsn < newer.checkpoint_lsn
unfolding new_superblock
old_newer = omega arith

write_survives_crash_example :
    (write_superblock crc newer (write_both_copies crc old)
      ≡ (ok tt, with_copy (inactive 0) (encode_superblock crc newer) (write_both_copies crc old)))
    × ((m : Bool) × (read_with_offset crc
            (with_copy (inactive 0) (encode_superblock crc newer) (write_both_copies crc old))
          ≡ ok (newer, (inactive 0, m))))
    × ((m : Bool) × (read_with_offset crc (with_copy (inactive 0) [] (write_both_copies crc old))
          ≡ ok (old, (0, m))))
write_survives_crash_example =
    write_survives_crash crc (write_both_copies crc old) old newer 0 false read_new newer-IsStorable
      old_newer [] metadata_corrupted decode_nothing

read_torn :
    read_superblock crc (with_copy 0 [] (write_both_copies crc newer))
    ≡ (ok newer, with_copy 0 [] (write_both_copies crc newer))
unfolding read_superblock read_with_offset choose write_both_copies with_copy
read_torn = ground (arith, decode-encode_superblock crc newer newer-IsStorable, decode_nothing)

read_superblock_idempotent_example :
    read_superblock crc (with_copy 0 [] (write_both_copies crc newer))
    ≡ (ok newer, with_copy 0 [] (write_both_copies crc newer))
read_superblock_idempotent_example =
    read_superblock_idempotent crc (with_copy 0 [] (write_both_copies crc newer))
      (with_copy 0 [] (write_both_copies crc newer)) newer newer-IsStorable read_torn
