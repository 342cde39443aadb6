-- ===== src/Storage/Superblock/Copies.antt =====
-- What is written to the superblock is read back, and a crash while one copy is written leaves the
-- other: crates/pg-storage/src/superblock.rs.
use ams.Common.{
  ℕ, ◌^◌, ◌<◌, ◌≡◌, refl, ◌∙◌, ◌⊎◌, inl, inr, Bool, true, false, ◌||◌, List, [], ◌++◌, length,
  length-append, arith, ltb, Bool-cases,
}
use ams.Storage.Error.{ok, err, Result-cases, StorageError}
use ams.Storage.LittleEndian.{to_le_bytes, from_le_bytes, take, skip, from_le_bytes-to_le_bytes}
use ams.Storage.Types.{length-resize, take-append, skip-append}
use ams.Storage.Superblock.{
  Superblock, SuperblockFile, superblock_version, fields, reserved, with_copy, read_superblock,
  write_both_copies, encode_superblock, decode_v2, decode_superblock, choose, read_with_offset,
  inactive, write_superblock,
}

-- Fields and a checksum of the widths of the format, in its current version.
pub record IsStorable (crc : List ℕ → ℕ) (sb : Superblock) : Type 0 where
  pub checksum : (bytes : List ℕ) → crc bytes < 2 ^ 32
  pub version : sb.version ≡ superblock_version
  pub page_size : sb.page_size < 2 ^ 32
  pub checkpoint_lsn : sb.checkpoint_lsn < 2 ^ 64
  pub next_page_id : sb.next_page_id < 2 ^ 64
  pub next_txn_id : sb.next_txn_id < 2 ^ 64
  pub next_oid : sb.next_oid < 2 ^ 64
  pub created_at : sb.created_at < 2 ^ 64

module _ (sb : Superblock) (rest : List ℕ) where
  length-fields : length (fields sb) ≡ 56
  unfolding fields
  length-fields = refl

  take-fields : take 56 (fields sb ++ rest) ≡ fields sb
  take-fields = take-append 56 (fields sb) rest length-fields

  skip-fields : (c : ℕ) → skip 60 (fields sb ++ (to_le_bytes 4 c ++ rest)) ≡ rest
  skip-fields c = skip-append 56 4 (fields sb) (to_le_bytes 4 c ++ rest) length-fields

  fields-crc :
      (c : ℕ)
      → c < 2 ^ 32
      → from_le_bytes (take 4 (skip 56 (fields sb ++ (to_le_bytes 4 c ++ rest)))) ≡ c
  unfolding fields
  fields-crc c h = from_le_bytes-to_le_bytes 4 c h

  fields-magic : from_le_bytes (take 4 (fields sb ++ rest)) ≡ 0x50475253
  unfolding fields
  fields-magic = refl

  fields-version :
      sb.version < 2 ^ 32 → from_le_bytes (take 4 (skip 4 (fields sb ++ rest))) ≡ sb.version
  unfolding fields
  fields-version h = from_le_bytes-to_le_bytes 4 sb.version h

  fields-page_size :
      sb.page_size < 2 ^ 32 → from_le_bytes (take 4 (skip 8 (fields sb ++ rest))) ≡ sb.page_size
  unfolding fields
  fields-page_size h = from_le_bytes-to_le_bytes 4 sb.page_size h

  fields-checkpoint_lsn :
      sb.checkpoint_lsn < 2 ^ 64
      → from_le_bytes (take 8 (skip 16 (fields sb ++ rest))) ≡ sb.checkpoint_lsn
  unfolding fields
  fields-checkpoint_lsn h = from_le_bytes-to_le_bytes 8 sb.checkpoint_lsn h

  fields-next_page_id :
      sb.next_page_id < 2 ^ 64
      → from_le_bytes (take 8 (skip 24 (fields sb ++ rest))) ≡ sb.next_page_id
  unfolding fields
  fields-next_page_id h = from_le_bytes-to_le_bytes 8 sb.next_page_id h

  fields-next_txn_id :
      sb.next_txn_id < 2 ^ 64
      → from_le_bytes (take 8 (skip 32 (fields sb ++ rest))) ≡ sb.next_txn_id
  unfolding fields
  fields-next_txn_id h = from_le_bytes-to_le_bytes 8 sb.next_txn_id h

  fields-next_oid :
      sb.next_oid < 2 ^ 64 → from_le_bytes (take 8 (skip 40 (fields sb ++ rest))) ≡ sb.next_oid
  unfolding fields
  fields-next_oid h = from_le_bytes-to_le_bytes 8 sb.next_oid h

  fields-created_at :
      sb.created_at < 2 ^ 64 → from_le_bytes (take 8 (skip 48 (fields sb ++ rest))) ≡ sb.created_at
  unfolding fields
  fields-created_at h = from_le_bytes-to_le_bytes 8 sb.created_at h

length-reserved : length reserved ≡ 452
unfolding reserved
length-reserved = length-resize 452 []

-- A superblock is read back from a copy as it was written, in the current format.
pub decode-encode_superblock :
    (crc : List ℕ → ℕ) (sb : Superblock)
    → IsStorable crc sb
    → decode_superblock crc (encode_superblock crc sb) ≡ ok (sb, false)
unfolding encode_superblock decode_superblock decode_v2
decode-encode_superblock crc sb h =
    let c = crc (fields sb ++ reserved) in
    let rest = to_le_bytes 4 c ++ reserved in
    let zeros : length reserved ≡ 452 = length-reserved in
    let size : length (fields sb ++ rest) ≡ 512 =
      omega (arith, length-append (fields sb) rest, length-fields sb rest, zeros) in
    let version : from_le_bytes (take 4 (skip 4 (fields sb ++ rest))) ≡ 2 =
      fields-version sb rest (omega (arith, h.version)) ∙ h.version in
    rw
      (
        size,
        fields-magic sb rest,
        version,
        take-fields sb rest,
        skip-fields sb reserved c,
        fields-crc sb reserved c (h.checksum (fields sb ++ reserved)),
        fields-page_size sb rest h.page_size,
        fields-checkpoint_lsn sb rest h.checkpoint_lsn,
        fields-next_page_id sb rest h.next_page_id,
        fields-next_txn_id sb rest h.next_txn_id,
        fields-next_oid sb rest h.next_oid,
        fields-created_at sb rest h.created_at,
      )
      (ground (arith, h.version))

-- The copy that a read returns is one that decodes to it.
active_copy :
    (crc : List ℕ → ℕ) (file : SuperblockFile) (current : Superblock) (offset : ℕ) (migrated : Bool)
    → read_with_offset crc file ≡ ok (current, (offset, migrated))
    → (m : Bool) × ((offset ≡ 0) × (decode_superblock crc file.copy_a ≡ ok (current, m))
        ⊎ (offset ≡ 512) × (decode_superblock crc file.copy_b ≡ ok (current, m)))
unfolding read_with_offset choose
active_copy crc file current offset migrated h =
    elim (Result-cases (decode_superblock crc file.copy_a)) [
      | inl (_, bad_a) ↦ elim (Result-cases (decode_superblock crc file.copy_b)) [
        | inl (_, bad_b) ↦ absurd (ground (arith, bad_a, bad_b))
        | inr ((b, m), good_b) ↦ (m, inr (ground (arith, bad_a, good_b)))
      ]
      | inr ((a, m), good_a) ↦ elim (Result-cases (decode_superblock crc file.copy_b)) [
        | inl (_, bad_b) ↦ (m, inl (ground (arith, good_a, bad_b)))
        | inr ((b, n), good_b) ↦ elim (Bool-cases (ltb a.checkpoint_lsn b.checkpoint_lsn)) [
          | inl newer ↦ (n, inr (ground (arith, good_a, good_b, newer)))
          | inr older ↦ (m, inl (ground (arith, good_a, good_b, older)))
        ]
      ]
    ]

-- Let a read return `current`, and write a superblock of a higher checkpoint. The write succeeds and
-- changes the copy that was not active. The file then reads as the superblock written, and if a crash
-- leaves bytes in that copy that do not decode, it still reads as `current`.
pub write_survives_crash :
    (crc : List ℕ → ℕ) (file : SuperblockFile) (current sb : Superblock) (offset : ℕ)
    (migrated : Bool)
    → read_with_offset crc file ≡ ok (current, (offset, migrated))
    → IsStorable crc sb
    → current.checkpoint_lsn < sb.checkpoint_lsn
    → (torn : List ℕ) (e : StorageError) → decode_superblock crc torn ≡ err e
    → (write_superblock crc sb file
        ≡ (ok tt, with_copy (inactive offset) (encode_superblock crc sb) file))
      × ((m : Bool) × (read_with_offset crc
              (with_copy (inactive offset) (encode_superblock crc sb) file)
            ≡ ok (sb, (inactive offset, m))))
      × ((m : Bool) × (read_with_offset crc (with_copy (inactive offset) torn file)
            ≡ ok (current, (offset, m))))
unfolding read_with_offset choose with_copy inactive write_superblock
write_survives_crash crc file current sb offset migrated h storable newer torn e bad =
    let written = decode-encode_superblock crc sb storable in
    let (m, found) = active_copy crc file current offset migrated h in
    elim found [
      | inl (here, good) ↦ (
        ground (arith, h),
        (m || false, ground (arith, here, good, written)),
        (m, ground (arith, here, good, bad)),
      )
      | inr (here, good) ↦ (
        ground (arith, h),
        (false || m, ground (arith, here, good, written)),
        (m, ground (arith, here, good, bad)),
      )
    ]

-- Two copies of one superblock are read as it.
pub read_with_offset-write_both_copies :
    (crc : List ℕ → ℕ) (sb : Superblock)
    → IsStorable crc sb
    → read_with_offset crc (write_both_copies crc sb) ≡ ok (sb, (0, false))
unfolding read_with_offset choose write_both_copies
read_with_offset-write_both_copies crc sb storable =
    ground (arith, decode-encode_superblock crc sb storable)

-- A read that gives a superblock leaves a file from which a second read gives the same superblock and
-- changes nothing: the migration of the old format runs once.
pub read_superblock_idempotent :
    (crc : List ℕ → ℕ) (file after : SuperblockFile) (sb : Superblock)
    → IsStorable crc sb
    → read_superblock crc file ≡ (ok sb, after)
    → read_superblock crc after ≡ (ok sb, after)
unfolding read_superblock
read_superblock_idempotent crc file after sb storable h =
    let written = read_with_offset-write_both_copies crc sb storable in
    elim (Result-cases (read_with_offset crc file)) [
      | inl (e, bad) ↦ absurd (ground (arith, h, bad))
      | inr ((found, (offset, true)), good) ↦
          let that : found ≡ sb = ground (arith, h, good) in
          let both : write_both_copies crc found ≡ after = ground (arith, h, good) in
          let again : read_with_offset crc after ≡ ok (sb, (0, false)) = cc (that, both, written) in
          ground (arith, again)
      | inr ((found, (offset, false)), good) ↦
          let that : found ≡ sb = ground (arith, h, good) in
          let unchanged : file ≡ after = ground (arith, h, good) in
          let again : read_with_offset crc after ≡ ok (sb, (offset, false)) =
            cc (that, unchanged, good) in
          ground (arith, again)
    ]
