-- ===== src/Storage/Wal/Frame.antt =====
-- A log record on disk: `WalRecord` with `record_size`, `encode` and `decode` of
-- crates/pg-storage/src/wal/record.rs. The checksum, a hasher of crc32fast that is given two slices
-- in order, is a parameter: a function of the two slices joined.
use ams.Common.{ℕ, ◌+◌, ◌-◌, ◌%◌, ◌^◌, not, List, ◌∷◌, ◌++◌, length, ltb, leb, ◌==◌, if◌then◌else◌}
use ams.Storage.LittleEndian.{to_le_bytes, from_le_bytes, take, skip}
use ams.Storage.Types.{align_up, resize}
use ams.Storage.Error.{Result, ok, err, wal_corrupted, wal_write_failed}
use ams.Storage.Wal.RecordType.{WalRecordType, to_u8, from_u8}

pub record WalRecord : Type 0 where
  pub lsn : ℕ
  pub prev_lsn : ℕ
  pub txn_id : ℕ
  pub record_type : WalRecordType
  pub flags : ℕ
  pub payload : List ℕ

abbrev pub wal_record_header_size : ℕ
wal_record_header_size = 32

unfoldable pub record_size : WalRecord → ℕ
record_size r = align_up (wal_record_header_size + length r.payload) 8

-- The header up to the checksum.
unfoldable pub header : WalRecord → List ℕ
header r =
    to_le_bytes 8 r.lsn
    ++ (to_le_bytes 8 r.prev_lsn
        ++ (to_le_bytes 8 r.txn_id
            ++ (to_u8 r.record_type ∷ r.flags ∷ to_le_bytes 2 (length r.payload % 2 ^ 16))))

module _ (crc : List ℕ → ℕ) where
  -- The bytes `[0..28]` and `[32..total]` of a buffer.
  unfoldable pub checksum : ℕ → List ℕ → ℕ
  checksum total buf = crc (take 28 buf ++ take (total - 32) (skip 32 buf))

  unfoldable pub encode : WalRecord → Result (List ℕ)
  encode r =
      if not (leb (length r.payload) 65535)
      then err wal_write_failed
      else let buf = resize (record_size r) (header r ++ (to_le_bytes 4 0 ++ r.payload)) in
        ok (take 28 buf ++ (to_le_bytes 4 (checksum (record_size r) buf) ++ skip 32 buf))

  -- What follows the test of the length, for the length that the header names.
  unfoldable pub decode_body : ℕ → List ℕ → Result (WalRecord × ℕ)
  decode_body payload_len buf =
      let lsn = from_le_bytes (take 8 buf) in
      let total = align_up (wal_record_header_size + payload_len) 8 in
      if ltb (length buf) total
      then err (wal_corrupted lsn)
      else if not (checksum total buf == from_le_bytes (take 4 (skip 28 buf)))
      then err (wal_corrupted lsn)
      else elim (from_u8 (from_le_bytes (take 1 (skip 24 buf)))) [
        | err e ↦ err e
        | ok t ↦ ok (
          record {
            lsn = lsn;
            prev_lsn = from_le_bytes (take 8 (skip 8 buf));
            txn_id = from_le_bytes (take 8 (skip 16 buf));
            record_type = t;
            flags = from_le_bytes (take 1 (skip 25 buf));
            payload = take payload_len (skip 32 buf);
          },
          total,
        )
      ]

  unfoldable pub decode : List ℕ → Result (WalRecord × ℕ)
  decode buf =
      if ltb (length buf) wal_record_header_size
      then err (wal_corrupted 0)
      else decode_body (from_le_bytes (take 2 (skip 26 buf))) buf
