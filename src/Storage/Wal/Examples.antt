-- ===== src/Storage/Wal/Examples.antt =====
-- Runs of the write-ahead log's records.
use ams.Common.{
  append_assoc, ℕ, ◌+◌, ◌%◌, ◌^◌, ◌≤◌, ◌<◌, ◌≡◌, refl, ◌⊎◌, false, Option, none, some, List, [],
  ◌∷◌, ◌++◌, length, length-append, arith, leb, if◌then◌else◌,
}
use ams.Storage.LittleEndian.{take, skip}
use ams.Storage.Types.{align_up, take-append, skip-length}
use ams.Storage.Error.{ok, err, wal_corrupted}
use ams.Storage.Wal.RecordType.{from_u8, heap_cleanup, to_u8, to_u8-from_u8}
use ams.Storage.Wal.Frame.{WalRecord, record_size, encode, decode}
use ams.Storage.Wal.RoundTrip.{IsEncodable, image, WalRecord-round_trip}
use ams.Storage.Wal.Refusals.{decode_torn}
use ams.Storage.Wal.Codec.{Codec, IsFaithful, new_record, with_payload}
use ams.Storage.Wal.Heap.{
  HeapCleanupRecord, CheckpointEndRecord, CheckpointEndRecordV1, any_descent,
  max_heap_cleanup_slots, heap_cleanup_record, heap_cleanup_decode,
}
use ams.Storage.Wal.SmallCodec.{packed, packed-IsFaithful}
use ams.Storage.Wal.Accepted.{heap_cleanup_accepted, heap_cleanup_recovered}

to_u8-from_u8_example : to_u8 heap_cleanup ≡ 8
unfolding from_u8
to_u8-from_u8_example = to_u8-from_u8 8 heap_cleanup refl

abbrev write_cleanup : HeapCleanupRecord → List ℕ
write_cleanup v =
    v.page_id ∷ v.unlink_prev_page ∷ v.unlink_next_page ∷ length v.dead_slots ∷ v.dead_slots

abbrev read_cleanup : List ℕ → Option (HeapCleanupRecord × ℕ)
read_cleanup (p ∷ a ∷ b ∷ n ∷ rest) =
    if leb n (length rest)
    then some (
      record { page_id = p; unlink_prev_page = a; unlink_next_page = b; dead_slots = take n rest },
      4 + n,
    )
    else none
read_cleanup _ = none

abbrev cleanup_codec : Codec HeapCleanupRecord
cleanup_codec = packed write_cleanup read_cleanup

read_cleanup-write :
    (v : HeapCleanupRecord) (rest : List ℕ)
    → read_cleanup (write_cleanup v ++ rest) ≡ some (v, length (write_cleanup v))
read_cleanup-write v rest =
    let slots = v.dead_slots in
    ground (arith, take-append (length slots) slots rest refl, length-append slots rest)

cleanup_codec-IsFaithful : IsFaithful cleanup_codec
cleanup_codec-IsFaithful = packed-IsFaithful write_cleanup read_cleanup read_cleanup-write

abbrev cleanup : HeapCleanupRecord
cleanup = record {
  page_id = 9;
  unlink_prev_page = 0;
  unlink_next_page = 0;
  dead_slots = 2 ∷ 5 ∷ [];
}

abbrev cleanup_record : WalRecord
cleanup_record = record {
  lsn = 0;
  prev_lsn = 0;
  txn_id = 0;
  record_type = heap_cleanup;
  flags = 0;
  payload = 9 ∷ 0 ∷ 0 ∷ 2 ∷ 2 ∷ 5 ∷ [];
}

cleanup_made : heap_cleanup_record cleanup_codec 9 (2 ∷ 5 ∷ []) 0 0 ≡ ok cleanup_record
unfolding heap_cleanup_record any_descent with_payload new_record
cleanup_made = refl

heap_cleanup_accepted_example :
    (any_descent (2 ∷ 5 ∷ []) ≡ false)
    × (2 ≤ max_heap_cleanup_slots)
    × (heap_cleanup_decode cleanup_codec (9 ∷ 0 ∷ 0 ∷ 2 ∷ 2 ∷ 5 ∷ []) ≡ ok cleanup)
heap_cleanup_accepted_example =
    heap_cleanup_accepted cleanup_codec 9 0 0 (2 ∷ 5 ∷ []) cleanup_record cleanup_codec-IsFaithful
      cleanup_made

abbrev length_crc : List ℕ → ℕ
length_crc bytes = length bytes % 2 ^ 32

abbrev placed : WalRecord
placed = record cleanup_record { lsn = 64; prev_lsn = 24 }

placed-IsEncodable : IsEncodable length_crc placed
placed-IsEncodable = record {
  checksum_small = λ bytes. omega arith;
  lsn_small = omega arith;
  prev_lsn_small = omega arith;
  txn_id_small = omega arith;
  flags_small = omega arith;
  payload_small = omega arith;
}

WalRecord-round_trip_example :
    (encode length_crc placed ≡ ok (image length_crc placed))
    × (decode length_crc (image length_crc placed ++ (1 ∷ [])) ≡ ok (placed, record_size placed))
WalRecord-round_trip_example = WalRecord-round_trip length_crc placed (1 ∷ []) placed-IsEncodable

placed_size : record_size placed ≡ 40
unfolding record_size align_up
placed_size = refl

heap_cleanup_recovered_example :
    (bytes : List ℕ) × (encode length_crc placed ≡ ok bytes)
    × (decode length_crc (bytes ++ (1 ∷ [])) ≡ ok (placed, record_size cleanup_record))
    × (heap_cleanup_decode cleanup_codec cleanup_record.payload ≡ ok cleanup)
heap_cleanup_recovered_example =
    heap_cleanup_recovered length_crc cleanup_codec cleanup 64 24 cleanup_record (1 ∷ [])
      cleanup_codec-IsFaithful cleanup_made placed-IsEncodable

decode_torn_example :
    (36 < 32) × (decode length_crc (take 36 (image length_crc placed)) ≡ err (wal_corrupted 0))
    ⊎ (32 ≤ 36) × (decode length_crc (take 36 (image length_crc placed)) ≡ err (wal_corrupted 64))
unfolding record_size align_up
decode_torn_example = decode_torn length_crc placed 36 placed-IsEncodable (omega arith)

-- A record of 32 bytes without a payload: 32 bytes enter the checksum less its own four.
abbrev bare : ℕ → List ℕ
bare t =
    8 ∷ 0 ∷ 0 ∷ 0 ∷ 0 ∷ 0 ∷ 0 ∷ 0 ∷ 0 ∷ 0 ∷ 0 ∷ 0 ∷ 0 ∷ 0 ∷ 0 ∷ 0 ∷ 0 ∷ 0 ∷ 0 ∷ 0 ∷ 0 ∷ 0 ∷ 0 ∷ 0
    ∷ t ∷ 0 ∷ 0 ∷ 0 ∷ 28 ∷ 0 ∷ 0 ∷ 0 ∷ []

-- Files are named by one character each.
abbrev write_end : CheckpointEndRecord → List ℕ
write_end v =
    v.checkpoint_lsn
    ∷ v.next_page_id
    ∷ v.next_txn_id
    ∷ v.next_oid
    ∷ length v.att_file
    ∷ length v.dpt_file
    ∷ (v.att_file ++ v.dpt_file)

abbrev read_end : List ℕ → Option (CheckpointEndRecord × ℕ)
read_end (a ∷ b ∷ c ∷ d ∷ m ∷ n ∷ rest) =
    if leb (m + n) (length rest)
    then some (
      record {
        checkpoint_lsn = a;
        next_page_id = b;
        next_txn_id = c;
        next_oid = d;
        att_file = take m rest;
        dpt_file = take n (skip m rest);
      },
      6 + (m + n),
    )
    else none
read_end _ = none

read_end-write :
    (v : CheckpointEndRecord) (rest : List ℕ)
    → read_end (write_end v ++ rest) ≡ some (v, length (write_end v))
read_end-write v rest =
    let att = v.att_file in
    let dpt = v.dpt_file in
    rw (append_assoc att dpt rest) (
      ground (
        arith,
        take-append (length att) att (dpt ++ rest) refl,
        skip-length att (dpt ++ rest),
        take-append (length dpt) dpt rest refl,
        length-append att dpt,
        length-append att (dpt ++ rest),
        length-append dpt rest,
      ))

abbrev end_codec : Codec CheckpointEndRecord
end_codec = packed write_end read_end

abbrev write_end_v1 : CheckpointEndRecordV1 → List ℕ
write_end_v1 v = v.checkpoint_lsn ∷ v.next_page_id ∷ v.next_txn_id ∷ []

abbrev read_end_v1 : List ℕ → Option (CheckpointEndRecordV1 × ℕ)
read_end_v1 (a ∷ b ∷ c ∷ rest) =
    some (record { checkpoint_lsn = a; next_page_id = b; next_txn_id = c }, 3)
read_end_v1 _ = none

abbrev end_codec_v1 : Codec CheckpointEndRecordV1
end_codec_v1 = packed write_end_v1 read_end_v1

abbrev old_end : CheckpointEndRecordV1
old_end = record { checkpoint_lsn = 48; next_page_id = 7; next_txn_id = 12 }

abbrev new_end : CheckpointEndRecord
new_end = record {
  checkpoint_lsn = 48;
  next_page_id = 7;
  next_txn_id = 12;
  next_oid = 200;
  att_file = 97 ∷ [];
  dpt_file = [];
}
