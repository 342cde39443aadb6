-- ===== src/Storage/Wal/Hnsw/Examples.antt =====
-- Runs of the records of the HNSW graph.
use ams.Common.{
  ℕ, ◌+◌, ◌/◌, ◌≤◌, ◌<◌, ◌≡◌, refl, ◌⊎◌, false, Option, none, some, List, [], ◌∷◌, ◌++◌, length,
  length-append, contains, arith, leb, if◌then◌else◌,
}
use ams.Storage.LittleEndian.{take}
use ams.Storage.Types.{take-append}
use ams.Storage.Error.{ok, err, serialize, wal_read_failed}
use ams.Storage.Wal.RecordType.{hnsw_set_neighbors, hnsw_node_tombstone}
use ams.Storage.Wal.Frame.{WalRecord}
use ams.Storage.Wal.Codec.{Codec, with_payload, new_record}
use ams.Storage.Wal.SmallCodec.{packed, packed-IsFaithful}
use ams.Storage.Wal.Heap.{any_descent}
use ams.Storage.Wal.Hnsw.{
  HnswSeqHead, HnswSetNeighborsRecord, HnswNodeTombstoneRecord, u32_max, hnsw_set_neighbors_decode,
  hnsw_node_tombstone_decode,
}
use ams.Storage.Wal.Hnsw.Create.{
  hnsw_set_neighbors_record, hnsw_node_tombstone_record, rejected_page, rejected_node,
}
use ams.Storage.Wal.Hnsw.Accepted.{
  IsSequence, hnsw_set_neighbors_accepted, hnsw_node_tombstone_accepted,
}

abbrev write_head : HnswSeqHead → List ℕ
write_head h = h.meta_page_id ∷ h.page_id ∷ h.slot_id ∷ h.node_id ∷ h.level ∷ h.tail ∷ []

abbrev read_head : List ℕ → Option (HnswSeqHead × ℕ)
read_head (a ∷ b ∷ c ∷ d ∷ e ∷ f ∷ rest) =
    some
      (record { meta_page_id = a; page_id = b; slot_id = c; node_id = d; level = e; tail = f }, 6)
read_head _ = none

abbrev write_length : ℕ → List ℕ
write_length n = n ∷ []

abbrev read_length : List ℕ → Option (ℕ × ℕ)
read_length [] = none
read_length (n ∷ rest) = some (n, 1)

abbrev write_neighbors : HnswSetNeighborsRecord → List ℕ
write_neighbors v = write_head v.head ++ (length v.neighbors ∷ v.neighbors)

abbrev read_neighbors : List ℕ → Option (HnswSetNeighborsRecord × ℕ)
read_neighbors (a ∷ b ∷ c ∷ d ∷ e ∷ f ∷ n ∷ rest) =
    if leb n (length rest)
    then some (
      record {
        head = record {
          meta_page_id = a;
          page_id = b;
          slot_id = c;
          node_id = d;
          level = e;
          tail = f;
        };
        neighbors = take n rest;
      },
      7 + n,
    )
    else none
read_neighbors _ = none

read_neighbors-write :
    (v : HnswSetNeighborsRecord) (rest : List ℕ)
    → read_neighbors (write_neighbors v ++ rest) ≡ some (v, length (write_neighbors v))
read_neighbors-write v rest =
    let ns = v.neighbors in
    ground (arith, take-append (length ns) ns rest refl, length-append ns rest)

abbrev heads : Codec HnswSeqHead
heads = packed write_head read_head

abbrev lengths : Codec ℕ
lengths = packed write_length read_length

abbrev neighbors_codec : Codec HnswSetNeighborsRecord
neighbors_codec = packed write_neighbors read_neighbors

neighbors-IsSequence :
    IsSequence heads lengths neighbors_codec (λ v. v.head) (λ v. length v.neighbors) 1
neighbors-IsSequence = record {
  layout = λ v bytes e. (
    write_head v.head,
    write_length (length v.neighbors),
    v.neighbors,
    ground arith,
    ground arith,
    omega arith,
    ground arith,
  );
}

abbrev linked : WalRecord
linked = record {
  lsn = 0;
  prev_lsn = 0;
  txn_id = 0;
  record_type = hnsw_set_neighbors;
  flags = 0;
  payload = 3 ∷ 4 ∷ 0 ∷ 6 ∷ 1 ∷ 2 ∷ 2 ∷ 5 ∷ 8 ∷ [];
}

hnsw_set_neighbors_accepted_example :
    (any_descent (5 ∷ 8 ∷ []) ≡ false)
    × (contains 6 (5 ∷ 8 ∷ []) ≡ false)
    × (contains u32_max (5 ∷ 8 ∷ []) ≡ false)
    × (hnsw_set_neighbors_decode heads lengths neighbors_codec linked.payload
        ≡ ok (record {
          head = record {
            meta_page_id = 3;
            page_id = 4;
            slot_id = 0;
            node_id = 6;
            level = 1;
            tail = 2;
          };
          neighbors = 5 ∷ 8 ∷ [];
        }))
unfolding hnsw_set_neighbors_record rejected_page rejected_node any_descent with_payload new_record
hnsw_set_neighbors_accepted_example =
    hnsw_set_neighbors_accepted heads lengths neighbors_codec 3 4 0 6 1 (5 ∷ 8 ∷ []) linked
      (packed-IsFaithful write_head read_head (λ v rest. refl))
      (packed-IsFaithful write_length read_length (λ v rest. refl))
      (packed-IsFaithful write_neighbors read_neighbors read_neighbors-write) neighbors-IsSequence
      refl

abbrev write_tombstone : HnswNodeTombstoneRecord → List ℕ
write_tombstone v = v.page_id ∷ v.slot_id ∷ v.node_id ∷ v.dim ∷ v.meta_page_id ∷ []

abbrev read_tombstone : List ℕ → Option (HnswNodeTombstoneRecord × ℕ)
read_tombstone (a ∷ b ∷ c ∷ d ∷ e ∷ rest) =
    some (record { page_id = a; slot_id = b; node_id = c; dim = d; meta_page_id = e }, 5)
read_tombstone _ = none

abbrev tombstones : Codec HnswNodeTombstoneRecord
tombstones = packed write_tombstone read_tombstone

abbrev buried : WalRecord
buried = record {
  lsn = 0;
  prev_lsn = 0;
  txn_id = 0;
  record_type = hnsw_node_tombstone;
  flags = 16;
  payload = 4 ∷ 0 ∷ 6 ∷ 128 ∷ 3 ∷ [];
}

hnsw_node_tombstone_accepted_example :
    (hnsw_node_tombstone_decode tombstones buried.payload 16
      ≡ ok (record { page_id = 4; slot_id = 0; node_id = 6; dim = 128; meta_page_id = 3 }))
    × ((32 < 16) × (hnsw_node_tombstone_decode tombstones buried.payload 32 ≡ err serialize)
        ⊎ (32 / 16 ≡ 1)
          × (hnsw_node_tombstone_decode tombstones buried.payload 32
              ≡ hnsw_node_tombstone_decode tombstones buried.payload 16)
        ⊎ (32 ≤ 32)
          × (hnsw_node_tombstone_decode tombstones buried.payload 32 ≡ err wal_read_failed))
unfolding hnsw_node_tombstone_record rejected_page rejected_node with_payload new_record
hnsw_node_tombstone_accepted_example =
    hnsw_node_tombstone_accepted tombstones 3 4 0 6 128 32 buried
      (packed-IsFaithful write_tombstone read_tombstone (λ v rest. refl)) refl
