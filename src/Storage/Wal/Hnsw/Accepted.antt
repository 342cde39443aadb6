-- ===== src/Storage/Wal/Hnsw/Accepted.antt =====
-- What the constructors of the records of the HNSW graph accept, their bounded decoders read back:
-- crates/pg-storage/src/wal/record.rs.
use ams.Common.{
  ◌<◌, ◌⊎◌, ℕ, ◌-◌, ◌*◌, ◌/◌, ◌%◌, ◌^◌, ◌≤◌, ◌≡◌, refl, ap, ◌∙◌, false, some, List, ◌++◌, length,
  length-append, contains, arith,
}
use ams.Storage.LittleEndian.{skip}
use ams.Storage.Types.{skip-length}
use ams.Storage.Error.{ok, err, serialize, wal_read_failed}
use ams.Storage.Wal.RecordType.{WalRecordType, hnsw_set_neighbors, hnsw_node_tombstone}
use ams.Storage.Wal.Frame.{WalRecord}
use ams.Storage.Wal.Codec.{Codec, IsFaithful, new_record, with_payload, stamp_flags, unstamped}
use ams.Storage.Wal.Heap.{any_descent}
use ams.Storage.Wal.Accepted.{payload_read, finished, encoded_cases}
use ams.Storage.Wal.Hnsw.{
  HnswSeqHead, HnswSetNeighborsRecord, HnswNodeTombstoneRecord, u32_max, hnsw_state_v1_flags,
  decode_hnsw_payload, bounded_seq_gate, hnsw_set_neighbors_decode, hnsw_node_tombstone_decode,
  decode_versioned,
}
use ams.Storage.Wal.Hnsw.Create.{hnsw_set_neighbors_record, hnsw_node_tombstone_record}

-- The layout of a struct that ends in a sequence: the head, the length of the sequence, and its
-- elements, each at least so wide.
pub record IsSequence {R : Type 0} (heads : Codec HnswSeqHead) (lengths : Codec ℕ) (c : Codec R)
    (head : R → HnswSeqHead) (count : R → ℕ) (elem_min : ℕ) : Type 0 where
  pub layout :
      (v : R) (bytes : List ℕ)
      → c.encode_to_vec v ≡ some bytes
      → (first : List ℕ) × (second : List ℕ) × (elements : List ℕ) × (heads.encode_to_vec (head v)
          ≡ some first)
        × (lengths.encode_to_vec (count v) ≡ some second)
        × (elem_min * count v ≤ length elements)
        × (bytes ≡ first ++ (second ++ elements))

gate_opens :
    (heads : Codec HnswSeqHead) (lengths : Codec ℕ) (h : HnswSeqHead)
    (first second elements : List ℕ) (elem_min : ℕ)
    → IsFaithful heads
    → IsFaithful lengths
    → heads.encode_to_vec h ≡ some first
    → lengths.encode_to_vec h.tail ≡ some second
    → h.tail ≤ length elements / elem_min
    → bounded_seq_gate heads lengths (first ++ (second ++ elements)) elem_min ≡ ok tt
unfolding bounded_seq_gate
gate_opens heads lengths h first second elements elem_min fh fl e1 e2 fits =
    let rest = second ++ elements in
    let past : skip (length first) (first ++ rest) ≡ rest = skip-length first rest in
    let left : length (first ++ rest) - length first - length second ≡ length elements =
      omega (arith, length-append first rest, length-append second elements) in
    rw (bounded_seq_gate, fh.reads h first rest e1, past, fl.reads h.tail second elements e2, left)
      (ground arith)

module _ {T : Type 0} (c : Codec T) (v : T) (t : WalRecordType) (f : WalRecord → WalRecord)
    (r : WalRecord) (faithful : IsFaithful c) (keeps : (x : WalRecord) → (f x).payload ≡ x.payload)
    (done : with_payload c v t f ≡ ok r) where
  hnsw_payload_decode : decode_hnsw_payload c r.payload ≡ ok v
  unfolding decode_hnsw_payload
  hnsw_payload_decode = ground (arith, payload_read c v t f r faithful keeps done)

-- A list of neighbours that is accepted is strictly ascending, holds neither its owner nor the
-- invalid node, and its payload passes the bounds of the decoder and is read back as written.
pub hnsw_set_neighbors_accepted :
    (heads : Codec HnswSeqHead) (lengths : Codec ℕ) (c : Codec HnswSetNeighborsRecord)
    (meta page slot node level : ℕ) (ns : List ℕ) (r : WalRecord)
    → IsFaithful heads
    → IsFaithful lengths
    → IsFaithful c
    → IsSequence heads lengths c (λ v. v.head) (λ v. length v.neighbors) 1
    → hnsw_set_neighbors_record c meta page slot node level ns ≡ ok r
    → (any_descent ns ≡ false)
      × (contains node ns ≡ false)
      × (contains u32_max ns ≡ false)
      × (hnsw_set_neighbors_decode heads lengths c r.payload
          ≡ ok (record {
            head = record {
              meta_page_id = meta;
              page_id = page;
              slot_id = slot;
              node_id = node;
              level = level;
              tail = length ns;
            };
            neighbors = ns;
          }))
unfolding hnsw_set_neighbors_record hnsw_set_neighbors_decode new_record
hnsw_set_neighbors_accepted heads lengths c meta page slot node level ns r fh fl fc seq h =
    let head : HnswSeqHead = record {
      meta_page_id = meta;
      page_id = page;
      slot_id = slot;
      node_id = node;
      level = level;
      tail = length ns;
    } in
    let rec : HnswSetNeighborsRecord = record { head = head; neighbors = ns } in
    let few : length ns ≤ 65535 = ground arith in
    let whole : length ns % 2 ^ 16 ≡ length ns = omega (arith, few) in
    let done : with_payload c rec hnsw_set_neighbors unstamped ≡ ok r = ground (arith, whole) in
    let (bytes, e, made) = encoded_cases c rec hnsw_set_neighbors unstamped r done in
    let (first, second, elements, e1, e2, wide, shape) = seq.layout rec bytes e in
    let payload : r.payload ≡ first ++ (second ++ elements) =
      ap (λ (x : WalRecord). x.payload) made ∙ shape in
    let opens : bounded_seq_gate heads lengths r.payload 1 ≡ ok tt =
      rw payload
        (gate_opens heads lengths head first second elements 1 fh fl e1 e2 (omega (arith, wide))) in
    (
      ground arith,
      ground arith,
      ground arith,
      rw (hnsw_set_neighbors_decode, opens)
          (hnsw_payload_decode c rec hnsw_set_neighbors unstamped r fc (λ x. refl) done),
    )

-- The payload of a tombstone that is accepted is read back under its own flags; under other flags
-- it is read, refused or of an unknown version as the high nibble says.
pub hnsw_node_tombstone_accepted :
    (c : Codec HnswNodeTombstoneRecord) (meta page slot node dim flags : ℕ) (r : WalRecord)
    → IsFaithful c
    → hnsw_node_tombstone_record c meta page slot node dim ≡ ok r
    → (hnsw_node_tombstone_decode c r.payload r.flags
        ≡ ok (record {
          page_id = page;
          slot_id = slot;
          node_id = node;
          dim = dim;
          meta_page_id = meta;
        }))
      × ((flags < 16) × (hnsw_node_tombstone_decode c r.payload flags ≡ err serialize)
          ⊎ (flags / 16 ≡ 1)
            × (hnsw_node_tombstone_decode c r.payload flags
                ≡ hnsw_node_tombstone_decode c r.payload r.flags)
          ⊎ (32 ≤ flags) × (hnsw_node_tombstone_decode c r.payload flags ≡ err wal_read_failed))
unfolding hnsw_node_tombstone_record hnsw_node_tombstone_decode decode_versioned new_record
hnsw_node_tombstone_accepted c meta page slot node dim flags r faithful h =
    let rec : HnswNodeTombstoneRecord = record {
      page_id = page;
      slot_id = slot;
      node_id = node;
      dim = dim;
      meta_page_id = meta;
    } in
    let stamp = stamp_flags hnsw_state_v1_flags in
    let done : with_payload c rec hnsw_node_tombstone stamp ≡ ok r = ground arith in
    let stamped : r.flags ≡ 16 =
      ap (λ (x : WalRecord). x.flags)
        (finished c rec hnsw_node_tombstone stamp r faithful (λ x. refl) done) in
    let read = hnsw_payload_decode c rec hnsw_node_tombstone stamp r faithful (λ x. refl) done in
    (rw stamped read, rw stamped (ground arith))
