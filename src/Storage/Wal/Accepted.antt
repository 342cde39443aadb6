-- ===== src/Storage/Wal/Accepted.antt =====
-- What a constructor of a log record accepts, its decoder reads back: the payloads of
-- crates/pg-storage/src/wal/record.rs.
use ams.Common.{
  ℕ, ◌≤◌, ◌≡◌, refl, sym, ap, ◌∙◌, false, inl, inr, some, List, [], ◌++◌, length, arith,
  Option-cases,
}
use ams.Storage.Types.{first_user}
use ams.Storage.Error.{ok}
use ams.Storage.Wal.RecordType.{WalRecordType, heap_cleanup, checkpoint_end}
use ams.Storage.Wal.Frame.{WalRecord, record_size, encode, decode}
use ams.Storage.Wal.RoundTrip.{IsEncodable, image, WalRecord-round_trip}
use ams.Storage.Wal.Codec.{
  Codec, IsFaithful, decode_payload, new_record, with_payload, stamp_flags, unstamped, decode-whole,
}
use ams.Storage.Wal.Heap.{
  HeapCleanupRecord, CheckpointEndRecord, CheckpointEndRecordV1, any_descent,
  max_heap_cleanup_slots, heap_cleanup_record, heap_cleanup_decode, checkpoint_end_record,
  checkpoint_end_decode, checkpoint_end_v2_flags,
}

pub encoded_cases :
    {T : Type 0} (c : Codec T) (v : T) (t : WalRecordType) (f : WalRecord → WalRecord)
    (r : WalRecord)
    → with_payload c v t f ≡ ok r
    → (bytes : List ℕ) × (c.encode_to_vec v ≡ some bytes) × (r ≡ f (new_record t bytes))
unfolding with_payload
encoded_cases c v t f r h = elim (Option-cases (c.encode_to_vec v)) [
  | inl e ↦ absurd (ground arith)
  | inr (bytes, e) ↦ (bytes, e, ground arith)
]

-- A finished record holds the bytes of its value, and has its type.
module _ {T : Type 0} (c : Codec T) (v : T) (t : WalRecordType) (f : WalRecord → WalRecord)
    (r : WalRecord) (faithful : IsFaithful c) (keeps : (x : WalRecord) → (f x).payload ≡ x.payload)
    (done : with_payload c v t f ≡ ok r) where
  pub payload_read : c.decode_from_slice r.payload ≡ some (v, length r.payload)
  unfolding new_record
  payload_read =
      let (bytes, e, made) = encoded_cases c v t f r done in
      let held : r.payload ≡ bytes =
        ap (λ (x : WalRecord). x.payload) made ∙ keeps (new_record t bytes) in
      rw held (decode-whole c v bytes faithful e)

  pub finished : r ≡ f (new_record t r.payload)
  unfolding new_record
  finished =
      let (bytes, e, made) = encoded_cases c v t f r done in
      let held : r.payload ≡ bytes =
        ap (λ (x : WalRecord). x.payload) made ∙ keeps (new_record t bytes) in
      made ∙ ap (λ (b : List ℕ). f (new_record t b)) (sym held)

  payload_decode : decode_payload c r.payload ≡ ok v
  unfolding decode_payload
  payload_decode = ground (arith, payload_read)

-- A cleanup that is accepted lists its dead slots in ascending order, no more than a page has, and
-- its payload is read back as it was written, so recovery never meets one that it refuses.
pub heap_cleanup_accepted :
    (c : Codec HeapCleanupRecord) (page prev next : ℕ) (dead : List ℕ) (r : WalRecord)
    → IsFaithful c
    → heap_cleanup_record c page dead prev next ≡ ok r
    → (any_descent dead ≡ false)
      × (length dead ≤ max_heap_cleanup_slots)
      × (heap_cleanup_decode c r.payload
          ≡ ok (record {
            page_id = page;
            unlink_prev_page = prev;
            unlink_next_page = next;
            dead_slots = dead;
          }))
unfolding heap_cleanup_record heap_cleanup_decode
heap_cleanup_accepted c page prev next dead r faithful h =
    let rec : HeapCleanupRecord = record {
      page_id = page;
      unlink_prev_page = prev;
      unlink_next_page = next;
      dead_slots = dead;
    } in
    let done : with_payload c rec heap_cleanup unstamped ≡ ok r = ground arith in
    let few : length dead ≤ max_heap_cleanup_slots = ground arith in
    (
      ground arith,
      few,
      rw
          (
            heap_cleanup_decode,
            payload_decode c rec heap_cleanup unstamped r faithful (λ x. refl) done,
          )
          (ground (arith, few)),
    )

-- A checkpoint's end is written in the second version of its format and read back as written; under
-- the flags of the first version its payload is read by the old format, without the last fields.
pub checkpoint_end_accepted :
    (c : Codec CheckpointEndRecord) (c1 : Codec CheckpointEndRecordV1) (rec : CheckpointEndRecord)
    (old : CheckpointEndRecordV1) (r s : WalRecord)
    → IsFaithful c
    → IsFaithful c1
    → checkpoint_end_record c rec.checkpoint_lsn rec.next_page_id rec.next_txn_id rec.next_oid
        rec.att_file rec.dpt_file
      ≡ ok r
    → with_payload c1 old checkpoint_end unstamped ≡ ok s
    → (checkpoint_end_decode c c1 r.payload r.flags ≡ ok rec)
      × (checkpoint_end_decode c c1 s.payload s.flags
          ≡ ok (record {
            checkpoint_lsn = old.checkpoint_lsn;
            next_page_id = old.next_page_id;
            next_txn_id = old.next_txn_id;
            next_oid = first_user;
            att_file = [];
            dpt_file = [];
          }))
unfolding checkpoint_end_record checkpoint_end_decode new_record
checkpoint_end_accepted c c1 rec old r s faithful faithful1 h h1 =
    let stamp = stamp_flags checkpoint_end_v2_flags in
    let flags : r.flags ≡ checkpoint_end_v2_flags =
      ap (λ (x : WalRecord). x.flags)
        (finished c rec checkpoint_end stamp r faithful (λ x. refl) h) in
    let flags1 : s.flags ≡ 0 =
      ap (λ (x : WalRecord). x.flags)
        (finished c1 old checkpoint_end unstamped s faithful1 (λ x. refl) h1) in
    (
      rw flags (payload_decode c rec checkpoint_end stamp r faithful (λ x. refl) h),
      rw (flags1, payload_decode c1 old checkpoint_end unstamped s faithful1 (λ x. refl) h1) refl,
    )

-- From a constructor to the disk and back: a cleanup that is accepted, put at a position and written
-- with anything after it, is read from its bytes as the record it was, and the payload of that as
-- the cleanup it was.
pub heap_cleanup_recovered :
    (crc : List ℕ → ℕ) (c : Codec HeapCleanupRecord) (rec : HeapCleanupRecord) (lsn prev : ℕ)
    (r : WalRecord) (rest : List ℕ)
    → IsFaithful c
    → heap_cleanup_record c rec.page_id rec.dead_slots rec.unlink_prev_page rec.unlink_next_page
      ≡ ok r
    → IsEncodable crc (record r { lsn = lsn; prev_lsn = prev })
    → (bytes : List ℕ) × (encode crc (record r { lsn = lsn; prev_lsn = prev }) ≡ ok bytes)
      × (decode crc (bytes ++ rest) ≡ ok (record r { lsn = lsn; prev_lsn = prev }, record_size r))
      × (heap_cleanup_decode c r.payload ≡ ok rec)
unfolding record_size
heap_cleanup_recovered crc c rec lsn prev r rest faithful h fits =
    let r' : WalRecord = record r { lsn = lsn; prev_lsn = prev } in
    (
      image crc r',
      (WalRecord-round_trip crc r' rest fits).0,
      (WalRecord-round_trip crc r' rest fits).1,
      (heap_cleanup_accepted c rec.page_id rec.unlink_prev_page rec.unlink_next_page rec.dead_slots
          r faithful h).2,
    )
