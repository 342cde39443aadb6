-- ===== src/Storage/Wal/Refusals.antt =====
-- What `WalRecord::decode` refuses and with which error (crates/pg-storage/src/wal/record.rs): a
-- record that a crash cut short, a checksum that does not match, an unknown type.
use ams.Common.{
  ℕ, zero, suc, ◌+◌, ◌-◌, ◌≤◌, ◌<◌, ◌≡◌, sym, ap, ◌∙◌, ◌⊎◌, inl, inr, List, [], ◌∷◌, ◌++◌, length,
  All, arith,
}
use ams.Storage.LittleEndian.{to_le_bytes, from_le_bytes, take, skip}
use ams.Storage.Types.{align_up, align_up_lem, take-past, length-take, length-skip}
use ams.Storage.Error.{ok, err, wal_corrupted, wal_read_failed}
use ams.Storage.Wal.Frame.{WalRecord, record_size, header, checksum, decode_body, decode}
use ams.Storage.Wal.RoundTrip.{
  IsEncodable, image, body, length-header, length-image, header-lsn, header-payload_len,
}

decode_short :
    (crc : List ℕ → ℕ) (buf : List ℕ) → length buf < 32 → decode crc buf ≡ err (wal_corrupted 0)
unfolding decode
decode_short crc buf h = ground arith

take-image :
    (crc : List ℕ → ℕ) (r : WalRecord) (m : ℕ)
    → take (28 + m) (image crc r)
      ≡ header r ++ take m (to_le_bytes 4 (crc (header r ++ body r)) ++ body r)
unfolding image
take-image crc r m =
    take-past 28 m (header r) (to_le_bytes 4 (crc (header r ++ body r)) ++ body r) (length-header r)

decode_cut :
    (crc : List ℕ → ℕ) (r : WalRecord) (rest : List ℕ)
    → IsEncodable crc r
    → 32 ≤ length (header r ++ rest)
    → length (header r ++ rest) < record_size r
    → decode crc (header r ++ rest) ≡ err (wal_corrupted r.lsn)
unfolding decode decode_body record_size
decode_cut crc r rest h long short =
    rw (header-payload_len r rest h.payload_small, header-lsn r rest h.lsn_small)
      (ground (arith, long, short))

-- A record that was cut short at any byte is refused as corrupted, under its own position once its
-- header is whole and under the invalid position before that.
pub decode_torn :
    (crc : List ℕ → ℕ) (r : WalRecord) (n : ℕ)
    → IsEncodable crc r
    → n < record_size r
    → (n < 32) × (decode crc (take n (image crc r)) ≡ err (wal_corrupted 0))
      ⊎ (32 ≤ n) × (decode crc (take n (image crc r)) ≡ err (wal_corrupted r.lsn))
decode_torn crc r n h short =
    let whole = length-image crc r h.payload_small in
    let size : length (take n (image crc r)) ≡ n =
      length-take n (image crc r) (omega (arith, whole)) in
    elim (cut_at n) [
      | inl below ↦ inl (below, decode_short crc (take n (image crc r)) (omega arith))
      | inr e ↦
          let tail = take (4 + (n - 32)) (to_le_bytes 4 (crc (header r ++ body r)) ++ body r) in
          let seen : take n (image crc r) ≡ header r ++ tail =
            ap (λ (t : ℕ). take t (image crc r)) e ∙ take-image crc r (4 + (n - 32)) in
          let kept : length (header r ++ tail) ≡ n =
            sym (ap (λ (t : List ℕ). length t) seen) ∙ size in
          inr (omega arith, rw seen (decode_cut crc r tail h (omega arith) (omega arith)))
    ]
  where
    cut_at : (n : ℕ) → (n < 32) ⊎ (n ≡ 28 + (4 + (n - 32)))
    cut_at n = omega arith

from_two_bytes : (bytes : List ℕ) → All (λ b. b < 256) bytes → from_le_bytes (take 2 bytes) < 65536
from_two_bytes [] h = omega arith
from_two_bytes (a ∷ []) h = omega (arith, h.0)
from_two_bytes (a ∷ b ∷ bytes) h = omega (arith, h.0, h.1.0)

All-skip : (n : ℕ) (bytes : List ℕ) → All (λ b. b < 256) bytes → All (λ b. b < 256) (skip n bytes)
All-skip zero bytes h = h
All-skip (suc n) [] h = tt
All-skip (suc n) (b ∷ bytes) h = All-skip n bytes h.1

decode_held :
    (crc : List ℕ → ℕ) (buf : List ℕ) (r : WalRecord) (total : ℕ)
    → decode crc buf ≡ ok (r, total)
    → (total ≡ align_up (32 + from_le_bytes (take 2 (skip 26 buf))) 8)
      × (align_up (32 + from_le_bytes (take 2 (skip 26 buf))) 8 ≤ length buf)
      × (r.payload ≡ take (from_le_bytes (take 2 (skip 26 buf))) (skip 32 buf))
      × (checksum crc (align_up (32 + from_le_bytes (take 2 (skip 26 buf))) 8) buf
          ≡ from_le_bytes (take 4 (skip 28 buf)))
unfolding decode decode_body
decode_held crc buf r total h = (ground arith, ground arith, ground arith, ground arith)

-- A record that is read fits in the buffer, the bytes consumed are its size, its checksum matches,
-- and its payload has at most 65535 bytes.
pub decode_record_checks :
    (crc : List ℕ → ℕ) (buf : List ℕ) (r : WalRecord) (total : ℕ)
    → All (λ b. b < 256) buf
    → decode crc buf ≡ ok (r, total)
    → (total ≡ record_size r)
      × (total ≤ length buf)
      × (checksum crc total buf ≡ from_le_bytes (take 4 (skip 28 buf)))
      × (length r.payload ≤ 65535)
unfolding record_size
decode_record_checks crc buf r total bytes h =
    let n = from_le_bytes (take 2 (skip 26 buf)) in
    let small = from_two_bytes (skip 26 buf) (All-skip 26 buf bytes) in
    let size = align_up_lem (32 + n) (omega arith) in
    let held = decode_held crc buf r total h in
    let whole : length r.payload ≡ n =
      ap (λ (t : List ℕ). length t) held.2
      ∙ length-take n (skip 32 buf) (omega (arith, held.0, held.1, length-skip 32 buf)) in
    (
      held.0 ∙ ap (λ (t : ℕ). align_up (32 + t) 8) (sym whole),
      omega (arith, held.0, held.1),
      ap (λ (t : ℕ). checksum crc t buf) held.0 ∙ held.3,
      omega arith,
    )

-- An unknown record type is reported only of a whole record whose checksum matches.
pub unknown_type_checked :
    (crc : List ℕ → ℕ) (buf : List ℕ)
    → decode crc buf ≡ err wal_read_failed
    → checksum crc (align_up (32 + from_le_bytes (take 2 (skip 26 buf))) 8) buf
      ≡ from_le_bytes (take 4 (skip 28 buf))
unfolding decode decode_body
unknown_type_checked crc buf h = ground arith
