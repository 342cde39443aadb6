-- ===== src/Storage/Wal/RoundTrip.antt =====
-- What `WalRecord::encode` writes `WalRecord::decode` reads back, and what it refuses
-- (crates/pg-storage/src/wal/record.rs).
use ams.Common.{
  ℕ, ◌+◌, ◌-◌, ◌*◌, ◌/◌, ◌%◌, ◌^◌, ◌≤◌, ◌<◌, ◌≡◌, refl, sym, ap, ◌∙◌, List, ◌++◌, length,
  length-append, arith,
}
use ams.Storage.LittleEndian.{to_le_bytes, from_le_bytes, take, skip, from_le_bytes-to_le_bytes}
use ams.Storage.Types.{
  align_up_lem, resize, length-resize, resize-append, take-resize, take-append, take_all,
  skip-append,
}
use ams.Storage.Error.{ok}
use ams.Storage.Wal.RecordType.{to_u8, from_u8-to_u8}
use ams.Storage.Wal.Frame.{WalRecord, record_size, header, checksum, encode, decode_body, decode}

-- A checksum of 32 bits and fields of the widths of the format.
pub record IsEncodable (crc : List ℕ → ℕ) (r : WalRecord) : Type 0 where
  pub checksum_small : (bytes : List ℕ) → crc bytes < 2 ^ 32
  pub lsn_small : r.lsn < 2 ^ 64
  pub prev_lsn_small : r.prev_lsn < 2 ^ 64
  pub txn_id_small : r.txn_id < 2 ^ 64
  pub flags_small : r.flags < 256
  pub payload_small : length r.payload ≤ 65535

pub record_size_lem :
    (r : WalRecord) → length r.payload ≤ 65535 → record_size r ≡ (length r.payload + 39) / 8 * 8
unfolding record_size
record_size_lem r h = omega (arith, align_up_lem (32 + length r.payload) (omega arith))

-- What follows the checksum: the payload and zeros.
unfoldable pub body : WalRecord → List ℕ
body r = resize (record_size r - 32) r.payload

unfoldable pub image : (List ℕ → ℕ) → WalRecord → List ℕ
image crc r = header r ++ (to_le_bytes 4 (crc (header r ++ body r)) ++ body r)

length-body : (r : WalRecord) → length (body r) ≡ record_size r - 32
unfolding body
length-body r = length-resize (record_size r - 32) r.payload

pub length-header : (r : WalRecord) → length (header r) ≡ 28
unfolding header
length-header r = refl

take-header : (r : WalRecord) (rest : List ℕ) → take 28 (header r ++ rest) ≡ header r
take-header r rest = take-append 28 (header r) rest (length-header r)

skip-header : (r : WalRecord) (rest : List ℕ) → skip 28 (header r ++ rest) ≡ rest
skip-header r rest = skip-append 28 0 (header r) rest (length-header r)

skip-header-crc :
    (r : WalRecord) (c : ℕ) (rest : List ℕ) → skip 32 (header r ++ (to_le_bytes 4 c ++ rest)) ≡ rest
skip-header-crc r c rest = skip-append 28 4 (header r) (to_le_bytes 4 c ++ rest) (length-header r)

take-body : (r : WalRecord) (rest : List ℕ) → take (record_size r - 32) (body r ++ rest) ≡ body r
take-body r rest = take-append (record_size r - 32) (body r) rest (length-body r)

payload-body :
    (r : WalRecord) (rest : List ℕ)
    → length r.payload ≤ 65535
    → take (length r.payload) (body r ++ rest) ≡ r.payload
unfolding body
payload-body r rest h =
    take-resize (record_size r - 32) r.payload rest (omega (arith, record_size_lem r h))

all-body : (r : WalRecord) → take (record_size r - 32) (body r) ≡ body r
all-body r = take_all (record_size r - 32) (body r) (omega (arith, length-body r))

unsealed :
    (r : WalRecord)
    → length r.payload ≤ 65535
    → resize (record_size r) (header r ++ (to_le_bytes 4 0 ++ r.payload))
      ≡ header r ++ (to_le_bytes 4 0 ++ body r)
unfolding body
unsealed r h =
    let size = record_size_lem r h in
    let n = record_size r in
    resize-append n (n - 28) (header r) (to_le_bytes 4 0 ++ r.payload)
      (omega (arith, length-header r))
    ∙ ap (λ (t : List ℕ). header r ++ t)
        (resize-append (n - 28) (n - 32) (to_le_bytes 4 0) r.payload (omega arith))

-- The bytes of a record: its header, the checksum of the header and of what follows, its payload
-- and zeros.
pub encode_lem :
    (crc : List ℕ → ℕ) (r : WalRecord) → length r.payload ≤ 65535 → encode crc r ≡ ok (image crc r)
unfolding encode image checksum
encode_lem crc r h =
    let rest = to_le_bytes 4 0 ++ body r in
    rw (unsealed r h, take-header r rest, skip-header-crc r 0 (body r), all-body r) (ground arith)

module _ (r : WalRecord) (rest : List ℕ) where
  pub header-lsn : r.lsn < 2 ^ 64 → from_le_bytes (take 8 (header r ++ rest)) ≡ r.lsn
  unfolding header
  header-lsn h = from_le_bytes-to_le_bytes 8 r.lsn h

  header-prev_lsn :
      r.prev_lsn < 2 ^ 64 → from_le_bytes (take 8 (skip 8 (header r ++ rest))) ≡ r.prev_lsn
  unfolding header
  header-prev_lsn h = from_le_bytes-to_le_bytes 8 r.prev_lsn h

  header-txn_id : r.txn_id < 2 ^ 64 → from_le_bytes (take 8 (skip 16 (header r ++ rest))) ≡ r.txn_id
  unfolding header
  header-txn_id h = from_le_bytes-to_le_bytes 8 r.txn_id h

  header-record_type : from_le_bytes (take 1 (skip 24 (header r ++ rest))) ≡ to_u8 r.record_type
  unfolding header
  header-record_type = omega arith

  header-flags : from_le_bytes (take 1 (skip 25 (header r ++ rest))) ≡ r.flags
  unfolding header
  header-flags = omega arith

  pub header-payload_len :
      length r.payload ≤ 65535
      → from_le_bytes (take 2 (skip 26 (header r ++ rest))) ≡ length r.payload
  unfolding header
  header-payload_len h =
      from_le_bytes-to_le_bytes 2 (length r.payload % 2 ^ 16) (omega arith) ∙ omega arith

  header-crc :
      (c : ℕ)
      → c < 2 ^ 32
      → from_le_bytes (take 4 (skip 28 (header r ++ (to_le_bytes 4 c ++ rest)))) ≡ c
  unfolding header
  header-crc c h = from_le_bytes-to_le_bytes 4 c h

image-append :
    (crc : List ℕ → ℕ) (r : WalRecord) (rest : List ℕ)
    → image crc r ++ rest
      ≡ header r ++ (to_le_bytes 4 (crc (header r ++ body r)) ++ (body r ++ rest))
unfolding image header
image-append crc r rest = refl

pub length-image :
    (crc : List ℕ → ℕ) (r : WalRecord)
    → length r.payload ≤ 65535
    → length (image crc r) ≡ record_size r
unfolding image
length-image crc r h =
    let c = crc (header r ++ body r) in
    omega (
      arith,
      length-append (header r) (to_le_bytes 4 c ++ body r),
      length-header r,
      length-body r,
      record_size_lem r h,
    )

decode-image :
    (crc : List ℕ → ℕ) (r : WalRecord) (rest : List ℕ)
    → IsEncodable crc r
    → decode crc (image crc r ++ rest) ≡ ok (r, record_size r)
unfolding decode decode_body record_size checksum
decode-image crc r rest h =
    let c = crc (header r ++ body r) in
    let after = to_le_bytes 4 c ++ (body r ++ rest) in
    let size = record_size_lem r h.payload_small in
    let long : record_size r ≤ length (image crc r ++ rest) =
      omega (arith, length-append (image crc r) rest, length-image crc r h.payload_small) in
    let long' : record_size r ≤ length (header r ++ after) =
      rw (sym (image-append crc r rest)) long in
    let seen = image-append crc r rest in
    rw
      (
        seen,
        header-record_type r after,
        from_u8-to_u8 r.record_type,
        seen,
        header-payload_len r after h.payload_small,
        header-lsn r after h.lsn_small,
        header-prev_lsn r after h.prev_lsn_small,
        header-txn_id r after h.txn_id_small,
        header-flags r after,
        header-crc r (body r ++ rest) c (h.checksum_small (header r ++ body r)),
        take-header r after,
        skip-header-crc r c (body r ++ rest),
        take-body r rest,
        payload-body r rest h.payload_small,
      )
      (ground (arith, long'))

-- A record whose fields fit the format is encoded, and read back from its bytes with its size,
-- whatever follows them.
pub WalRecord-round_trip :
    (crc : List ℕ → ℕ) (r : WalRecord) (rest : List ℕ)
    → IsEncodable crc r
    → (encode crc r ≡ ok (image crc r)) × (decode crc (image crc r ++ rest) ≡ ok (r, record_size r))
WalRecord-round_trip crc r rest h = (encode_lem crc r h.payload_small, decode-image crc r rest h)
