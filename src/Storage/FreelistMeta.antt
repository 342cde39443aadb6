-- ===== src/Storage/FreelistMeta.antt =====
-- The snapshot of the list of free pages: crates/pg-storage/src/freelist_meta.rs, `encode` and
-- `decode`. The checksum, `crc32fast::hash`, is a parameter.
use ams.Common.{
  ℕ, zero, suc, ◌+◌, ◌*◌, ◌%◌, ◌^◌, ◌<◌, ◌≡◌, refl, ap, ◌∙◌, not, Option, none, some, List, [], ◌∷◌,
  ◌++◌, length, All, arith, ltb, ◌==◌, if◌then◌else◌,
}
use ams.Storage.LittleEndian.{to_le_bytes, from_le_bytes, take, skip, from_le_bytes-to_le_bytes}

abbrev pub crc_size : ℕ
crc_size = 4

abbrev pub body_header_size : ℕ
body_header_size = 16

pub record FreelistMeta : Type 0 where
  pub checkpoint_lsn : ℕ
  pub page_ids : List ℕ

unfoldable pub encode_page_ids : List ℕ → List ℕ
encode_page_ids [] = []
encode_page_ids (page_id ∷ rest) = to_le_bytes 8 page_id ++ encode_page_ids rest

unfoldable pub encode_body : FreelistMeta → List ℕ
encode_body m =
    to_le_bytes 8 m.checkpoint_lsn
    ++ (to_le_bytes 8 (length m.page_ids % 2 ^ 64) ++ encode_page_ids m.page_ids)

unfoldable pub decode_page_ids : ℕ → List ℕ → List ℕ
decode_page_ids zero bytes = []
decode_page_ids (suc count) bytes =
    from_le_bytes (take 8 bytes) ∷ decode_page_ids count (skip 8 bytes)

module _ (crc : List ℕ → ℕ) where
  unfoldable pub encode : FreelistMeta → List ℕ
  encode m = to_le_bytes crc_size (crc (encode_body m)) ++ encode_body m

  -- The body, after its checksum was compared; `none` is `MetadataCorrupted`.
  unfoldable pub decode_body : List ℕ → Option FreelistMeta
  decode_body body =
      let count = from_le_bytes (take 8 (skip 8 body)) in
      if not (length body == (body_header_size + count * 8) % 2 ^ 64)
      then none
      else some (record {
        checkpoint_lsn = from_le_bytes (take 8 body);
        page_ids = decode_page_ids count (skip body_header_size body);
      })

  unfoldable pub decode : List ℕ → Option FreelistMeta
  decode bytes =
      if ltb (length bytes) (crc_size + body_header_size)
      then none
      else if not (from_le_bytes (take crc_size bytes) == crc (skip crc_size bytes))
      then none
      else decode_body (skip crc_size bytes)

decode-encode_page_ids :
    (ids : List ℕ)
    → All (λ p. p < 2 ^ 64) ids
    → decode_page_ids (length ids) (encode_page_ids ids) ≡ ids
unfolding decode_page_ids encode_page_ids
decode-encode_page_ids [] h = refl
decode-encode_page_ids (p ∷ ids) h =
    ground (arith, from_le_bytes-to_le_bytes 8 p h.0, decode-encode_page_ids ids h.1)

length-encode_page_ids : (ids : List ℕ) → length (encode_page_ids ids) ≡ length ids * 8
unfolding encode_page_ids
length-encode_page_ids [] = refl
length-encode_page_ids (p ∷ ids) = omega (arith, length-encode_page_ids ids)

length-decode_page_ids : (count : ℕ) (bytes : List ℕ) → length (decode_page_ids count bytes) ≡ count
unfolding decode_page_ids
length-decode_page_ids zero bytes = refl
length-decode_page_ids (suc count) bytes =
    ap (λ (t : ℕ). suc t) (length-decode_page_ids count (skip 8 bytes))

length-encode_body :
    (m : FreelistMeta) → length (encode_body m) ≡ body_header_size + length m.page_ids * 8
unfolding encode_body
length-encode_body m = omega (arith, length-encode_page_ids m.page_ids)

-- What a checksum, an integer of 32 bits, and a list of pages must be for the format to hold them.
pub record IsStorable (crc : List ℕ → ℕ) (m : FreelistMeta) : Type 0 where
  pub checksum : (bytes : List ℕ) → crc bytes < 2 ^ 32
  pub lsn : m.checkpoint_lsn < 2 ^ 64
  pub ids : All (λ p. p < 2 ^ 64) m.page_ids
  pub few : body_header_size + length m.page_ids * 8 < 2 ^ 64

decode-encode_body :
    (crc : List ℕ → ℕ) (m : FreelistMeta)
    → IsStorable crc m
    → decode_body crc (encode_body m) ≡ some m
unfolding decode_body encode_body
decode-encode_body crc m h =
    let n = length m.page_ids in
    let whole : n % 2 ^ 64 ≡ n = omega (arith, h.few) in
    let count : from_le_bytes (to_le_bytes 8 (n % 2 ^ 64)) ≡ n =
      from_le_bytes-to_le_bytes 8 (n % 2 ^ 64) (omega arith) ∙ whole in
    let pages : decode_page_ids (from_le_bytes (to_le_bytes 8 (n % 2 ^ 64)))
          (encode_page_ids m.page_ids)
        ≡ m.page_ids =
      ap (λ (c : ℕ). decode_page_ids c (encode_page_ids m.page_ids)) count
      ∙ decode-encode_page_ids m.page_ids h.ids in
    let size : (body_header_size + n * 8) % 2 ^ 64 ≡ body_header_size + n * 8 =
      omega (arith, h.few) in
    ground (
      arith,
      from_le_bytes-to_le_bytes 8 m.checkpoint_lsn h.lsn,
      count,
      pages,
      size,
      length-encode_page_ids m.page_ids,
    )

-- A snapshot is read back as it was written, for every checksum function.
pub decode-encode :
    (crc : List ℕ → ℕ) (m : FreelistMeta) → IsStorable crc m → decode crc (encode crc m) ≡ some m
unfolding encode decode
decode-encode crc m h = ground (
  arith,
  from_le_bytes-to_le_bytes 4 (crc (encode_body m)) (h.checksum (encode_body m)),
  decode-encode_body crc m h,
  length-encode_body m,
)

-- What is decoded had the checksum of its body in front, and exactly the length for its pages.
pub decode_checks :
    (crc : List ℕ → ℕ) (bytes : List ℕ) (m : FreelistMeta)
    → decode crc bytes ≡ some m
    → (from_le_bytes (take crc_size bytes) ≡ crc (skip crc_size bytes))
      × (length (skip crc_size bytes) ≡ (body_header_size + length m.page_ids * 8) % 2 ^ 64)
unfolding decode decode_body
decode_checks crc bytes m h =
    let count = from_le_bytes (take 8 (skip 8 (skip crc_size bytes))) in
    (
      ground arith,
      ground (arith, length-decode_page_ids count (skip body_header_size (skip crc_size bytes))),
    )
