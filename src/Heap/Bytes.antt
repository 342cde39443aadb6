-- ===== src/Heap/Bytes.antt =====
-- Buffers of bytes: a slice of a page is read and overwritten, numbers are little-endian.
use ams.Common.{
  ℕ, zero, suc, ◌+◌, ◌*◌, ◌/◌, ◌%◌, ◌^◌, ◌≤◌, ◌<◌, ◌≡◌, refl, ◌⊎◌, List, [], ◌∷◌, length, arith,
  ◌==◌, if◌then◌else◌,
}

-- The byte at each offset.
abbrev pub Buffer : Type 0
Buffer = ℕ → ℕ

-- `page[at..at + bytes.len()].copy_from_slice(bytes)`
abbrev pub copy_from_slice : ℕ → List ℕ → Buffer → Buffer
copy_from_slice at [] page i = page i
copy_from_slice at (b ∷ bytes) page i = if i == at then b else copy_from_slice (at + 1) bytes page i

-- `page[at..at + n]`
abbrev pub slice : ℕ → ℕ → Buffer → List ℕ
slice zero at page = []
slice (suc n) at page = page at ∷ slice n (at + 1) page

pub copy_outside :
    (at i : ℕ) (bytes : List ℕ) (page : Buffer)
    → (i < at) ⊎ (at + length bytes ≤ i)
    → copy_from_slice at bytes page i ≡ page i
copy_outside at i [] page h = refl
copy_outside at i (b ∷ bytes) page h = ground (arith, copy_outside (at + 1) i bytes page)

-- Two buffers that agree on a slice.
pub slice_same :
    (n at : ℕ) (p q : Buffer)
    → ((i : ℕ) → at ≤ i → i < at + n → p i ≡ q i)
    → slice n at p ≡ slice n at q
slice_same zero at p q h = refl
slice_same (suc n) at p q h =
    ground (arith, h at, slice_same n (at + 1) p q (λ i a b. h i (omega arith) (omega arith)))

pub slice-copy :
    (at : ℕ) (bytes : List ℕ) (page : Buffer)
    → slice (length bytes) at (copy_from_slice at bytes page) ≡ bytes
slice-copy at [] page = refl
slice-copy at (b ∷ bytes) page =
    let tail =
      slice_same (length bytes) (at + 1) (copy_from_slice at (b ∷ bytes) page)
        (copy_from_slice (at + 1) bytes page) (λ i lo hi. ground arith) in
    ground (arith, tail, slice-copy (at + 1) bytes page)

-- `u16::from_le_bytes` and `to_le_bytes`, and those of `u32`.
unfoldable pub read_u16 : ℕ → Buffer → ℕ
read_u16 at page = page at + page (at + 1) * 2 ^ 8

unfoldable pub write_u16 : ℕ → ℕ → Buffer → Buffer
write_u16 at v page = copy_from_slice at (v % 2 ^ 8 ∷ v / 2 ^ 8 % 2 ^ 8 ∷ []) page

unfoldable pub read_u32 : ℕ → Buffer → ℕ
read_u32 at page = page at + page (at + 1) * 2 ^ 8 + page (at + 2) * 2 ^ 16 + page (at + 3) * 2 ^ 24

unfoldable pub write_u32 : ℕ → ℕ → Buffer → Buffer
write_u32 at v page =
    copy_from_slice at
      (v % 2 ^ 8 ∷ v / 2 ^ 8 % 2 ^ 8 ∷ v / 2 ^ 16 % 2 ^ 8 ∷ v / 2 ^ 24 % 2 ^ 8 ∷ []) page

pub read_u16-write : (at v : ℕ) (page : Buffer) → v < 2 ^ 16 → read_u16 at (write_u16 at v page) ≡ v
unfolding read_u16 write_u16
read_u16-write at v page h = ground arith

pub read_u32-write : (at v : ℕ) (page : Buffer) → v < 2 ^ 32 → read_u32 at (write_u32 at v page) ≡ v
unfolding read_u32 write_u32
read_u32-write at v page h = ground arith

pub write_u16_outside :
    (at v i : ℕ) (page : Buffer) → (i < at) ⊎ (at + 2 ≤ i) → write_u16 at v page i ≡ page i
unfolding write_u16
write_u16_outside at v i page h = ground arith

pub write_u32_outside :
    (at v i : ℕ) (page : Buffer) → (i < at) ⊎ (at + 4 ≤ i) → write_u32 at v page i ≡ page i
unfolding write_u32
write_u32_outside at v i page h = ground arith
