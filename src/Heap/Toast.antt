-- ===== src/Heap/Toast.antt =====
-- Pointers to values that are stored out of line: crates/pg-am-heap/src/toast.rs.
use Prim.Native.Nat.{bit_and, bit_or}
use ams.Common.{ℕ, ◌^◌, ◌<◌, ◌≡◌, refl, Bool, not, List, ◌++◌, length, ◌==◌, if◌then◌else◌}
use ams.Storage.LittleEndian.{to_le_bytes, from_le_bytes, take, skip, from_le_bytes-to_le_bytes}
use ams.Heap.Page.{Result, ok, err, corrupted}
use ams.Btree.Key.{ToastPointer}

abbrev pub toast_pointer_size : ℕ
toast_pointer_size = 20

abbrev pub varlena_external_flag : ℕ
varlena_external_flag = 0x40000000

abbrev pub varlena_tag_mask : ℕ
varlena_tag_mask = 0xC0000000

abbrev pub varlena_len_mask : ℕ
varlena_len_mask = 0x3FFFFFFF

unfoldable pub is_external : ℕ → Bool
is_external vl_len = bit_and vl_len varlena_tag_mask == varlena_external_flag

unfoldable pub encode_pointer : ToastPointer → List ℕ
encode_pointer p =
    to_le_bytes 4 (bit_or toast_pointer_size varlena_external_flag)
    ++ (to_le_bytes 4 p.va_rawsize
        ++ (to_le_bytes 4 p.va_extsize
            ++ (to_le_bytes 4 p.va_valueid ++ to_le_bytes 4 p.va_toastrelid)))

unfoldable pub decode_pointer : List ℕ → Result ToastPointer
decode_pointer bytes =
    let vl_len = from_le_bytes (take 4 bytes) in
    if not (length bytes == toast_pointer_size)
    then err corrupted
    else if not (is_external vl_len)
    then err corrupted
    else if not (bit_and vl_len varlena_len_mask == toast_pointer_size)
    then err corrupted
    else ok (record {
      va_rawsize = from_le_bytes (take 4 (skip 4 bytes));
      va_extsize = from_le_bytes (take 4 (skip 8 bytes));
      va_valueid = from_le_bytes (take 4 (skip 12 bytes));
      va_toastrelid = from_le_bytes (take 4 (skip 16 bytes));
    })

-- The fields are 32-bit numbers.
pub record IsPointer (p : ToastPointer) : Type 0 where
  pub va_rawsize : p.va_rawsize < 2 ^ 32
  pub va_extsize : p.va_extsize < 2 ^ 32
  pub va_valueid : p.va_valueid < 2 ^ 32
  pub va_toastrelid : p.va_toastrelid < 2 ^ 32

-- A pointer is read back from its bytes.
pub decode_pointer-encode_pointer :
    (p : ToastPointer) → IsPointer p → decode_pointer (encode_pointer p) ≡ ok p
unfolding encode_pointer decode_pointer is_external
decode_pointer-encode_pointer p h =
    rw
      (
        from_le_bytes-to_le_bytes 4 p.va_rawsize h.va_rawsize,
        from_le_bytes-to_le_bytes 4 p.va_extsize h.va_extsize,
        from_le_bytes-to_le_bytes 4 p.va_valueid h.va_valueid,
        from_le_bytes-to_le_bytes 4 p.va_toastrelid h.va_toastrelid,
      )
      refl
