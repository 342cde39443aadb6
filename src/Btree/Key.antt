-- ===== src/Btree/Key.antt =====
-- The keys of an index as strings of bytes: crates/pg-am-btree/src/key.rs, with the types of columns
-- and of values of crates/pg-am-heap/src/tuple.rs. A text is the bytes of its UTF-8 form. What UUIDs
-- and floating-point numbers are, and which bytes are UTF-8, are parameters.
use Prim.Native.Nat.{bit_xor}
use ams.Common.{
  ℕ, suc, ◌-◌, ◌*◌, ◌/◌, Bool, true, false, not, List, length, leb, ltb, ◌==◌, if◌then◌else◌,
}
use ams.Btree.Order.{to_be_bytes, from_be_bytes}

-- A signed integer.
pub data ℤ : Type 0 where
  pos : ℕ → ℤ
  negsuc : ℕ → ℤ

-- `v as u32` and `v as u64`, and back.
unfoldable pub as_unsigned : ℕ → ℤ → ℕ
as_unsigned half (pos n) = n
as_unsigned half (negsuc n) = 2 * half - suc n

unfoldable pub as_signed : ℕ → ℕ → ℤ
as_signed half u = if ltb u half then pos u else negsuc (2 * half - suc u)

pub data BTreeError : Type 0 where
  page_full : ℕ → ℕ → BTreeError
  key_too_large : ℕ → BTreeError
  duplicate_key : BTreeError
  entry_not_found : BTreeError
  corrupted : BTreeError
  invalid_argument : BTreeError
  unsupported : BTreeError

pub data Result (A : Type 0) : Type 0 where
  ok : A → Result A
  err : BTreeError → Result A

pub data ColumnType : Type 0 where
  int4 : ColumnType
  int8 : ColumnType
  timestamptz : ColumnType
  uuid : ColumnType
  text : ColumnType
  bytea : ColumnType
  vector : ℕ → ColumnType

abbrev pub max_index_key_bytes : ℕ
max_index_key_bytes = (8192 - 32 - 16) / 3 - 16

unfoldable pub is_supported_key_type : ColumnType → Bool
is_supported_key_type int4 = true
is_supported_key_type int8 = true
is_supported_key_type text = true
is_supported_key_type bytea = true
is_supported_key_type _ = false

abbrev pub half32 : ℕ
half32 = 0x80000000

abbrev pub half64 : ℕ
half64 = 0x8000000000000000

unfoldable pub encode_i32 : ℤ → List ℕ
encode_i32 v = to_be_bytes 4 (bit_xor (as_unsigned half32 v) half32)

unfoldable pub decode_i32 : List ℕ → ℤ
decode_i32 bytes = as_signed half32 (bit_xor (from_be_bytes bytes) half32)

unfoldable pub encode_i64 : ℤ → List ℕ
encode_i64 v = to_be_bytes 8 (bit_xor (as_unsigned half64 v) half64)

unfoldable pub decode_i64 : List ℕ → ℤ
decode_i64 bytes = as_signed half64 (bit_xor (from_be_bytes bytes) half64)

-- `ToastPointer` of crates/pg-am-heap/src/toast.rs.
pub record ToastPointer : Type 0 where
  pub va_rawsize : ℕ
  pub va_extsize : ℕ
  pub va_valueid : ℕ
  pub va_toastrelid : ℕ

module _ (Uuid F : Type 0) where
  pub data Datum : Type 0 where
    int4_of : ℤ → Datum
    int8_of : ℤ → Datum
    timestamptz_of : ℤ → Datum
    uuid_of : Uuid → Datum
    text_of : List ℕ → Datum
    bytea_of : List ℕ → Datum
    vector_of : List F → Datum
    external : ToastPointer → Datum

-- The test of the length at the end of `encode_key`.
unfoldable pub within_max : List ℕ → Result (List ℕ)
within_max bytes =
    if not (leb (length bytes) max_index_key_bytes)
    then err (key_too_large (length bytes))
    else ok bytes

module _ {Uuid F : Type 0} where
  unfoldable pub encode_key : Datum Uuid F → Result (List ℕ)
  encode_key (int4_of v) = within_max (encode_i32 v)
  encode_key (int8_of v) = within_max (encode_i64 v)
  encode_key (text_of s) = within_max s
  encode_key (bytea_of b) = within_max b
  encode_key _ = err invalid_argument

  unfoldable pub decode_key : (List ℕ → Bool) → ColumnType → List ℕ → Result (Datum Uuid F)
  decode_key is_utf8 int4 bytes =
      if not (length bytes == 4) then err corrupted else ok (int4_of (decode_i32 bytes))
  decode_key is_utf8 int8 bytes =
      if not (length bytes == 8) then err corrupted else ok (int8_of (decode_i64 bytes))
  decode_key is_utf8 text bytes = if not (is_utf8 bytes) then err corrupted else ok (text_of bytes)
  decode_key is_utf8 bytea bytes = ok (bytea_of bytes)
  decode_key is_utf8 _ bytes = err invalid_argument
