-- ===== src/Heap/Tuple.antt =====
-- Tuples as bytes: crates/pg-am-heap/src/tuple.rs. Values are those of Btree/Key; a text is the bytes of
-- its UTF-8 form. UUIDs and floating-point numbers are types of a parameter, with their bytes.
pub mod Bits
pub mod Bitmap
pub mod Values
pub mod Encoded
pub mod Decoded
pub mod RoundTrip
pub mod Total
pub mod Accepted
mod Examples
use Prim.Native.Nat.{bit_and, bit_or}
use ams.Common.{
  ℕ, zero, suc, ◌+◌, ◌-◌, ◌*◌, ◌/◌, ◌%◌, ◌^◌, ◌<◌, ◌≡◌, refl, Bool, true, false, ◌&&◌, ◌||◌, not,
  Option, none, some, List, [], ◌∷◌, ◌++◌, length, ltb, leb, ◌==◌, if◌then◌else◌,
}
use ams.Storage.LittleEndian.{to_le_bytes, from_le_bytes, take, skip}
use ams.Storage.Types.{resize}
use ams.Storage.Wal.Heap.{Tid}
use ams.Heap.Bytes.{Buffer, slice}
use ams.Heap.Page.{Result, ok, err, corrupted, invalid_argument}
use ams.Heap.Toast.{
  toast_pointer_size, varlena_len_mask, is_external, encode_pointer, decode_pointer,
}
use ams.Btree.Key.{
  ℤ, pos, negsuc, as_unsigned, as_signed, half32, half64, ColumnType, int4, int8, timestamptz, uuid,
  text, bytea, vector, Datum, int4_of, int8_of, timestamptz_of, uuid_of, text_of, bytea_of,
  vector_of, external, ToastPointer,
}
use ams.Heap.TupleHeader.{
  tuple_header_size, heap_hasnull, heap_hasvarwidth, heap_hasexternal, heap_natts_mask,
  heap_has_nodeid, tuple_version_mask, tuple_version_m2, max_natts, TupleHeader, natts, write_to,
  u16_at, read_from,
}
use ams.Heap.Datum.{
  ◌>>=◌, Primitives, max_vector_dim, good_column, is_varlena, is_pointer, matches, encode_values,
  decode_datum,
}

-- The flags that the first loop of `encode_tuple_impl` collects.
pub record Flags : Type 0 where
  pub has_null : Bool
  pub has_varwidth : Bool
  pub has_external : Bool

abbrev pub bit_if : Bool → ℕ → ℕ
bit_if true b = b
bit_if false b = 0

-- `1 << (i % 8)`
abbrev pub bit_at : ℕ → ℕ
bit_at i = 2 ^ (i % 8)

-- The loop that sets the bits of the null bitmap, from a column on.
unfoldable pub set_nulls : {A : Type 0} → ℕ → List (Option A) → Buffer → Buffer
set_nulls i [] bitmap = bitmap
set_nulls i (some _ ∷ values) bitmap = set_nulls (i + 1) values bitmap
set_nulls i (none ∷ values) bitmap =
    set_nulls (i + 1) values (λ j. if j == i / 8 then bit_or (bitmap j) (bit_at i) else bitmap j)

-- `is_null`, of a tuple with a null bitmap.
unfoldable pub null_bit : List ℕ → ℕ → Bool
null_bit bytes i =
    not (bit_and (from_le_bytes (take 1 (skip (tuple_header_size + i / 8) bytes))) (bit_at i) == 0)

abbrev pub div_ceil : ℕ → ℕ → ℕ
div_ceil a b = (a + b - 1) / b

abbrev pub next_multiple_of : ℕ → ℕ → ℕ
next_multiple_of a b = (a + b - 1) / b * b

abbrev pub nodeid_bit : Option ℕ → ℕ
nodeid_bit none = 0
nodeid_bit (some _) = heap_has_nodeid

-- The header with the structural bits recomputed.
unfoldable pub finish_header : TupleHeader → ℕ → Flags → ℕ → Option ℕ → TupleHeader
finish_header header columns flags t_hoff node_id = record header {
  t_infomask =
      bit_or
        (bit_or (bit_or (bit_and header.t_infomask 0xFFF8) (bit_if flags.has_null heap_hasnull))
          (bit_if flags.has_varwidth heap_hasvarwidth))
        (bit_if flags.has_external heap_hasexternal);
  t_infomask2 =
      bit_or (bit_and (bit_or (bit_and header.t_infomask2 0xF800) columns) 0xF7FF)
        (nodeid_bit node_id);
  t_hoff = t_hoff % 2 ^ 16;
  t_flags = bit_or (bit_and header.t_flags 0xFFF0) tuple_version_m2;
}

abbrev pub node_bytes : Option ℕ → List ℕ
node_bytes none = []
node_bytes (some id) = to_le_bytes 4 id

abbrev pub bitmap_len : Bool → ℕ → ℕ
bitmap_len has_null n = if has_null then div_ceil n 8 else 0

abbrev pub all_good : List ColumnType → Bool
all_good [] = true
all_good (col ∷ columns) = good_column col && all_good columns

-- The test of the bytes that trail the last column.
abbrev pub good_trailing : Bool → ℕ → Bool
good_trailing has_nodeid trailing = if has_nodeid then trailing == 4 else trailing == 0

module _ {U F : Type 0} where
  unfoldable pub check_values : List ColumnType → List (Option (Datum U F)) → Flags → Result Flags
  check_values (col ∷ columns) (val ∷ values) flags =
      if not (good_column col) then err invalid_argument else elim val [
        | none ↦ check_values columns values (record flags { has_null = true })
        | some datum ↦
            if not (matches col datum)
            then err invalid_argument
            else check_values columns values (record flags {
              has_varwidth = is_varlena col || flags.has_varwidth;
              has_external = is_pointer datum || flags.has_external;
            })
      ]
  check_values _ _ flags = ok flags

  -- The bytes up to the attributes.
  unfoldable pub prefix : TupleHeader → ℕ → ℕ → Bool → List (Option (Datum U F)) → List ℕ
  prefix header t_hoff bitmap has_null values =
      if has_null
      then write_to header
        ++ (slice bitmap 0 (set_nulls 0 values (λ _. 0))
            ++ resize (t_hoff - (tuple_header_size + bitmap)) [])
      else write_to header ++ resize (t_hoff - tuple_header_size) []

  unfoldable pub encode_tuple_impl :
      Primitives U F
      → TupleHeader
      → List ColumnType
      → List (Option (Datum U F))
      → Option ℕ
      → Result (List ℕ)
  encode_tuple_impl prim header columns values node_id =
      let n = length columns in
      if not (n == length values)
      then err invalid_argument
      else if ltb max_natts n
      then err invalid_argument
      else (do
        flags ←
            check_values columns values
              (record { has_null = false; has_varwidth = false; has_external = false })
        let bitmap = bitmap_len flags.has_null n
        let t_hoff = next_multiple_of (tuple_header_size + bitmap) 8
        let header' = finish_header header n flags t_hoff node_id
        attributes ← encode_values prim values
        ok (
            prefix header' t_hoff bitmap flags.has_null values
            ++ (attributes ++ node_bytes node_id)))

  abbrev pub encode_tuple :
      Primitives U F → TupleHeader → List ColumnType → List (Option (Datum U F)) → Result (List ℕ)
  encode_tuple prim header columns values = encode_tuple_impl prim header columns values none

  abbrev pub encode_tuple_with_node_id :
      Primitives U F
      → TupleHeader
      → List ColumnType
      → List (Option (Datum U F))
      → ℕ
      → Result (List ℕ)
  encode_tuple_with_node_id prim header columns values node_id =
      encode_tuple_impl prim header columns values (some node_id)

  unfoldable pub decode_values :
      Primitives U F
      → (ℕ → Bool)
      → ℕ
      → List ColumnType
      → List ℕ
      → ℕ
      → Result (List (Option (Datum U F)) × ℕ)
  decode_values prim is_null i [] bytes at = ok ([], at)
  decode_values prim is_null i (col ∷ columns) bytes at =
      (if is_null i
        then ok (none, at)
        else (do (datum, after) ← decode_datum prim col bytes at; ok (some datum, after)))
      >>= λ (value, next).
          decode_values prim is_null (i + 1) columns bytes next >>= λ (values, end).
          ok (value ∷ values, end)

  unfoldable pub decode_tuple :
      Primitives U F → List ℕ → List ColumnType → Result (TupleHeader × List (Option (Datum U F)))
  decode_tuple prim bytes columns = do
    header ← read_from bytes
    let has_null = not (bit_and header.t_infomask heap_hasnull == 0)
    let has_nodeid = not (bit_and header.t_infomask2 heap_has_nodeid == 0)
    if not (natts header == length columns)
        then err corrupted
        else if not (all_good columns)
        then err corrupted
        else if ltb header.t_hoff tuple_header_size
            || (ltb (length bytes) header.t_hoff || not (header.t_hoff % 8 == 0))
        then err corrupted
        else if has_null
            && ltb header.t_hoff (tuple_header_size + bitmap_len has_null (length columns))
        then err corrupted
        else decode_values prim (λ i. has_null && null_bit bytes i) 0 columns bytes header.t_hoff
          >>= λ (values, end).
              if good_trailing has_nodeid (length bytes - end)
              then ok (header, values)
              else err corrupted

  unfoldable pub tuple_node_id : Primitives U F → List ℕ → List ColumnType → Result (Option ℕ)
  tuple_node_id prim bytes columns = do
    (header, _) ← decode_tuple prim bytes columns
    if bit_and header.t_infomask2 heap_has_nodeid == 0
        then ok none
        else ok (some (from_le_bytes (take 4 (skip (length bytes - 4) bytes))))
