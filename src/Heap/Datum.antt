-- ===== src/Heap/Datum.antt =====
-- The values of a tuple as bytes: crates/pg-am-heap/src/tuple.rs, column types and values. A text is
-- the bytes of its UTF-8 form. UUIDs and floating-point numbers are types of a parameter, with their
-- bytes.
pub mod Position
pub mod RoundTrip
pub mod Typed
use Prim.Native.Nat.{bit_and}
use ams.Common.{
  ℕ, zero, suc, ◌+◌, ◌-◌, ◌*◌, ◌/◌, ◌%◌, ◌^◌, ◌<◌, ◌≡◌, refl, Bool, true, false, ◌&&◌, ◌||◌, not,
  Option, none, some, List, [], ◌∷◌, ◌++◌, length, ltb, leb, ◌==◌, if◌then◌else◌,
}
use ams.Storage.LittleEndian.{to_le_bytes, from_le_bytes, take, skip}
use ams.Heap.Page.{Result, ok, err, corrupted, invalid_argument}
use ams.Heap.Toast.{
  toast_pointer_size, varlena_len_mask, is_external, encode_pointer, decode_pointer,
}
use ams.Btree.Key.{
  ℤ, pos, negsuc, as_unsigned, as_signed, half32, half64, ColumnType, int4, int8, timestamptz, uuid,
  text, bytea, vector, Datum, int4_of, int8_of, timestamptz_of, uuid_of, text_of, bytea_of,
  vector_of, external,
}

infixl 5 ◌>>=◌
abbrev pub ◌>>=◌ : {A B : Type 0} → Result A → (A → Result B) → Result B
ok a >>= f = f a
err e >>= f = err e

-- The values that the source takes from elsewhere, as bytes, and the test of UTF-8.
pub record Primitives (U F : Type 0) : Type 0 where
  pub uuid_bytes : U → List ℕ
  pub uuid_of_bytes : List ℕ → U
  pub float_bytes : F → List ℕ
  pub float_of_bytes : List ℕ → F
  pub is_utf8 : List ℕ → Bool

abbrev pub max_vector_dim : ℕ
max_vector_dim = 2000

unfoldable pub fixed_width : ColumnType → Option ℕ
fixed_width int4 = some 4
fixed_width int8 = some 8
fixed_width timestamptz = some 8
fixed_width uuid = some 16
fixed_width text = none
fixed_width bytea = none
fixed_width (vector dim) = some (dim * 4)

abbrev pub is_varlena : ColumnType → Bool
is_varlena c = elim (fixed_width c) [ none ↦ true | some _ ↦ false ]

-- `check_vector_dim`, as a test.
unfoldable pub good_dim : ℕ → Bool
good_dim dim = leb 1 dim && leb dim max_vector_dim

-- The check of a column: only a vector can fail it.
abbrev pub good_column : ColumnType → Bool
good_column (vector dim) = good_dim dim
good_column _ = true

-- Equality of column types.
abbrev pub same_type : ColumnType → ColumnType → Bool
same_type int4 int4 = true
same_type int8 int8 = true
same_type timestamptz timestamptz = true
same_type uuid uuid = true
same_type text text = true
same_type bytea bytea = true
same_type (vector d) (vector e) = d == e
same_type _ _ = false

-- `take`: the bytes at a position, and the position after them.
unfoldable pub take_at : List ℕ → ℕ → ℕ → Result (List ℕ × ℕ)
take_at bytes at n =
    if ltb (length bytes) (at + n) then err corrupted else ok (take n (skip at bytes), at + n)

unfoldable pub write_inline_varlena : List ℕ → Result (List ℕ)
write_inline_varlena payload =
    if ltb varlena_len_mask (length payload + 4)
    then err invalid_argument
    else ok (to_le_bytes 4 ((length payload + 4) % 2 ^ 32) ++ payload)

module _ {U F : Type 0} where
  abbrev pub is_pointer : Datum U F → Bool
  is_pointer (external _) = true
  is_pointer _ = false

  unfoldable pub column_type : Datum U F → ColumnType
  column_type (int4_of _) = int4
  column_type (int8_of _) = int8
  column_type (timestamptz_of _) = timestamptz
  column_type (uuid_of _) = uuid
  column_type (text_of _) = text
  column_type (bytea_of _) = bytea
  column_type (vector_of v) = vector (length v % 2 ^ 32)
  column_type (external _) = bytea

  unfoldable pub matches : ColumnType → Datum U F → Bool
  matches col (external _) = is_varlena col
  matches (vector dim) (vector_of v) = length v == dim
  matches col datum = same_type col (column_type datum)

  unfoldable pub floats_bytes : Primitives U F → List F → List ℕ
  floats_bytes prim [] = []
  floats_bytes prim (x ∷ v) = prim.float_bytes x ++ floats_bytes prim v

  -- `chunks_exact(4)`, of a number of chunks.
  unfoldable pub floats_of_bytes : Primitives U F → ℕ → List ℕ → List F
  floats_of_bytes prim zero bytes = []
  floats_of_bytes prim (suc n) bytes =
      prim.float_of_bytes (take 4 bytes) ∷ floats_of_bytes prim n (skip 4 bytes)

  unfoldable pub encode_datum : Primitives U F → Datum U F → Result (List ℕ)
  encode_datum prim (int4_of v) = ok (to_le_bytes 4 (as_unsigned half32 v))
  encode_datum prim (int8_of v) = ok (to_le_bytes 8 (as_unsigned half64 v))
  encode_datum prim (timestamptz_of v) = ok (to_le_bytes 8 (as_unsigned half64 v))
  encode_datum prim (uuid_of v) = ok (prim.uuid_bytes v)
  encode_datum prim (text_of s) = write_inline_varlena s
  encode_datum prim (bytea_of b) = write_inline_varlena b
  encode_datum prim (vector_of v) = ok (floats_bytes prim v)
  encode_datum prim (external p) = ok (encode_pointer p)

  -- The loop over the values that are not null.
  unfoldable pub encode_values : Primitives U F → List (Option (Datum U F)) → Result (List ℕ)
  encode_values prim [] = ok []
  encode_values prim (none ∷ values) = encode_values prim values
  encode_values prim (some datum ∷ values) = do
    bytes ← encode_datum prim datum
    rest ← encode_values prim values
    ok (bytes ++ rest)

  -- A value of fixed width; the types of other widths do not come here.
  unfoldable pub decode_fixed : Primitives U F → ColumnType → List ℕ → Result (Datum U F)
  decode_fixed prim int4 field = ok (int4_of (as_signed half32 (from_le_bytes field)))
  decode_fixed prim int8 field = ok (int8_of (as_signed half64 (from_le_bytes field)))
  decode_fixed prim timestamptz field = ok (timestamptz_of (as_signed half64 (from_le_bytes field)))
  decode_fixed prim uuid field = ok (uuid_of (prim.uuid_of_bytes field))
  decode_fixed prim (vector dim) field = ok (vector_of (floats_of_bytes prim dim field))
  decode_fixed prim _ field = err corrupted

  unfoldable pub decode_inline : Primitives U F → ColumnType → List ℕ → Result (Datum U F)
  decode_inline prim text payload =
      if prim.is_utf8 payload then ok (text_of payload) else err corrupted
  decode_inline prim _ payload = ok (bytea_of payload)

  unfoldable pub decode_varlena : Primitives U F → ColumnType → List ℕ → ℕ → Result (Datum U F × ℕ)
  decode_varlena prim col bytes at = do
    (field, after) ← take_at bytes at 4
    let vl_len = from_le_bytes field
    let total = bit_and vl_len varlena_len_mask
    if is_external vl_len
        then (do
          (raw, end) ← take_at bytes at toast_pointer_size
          pointer ← decode_pointer raw
          ok (external pointer, end))
        else if ltb total 4
        then err corrupted
        else (do
          (payload, end) ← take_at bytes after (total - 4)
          datum ← decode_inline prim col payload
          ok (datum, end))

  unfoldable pub decode_datum : Primitives U F → ColumnType → List ℕ → ℕ → Result (Datum U F × ℕ)
  decode_datum prim col bytes at = elim (fixed_width col) [
    | none ↦ decode_varlena prim col bytes at
    | some width ↦ do
      (field, end) ← take_at bytes at width
      datum ← decode_fixed prim col field
      ok (datum, end)
  ]
