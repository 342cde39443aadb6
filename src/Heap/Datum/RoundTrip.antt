-- ===== src/Heap/Datum/RoundTrip.antt =====
-- A value is read back from its bytes: crates/pg-am-heap/src/tuple.rs.
use Prim.Native.Nat.{bit_and, bit_or}
use ams.Common.{
  ℕ, ◌+◌, ◌-◌, ◌*◌, ◌^◌, ◌≤◌, ◌<◌, ◌≡◌, refl, sym, ap, ◌∙◌, true, false, none, some, List, [], ◌∷◌,
  ◌++◌, length, length-append, arith,
}
use ams.Common.Bits.{bit_and-ones}
use ams.Common.Masks.{bit_and_above}
use ams.Storage.LittleEndian.{to_le_bytes, from_le_bytes, from_le_bytes-to_le_bytes}
use ams.Storage.Types.{take-append}
use ams.Heap.Page.{ok}
use ams.Heap.Toast.{
  toast_pointer_size, varlena_len_mask, is_external, varlena_external_flag, encode_pointer,
  decode_pointer, IsPointer, decode_pointer-encode_pointer,
}
use ams.Btree.Key.{
  ℤ, pos, negsuc, as_unsigned, as_signed, half32, half64, ColumnType, int4, int8, timestamptz, uuid,
  text, bytea, vector, Datum, int4_of, int8_of, timestamptz_of, uuid_of, text_of, bytea_of,
  vector_of, external, ToastPointer,
}
use ams.Btree.KeyOrder.{InRange}
use ams.Heap.Datum.{
  Primitives, fixed_width, take_at, write_inline_varlena, floats_bytes, floats_of_bytes,
  encode_datum, decode_fixed, decode_inline, decode_varlena, decode_datum,
}
use ams.Heap.Datum.Position.{StandsAt, StandsAt-advance, skip-append_whole, take_at_lem}

-- Laws of the primitives: fixed widths, and values that are read back.
pub record AreFaithful {U F : Type 0} (prim : Primitives U F) : Type 0 where
  pub uuid_width : (u : U) → length (prim.uuid_bytes u) ≡ 16
  pub uuid_read : (u : U) → prim.uuid_of_bytes (prim.uuid_bytes u) ≡ u
  pub float_width : (x : F) → length (prim.float_bytes x) ≡ 4
  pub float_read : (x : F) → prim.float_of_bytes (prim.float_bytes x) ≡ x

signed32 :
    (v : ℤ)
    → InRange half32 v
    → (as_unsigned half32 v < 2 ^ 32) × (as_signed half32 (as_unsigned half32 v) ≡ v)
unfolding as_unsigned as_signed
signed32 (pos n) h = (omega arith, ground arith)
signed32 (negsuc n) h = (omega arith, ground arith)

signed64 :
    (v : ℤ)
    → InRange half64 v
    → (as_unsigned half64 v < 2 ^ 64) × (as_signed half64 (as_unsigned half64 v) ≡ v)
unfolding as_unsigned as_signed
signed64 (pos n) h = (omega arith, ground arith)
signed64 (negsuc n) h = (omega arith, ground arith)

-- The fields of a pointer after its header.
abbrev encode_numbers : ToastPointer → List ℕ
encode_numbers p =
    to_le_bytes 4 p.va_rawsize
    ++ (to_le_bytes 4 p.va_extsize ++ (to_le_bytes 4 p.va_valueid ++ to_le_bytes 4 p.va_toastrelid))

-- The header of a value of variable length.
inline_header :
    (n : ℕ) → n ≤ varlena_len_mask → (is_external n ≡ false) × (bit_and n varlena_len_mask ≡ n)
unfolding is_external
inline_header n h =
    let above = bit_and_above 30 n 3 (omega arith) in
    (rw above refl, omega (arith, bit_and-ones 30 n))

external_header :
    (from_le_bytes (to_le_bytes 4 (bit_or toast_pointer_size varlena_external_flag)) ≡ 1073741844)
    × (is_external 1073741844 ≡ true)
unfolding is_external
external_header = (refl, refl)

module _ {U F : Type 0} (prim : Primitives U F) (laws : AreFaithful prim) where
  length-floats_bytes : (v : List F) → length (floats_bytes prim v) ≡ length v * 4
  unfolding floats_bytes
  length-floats_bytes [] = refl
  length-floats_bytes (x ∷ v) = omega (
    arith,
    length-append (prim.float_bytes x) (floats_bytes prim v),
    laws.float_width x,
    length-floats_bytes v,
  )

  floats_of_bytes-floats_bytes :
      (v : List F) → floats_of_bytes prim (length v) (floats_bytes prim v) ≡ v
  unfolding floats_bytes floats_of_bytes
  floats_of_bytes-floats_bytes [] = refl
  floats_of_bytes-floats_bytes (x ∷ v) =
      rw
        (
          take-append 4 (prim.float_bytes x) (floats_bytes prim v) (laws.float_width x),
          rw laws.float_width at (skip-append_whole (prim.float_bytes x) (floats_bytes prim v)),
          laws.float_read x,
          floats_of_bytes-floats_bytes v,
        )
        refl

  -- The values that a column of a type holds.
  pub data IsDatum : ColumnType → Datum U F → Type 0 where
    an_int4 : (v : ℤ) → InRange half32 v → IsDatum int4 (int4_of v)
    an_int8 : (v : ℤ) → InRange half64 v → IsDatum int8 (int8_of v)
    a_timestamptz : (v : ℤ) → InRange half64 v → IsDatum timestamptz (timestamptz_of v)
    a_uuid : (u : U) → IsDatum uuid (uuid_of u)
    a_text : (s : List ℕ) → prim.is_utf8 s ≡ true → IsDatum text (text_of s)
    a_bytea : (b : List ℕ) → IsDatum bytea (bytea_of b)
    a_vector : (dim : ℕ) (v : List F) → length v ≡ dim → IsDatum (vector dim) (vector_of v)
    text_out_of_line : (p : ToastPointer) → IsPointer p → IsDatum text (external p)
    bytea_out_of_line : (p : ToastPointer) → IsPointer p → IsDatum bytea (external p)

  fixed_lem :
      (col : ColumnType) (d : Datum U F) (width at : ℕ) (bytes field rest : List ℕ)
      → fixed_width col ≡ some width
      → decode_fixed prim col field ≡ ok d
      → length field ≡ width
      → StandsAt bytes at (field ++ rest)
      → decode_datum prim col bytes at ≡ ok (d, at + length field)
  unfolding decode_datum
  fixed_lem col d width at bytes field rest fixed decoded e s =
      ground (arith, fixed, decoded, e, take_at_lem bytes at width field rest s e)

  -- The steps of the decoder on a value that stands in the tuple, and on a pointer.
  inline_steps :
      (col : ColumnType) (d : Datum U F) (at total : ℕ) (head payload bytes : List ℕ)
      → fixed_width col ≡ none
      → take_at bytes at 4 ≡ ok (head, at + 4)
      → from_le_bytes head ≡ total + 4
      → is_external (total + 4) ≡ false
      → bit_and (total + 4) varlena_len_mask ≡ total + 4
      → take_at bytes (at + 4) total ≡ ok (payload, at + 4 + total)
      → decode_inline prim col payload ≡ ok d
      → decode_datum prim col bytes at ≡ ok (d, at + 4 + total)
  unfolding decode_datum decode_varlena
  inline_steps col d at total head payload bytes fixed first read inline masked second decoded =
      let less : total + 4 - 4 ≡ total = omega arith in
      ground (arith, fixed, first, read, inline, masked, second, decoded, less)

  pointer_steps :
      (col : ColumnType) (p : ToastPointer) (at n : ℕ) (head raw bytes : List ℕ)
      → fixed_width col ≡ none
      → take_at bytes at 4 ≡ ok (head, at + 4)
      → from_le_bytes head ≡ n
      → is_external n ≡ true
      → take_at bytes at toast_pointer_size ≡ ok (raw, at + toast_pointer_size)
      → decode_pointer raw ≡ ok p
      → decode_datum prim col bytes at ≡ ok (external p, at + toast_pointer_size)
  unfolding decode_datum decode_varlena
  pointer_steps col p at n head raw bytes fixed first read outside second decoded =
      ground (arith, fixed, first, read, outside, second, decoded)

  varlena_lem :
      (col : ColumnType) (d : Datum U F) (at : ℕ) (payload bytes field rest : List ℕ)
      → fixed_width col ≡ none
      → decode_inline prim col payload ≡ ok d
      → write_inline_varlena payload ≡ ok field
      → StandsAt bytes at (field ++ rest)
      → decode_datum prim col bytes at ≡ ok (d, at + length field)
  varlena_lem col d at payload bytes field rest fixed decoded e s =
      let total = length payload + 4 in
      let small : total ≤ varlena_len_mask = unfold write_inline_varlena in ground (arith, e) in
      let whole : to_le_bytes 4 total ++ payload ≡ field =
        unfold write_inline_varlena in ground (arith, e) in
      let s' : StandsAt bytes at (to_le_bytes 4 total ++ (payload ++ rest)) = rw (← whole) at s in
      let next = StandsAt-advance bytes at 4 (to_le_bytes 4 total) (payload ++ rest) s' refl in
      let (inline, masked) = inline_header total small in
      let head = take_at_lem bytes at 4 (to_le_bytes 4 total) (payload ++ rest) s' refl in
      let body = take_at_lem bytes (at + 4) (length payload) payload rest next refl in
      let size : length field ≡ 4 + length payload = rw (← whole) (omega arith) in
      let read = from_le_bytes-to_le_bytes 4 total (omega arith) in
      let done =
        inline_steps col d at (length payload) (to_le_bytes 4 total) payload bytes fixed head read
          inline masked body decoded in
      let end : at + 4 + length payload ≡ at + length field = omega (arith, size) in
      done ∙ ap (λ (t : ℕ). ok (d, t)) end

  pointer_lem :
      (col : ColumnType) (p : ToastPointer) (at : ℕ) (bytes rest : List ℕ)
      → IsPointer p
      → fixed_width col ≡ none
      → StandsAt bytes at (encode_pointer p ++ rest)
      → decode_datum prim col bytes at ≡ ok (external p, at + length (encode_pointer p))
  pointer_lem col p at bytes rest h fixed s =
      let tagged = to_le_bytes 4 (bit_or toast_pointer_size varlena_external_flag) in
      let numbers = encode_numbers p in
      let s' : StandsAt bytes at (tagged ++ (numbers ++ rest)) = unfold encode_pointer in s in
      let size : length (encode_pointer p) ≡ toast_pointer_size = unfold encode_pointer in refl in
      let head = take_at_lem bytes at 4 tagged (numbers ++ rest) s' refl in
      let body = take_at_lem bytes at toast_pointer_size (encode_pointer p) rest s size in
      pointer_steps col p at 1073741844 tagged (encode_pointer p) bytes fixed head external_header.0
        external_header.1 body (decode_pointer-encode_pointer p h)
      ∙ ap (λ (t : ℕ). ok (external p, at + t)) (sym size)

  -- A value that is encoded is read back where its bytes stand.
  pub decode_datum-encode_datum :
      (col : ColumnType) (d : Datum U F) (at : ℕ) (bytes field rest : List ℕ)
      → IsDatum col d
      → encode_datum prim d ≡ ok field
      → StandsAt bytes at (field ++ rest)
      → decode_datum prim col bytes at ≡ ok (d, at + length field)
  unfolding encode_datum fixed_width decode_fixed decode_inline
  decode_datum-encode_datum _ _ at bytes field rest (an_int4 v h) e s =
      let (small, read) = signed32 v h in
      let same : to_le_bytes 4 (as_unsigned half32 v) ≡ field = ground (arith, e) in
      let decoded : decode_fixed prim int4 field ≡ ok (int4_of v) =
        rw (← same, from_le_bytes-to_le_bytes 4 (as_unsigned half32 v) small, read) refl in
      fixed_lem int4 (int4_of v) 4 at bytes field rest refl decoded (rw (← same) refl) s
  decode_datum-encode_datum _ _ at bytes field rest (an_int8 v h) e s =
      let (small, read) = signed64 v h in
      let same : to_le_bytes 8 (as_unsigned half64 v) ≡ field = ground (arith, e) in
      let decoded : decode_fixed prim int8 field ≡ ok (int8_of v) =
        rw (← same, from_le_bytes-to_le_bytes 8 (as_unsigned half64 v) small, read) refl in
      fixed_lem int8 (int8_of v) 8 at bytes field rest refl decoded (rw (← same) refl) s
  decode_datum-encode_datum _ _ at bytes field rest (a_timestamptz v h) e s =
      let (small, read) = signed64 v h in
      let same : to_le_bytes 8 (as_unsigned half64 v) ≡ field = ground (arith, e) in
      let decoded : decode_fixed prim timestamptz field ≡ ok (timestamptz_of v) =
        rw (← same, from_le_bytes-to_le_bytes 8 (as_unsigned half64 v) small, read) refl in
      fixed_lem timestamptz (timestamptz_of v) 8 at bytes field rest refl decoded (rw (← same) refl)
        s
  decode_datum-encode_datum _ _ at bytes field rest (a_uuid u) e s =
      let same : prim.uuid_bytes u ≡ field = ground (arith, e) in
      let decoded : decode_fixed prim uuid field ≡ ok (uuid_of u) =
        rw (← same, laws.uuid_read u) refl in
      fixed_lem uuid (uuid_of u) 16 at bytes field rest refl decoded
        (rw (← same) (laws.uuid_width u)) s
  decode_datum-encode_datum _ _ at bytes field rest (a_text t h) e s =
      varlena_lem text (text_of t) at t bytes field rest refl (rw h refl) e s
  decode_datum-encode_datum _ _ at bytes field rest (a_bytea b) e s =
      varlena_lem bytea (bytea_of b) at b bytes field rest refl refl e s
  decode_datum-encode_datum _ _ at bytes field rest (a_vector dim v h) e s =
      let same : floats_bytes prim v ≡ field = ground (arith, e) in
      let decoded : decode_fixed prim (vector dim) field ≡ ok (vector_of v) =
        rw (← same, ← h, floats_of_bytes-floats_bytes v) refl in
      fixed_lem (vector dim) (vector_of v) (dim * 4) at bytes field rest refl decoded
        (rw (← same, ← h) (length-floats_bytes v)) s
  decode_datum-encode_datum _ _ at bytes field rest (text_out_of_line p h) e s =
      let same : encode_pointer p ≡ field = ground (arith, e) in
      rw (← same) (pointer_lem text p at bytes rest h refl (rw (← same) at s))
  decode_datum-encode_datum _ _ at bytes field rest (bytea_out_of_line p h) e s =
      let same : encode_pointer p ≡ field = ground (arith, e) in
      rw (← same) (pointer_lem bytea p at bytes rest h refl (rw (← same) at s))
