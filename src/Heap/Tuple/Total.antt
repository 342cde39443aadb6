-- ===== src/Heap/Tuple/Total.antt =====
-- A tuple of values that fit is encoded: crates/pg-am-heap/src/tuple.rs.
use ams.Common.{
  ℕ, suc, ◌+◌, ◌%◌, ◌^◌, ◌++◌, ◌≤◌, ◌≡◌, refl, ap, true, false, ◌||◌, Option, some, List, length,
  arith, ltb, ◌==◌, All,
}
use ams.Storage.LittleEndian.{to_le_bytes}
use ams.Heap.Page.{ok}
use ams.Heap.Toast.{varlena_len_mask}
use ams.Heap.TupleHeader.{TupleHeader, max_natts}
use ams.Heap.TupleHeader.RoundTrip.{IsHeader}
use ams.Btree.Key.{ColumnType, Datum, text_of, bytea_of}
use ams.Heap.Datum.{
  Primitives, good_column, matches, column_type, fixed_width, is_varlena, is_pointer,
  write_inline_varlena, encode_datum, encode_values,
}
use ams.Heap.Datum.RoundTrip.{
  AreFaithful, IsDatum, an_int4, an_int8, a_timestamptz, a_uuid, a_text, a_bytea, a_vector,
  text_out_of_line, bytea_out_of_line,
}
use ams.Heap.Tuple.{
  Flags, bitmap_len, node_bytes, prefix, all_good, check_values, encode_tuple_impl,
}
use ams.Heap.Tuple.Values.{AreValues, no_values, null_value, a_value}
use ams.Heap.Tuple.Encoded.{no_flags, hoff, sent}
use ams.Heap.Tuple.RoundTrip.{IsNodeId, ReadsAs, encode_tuple_impl-ReadsAs}

varlena_total :
    (payload : List ℕ)
    → length payload + 4 ≤ varlena_len_mask
    → (bytes : List ℕ) × (write_inline_varlena payload ≡ ok bytes)
unfolding write_inline_varlena
varlena_total payload h =
    let short : ltb varlena_len_mask (length payload + 4) ≡ false = ground (arith, h) in
    (to_le_bytes 4 ((length payload + 4) % 2 ^ 32) ++ payload, rw short refl)

module _ {U F : Type 0} where
  -- The bytes of a value whose length is written before it.
  abbrev pub inline_len : Option (Datum U F) → ℕ
  inline_len (some (text_of s)) = length s + 4
  inline_len (some (bytea_of b)) = length b + 4
  inline_len _ = 0

  -- Values whose length fits in 30 bits.
  abbrev pub AreShort : List (Option (Datum U F)) → Type 0
  AreShort values = All (λ v. inline_len v ≤ varlena_len_mask) values

module _ {U F : Type 0} (prim : Primitives U F) (laws : AreFaithful prim) where
  datum_total :
      (col : ColumnType) (d : Datum U F)
      → IsDatum prim laws col d
      → inline_len (some d) ≤ varlena_len_mask
      → (bytes : List ℕ) × (encode_datum prim d ≡ ok bytes)
  unfolding encode_datum
  datum_total _ _ (an_int4 v h) short = (_, refl)
  datum_total _ _ (an_int8 v h) short = (_, refl)
  datum_total _ _ (a_timestamptz v h) short = (_, refl)
  datum_total _ _ (a_uuid u) short = (_, refl)
  datum_total _ _ (a_text s h) short = varlena_total s short
  datum_total _ _ (a_bytea b) short = varlena_total b short
  datum_total _ _ (a_vector dim v h) short = (_, refl)
  datum_total _ _ (text_out_of_line p h) short = (_, refl)
  datum_total _ _ (bytea_out_of_line p h) short = (_, refl)

  datum_matches :
      (col : ColumnType) (d : Datum U F) → IsDatum prim laws col d → matches col d ≡ true
  unfolding matches column_type fixed_width
  datum_matches _ _ (an_int4 v h) = refl
  datum_matches _ _ (an_int8 v h) = refl
  datum_matches _ _ (a_timestamptz v h) = refl
  datum_matches _ _ (a_uuid u) = refl
  datum_matches _ _ (a_text s h) = refl
  datum_matches _ _ (a_bytea b) = refl
  datum_matches _ _ (a_vector dim v h) = ground (arith, h)
  datum_matches _ _ (text_out_of_line p h) = refl
  datum_matches _ _ (bytea_out_of_line p h) = refl

  values_total :
      (columns : List ColumnType) (values : List (Option (Datum U F)))
      → AreValues prim laws columns values
      → AreShort values
      → (bytes : List ℕ) × (encode_values prim values ≡ ok bytes)
  unfolding encode_values
  values_total _ _ no_values short = (_, refl)
  values_total _ _ (null_value col columns values vs) short = values_total columns values vs short.1
  values_total _ _ (a_value col d columns values v vs) short =
      let (first, e) = datum_total col d v short.0 in
      let (rest, r) = values_total columns values vs short.1 in (first ++ rest, rw (e, r) refl)

  check_total :
      (columns : List ColumnType) (values : List (Option (Datum U F))) (flags : Flags)
      → AreValues prim laws columns values
      → all_good columns ≡ true
      → (flags' : Flags) × (check_values columns values flags ≡ ok flags')
  unfolding check_values
  check_total _ _ flags no_values good = (_, refl)
  check_total _ _ flags (null_value col columns values vs) good =
      let here : good_column col ≡ true = ground (arith, good) in
      let next : Flags = record flags { has_null = true } in
      let (flags', e) = check_total columns values next vs (ground (arith, good)) in
      (flags', rw here e)
  check_total _ _ flags (a_value col d columns values v vs) good =
      let here : good_column col ≡ true = ground (arith, good) in
      let next : Flags = record flags {
        has_varwidth = is_varlena col || flags.has_varwidth;
        has_external = is_pointer d || flags.has_external;
      } in
      let (flags', e) = check_total columns values next vs (ground (arith, good)) in
      (flags', rw (here, datum_matches col d v) e)

  AreValues-length :
      (columns : List ColumnType) (values : List (Option (Datum U F)))
      → AreValues prim laws columns values
      → length columns ≡ length values
  AreValues-length _ _ no_values = refl
  AreValues-length _ _ (null_value col columns values vs) =
      ap (λ (t : ℕ). suc t) (AreValues-length columns values vs)
  AreValues-length _ _ (a_value col d columns values v vs) =
      ap (λ (t : ℕ). suc t) (AreValues-length columns values vs)

  -- UUIDs and floating-point numbers have their 16 and 4 bytes and are read back from them. Where
  -- each value is null or of the type of its column, the columns are at most 2047 and their vectors
  -- of valid dimensions, the lengths of texts and of bytes fit in 30 bits, the node id in 32 bits and
  -- the fields of the header in their widths, the encoder returns bytes; the decoder reads from them
  -- all values, the node id, the number of columns, and the header with the transaction ids, the
  -- agent, the trace, the position and the command that were given.
  pub encode_tuple_impl_reads_back :
      (header : TupleHeader) (columns : List ColumnType) (values : List (Option (Datum U F)))
      (node_id : Option ℕ)
      → IsHeader header
      → AreValues prim laws columns values
      → IsNodeId node_id
      → all_good columns ≡ true
      → length columns ≤ max_natts
      → AreShort values
      → (bytes : List ℕ) × (encode_tuple_impl prim header columns values node_id ≡ ok bytes)
        × ReadsAs prim bytes columns header values node_id
  encode_tuple_impl_reads_back header columns values node_id is vs small good few short =
      let (flags, checked) = check_total columns values no_flags vs good in
      let (attributes, encoded) = values_total columns values vs short in
      let same : (length columns == length values) ≡ true =
        ground (arith, AreValues-length columns values vs) in
      let below : ltb max_natts (length columns) ≡ false = ground (arith, few) in
      let n = length columns in
      let bytes =
        prefix (sent prim header columns values node_id flags) (hoff flags n)
          (bitmap_len flags.has_null n) flags.has_null values
        ++ (attributes ++ node_bytes node_id) in
      let done : encode_tuple_impl prim header columns values node_id ≡ ok bytes =
        unfold encode_tuple_impl in rw (same, below, checked, encoded) refl in
      (
        bytes,
        done,
        encode_tuple_impl-ReadsAs prim laws header columns values node_id bytes is vs small done,
      )
