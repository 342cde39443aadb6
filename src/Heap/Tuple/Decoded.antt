-- ===== src/Heap/Tuple/Decoded.antt =====
-- The steps of the decoder, and the start of an encoded tuple: crates/pg-am-heap/src/tuple.rs.
use Prim.Native.Nat.{bit_and}
use ams.Common.{
  ℕ, ◌+◌, ◌-◌, ◌/◌, ◌%◌, ◌≤◌, ◌<◌, ◌≡◌, refl, sym, Bool, true, false, ◌&&◌, not, Option, List, [],
  ◌++◌, length, append_assoc, arith, ltb, ◌==◌,
}
use ams.Storage.Types.{resize, skip-append}
use ams.Heap.Bytes.{slice}
use ams.Heap.Page.{ok}
use ams.Heap.TupleHeader.{
  TupleHeader, natts, tuple_header_size, heap_hasnull, heap_has_nodeid, write_to, read_from,
}
use ams.Heap.TupleHeader.RoundTrip.{IsHeader, read_from-write_to, length-write_to}
use ams.Btree.Key.{ColumnType, Datum}
use ams.Heap.Datum.{Primitives}
use ams.Heap.Tuple.{
  set_nulls, null_bit, bitmap_len, all_good, good_trailing, prefix, decode_values, decode_tuple,
}
use ams.Heap.Tuple.Values.{null_at}
use ams.Heap.Tuple.Bitmap.{set_nulls-null_at, byte_of_slice}
use ams.Heap.Tuple.Encoded.{any_null, no_null_at}

and_false : (b : Bool) → (b && false) ≡ false
and_false true = refl
and_false false = refl

module _ {U F : Type 0} where
  -- The steps of the decoder on a tuple that passes its checks.
  pub decode_steps :
      (prim : Primitives U F) (bytes : List ℕ) (columns : List ColumnType) (h : TupleHeader)
      (has_null : Bool) (values : List (Option (Datum U F))) (end : ℕ)
      → read_from bytes ≡ ok h
      → not (bit_and h.t_infomask heap_hasnull == 0) ≡ has_null
      → natts h ≡ length columns
      → all_good columns ≡ true
      → tuple_header_size + bitmap_len has_null (length columns) ≤ h.t_hoff
      → h.t_hoff ≤ length bytes
      → h.t_hoff % 8 ≡ 0
      → decode_values prim (λ i. has_null && null_bit bytes i) 0 columns bytes h.t_hoff
        ≡ ok (values, end)
      → good_trailing (not (bit_and h.t_infomask2 heap_has_nodeid == 0)) (length bytes - end) ≡ true
      → decode_tuple prim bytes columns ≡ ok (h, values)
  unfolding decode_tuple
  decode_steps prim bytes columns h has_null values end header nulls n good room inside aligned read
        trailing =
      let many : (natts h == length columns) ≡ true = ground (arith, n) in
      let low : ltb h.t_hoff tuple_header_size ≡ false = ground (arith, room) in
      let short : ltb (length bytes) h.t_hoff ≡ false = ground (arith, inside) in
      let even : (h.t_hoff % 8 == 0) ≡ true = ground (arith, aligned) in
      let space : ltb h.t_hoff (tuple_header_size + bitmap_len has_null (length columns)) ≡ false =
        ground (arith, room) in
      rw (header, nulls, many, good, low, short, even, space, and_false has_null, read, trailing)
        refl

  -- The bits of the bitmap are those of the nulls.
  null_bit_lem :
      (h : TupleHeader) (columns k : ℕ) (values : List (Option (Datum U F))) (rest : List ℕ)
      → IsHeader h
      → k < columns
      → null_bit
          (write_to h ++ (slice (bitmap_len true columns) 0 (set_nulls 0 values (λ _. 0)) ++ rest))
          k
        ≡ null_at values k
  unfolding null_bit
  null_bit_lem h columns k values rest is inside =
      let nulls = set_nulls 0 values (λ _. 0) in
      let bitmap = slice (bitmap_len true columns) 0 nulls in
      let moved = skip-append 64 (k / 8) (write_to h) (bitmap ++ rest) (length-write_to h [] is) in
      let byte =
        byte_of_slice (bitmap_len true columns) 0 (k / 8) nulls rest (omega (arith, inside)) in
      let at : 0 + k / 8 ≡ k / 8 = omega arith in rw (moved, byte, at) (set_nulls-null_at k values)

  -- The bytes of a tuple begin with its header, and the bits of its bitmap are those of the nulls.
  pub starts :
      (h : TupleHeader) (t_hoff columns : ℕ) (has_null : Bool) (values : List (Option (Datum U F)))
      (rest : List ℕ)
      → IsHeader h
      → read_from (prefix h t_hoff (bitmap_len has_null columns) has_null values ++ rest) ≡ ok h
  unfolding prefix
  starts h t_hoff columns true values rest is =
      let more =
        slice (bitmap_len true columns) 0 (set_nulls 0 values (λ _. 0))
        ++ resize (t_hoff - (tuple_header_size + bitmap_len true columns)) [] in
      rw (append_assoc (write_to h) more rest) (read_from-write_to h (more ++ rest) is)
  starts h t_hoff columns false values rest is =
      let more = resize (t_hoff - tuple_header_size) [] in
      rw (append_assoc (write_to h) more rest) (read_from-write_to h (more ++ rest) is)

  pub nulls_read :
      (h : TupleHeader) (t_hoff columns k : ℕ) (has_null : Bool)
      (values : List (Option (Datum U F))) (rest : List ℕ)
      → IsHeader h
      → has_null ≡ any_null values
      → k < columns
      → (has_null
          && null_bit (prefix h t_hoff (bitmap_len has_null columns) has_null values ++ rest) k)
        ≡ null_at values k
  unfolding prefix
  nulls_read h t_hoff columns k true values rest is e inside =
      let bitmap = slice (bitmap_len true columns) 0 (set_nulls 0 values (λ _. 0)) in
      let padding = resize (t_hoff - (tuple_header_size + bitmap_len true columns)) [] in
      rw (append_assoc (write_to h) (bitmap ++ padding) rest, append_assoc bitmap padding rest)
        (null_bit_lem h columns k values (padding ++ rest) is inside)
  nulls_read h t_hoff columns k false values rest is e inside = sym (no_null_at values k (sym e))
