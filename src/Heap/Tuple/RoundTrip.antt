-- ===== src/Heap/Tuple/RoundTrip.antt =====
-- A tuple that is encoded is read back: crates/pg-am-heap/src/tuple.rs.
use Prim.Native.Nat.{bit_and}
use ams.Common.{
  ℕ, ◌+◌, ◌-◌, ◌^◌, ◌<◌, ◌≡◌, refl, sym, ap, ◌∙◌, true, ◌&&◌, not, Option, none, some, List, ◌++◌,
  length, length-append, arith, ◌==◌,
}
use ams.Storage.LittleEndian.{from_le_bytes, take, skip, from_le_bytes-to_le_bytes}
use ams.Storage.Types.{skip-append}
use ams.Heap.Page.{ok}
use ams.Heap.TupleHeader.{TupleHeader, natts, heap_has_nodeid}
use ams.Heap.TupleHeader.RoundTrip.{IsHeader}
use ams.Btree.Key.{ColumnType, Datum}
use ams.Heap.Datum.{Primitives}
use ams.Heap.Datum.Position.{StandsAt, StandsAt-advance}
use ams.Heap.Datum.RoundTrip.{AreFaithful}
use ams.Heap.Tuple.{
  finish_header, null_bit, bitmap_len, node_bytes, good_trailing, prefix, encode_tuple_impl,
  decode_tuple, tuple_node_id,
}
use ams.Heap.Tuple.Decoded.{decode_steps, starts, nulls_read}
use ams.Heap.Tuple.Values.{null_at, AreValues, decode_values-encode_values}
use ams.Heap.Tuple.Bits.{
  has_node, natts-finish_header, has_null-finish_header, node_id-finish_header,
  finish_header-IsHeader,
}
use ams.Heap.Tuple.Encoded.{
  check_values_lem, length-prefix, no_flags, hoff, hoff_lem, sent, IsEncoding,
  encode_tuple_impl-IsEncoding,
}

node_trailing :
    (id : Option ℕ) (n : ℕ) → n ≡ length (node_bytes id) → good_trailing (has_node id) n ≡ true
node_trailing none n h = rw h refl
node_trailing (some i) n h = rw h refl

stands_after :
    (n : ℕ) (start rest bytes : List ℕ)
    → length start ≡ n
    → start ++ rest ≡ bytes
    → StandsAt bytes n rest
stands_after n start rest bytes long whole =
    let here : n + 0 ≡ n = omega arith in
    record {
      from =
          ap (skip n) (sym whole)
          ∙ ap (λ (t : ℕ). skip t (start ++ rest)) (sym here)
          ∙ skip-append n 0 start rest long;
      size = rw (← whole) (omega (arith, long, length-append start rest));
    }

-- A header with the fields of another that no encoding changes.
pub record SameFields (h k : TupleHeader) : Type 0 where
  pub t_xmin : h.t_xmin ≡ k.t_xmin
  pub t_xmax : h.t_xmax ≡ k.t_xmax
  pub t_agent_id : h.t_agent_id ≡ k.t_agent_id
  pub t_trace_id : h.t_trace_id ≡ k.t_trace_id
  pub t_ctid : h.t_ctid ≡ k.t_ctid
  pub t_cid : h.t_cid ≡ k.t_cid

-- A tuple reads as values under a header, with a node id or without.
pub record ReadsAs {U F : Type 0} (prim : Primitives U F) (bytes : List ℕ)
    (columns : List ColumnType) (header : TupleHeader) (values : List (Option (Datum U F)))
    (node_id : Option ℕ) : Type 0 where
  pub header_read : TupleHeader
  pub decoded : decode_tuple prim bytes columns ≡ ok (header_read, values)
  pub same : SameFields header_read header
  pub natts_read : natts header_read ≡ length columns
  pub node_id_read : tuple_node_id prim bytes columns ≡ ok node_id

-- A node id of 32 bits, or none.
pub data IsNodeId : Option ℕ → Type 0 where
  no_node : IsNodeId none
  a_node : (id : ℕ) → id < 2 ^ 32 → IsNodeId (some id)

node_id_lem :
    {U F : Type 0} (prim : Primitives U F) (columns : List ColumnType)
    (values : List (Option (Datum U F))) (h : TupleHeader) (bytes : List ℕ) (at : ℕ)
    (node_id : Option ℕ)
    → decode_tuple prim bytes columns ≡ ok (h, values)
    → not (bit_and h.t_infomask2 heap_has_nodeid == 0) ≡ has_node node_id
    → StandsAt bytes at (node_bytes node_id)
    → IsNodeId node_id
    → tuple_node_id prim bytes columns ≡ ok node_id
unfolding tuple_node_id
node_id_lem prim columns values h bytes at _ read flag stands no_node = ground (arith, read, flag)
node_id_lem prim columns values h bytes at _ read flag stands (a_node id small) =
    let last : length bytes - 4 ≡ at = omega (arith, stands.size) in
    let four : from_le_bytes (take 4 (skip at bytes)) ≡ id =
      rw stands.from (from_le_bytes-to_le_bytes 4 id small) in
    ground (arith, read, flag, last, four)

module _ {U F : Type 0} (prim : Primitives U F) (laws : AreFaithful prim) (header : TupleHeader)
    (columns : List ColumnType) (values : List (Option (Datum U F))) (node_id : Option ℕ)
    (bytes : List ℕ) (is : IsHeader header) (vs : AreValues prim laws columns values) where
  encoded_stands :
      (e : IsEncoding prim header columns values node_id bytes)
      → StandsAt bytes (hoff e.flags (length columns)) (e.attributes ++ node_bytes node_id)
  encoded_stands e =
      let n = length columns in
      let offset = hoff e.flags n in
      let h' = sent prim header columns values node_id e.flags in
      let bitmap = bitmap_len e.flags.has_null n in
      let is' : IsHeader h' = finish_header-IsHeader header n e.flags offset node_id is in
      stands_after offset (prefix h' offset bitmap e.flags.has_null values)
        (e.attributes ++ node_bytes node_id) bytes
        (length-prefix h' offset bitmap e.flags.has_null values is' (hoff_lem e.flags n e.few).0)
        e.whole

  decode_encoded :
      (e : IsEncoding prim header columns values node_id bytes)
      → decode_tuple prim bytes columns
        ≡ ok (sent prim header columns values node_id e.flags, values)
  decode_encoded e =
      let n = length columns in
      let offset = hoff e.flags n in
      let h' = sent prim header columns values node_id e.flags in
      let has_null = e.flags.has_null in
      let (room, small, aligned) = hoff_lem e.flags n e.few in
      let is' : IsHeader h' = finish_header-IsHeader header n e.flags offset node_id is in
      let (good, nulls) = check_values_lem columns values no_flags e.flags e.lengths e.checked in
      let rest = e.attributes ++ node_bytes node_id in
      let stands = encoded_stands e in
      let size : length bytes ≡ offset + length rest = stands.size in
      let found : (k : ℕ)
          → k < length values
          → (has_null && null_bit bytes (0 + k)) ≡ null_at values k =
        λ k inside.
          let inside' : k < n = omega (arith, inside, e.lengths) in
          let k' : 0 + k ≡ k = omega arith in
          rw (← e.whole, k') (nulls_read h' offset n k has_null values rest is' nulls inside') in
      let read =
        decode_values-encode_values prim laws (λ i. has_null && null_bit bytes i) 0 offset columns
          values bytes e.attributes (node_bytes node_id) vs found e.encoded stands in
      let hoff_same : h'.t_hoff ≡ offset = unfold finish_header in omega (arith, small) in
      decode_steps prim bytes columns h' has_null values (offset + length e.attributes)
        (rw (← e.whole) (starts h' offset n has_null values rest is'))
        (has_null-finish_header header n e.flags offset node_id)
        (natts-finish_header header n e.flags offset node_id e.few) good (rw hoff_same room)
        (rw hoff_same (omega (arith, size))) (rw hoff_same aligned) (rw hoff_same read)
        (rw (node_id-finish_header header n e.flags offset node_id) (
          node_trailing node_id _
            (omega (arith, size, length-append e.attributes (node_bytes node_id)))))

  -- Bytes that the encoder returns read as the values, under a header with the same fields.
  pub encode_tuple_impl-ReadsAs :
      IsNodeId node_id
      → encode_tuple_impl prim header columns values node_id ≡ ok bytes
      → ReadsAs prim bytes columns header values node_id
  encode_tuple_impl-ReadsAs small h =
      let e = encode_tuple_impl-IsEncoding prim header columns values node_id bytes h in
      let n = length columns in
      let decoded = decode_encoded e in
      record {
        header_read = sent prim header columns values node_id e.flags;
        decoded = decoded;
        same =
            unfold finish_header in
            record {
              t_xmin = refl;
              t_xmax = refl;
              t_agent_id = refl;
              t_trace_id = refl;
              t_ctid = refl;
              t_cid = refl;
            };
        natts_read = natts-finish_header header n e.flags (hoff e.flags n) node_id e.few;
        node_id_read =
            node_id_lem prim columns values (sent prim header columns values node_id e.flags) bytes
              _ node_id decoded (node_id-finish_header header n e.flags (hoff e.flags n) node_id)
              (StandsAt-advance bytes (hoff e.flags n) (length e.attributes) e.attributes
                (node_bytes node_id) (encoded_stands e) refl)
              small;
      }
