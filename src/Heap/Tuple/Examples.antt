-- ===== src/Heap/Tuple/Examples.antt =====
-- A tuple of four columns, one of them null, with a node id.
use ams.Common.{
  ℕ, ◌≡◌, refl, Bool, true, false, ◌&&◌, Option, none, some, List, [], ◌∷◌, length, arith, ltb,
  ◌==◌,
}
use ams.Storage.Types.{resize}
use ams.Heap.Page.{ok}
use ams.Heap.TupleHeader.{TupleHeader}
use ams.Heap.TupleHeader.RoundTrip.{IsHeader}
use ams.Btree.Key.{
  negsuc, ColumnType, int4, text, bytea, vector, Datum, int4_of, text_of, vector_of,
}
use ams.Heap.Datum.{Primitives}
use ams.Heap.Datum.RoundTrip.{AreFaithful, an_int4, a_text, a_vector}
use ams.Heap.Tuple.{encode_tuple_impl}
use ams.Heap.Tuple.Values.{AreValues, no_values, null_value, a_value}
use ams.Heap.Tuple.RoundTrip.{ReadsAs, a_node}
use ams.Heap.Tuple.Total.{AreShort, encode_tuple_impl_reads_back}
use ams.Heap.Tuple.Accepted.{IsAccepted, decode_tuple-IsAccepted}

abbrev is_ascii : List ℕ → Bool
is_ascii [] = true
is_ascii (b ∷ s) = ltb b 128 && is_ascii s

-- Two UUIDs and two floating-point numbers, told apart by their first byte.
abbrev bytes_of : ℕ → Bool → List ℕ
bytes_of n true = resize n (1 ∷ [])
bytes_of n false = resize n (0 ∷ [])

abbrev of_bytes : List ℕ → Bool
of_bytes [] = false
of_bytes (b ∷ _) = b == 1

abbrev prim : Primitives Bool Bool
prim = record {
  uuid_bytes = bytes_of 16;
  uuid_of_bytes = of_bytes;
  float_bytes = bytes_of 4;
  float_of_bytes = of_bytes;
  is_utf8 = is_ascii;
}

width : (u : Bool) → (length (bytes_of 16 u) ≡ 16) × (length (bytes_of 4 u) ≡ 4)
unfolding resize
width true = (refl, refl)
width false = (refl, refl)

read : (u : Bool) → (of_bytes (bytes_of 16 u) ≡ u) × (of_bytes (bytes_of 4 u) ≡ u)
unfolding resize
read true = (refl, refl)
read false = (refl, refl)

prim-AreFaithful : AreFaithful prim
prim-AreFaithful = record {
  uuid_width = λ u. (width u).0;
  uuid_read = λ u. (read u).0;
  float_width = λ u. (width u).1;
  float_read = λ u. (read u).1;
}

abbrev header : TupleHeader
header = record {
  t_xmin = 7;
  t_xmax = 0;
  t_agent_id = 2;
  t_trace_id = 1 ∷ 2 ∷ 3 ∷ 4 ∷ 5 ∷ 6 ∷ 7 ∷ 8 ∷ 9 ∷ 10 ∷ 11 ∷ 12 ∷ 13 ∷ 14 ∷ 15 ∷ 16 ∷ [];
  t_ctid = record { page_id = 3; slot_id = 1 };
  t_infomask = 0xFFFF;
  t_infomask2 = 0xFFFF;
  t_hoff = 0;
  t_flags = 0;
  t_cid = 4;
}

header-IsHeader : IsHeader header
header-IsHeader = record {
  t_xmin = omega arith;
  t_xmax = omega arith;
  t_agent_id = omega arith;
  t_trace_id = refl;
  page_id = omega arith;
  slot_id = omega arith;
  t_infomask = omega arith;
  t_infomask2 = omega arith;
  t_hoff = omega arith;
  t_flags = omega arith;
  t_cid = omega arith;
}

abbrev columns : List ColumnType
columns = int4 ∷ bytea ∷ text ∷ vector 2 ∷ []

abbrev values : List (Option (Datum Bool Bool))
values =
    some (int4_of (negsuc 4))
    ∷ none
    ∷ some (text_of (104 ∷ 105 ∷ []))
    ∷ some (vector_of (true ∷ false ∷ []))
    ∷ []

values-AreValues : AreValues prim prim-AreFaithful columns values
values-AreValues = a_value int4 _ _ _ (an_int4 (negsuc 4) (omega arith)) (
    null_value bytea _ _ (
      a_value text _ _ _ (a_text (104 ∷ 105 ∷ []) refl)
        (a_value (vector 2) _ _ _ (a_vector 2 (true ∷ false ∷ []) refl) no_values)))

values_short : AreShort values
values_short = (omega arith, (omega arith, (omega arith, (omega arith, tt))))

encoded :
    (bytes : List ℕ) × (encode_tuple_impl prim header columns values (some 77) ≡ ok bytes)
    × ReadsAs prim bytes columns header values (some 77)
unfolding ams.Heap.Datum.good_dim
encoded =
    encode_tuple_impl_reads_back prim prim-AreFaithful header columns values (some 77)
      header-IsHeader values-AreValues (a_node 77 (omega arith)) refl (omega arith) values_short

encode_tuple_impl_reads_back_example :
    (bytes : List ℕ) × (encode_tuple_impl prim header columns values (some 77) ≡ ok bytes)
    × ReadsAs prim bytes columns header values (some 77)
unfolding ams.Heap.Datum.good_dim
encode_tuple_impl_reads_back_example =
    encode_tuple_impl_reads_back prim prim-AreFaithful header columns values (some 77)
      header-IsHeader values-AreValues (a_node 77 (omega arith)) refl (omega arith) values_short

decode_tuple-IsAccepted_example : IsAccepted prim encoded.0 columns encoded.2.header_read values
decode_tuple-IsAccepted_example =
    decode_tuple-IsAccepted prim encoded.0 columns encoded.2.header_read values encoded.2.decoded
