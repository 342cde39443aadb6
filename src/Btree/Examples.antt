-- ===== src/Btree/Examples.antt =====
-- Runs of the encoding of index keys: -2 and 3, whose columns are 4-byte integers.
use ams.Common.{ℕ, ◌≤◌, ◌≡◌, refl, Bool, true, List, [], ◌∷◌, arith}
use ams.Btree.Order.{lex_less, to_be_bytes}
use ams.Btree.Key.{
  pos, negsuc, ok, ColumnType, Datum, int4_of, as_unsigned, max_index_key_bytes, encode_i32,
  within_max, encode_key, decode_key,
}
use ams.Btree.KeyOrder.{int4_key, datum_less, lex_less-encode_key, decode_key-encode_key}

abbrev all_utf8 : List ℕ → Bool
all_utf8 bytes = true

abbrev minus_two : Datum ℕ ℕ
minus_two = int4_of (negsuc 1)

abbrev three : Datum ℕ ℕ
three = int4_of (pos 3)

minus_two_bytes : encode_key minus_two ≡ ok (127 ∷ 255 ∷ 255 ∷ 254 ∷ [])
unfolding encode_key within_max encode_i32 as_unsigned to_be_bytes
minus_two_bytes = refl

three_bytes : encode_key three ≡ ok (128 ∷ 0 ∷ 0 ∷ 3 ∷ [])
unfolding encode_key within_max encode_i32 as_unsigned to_be_bytes
three_bytes = refl

lex_less-encode_key_example :
    lex_less (127 ∷ 255 ∷ 255 ∷ 254 ∷ []) (128 ∷ 0 ∷ 0 ∷ 3 ∷ []) ≡ datum_less minus_two three
lex_less-encode_key_example =
    lex_less-encode_key all_utf8 ColumnType.int4 minus_two three (127 ∷ 255 ∷ 255 ∷ 254 ∷ [])
      (128 ∷ 0 ∷ 0 ∷ 3 ∷ []) (int4_key (negsuc 1) (omega arith)) (int4_key (pos 3) (omega arith))
      minus_two_bytes three_bytes

decode_key-encode_key_example :
    (decode_key all_utf8 ColumnType.int4 (127 ∷ 255 ∷ 255 ∷ 254 ∷ []) ≡ ok minus_two)
    × (4 ≤ max_index_key_bytes)
decode_key-encode_key_example =
    decode_key-encode_key all_utf8 ColumnType.int4 minus_two (127 ∷ 255 ∷ 255 ∷ 254 ∷ [])
      (int4_key (negsuc 1) (omega arith)) minus_two_bytes
