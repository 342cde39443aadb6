-- ===== src/Btree/KeyOrder.antt =====
-- Encoded keys are in the order of the values, and are decoded to them: crates/pg-am-btree/src/key.rs.
use Prim.Native.Nat.{bit_xor}
use ams.Common.{
  ℕ, suc, ◌+◌, ◌-◌, ◌*◌, ◌≤◌, ◌<◌, ◌≡◌, refl, sym, Bool, true, false, List, length, arith, ltb,
}
use ams.Common.Bits.{two_to}
use ams.Btree.Order.{
  lex_less, length-to_be_bytes, from_be_bytes-to_be_bytes, lex_less-to_be_bytes, flip_top,
}
use ams.Btree.Key.{
  ℤ, pos, negsuc, ok, ColumnType, Datum, int4_of, int8_of, text_of, bytea_of, as_unsigned,
  as_signed, half32, half64, encode_i32, decode_i32, encode_i64, decode_i64, max_index_key_bytes,
  within_max, encode_key, decode_key,
}

-- A signed integer of a width, given half the number of its values.
abbrev pub InRange : ℕ → ℤ → Type 0
InRange half (pos n) = n < half
InRange half (negsuc n) = n < half

abbrev pub int_less : ℤ → ℤ → Bool
int_less (pos a) (pos b) = ltb a b
int_less (pos a) (negsuc b) = false
int_less (negsuc a) (pos b) = true
int_less (negsuc a) (negsuc b) = ltb b a

-- The sign bit flipped: integers in their order from 0 on.
unfoldable shifted : ℕ → ℤ → ℕ
shifted half (pos n) = n + half
shifted half (negsuc n) = half - suc n

module _ (n : ℕ) where
  flipped :
      (z : ℤ)
      → InRange (two_to n) z
      → bit_xor (as_unsigned (two_to n) z) (two_to n) ≡ shifted (two_to n) z
  unfolding as_unsigned shifted
  flipped (pos v) h = omega (arith, flip_top n v (omega (arith, h)))
  flipped (negsuc v) h = omega (arith, flip_top n (2 * two_to n - suc v) (omega (arith, h)))

  unflipped :
      (z : ℤ)
      → InRange (two_to n) z
      → as_signed (two_to n) (bit_xor (shifted (two_to n) z) (two_to n)) ≡ z
  unfolding as_signed shifted
  unflipped (pos v) h =
      let back : bit_xor (v + two_to n) (two_to n) ≡ v =
        omega (arith, flip_top n (v + two_to n) (omega (arith, h)), h) in
      ground (arith, back, h)
  unflipped (negsuc v) h =
      let back : bit_xor (two_to n - suc v) (two_to n) ≡ 2 * two_to n - suc v =
        omega (arith, flip_top n (two_to n - suc v) (omega (arith, h)), h) in
      let again : 2 * two_to n - suc (2 * two_to n - suc v) ≡ v = omega (arith, h) in
      ground (arith, back, again, h)

shifted_less :
    (half : ℕ) (a b : ℤ)
    → InRange half a
    → InRange half b
    → ltb (shifted half a) (shifted half b) ≡ int_less a b
unfolding shifted
shifted_less half (pos a) (pos b) ha hb = ground arith
shifted_less half (pos a) (negsuc b) ha hb = ground arith
shifted_less half (negsuc a) (pos b) ha hb = ground arith
shifted_less half (negsuc a) (negsuc b) ha hb = ground arith

shifted_small : (half : ℕ) (z : ℤ) → InRange half z → shifted half z < 2 * half
unfolding shifted
shifted_small half (pos v) h = omega (arith, h)
shifted_small half (negsuc v) h = omega (arith, h)

i32_order :
    (a b : ℤ)
    → InRange half32 a
    → InRange half32 b
    → lex_less (encode_i32 a) (encode_i32 b) ≡ int_less a b
unfolding encode_i32
i32_order a b ha hb =
    rw
      (
        flipped 31 a ha,
        flipped 31 b hb,
        lex_less-to_be_bytes 4 (shifted half32 a) (shifted half32 b) (shifted_small half32 a ha)
            (shifted_small half32 b hb),
      )
      (shifted_less half32 a b ha hb)

i64_order :
    (a b : ℤ)
    → InRange half64 a
    → InRange half64 b
    → lex_less (encode_i64 a) (encode_i64 b) ≡ int_less a b
unfolding encode_i64
i64_order a b ha hb =
    rw
      (
        flipped 63 a ha,
        flipped 63 b hb,
        lex_less-to_be_bytes 8 (shifted half64 a) (shifted half64 b) (shifted_small half64 a ha)
            (shifted_small half64 b hb),
      )
      (shifted_less half64 a b ha hb)

decode-encode_i32 : (z : ℤ) → InRange half32 z → decode_i32 (encode_i32 z) ≡ z
unfolding encode_i32 decode_i32
decode-encode_i32 z h =
    rw (flipped 31 z h, from_be_bytes-to_be_bytes 4 (shifted half32 z) (shifted_small half32 z h))
      (unflipped 31 z h)

decode-encode_i64 : (z : ℤ) → InRange half64 z → decode_i64 (encode_i64 z) ≡ z
unfolding encode_i64 decode_i64
decode-encode_i64 z h =
    rw (flipped 63 z h, from_be_bytes-to_be_bytes 8 (shifted half64 z) (shifted_small half64 z h))
      (unflipped 63 z h)

within_max_lem : (bytes x : List ℕ) → within_max bytes ≡ ok x → bytes ≡ x
unfolding within_max
within_max_lem bytes x h = ground arith

within_max_small : (bytes x : List ℕ) → within_max bytes ≡ ok x → length x ≤ max_index_key_bytes
unfolding within_max
within_max_small bytes x h = ground arith

module _ {Uuid F : Type 0} where
  -- A value of the type of an index column.
  pub data IsKey (is_utf8 : List ℕ → Bool) : ColumnType → Datum Uuid F → Type 0 where
    int4_key : (v : ℤ) → InRange half32 v → IsKey is_utf8 ColumnType.int4 (int4_of v)
    int8_key : (v : ℤ) → InRange half64 v → IsKey is_utf8 ColumnType.int8 (int8_of v)
    text_key : (s : List ℕ) → is_utf8 s ≡ true → IsKey is_utf8 ColumnType.text (text_of s)
    bytea_key : (b : List ℕ) → IsKey is_utf8 ColumnType.bytea (bytea_of b)

  -- The order of two values of one type: of the integers, and of the bytes of texts and strings.
  abbrev pub datum_less : Datum Uuid F → Datum Uuid F → Bool
  datum_less (int4_of a) (int4_of b) = int_less a b
  datum_less (int8_of a) (int8_of b) = int_less a b
  datum_less (text_of a) (text_of b) = lex_less a b
  datum_less (bytea_of a) (bytea_of b) = lex_less a b
  datum_less _ _ = false

  -- Encoded keys of one type are in the order of the values, byte by byte.
  pub lex_less-encode_key :
      (is_utf8 : List ℕ → Bool) (t : ColumnType) (a b : Datum Uuid F) (x y : List ℕ)
      → IsKey is_utf8 t a
      → IsKey is_utf8 t b
      → encode_key a ≡ ok x
      → encode_key b ≡ ok y
      → lex_less x y ≡ datum_less a b
  unfolding encode_key
  lex_less-encode_key is_utf8 _ _ _ x y (int4_key a ha) (int4_key b hb) ea eb =
      rw (sym (within_max_lem (encode_i32 a) x ea), sym (within_max_lem (encode_i32 b) y eb))
        (i32_order a b ha hb)
  lex_less-encode_key is_utf8 _ _ _ x y (int8_key a ha) (int8_key b hb) ea eb =
      rw (sym (within_max_lem (encode_i64 a) x ea), sym (within_max_lem (encode_i64 b) y eb))
        (i64_order a b ha hb)
  lex_less-encode_key is_utf8 _ _ _ x y (text_key a ha) (text_key b hb) ea eb =
      rw (sym (within_max_lem a x ea), sym (within_max_lem b y eb)) refl
  lex_less-encode_key is_utf8 _ _ _ x y (bytea_key a) (bytea_key b) ea eb =
      rw (sym (within_max_lem a x ea), sym (within_max_lem b y eb)) refl

  -- A key is decoded to the value that was encoded, and has at most the bytes that an index allows.
  pub decode_key-encode_key :
      (is_utf8 : List ℕ → Bool) (t : ColumnType) (a : Datum Uuid F) (x : List ℕ)
      → IsKey is_utf8 t a
      → encode_key a ≡ ok x
      → (decode_key is_utf8 t x ≡ ok a) × (length x ≤ max_index_key_bytes)
  unfolding encode_key decode_key encode_i32 encode_i64
  decode_key-encode_key is_utf8 _ _ x (int4_key v h) e =
      let same = within_max_lem (encode_i32 v) x e in
      let four : length (encode_i32 v) ≡ 4 =
        length-to_be_bytes 4 (bit_xor (as_unsigned half32 v) half32) in
      (rw (sym same, four, decode-encode_i32 v h) refl, within_max_small (encode_i32 v) x e)
  decode_key-encode_key is_utf8 _ _ x (int8_key v h) e =
      let same = within_max_lem (encode_i64 v) x e in
      let eight : length (encode_i64 v) ≡ 8 =
        length-to_be_bytes 8 (bit_xor (as_unsigned half64 v) half64) in
      (rw (sym same, eight, decode-encode_i64 v h) refl, within_max_small (encode_i64 v) x e)
  decode_key-encode_key is_utf8 _ _ x (text_key s h) e =
      (rw (sym (within_max_lem s x e), h) refl, within_max_small s x e)
  decode_key-encode_key is_utf8 _ _ x (bytea_key b) e =
      (rw (sym (within_max_lem b x e)) refl, within_max_small b x e)
