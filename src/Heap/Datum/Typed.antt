-- ===== src/Heap/Datum/Typed.antt =====
-- What the decoder of a value returns fits the type of its column: crates/pg-am-heap/src/tuple.rs.
use Prim.Native.Nat.{bit_and}
use ams.Common.{
  ℕ, zero, suc, ◌+◌, ◌-◌, ◌≤◌, ◌≡◌, refl, ap, true, Option, none, some, List, length, arith, ltb,
  Bool-cases, inl, inr, ==-refl,
}
use ams.Storage.LittleEndian.{from_le_bytes}
use ams.Heap.Page.{Result, ok, err}
use ams.Heap.Toast.{toast_pointer_size, varlena_len_mask, is_external, decode_pointer}
use ams.Btree.Key.{
  ColumnType, int4, int8, timestamptz, uuid, text, bytea, vector, Datum, text_of, external,
  ToastPointer,
}
use ams.Heap.Datum.{
  ◌>>=◌, Primitives, fixed_width, take_at, matches, column_type, floats_of_bytes, decode_fixed,
  decode_inline, decode_varlena, decode_datum,
}

-- The outcome of a step whose chain succeeds.
pub record Bound {A B : Type 0} (m : Result A) (f : A → Result B) (b : B) : Type 0 where
  pub value : A
  pub first : m ≡ ok value
  pub second : f value ≡ ok b

pub bound :
    {A B : Type 0} (m : Result A) (f : A → Result B) (b : B) → (m >>= f) ≡ ok b → Bound m f b
bound (ok a) f b h = record { value = a; first = refl; second = h }
bound (err e) f b h = absurd (ground (arith, h))

take_at_bounds :
    (bytes field : List ℕ) (at n end : ℕ)
    → take_at bytes at n ≡ ok (field, end)
    → (end ≡ at + n) × (end ≤ length bytes)
unfolding take_at
take_at_bounds bytes field at n end h = elim (Bool-cases (ltb (length bytes) (at + n))) [
  | inl bad ↦ absurd (ground (arith, bad, h))
  | inr good ↦ ground (arith, good, h)
]

module _ {U F : Type 0} (prim : Primitives U F) where
  length-floats_of_bytes : (n : ℕ) (bytes : List ℕ) → length (floats_of_bytes prim n bytes) ≡ n
  unfolding floats_of_bytes
  length-floats_of_bytes zero bytes = refl
  length-floats_of_bytes (suc n) bytes = ap (λ (t : ℕ). suc t) (length-floats_of_bytes n _)

  matches_same :
      (col : ColumnType) (d d' : Datum U F)
      → ok d ≡ ok d'
      → matches col d ≡ true
      → matches col d' ≡ true
  matches_same col d d' h m = let same : d ≡ d' = ground (arith, h) in rw (← same) m

  fixed_matches :
      (col : ColumnType) (width : ℕ) (field : List ℕ) (d : Datum U F)
      → fixed_width col ≡ some width
      → decode_fixed prim col field ≡ ok d
      → matches col d ≡ true
  unfolding fixed_width decode_fixed matches column_type
  fixed_matches int4 width field d w h = matches_same int4 _ d h refl
  fixed_matches int8 width field d w h = matches_same int8 _ d h refl
  fixed_matches timestamptz width field d w h = matches_same timestamptz _ d h refl
  fixed_matches uuid width field d w h = matches_same uuid _ d h refl
  fixed_matches text width field d w h = absurd (ground (arith, w))
  fixed_matches bytea width field d w h = absurd (ground (arith, w))
  fixed_matches (vector dim) width field d w h =
      let long = length-floats_of_bytes dim field in
      matches_same (vector dim) _ d h (rw long (==-refl dim))

  pointer_matches :
      (col : ColumnType) (p : ToastPointer)
      → fixed_width col ≡ none
      → matches {U = U} {F = F} col (external p) ≡ true
  unfolding matches fixed_width
  pointer_matches text p w = refl
  pointer_matches bytea p w = refl
  pointer_matches int4 p w = absurd (ground (arith, w))
  pointer_matches int8 p w = absurd (ground (arith, w))
  pointer_matches timestamptz p w = absurd (ground (arith, w))
  pointer_matches uuid p w = absurd (ground (arith, w))
  pointer_matches (vector dim) p w = absurd (ground (arith, w))

  payload_matches :
      (col : ColumnType) (payload : List ℕ) (d : Datum U F)
      → fixed_width col ≡ none
      → decode_inline prim col payload ≡ ok d
      → matches col d ≡ true
  unfolding fixed_width decode_inline matches column_type
  payload_matches int4 payload d w h = absurd (ground (arith, w))
  payload_matches int8 payload d w h = absurd (ground (arith, w))
  payload_matches timestamptz payload d w h = absurd (ground (arith, w))
  payload_matches uuid payload d w h = absurd (ground (arith, w))
  payload_matches text payload d w h = elim (Bool-cases (prim.is_utf8 payload)) [
    | inl good ↦ matches_same text (text_of payload) d (rw good at h) refl
    | inr bad ↦ absurd (ground (arith, bad, h))
  ]
  payload_matches bytea payload d w h = matches_same bytea _ d h refl
  payload_matches (vector dim) payload d w h = absurd (ground (arith, w))

  varlena_typed :
      (col : ColumnType) (bytes : List ℕ) (at end : ℕ) (d : Datum U F)
      → fixed_width col ≡ none
      → decode_varlena prim col bytes at ≡ ok (d, end)
      → (matches col d ≡ true) × (end ≤ length bytes)
  unfolding decode_varlena
  varlena_typed col bytes at end d w h =
      let one = bound (take_at bytes at 4) _ (d, end) h in
      let vl_len = from_le_bytes one.value.0 in
      let total = bit_and vl_len varlena_len_mask in
      elim (Bool-cases (is_external vl_len)) [
        | inl outside ↦
            let two =
              bound (take_at bytes at toast_pointer_size) _ (d, end) (rw outside at one.second) in
            let three = bound (decode_pointer two.value.0) _ (d, end) two.second in
            let same : external three.value ≡ d = ground (arith, three.second) in
            let end_same : two.value.1 ≡ end = ground (arith, three.second) in
            let inside =
              take_at_bounds bytes two.value.0 at toast_pointer_size two.value.1 two.first in
            (rw (← same) (pointer_matches col three.value w), omega (arith, end_same, inside))
        | inr here ↦ elim (Bool-cases (ltb total 4)) [
          | inl bad ↦ absurd (ground (arith, here, bad, one.second))
          | inr good ↦
              let two =
                bound (take_at bytes one.value.1 (total - 4)) _ (d, end)
                  (rw (here, good) at one.second) in
              let three = bound (decode_inline prim col two.value.0) _ (d, end) two.second in
              let same : three.value ≡ d = ground (arith, three.second) in
              let end_same : two.value.1 ≡ end = ground (arith, three.second) in
              let inside =
                take_at_bounds bytes two.value.0 one.value.1 (total - 4) two.value.1 two.first in
              (
                rw (← same) (payload_matches col two.value.0 three.value w three.first),
                omega (arith, end_same, inside),
              )
        ]
      ]

  -- What is decoded fits the column, and no byte after the tuple is read.
  pub decode_datum_typed :
      (col : ColumnType) (bytes : List ℕ) (at end : ℕ) (d : Datum U F)
      → decode_datum prim col bytes at ≡ ok (d, end)
      → (matches col d ≡ true) × (end ≤ length bytes)
  unfolding decode_datum
  decode_datum_typed col bytes at end d h = by_width (fixed_width col) refl
    where
      by_width :
          (w : Option ℕ) → fixed_width col ≡ w → (matches col d ≡ true) × (end ≤ length bytes)
      by_width none e = varlena_typed col bytes at end d e (rw (e, decode_datum) at h)
      by_width (some width) e =
          let one = bound (take_at bytes at width) _ (d, end) (rw (e, decode_datum) at h) in
          let two = bound (decode_fixed prim col one.value.0) _ (d, end) one.second in
          let same : two.value ≡ d = ground (arith, two.second) in
          let end_same : one.value.1 ≡ end = ground (arith, two.second) in
          let inside = take_at_bounds bytes one.value.0 at width one.value.1 one.first in
          (
            rw (← same) (fixed_matches col width one.value.0 two.value e two.first),
            omega (arith, end_same, inside),
          )
