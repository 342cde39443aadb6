-- ===== src/Heap/Tuple/Accepted.antt =====
-- What a tuple that the decoder accepts holds: crates/pg-am-heap/src/tuple.rs.
use Prim.Native.Nat.{bit_and}
use ams.Common.{
  ℕ, ◌+◌, ◌%◌, ◌≤◌, ◌≡◌, Bool, true, false, ◌&&◌, ◌||◌, not, Option, none, some, List, [], ◌∷◌,
  length, arith, ltb, ◌==◌, if◌then◌else◌, Bool-cases, inl, inr,
}
use ams.Heap.Page.{Result, ok, err, corrupted}
use ams.Heap.TupleHeader.{TupleHeader, natts, tuple_header_size, heap_hasnull, read_from}
use ams.Btree.Key.{ColumnType, Datum}
use ams.Heap.Datum.{Primitives, matches, decode_datum}
use ams.Heap.Datum.Typed.{bound, decode_datum_typed}
use ams.Heap.Tuple.{all_good, bitmap_len, null_bit, decode_values, decode_tuple}

module _ {U F : Type 0} (prim : Primitives U F) where
  -- A value for each column, null or one that fits it.
  pub data AreMatched : List ColumnType → List (Option (Datum U F)) → Type 0 where
    no_values : AreMatched [] []
    null_value :
        (col : ColumnType) (columns : List ColumnType) (values : List (Option (Datum U F)))
        → AreMatched columns values
        → AreMatched (col ∷ columns) (none ∷ values)
    a_value :
        (col : ColumnType) (d : Datum U F) (columns : List ColumnType)
        (values : List (Option (Datum U F)))
        → matches col d ≡ true
        → AreMatched columns values
        → AreMatched (col ∷ columns) (some d ∷ values)

  decode_values_typed :
      (is_null : ℕ → Bool) (i at end : ℕ) (columns : List ColumnType) (bytes : List ℕ)
      (values : List (Option (Datum U F)))
      → at ≤ length bytes
      → decode_values prim is_null i columns bytes at ≡ ok (values, end)
      → AreMatched columns values × (end ≤ length bytes)
  unfolding decode_values
  decode_values_typed is_null i at end [] bytes values inside h =
      let nothing : [] ≡ values = ground (arith, h) in
      let same : at ≡ end = ground (arith, h) in
      (rw (← nothing) no_values, omega (arith, same, inside))
  decode_values_typed is_null i at end (col ∷ columns) bytes values inside h =
      elim (Bool-cases (is_null i)) [
        | inl null ↦
            let rest =
              bound (decode_values prim is_null (i + 1) columns bytes at) _ (values, end)
                (rw null at h) in
            let (typed, below) =
              decode_values_typed is_null (i + 1) at rest.value.1 columns bytes rest.value.0 inside
                rest.first in
            let whole : none ∷ rest.value.0 ≡ values = ground (arith, rest.second) in
            let same : rest.value.1 ≡ end = ground (arith, rest.second) in
            (rw (← whole) (null_value col columns rest.value.0 typed), omega (arith, same, below))
        | inr here ↦
            let one = bound _ _ (values, end) (rw here at h) in
            let two = bound (decode_datum prim col bytes at) _ one.value one.first in
            let three =
              bound (decode_values prim is_null (i + 1) columns bytes one.value.1) _ (values, end)
                one.second in
            let (fits, inside') =
              decode_datum_typed prim col bytes at two.value.1 two.value.0 two.first in
            let datum : some two.value.0 ≡ one.value.0 = ground (arith, two.second) in
            let next : two.value.1 ≡ one.value.1 = ground (arith, two.second) in
            let (typed, below) =
              decode_values_typed is_null (i + 1) one.value.1 three.value.1 columns bytes
                three.value.0 (omega (arith, next, inside')) three.first in
            let whole : some two.value.0 ∷ three.value.0 ≡ values =
              rw datum (ground (arith, three.second)) in
            let same : three.value.1 ≡ end = ground (arith, three.second) in
            (
              rw (← whole) (a_value col two.value.0 columns three.value.0 fits typed),
              omega (arith, same, below),
            )
      ]

  -- What the decoder checks of a tuple.
  pub record IsAccepted (bytes : List ℕ) (columns : List ColumnType) (header : TupleHeader)
      (values : List (Option (Datum U F))) : Type 0 where
    pub natts_same : natts header ≡ length columns
    pub hoff_low : tuple_header_size ≤ header.t_hoff
    pub hoff_high : header.t_hoff ≤ length bytes
    pub hoff_aligned : header.t_hoff % 8 ≡ 0
    pub matched : AreMatched columns values

  trailing_lem :
      (t : Bool) (k header : TupleHeader) (vs values : List (Option (Datum U F)))
      → (let found : Result (TupleHeader × List (Option (Datum U F))) = ok (k, vs) in
          (if t then found else err corrupted) ≡ ok (header, values))
      → (k ≡ header) × (vs ≡ values)
  trailing_lem true k header vs values h = (ground (arith, h), ground (arith, h))
  trailing_lem false k header vs values h = absurd (ground (arith, h))

  -- A tuple that the decoder accepts has the number of columns of the schema, an aligned offset of its
  -- attributes between the header and the end of the bytes, and for each column a null or a value of its type.
  pub decode_tuple-IsAccepted :
      (bytes : List ℕ) (columns : List ColumnType) (header : TupleHeader)
      (values : List (Option (Datum U F)))
      → decode_tuple prim bytes columns ≡ ok (header, values)
      → IsAccepted bytes columns header values
  unfolding decode_tuple
  decode_tuple-IsAccepted bytes columns header values h =
      let one = bound (read_from bytes) _ (header, values) h in
      let k = one.value in
      let has_null = not (bit_and k.t_infomask heap_hasnull == 0) in
      let n = length columns in
      elim (Bool-cases (natts k == n)) [
        | inr bad ↦ absurd (ground (arith, bad, one.second))
        | inl many ↦ elim (Bool-cases (all_good columns)) [
          | inr bad ↦ absurd (ground (arith, many, bad, one.second))
          | inl good ↦
              elim (Bool-cases (
                ltb k.t_hoff tuple_header_size
                || (ltb (length bytes) k.t_hoff || not (k.t_hoff % 8 == 0)))) [
                  | inl bad ↦ absurd (ground (arith, many, good, bad, one.second))
                  | inr placed ↦
                      elim (Bool-cases
                        (has_null && ltb k.t_hoff (tuple_header_size + bitmap_len has_null n))) [
                          | inl bad ↦ absurd (ground (arith, many, good, placed, bad, one.second))
                          | inr room ↦
                              let two =
                                bound
                                  (decode_values prim (λ i. has_null && null_bit bytes i) 0 columns
                                    bytes k.t_hoff)
                                  _ (header, values)
                                  (rw (many, good, placed, room) at one.second) in
                              let (typed, inside) =
                                decode_values_typed (λ i. has_null && null_bit bytes i) 0 k.t_hoff
                                  two.value.1 columns bytes two.value.0 (ground (arith, placed))
                                  two.first in
                              let last = trailing_lem _ k header two.value.0 values two.second in
                              rw (← last.0, ← last.1)
                                (record {
                                  natts_same = ground (arith, many);
                                  hoff_low = ground (arith, placed);
                                  hoff_high = ground (arith, placed);
                                  hoff_aligned = ground (arith, placed);
                                  matched = typed;
                                })
                        ]
                ]
        ]
      ]
