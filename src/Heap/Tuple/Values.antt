-- ===== src/Heap/Tuple/Values.antt =====
-- The values of a tuple are read back from their bytes: crates/pg-am-heap/src/tuple.rs.
use ams.Common.{
  ℕ, zero, suc, ◌+◌, ◌<◌, ◌≡◌, refl, ap, ◌∙◌, Bool, true, false, Option, none, some, List, [], ◌∷◌,
  ◌++◌, length, length-append, arith, append_assoc,
}
use ams.Heap.Page.{ok}
use ams.Btree.Key.{ColumnType, Datum}
use ams.Heap.Datum.{Primitives, encode_datum, encode_values}
use ams.Heap.Datum.Position.{StandsAt, StandsAt-advance}
use ams.Heap.Datum.RoundTrip.{AreFaithful, IsDatum, decode_datum-encode_datum}
use ams.Heap.Datum.Typed.{bound}
use ams.Heap.Tuple.{decode_values}

-- Whether the value of a column is null.
abbrev pub null_at : {A : Type 0} → List (Option A) → ℕ → Bool
null_at [] k = false
null_at (none ∷ values) zero = true
null_at (some _ ∷ values) zero = false
null_at (_ ∷ values) (suc k) = null_at values k

module _ {U F : Type 0} (prim : Primitives U F) (laws : AreFaithful prim) where
  -- A value for each column, null or of its type.
  pub data AreValues : List ColumnType → List (Option (Datum U F)) → Type 0 where
    no_values : AreValues [] []
    null_value :
        (col : ColumnType) (columns : List ColumnType) (values : List (Option (Datum U F)))
        → AreValues columns values
        → AreValues (col ∷ columns) (none ∷ values)
    a_value :
        (col : ColumnType) (d : Datum U F) (columns : List ColumnType)
        (values : List (Option (Datum U F)))
        → IsDatum prim laws col d
        → AreValues columns values
        → AreValues (col ∷ columns) (some d ∷ values)

  -- The values are read back where their bytes stand, by a test that knows the nulls.
  pub decode_values-encode_values :
      (is_null : ℕ → Bool) (i at : ℕ) (columns : List ColumnType)
      (values : List (Option (Datum U F))) (bytes field rest : List ℕ)
      → AreValues columns values
      → ((k : ℕ) → k < length values → is_null (i + k) ≡ null_at values k)
      → encode_values prim values ≡ ok field
      → StandsAt bytes at (field ++ rest)
      → decode_values prim is_null i columns bytes at ≡ ok (values, at + length field)
  unfolding encode_values decode_values
  decode_values-encode_values is_null i at _ _ bytes field rest no_values nulls e s =
      let same : [] ≡ field = ground (arith, e) in
      let end : at ≡ at + length field = rw (← same) (omega arith) in ap (λ (t : ℕ). ok ([], t)) end
  decode_values-encode_values is_null i at _ _ bytes field rest (null_value col columns values vs)
        nulls e s =
      let here : is_null i ≡ true = ap is_null (omega arith) ∙ nulls 0 (omega arith) in
      let ih =
        decode_values-encode_values is_null (i + 1) at columns values bytes field rest vs
          (λ k h. ap is_null (omega arith) ∙ nulls (suc k) (omega (arith, h))) e s in
      rw (here, ih) refl
  decode_values-encode_values is_null i at _ _ bytes field rest (a_value col d columns values v vs)
        nulls e s =
      let here : is_null i ≡ false = ap is_null (omega arith) ∙ nulls 0 (omega arith) in
      let one = bound (encode_datum prim d) _ field e in
      let two = bound (encode_values prim values) _ field one.second in
      let whole : one.value ++ two.value ≡ field = ground (arith, two.second) in
      let s' : StandsAt bytes at (one.value ++ (two.value ++ rest)) =
        rw (← append_assoc one.value two.value rest, whole) s in
      let head =
        decode_datum-encode_datum prim laws col d at bytes one.value (two.value ++ rest) v one.first
          s' in
      let s'' =
        StandsAt-advance bytes at (length one.value) one.value (two.value ++ rest) s' refl in
      let ih =
        decode_values-encode_values is_null (i + 1) (at + length one.value) columns values bytes
          two.value rest vs (λ k h. ap is_null (omega arith) ∙ nulls (suc k) (omega (arith, h)))
          two.first s'' in
      let end : at + length one.value + length two.value ≡ at + length field =
        rw (← whole) (omega (arith, length-append one.value two.value)) in
      rw (here, head, ih, end) refl
