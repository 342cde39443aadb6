-- ===== src/Heap/Tuple/Encoded.antt =====
-- What an encoded tuple is made of: crates/pg-am-heap/src/tuple.rs.
use ams.Common.{
  ℕ, zero, suc, ◌+◌, ◌-◌, ◌%◌, ◌^◌, ◌≤◌, ◌<◌, ◌≡◌, refl, sym, ap, ◌∙◌, Bool, true, false, ◌||◌,
  Option, none, some, List, [], ◌∷◌, ◌++◌, length, length-append, arith, ltb, ◌==◌, Bool-cases, inl,
  inr,
}
use ams.Storage.Types.{resize, length-resize}
use ams.Heap.Bytes.{Buffer, slice}
use ams.Heap.Page.{ok}
use ams.Heap.TupleHeader.{TupleHeader, max_natts, tuple_header_size, write_to}
use ams.Heap.TupleHeader.RoundTrip.{IsHeader, length-write_to}
use ams.Btree.Key.{ColumnType, Datum}
use ams.Heap.Datum.{Primitives, good_column, matches, is_varlena, is_pointer, encode_values}
use ams.Heap.Tuple.{
  Flags, set_nulls, bitmap_len, next_multiple_of, finish_header, node_bytes, all_good, check_values,
  prefix, encode_tuple_impl,
}
use ams.Heap.Datum.Typed.{bound}
use ams.Heap.Tuple.Values.{null_at}

abbrev pub any_null : {A : Type 0} → List (Option A) → Bool
any_null [] = false
any_null (none ∷ values) = true
any_null (some _ ∷ values) = any_null values

pub no_null_at :
    {A : Type 0} (values : List (Option A)) (k : ℕ)
    → any_null values ≡ false
    → null_at values k ≡ false
no_null_at [] k h = refl
no_null_at (none ∷ values) k h = absurd (ground (arith, h))
no_null_at (some _ ∷ values) zero h = refl
no_null_at (some _ ∷ values) (suc k) h = no_null_at values k h

or_false : (b : Bool) → (b || false) ≡ b
or_false true = refl
or_false false = refl

or_true : (b : Bool) → (b || true) ≡ true
or_true true = refl
or_true false = refl

length-slice : (n at : ℕ) (page : Buffer) → length (slice n at page) ≡ n
length-slice zero at page = refl
length-slice (suc n) at page = ap (λ (t : ℕ). suc t) (length-slice n (at + 1) page)

module _ {U F : Type 0} where
  -- What the first loop finds out.
  pub check_values_lem :
      (columns : List ColumnType) (values : List (Option (Datum U F))) (flags flags' : Flags)
      → length columns ≡ length values
      → check_values columns values flags ≡ ok flags'
      → (all_good columns ≡ true) × (flags'.has_null ≡ (flags.has_null || any_null values))
  unfolding check_values
  check_values_lem [] [] flags flags' l h =
      let same : flags ≡ flags' = ground (arith, h) in
      (refl, rw (← same) (sym (or_false flags.has_null)))
  check_values_lem [] (v ∷ values) flags flags' l h = absurd (omega (arith, l))
  check_values_lem (col ∷ columns) [] flags flags' l h = absurd (omega (arith, l))
  check_values_lem (col ∷ columns) (none ∷ values) flags flags' l h =
      elim (Bool-cases (good_column col)) [
        | inl good ↦
            let next : Flags = record flags { has_null = true } in
            let rest : check_values columns values next ≡ ok flags' = rw good at h in
            let (good', e) = check_values_lem columns values next flags' (omega (arith, l)) rest in
            (rw (good, good') refl, e ∙ sym (or_true flags.has_null))
        | inr bad ↦ absurd (ground (arith, bad, h))
      ]
  check_values_lem (col ∷ columns) (some d ∷ values) flags flags' l h =
      elim (Bool-cases (good_column col)) [
        | inl good ↦ elim (Bool-cases (matches col d)) [
          | inl fits ↦
              let next : Flags = record flags {
                has_varwidth = is_varlena col || flags.has_varwidth;
                has_external = is_pointer d || flags.has_external;
              } in
              let rest : check_values columns values next ≡ ok flags' = rw (good, fits) at h in
              let (good', e) =
                check_values_lem columns values next flags' (omega (arith, l)) rest in
              (rw (good, good') refl, e)
          | inr bad ↦ absurd (ground (arith, good, bad, h))
        ]
        | inr bad ↦ absurd (ground (arith, bad, h))
      ]

  -- The bytes up to the attributes end at `t_hoff`.
  pub length-prefix :
      (header : TupleHeader) (t_hoff bitmap : ℕ) (has_null : Bool)
      (values : List (Option (Datum U F)))
      → IsHeader header
      → tuple_header_size + bitmap ≤ t_hoff
      → length (prefix header t_hoff bitmap has_null values) ≡ t_hoff
  unfolding prefix
  length-prefix header t_hoff bitmap true values is h =
      let nulls = slice bitmap 0 (set_nulls 0 values (λ _. 0)) in
      let padding = resize (t_hoff - (tuple_header_size + bitmap)) [] in
      omega (
        arith,
        h,
        length-append (write_to header) (nulls ++ padding),
        length-write_to header [] is,
        length-append nulls padding,
        length-slice bitmap 0 (set_nulls 0 values (λ _. 0)),
        length-resize (t_hoff - (tuple_header_size + bitmap)) [],
      )
  length-prefix header t_hoff bitmap false values is h = omega (
    arith,
    h,
    length-append (write_to header) (resize (t_hoff - tuple_header_size) []),
    length-write_to header [] is,
    length-resize (t_hoff - tuple_header_size) [],
  )

abbrev pub no_flags : Flags
no_flags = record { has_null = false; has_varwidth = false; has_external = false }

-- The offset of the attributes.
abbrev pub hoff : Flags → ℕ → ℕ
hoff flags n = next_multiple_of (tuple_header_size + bitmap_len flags.has_null n) 8

pub hoff_lem :
    (flags : Flags) (n : ℕ)
    → n ≤ max_natts
    → (tuple_header_size + bitmap_len flags.has_null n ≤ hoff flags n)
      × (hoff flags n < 2 ^ 16)
      × (hoff flags n % 8 ≡ 0)
hoff_lem flags n h =
    elim flags.has_null
      as (λ b.
        let offset = next_multiple_of (tuple_header_size + bitmap_len b n) 8 in
        (tuple_header_size + bitmap_len b n ≤ offset) × (offset < 2 ^ 16) × (offset % 8 ≡ 0)) [
          | true ↦ (omega arith, omega (arith, h), omega arith)
          | false ↦ (omega arith, omega (arith, h), omega arith)
        ]

module _ {U F : Type 0} (prim : Primitives U F) (header : TupleHeader) (columns : List ColumnType)
    (values : List (Option (Datum U F))) (node_id : Option ℕ) where
  abbrev pub sent : Flags → TupleHeader
  sent flags = finish_header header (length columns) flags (hoff flags (length columns)) node_id

  -- What an encoded tuple is made of.
  pub record IsEncoding (bytes : List ℕ) : Type 0 where
    pub flags : Flags
    pub attributes : List ℕ
    pub lengths : length columns ≡ length values
    pub few : length columns ≤ max_natts
    pub checked : check_values columns values no_flags ≡ ok flags
    pub encoded : encode_values prim values ≡ ok attributes
    pub whole :
        prefix
            (sent flags)
            (hoff flags (length columns))
            (bitmap_len flags.has_null (length columns))
            flags.has_null
            values
          ++ (attributes ++ node_bytes node_id)
        ≡ bytes

  pub encode_tuple_impl-IsEncoding :
      (bytes : List ℕ)
      → encode_tuple_impl prim header columns values node_id ≡ ok bytes
      → IsEncoding bytes
  unfolding encode_tuple_impl
  encode_tuple_impl-IsEncoding bytes h = elim (Bool-cases (length columns == length values)) [
    | inl same ↦ elim (Bool-cases (ltb max_natts (length columns))) [
      | inr few ↦
          let one = bound (check_values columns values no_flags) _ bytes (rw (same, few) at h) in
          let two = bound (encode_values prim values) _ bytes one.second in
          record {
            flags = one.value;
            attributes = two.value;
            lengths = ground (arith, same);
            few = ground (arith, few);
            checked = one.first;
            encoded = two.first;
            whole = ground (arith, two.second);
          }
      | inl many ↦ absurd (ground (arith, same, many, h))
    ]
    | inr apart ↦ absurd (ground (arith, apart, h))
  ]
