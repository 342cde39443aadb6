-- ===== src/Heap/TupleHeader/RoundTrip.antt =====
-- The header of a tuple is read back from its bytes: crates/pg-am-heap/src/tuple.rs.
use ams.Common.{
  ℕ, ◌+◌, ◌^◌, ◌<◌, ◌≡◌, refl, ap, ◌∙◌, List, ◌++◌, length, length-append, arith, ltb, append_assoc,
  false,
}
use ams.Storage.LittleEndian.{
  to_le_bytes, from_le_bytes, take, skip, values_of, from_le_bytes-to_le_bytes,
}
use ams.Storage.Types.{take-append, skip-append}
use ams.Heap.Page.{ok}
use ams.Heap.TupleHeader.{TupleHeader, tuple_header_size, write_to, read_from}

-- Fields of the widths of the format.
pub record IsHeader (h : TupleHeader) : Type 0 where
  pub t_xmin : h.t_xmin < 2 ^ 64
  pub t_xmax : h.t_xmax < 2 ^ 64
  pub t_agent_id : h.t_agent_id < 2 ^ 64
  pub t_trace_id : length h.t_trace_id ≡ 16
  pub page_id : h.t_ctid.page_id < 2 ^ 64
  pub slot_id : h.t_ctid.slot_id < 2 ^ 16
  pub t_infomask : h.t_infomask < 2 ^ 16
  pub t_infomask2 : h.t_infomask2 < 2 ^ 16
  pub t_hoff : h.t_hoff < 2 ^ 16
  pub t_flags : h.t_flags < 2 ^ 16
  pub t_cid : h.t_cid < 2 ^ 32

-- The fields before the trace id, and those after it.
abbrev before_trace : TupleHeader → List ℕ
before_trace h = to_le_bytes 8 h.t_xmin ++ (to_le_bytes 8 h.t_xmax ++ to_le_bytes 8 h.t_agent_id)

abbrev after_trace : TupleHeader → List ℕ
after_trace h =
    to_le_bytes 8 h.t_ctid.page_id
    ++ (to_le_bytes 2 h.t_ctid.slot_id
        ++ (to_le_bytes 2 0
            ++ (to_le_bytes 2 h.t_infomask
                ++ (to_le_bytes 2 h.t_infomask2
                    ++ (to_le_bytes 2 h.t_hoff
                        ++ (to_le_bytes 2 h.t_flags ++ to_le_bytes 4 h.t_cid))))))

module _ (h : TupleHeader) (rest : List ℕ) (is : IsHeader h) where
  parts : write_to h ++ rest ≡ before_trace h ++ (h.t_trace_id ++ (after_trace h ++ rest))
  unfolding write_to
  parts = ap (λ (t : List ℕ). before_trace h ++ t) (append_assoc h.t_trace_id (after_trace h) rest)

  trace_id : take 16 (skip 24 (write_to h ++ rest)) ≡ h.t_trace_id
  trace_id = rw parts (take-append 16 h.t_trace_id (after_trace h ++ rest) is.t_trace_id)

  skip_header : (m : ℕ) → skip (40 + m) (write_to h ++ rest) ≡ skip m (after_trace h ++ rest)
  skip_header m =
      let size : length (before_trace h ++ h.t_trace_id) ≡ 40 = omega (arith, is.t_trace_id) in
      rw parts (skip-append 40 m (before_trace h ++ h.t_trace_id) (after_trace h ++ rest) size)

  pub length-write_to : length (write_to h) ≡ 64
  unfolding write_to
  length-write_to = omega (arith, length-append h.t_trace_id (after_trace h), is.t_trace_id)

  -- A header that is written is read back.
  pub read_from-write_to : read_from (write_to h ++ rest) ≡ ok h
  unfolding read_from
  read_from-write_to =
      let bytes = write_to h ++ rest in
      let long : ltb (length bytes) tuple_header_size ≡ false =
        ground (arith, length-append (write_to h) rest, length-write_to) in
      let xmin : from_le_bytes (take 8 bytes) ≡ h.t_xmin =
        unfold write_to in from_le_bytes-to_le_bytes 8 h.t_xmin is.t_xmin in
      let xmax : from_le_bytes (take 8 (skip 8 bytes)) ≡ h.t_xmax =
        unfold write_to in from_le_bytes-to_le_bytes 8 h.t_xmax is.t_xmax in
      let agent_id : from_le_bytes (take 8 (skip 16 bytes)) ≡ h.t_agent_id =
        unfold write_to in from_le_bytes-to_le_bytes 8 h.t_agent_id is.t_agent_id in
      let field : (n m v : ℕ)
          → v < values_of n
          → take n (skip m (after_trace h ++ rest)) ≡ to_le_bytes n v
          → from_le_bytes (take n (skip (40 + m) bytes)) ≡ v =
        λ n m v small e.
          ap (λ (t : List ℕ). from_le_bytes (take n t)) (skip_header m)
          ∙ ap from_le_bytes e
          ∙ from_le_bytes-to_le_bytes n v small in
      rw
        (
          long,
          xmin,
          xmax,
          agent_id,
          trace_id,
          field 8 0 h.t_ctid.page_id is.page_id refl,
          field 2 8 h.t_ctid.slot_id is.slot_id refl,
          field 2 10 0 (omega arith) refl,
          field 2 12 h.t_infomask is.t_infomask refl,
          field 2 14 h.t_infomask2 is.t_infomask2 refl,
          field 2 16 h.t_hoff is.t_hoff refl,
          field 2 18 h.t_flags is.t_flags refl,
          field 4 20 h.t_cid is.t_cid refl,
        )
        refl
