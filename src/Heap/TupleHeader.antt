-- ===== src/Heap/TupleHeader.antt =====
-- The header of a tuple: crates/pg-am-heap/src/tuple.rs.
pub mod RoundTrip
use Prim.Native.Nat.{bit_and, bit_or}
use ams.Common.{
  ℕ, zero, suc, ◌+◌, ◌-◌, ◌*◌, ◌/◌, ◌%◌, ◌^◌, ◌<◌, ◌≡◌, refl, Bool, true, false, ◌&&◌, ◌||◌, not,
  Option, none, some, List, [], ◌∷◌, ◌++◌, length, ltb, leb, ◌==◌, if◌then◌else◌,
}
use ams.Storage.LittleEndian.{to_le_bytes, from_le_bytes, take, skip}
use ams.Storage.Types.{resize}
use ams.Storage.Wal.Heap.{Tid}
use ams.Heap.Bytes.{Buffer, slice}
use ams.Heap.Page.{Result, ok, err, corrupted, invalid_argument}
use ams.Heap.Toast.{
  toast_pointer_size, varlena_len_mask, is_external, encode_pointer, decode_pointer,
}
use ams.Btree.Key.{
  ℤ, pos, negsuc, as_unsigned, as_signed, half32, half64, ColumnType, int4, int8, timestamptz, uuid,
  text, bytea, vector, Datum, int4_of, int8_of, timestamptz_of, uuid_of, text_of, bytea_of,
  vector_of, external, ToastPointer,
}

abbrev pub tuple_header_size : ℕ
tuple_header_size = 64

abbrev pub heap_hasnull : ℕ
heap_hasnull = 0x0001

abbrev pub heap_hasvarwidth : ℕ
heap_hasvarwidth = 0x0002

abbrev pub heap_hasexternal : ℕ
heap_hasexternal = 0x0004

abbrev pub heap_natts_mask : ℕ
heap_natts_mask = 0x07FF

abbrev pub heap_has_nodeid : ℕ
heap_has_nodeid = 0x0800

abbrev pub tuple_version_mask : ℕ
tuple_version_mask = 0x000F

abbrev pub tuple_version_m2 : ℕ
tuple_version_m2 = 0

abbrev pub max_natts : ℕ
max_natts = 2047

pub record TupleHeader : Type 0 where
  pub t_xmin : ℕ
  pub t_xmax : ℕ
  pub t_agent_id : ℕ
  pub t_trace_id : List ℕ
  pub t_ctid : Tid
  pub t_infomask : ℕ
  pub t_infomask2 : ℕ
  pub t_hoff : ℕ
  pub t_flags : ℕ
  pub t_cid : ℕ

-- `TupleHeader::new`
abbrev pub new_header : ℕ → ℕ → ℕ → List ℕ → Tid → ℕ → TupleHeader
new_header xmin xmax agent_id trace_id ctid cid = record {
  t_xmin = xmin;
  t_xmax = xmax;
  t_agent_id = agent_id;
  t_trace_id = trace_id;
  t_ctid = ctid;
  t_infomask = 0;
  t_infomask2 = 0;
  t_hoff = 0;
  t_flags = 0;
  t_cid = cid;
}

unfoldable pub natts : TupleHeader → ℕ
natts h = bit_and h.t_infomask2 heap_natts_mask

unfoldable pub write_to : TupleHeader → List ℕ
write_to h =
    to_le_bytes 8 h.t_xmin
    ++ (to_le_bytes 8 h.t_xmax
        ++ (to_le_bytes 8 h.t_agent_id
            ++ (h.t_trace_id
                ++ (to_le_bytes 8 h.t_ctid.page_id
                    ++ (to_le_bytes 2 h.t_ctid.slot_id
                        ++ (to_le_bytes 2 0
                            ++ (to_le_bytes 2 h.t_infomask
                                ++ (to_le_bytes 2 h.t_infomask2
                                    ++ (to_le_bytes 2 h.t_hoff
                                        ++ (to_le_bytes 2 h.t_flags
                                            ++ to_le_bytes 4 h.t_cid))))))))))

abbrev pub u16_at : List ℕ → ℕ → ℕ
u16_at bytes off = from_le_bytes (take 2 (skip off bytes))

unfoldable pub read_from : List ℕ → Result TupleHeader
read_from bytes =
    if ltb (length bytes) tuple_header_size
    then err corrupted
    else if not (u16_at bytes 50 == 0)
    then err corrupted
    else ok (record {
      t_xmin = from_le_bytes (take 8 bytes);
      t_xmax = from_le_bytes (take 8 (skip 8 bytes));
      t_agent_id = from_le_bytes (take 8 (skip 16 bytes));
      t_trace_id = take 16 (skip 24 bytes);
      t_ctid = record {
        page_id = from_le_bytes (take 8 (skip 40 bytes));
        slot_id = u16_at bytes 48;
      };
      t_infomask = u16_at bytes 52;
      t_infomask2 = u16_at bytes 54;
      t_hoff = u16_at bytes 56;
      t_flags = u16_at bytes 58;
      t_cid = from_le_bytes (take 4 (skip 60 bytes));
    })
