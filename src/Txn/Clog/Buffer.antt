-- ===== src/Txn/Clog/Buffer.antt =====
-- The cache of commit log pages, crates/pg-txn/src/clog_buffer.rs. The frames are a function of their
-- index; an index beyond `frame_count`, at which the source would panic, is never used. The lock is
-- left out: each operation is one step. The log of the program is kept in segment files.
pub mod Sweep
pub mod Coherent
pub mod Locate
pub mod Flush
pub mod Contract
pub mod Runs
mod Examples
use ams.Common.{
  ℕ, zero, suc, ◌+◌, ◌-◌, ◌%◌, ◌^◌, ◌≤◌, ◌<◌, ◌≡◌, refl, Bool, true, false, ◌&&◌, ◌||◌, not, Option,
  none, some, List, [], ◌∷◌, arith, ltb, leb, ◌==◌, if◌then◌else◌,
}
use ams.Common.Map.{Map, lookup, insert, remove}
use ams.Heap.Bytes.{Buffer}
use ams.Storage.Error.{Result, ok, err, StorageError, io}
use ams.Txn.Clog.{TxnState, in_progress, state_code}
use ams.Txn.Clog.Address.{
  page_no_of_xid, byte_in_page_of_xid, segment_id_of_page, get_nibble, set_nibble,
  txn_state_from_nibble,
}
use ams.Txn.Clog.Segments.{Os, ClogSegmentStore, read_page, write_page, sync_unsynced}

abbrev pub invalid_page_no : ℕ
invalid_page_no = 18446744073709551615

abbrev pub min_frames : ℕ
min_frames = 4

abbrev pub max_frames : ℕ
max_frames = 1024

pub record ClogFrame : Type 0 where
  pub page_no : ℕ
  pub bytes : Buffer
  pub dirty : Bool
  pub referenced : Bool

pub record Inner : Type 0 where
  pub frame_count : ℕ
  pub frames : ℕ → ClogFrame
  pub page_table : Map ℕ
  pub clock_hand : ℕ

pub record ClogBuffer : Type 0 where
  pub store : ClogSegmentStore
  pub inner : Inner
  pub hits : ℕ
  pub misses : ℕ

-- `none` is the panic on a number of frames out of range.
unfoldable pub open_buffer : ClogSegmentStore → ℕ → Option ClogBuffer
open_buffer store clog_buffer_frames =
    if not (leb min_frames clog_buffer_frames && leb clog_buffer_frames max_frames)
    then none
    else some (record {
      store = store;
      inner = record {
        frame_count = clog_buffer_frames;
        frames = λ _. record {
          page_no = invalid_page_no;
          bytes = λ _. 0;
          dirty = false;
          referenced = false;
        };
        page_table = [];
        clock_hand = 0;
      };
      hits = 0;
      misses = 0;
    })

-- An assignment to one frame.
abbrev pub set_frame : ℕ → ClogFrame → Inner → Inner
set_frame idx frame inner = record inner {
  frames = λ j. if j == idx then frame else inner.frames j;
}

-- The inner loop of `find_victim`, over the frames that remain of a revolution.
unfoldable pub sweep : ℕ → Bool → Inner → Option ℕ × Inner
sweep zero allow_dirty inner = (none, inner)
sweep (suc n) allow_dirty inner =
    let idx = inner.clock_hand in
    let frame = inner.frames idx in
    let moved = record inner { clock_hand = (idx + 1) % inner.frame_count } in
    let cleared = set_frame idx (record frame { referenced = false }) moved in
    let rest = sweep n allow_dirty (if frame.referenced then cleared else moved) in
    if frame.page_no == invalid_page_no
    then (some idx, moved)
    else if frame.referenced
    then rest
    else if frame.dirty && not allow_dirty
    then rest
    else (some idx, moved)

-- The outer loop, over revolutions; dirty frames are taken from the second one on. `none` is a
-- loop that has not ended.
unfoldable pub find_victim_from : ℕ → Bool → Inner → Option ℕ × Inner
find_victim_from zero allow_dirty inner = (none, inner)
find_victim_from (suc revolutions) allow_dirty inner =
    let (found, inner') = sweep inner.frame_count allow_dirty inner in
    elim found [ some idx ↦ (some idx, inner') | none ↦ find_victim_from revolutions true inner' ]

unfoldable pub find_victim : Inner → Option ℕ × Inner
find_victim inner = find_victim_from 2 false inner

-- A frame that holds a page is written back if it is dirty, and leaves the table.
unfoldable pub evict : Os → ℕ → ClogBuffer → Result (Unit {0}) × ClogBuffer
evict os victim b =
    let frame = b.inner.frames victim in
    let forgotten = record b.inner { page_table = remove frame.page_no b.inner.page_table } in
    if frame.page_no == invalid_page_no
    then (ok tt, b)
    else if frame.dirty
    then (if os.writes (segment_id_of_page frame.page_no)
        then (
          ok tt,
          record b { store = write_page frame.page_no frame.bytes b.store; inner = forgotten },
        )
        else (err io, b))
    else (ok tt, record b { inner = forgotten })

unfoldable pub load : Os → ℕ → ℕ → ClogBuffer → Result ℕ × ClogBuffer
load os page_no victim b =
    let frame : ClogFrame = record {
      page_no = page_no;
      bytes = read_page page_no b.store;
      dirty = false;
      referenced = true;
    } in
    let inner = record (set_frame victim frame b.inner) {
      page_table = insert page_no victim b.inner.page_table;
    } in
    if os.reads (segment_id_of_page page_no)
    then (ok victim, record b { inner = inner })
    else (err io, b)

unfoldable pub replace : Os → ℕ → ℕ → ClogBuffer → Result ℕ × ClogBuffer
replace os page_no victim b =
    let (written, b') = evict os victim b in
    elim written [ err e ↦ (err e, b') | ok _ ↦ load os page_no victim b' ]

-- `none` is a search for a victim that has not ended.
unfoldable pub locate_frame : Os → ℕ → ClogBuffer → Option (Result ℕ × ClogBuffer)
locate_frame os page_no b = elim (lookup page_no b.inner.page_table) [
  | some idx ↦ some (
    ok idx,
    record b {
      inner = set_frame idx (record (b.inner.frames idx) { referenced = true }) b.inner;
      hits = (b.hits + 1) % 2 ^ 64;
    },
  )
  | none ↦
      let (found, inner) = find_victim b.inner in
      elim found [
        | none ↦ none
        | some victim ↦ some (
            replace os page_no victim
              (record b { inner = inner; misses = (b.misses + 1) % 2 ^ 64 }))
      ]
]

-- `none` is a panic: a call of the operating system failed, or a nibble is no state.
unfoldable pub get_state : Os → ℕ → ClogBuffer → Option (TxnState × ClogBuffer)
get_state os xid b =
    if xid == 0 then some (in_progress, b) else (elim (locate_frame os (page_no_of_xid xid) b) [
      | none ↦ none
      | some (err _, _) ↦ none
      | some (ok idx, b') ↦
          let byte = (b'.inner.frames idx).bytes (byte_in_page_of_xid xid) in
          elim (txn_state_from_nibble (get_nibble byte xid)) [
            | none ↦ none
            | some state ↦ some (state, b')
          ]
    ])

-- The write of one state to a frame.
unfoldable pub stamp : ℕ → TxnState → ℕ → ClogBuffer → ClogBuffer
stamp xid state idx b =
    let frame = b.inner.frames idx in
    let i = byte_in_page_of_xid xid in
    record b {
      inner =
          set_frame idx
            (record frame {
              bytes = λ j.
                  if j == i
                  then set_nibble (frame.bytes i) xid (state_code state)
                  else frame.bytes j;
              dirty = true;
            })
            b.inner;
    }

unfoldable pub set_state : Os → ℕ → TxnState → ClogBuffer → Option ClogBuffer
set_state os xid state b =
    if xid == 0 then some b else (elim (locate_frame os (page_no_of_xid xid) b) [
      | none ↦ none
      | some (err _, _) ↦ none
      | some (ok idx, b') ↦ some (stamp xid state idx b')
    ])

-- The loop of `flush_dirty` over the frames from an index on.
unfoldable pub flush_frame : Os → ℕ → ClogBuffer → Result (Unit {0}) × ClogBuffer
flush_frame os idx b =
    let frame = b.inner.frames idx in
    if not (frame.page_no == invalid_page_no) && frame.dirty
    then (if os.writes (segment_id_of_page frame.page_no)
        then (
          ok tt,
          record b {
            store = write_page frame.page_no frame.bytes b.store;
            inner = set_frame idx (record frame { dirty = false }) b.inner;
          },
        )
        else (err io, b))
    else (ok tt, b)

unfoldable pub flush_frames : Os → ℕ → ℕ → ClogBuffer → Result (Unit {0}) × ClogBuffer
flush_frames os zero idx b = (ok tt, b)
flush_frames os (suc n) idx b =
    let (written, b') = flush_frame os idx b in
    elim written [ err e ↦ (err e, b') | ok _ ↦ flush_frames os n (idx + 1) b' ]

unfoldable pub flush_dirty : Os → ClogBuffer → Result (Unit {0}) × ClogBuffer
flush_dirty os b =
    let (written, b') = flush_frames os b.inner.frame_count 0 b in
    elim written [
      | err e ↦ (err e, b')
      | ok _ ↦
          let (synced, store) = sync_unsynced os b'.store in (synced, record b' { store = store })
    ]
