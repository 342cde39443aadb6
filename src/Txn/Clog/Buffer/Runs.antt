-- ===== src/Txn/Clog/Buffer/Runs.antt =====
-- Sequences of operations on the cache of commit log pages, and a restart after a crash
-- (crates/pg-txn/src/clog_buffer.rs).
use ams.Common.{
  ℕ, ◌^◌, ◌<◌, ◌≡◌, ◌≢◌, refl, subst, ◌∙◌, false, Option, none, some, List, [], ◌∷◌, arith, ◌==◌,
  if◌then◌else◌,
}
use ams.Storage.Error.{ok}
use ams.Txn.Clog
use ams.Txn.Clog.{TxnState, in_progress, Clog}
use ams.Txn.Clog.Address.{clog_page_bytes, byte_in_page_of_xid, page_no_of_xid}
use ams.Txn.Clog.Segments.{Os, ClogSegmentStore, read_page}
use ams.Txn.Clog.Buffer.{
  ClogBuffer, invalid_page_no, open_buffer, get_state, set_state, flush_dirty,
}
use ams.Txn.Clog.Buffer.Coherent.{page_of, IsCoherent}
use ams.Txn.Clog.Buffer.Flush.{IsCrash, store_on, flush_dirty_durable}
use ams.Txn.Clog.Buffer.Contract.{state_in, state_in_same, address_bounds, Holds}

-- A flush has its own outcomes of system calls, which may fail.
pub data Op : Type 0 where
  get : ℕ → Op
  put : ℕ → TxnState → Op
  flush : Os → Op

-- The answers to the reads, and the cache after the operations.
unfoldable pub run : Os → List Op → ClogBuffer → Option (List TxnState × ClogBuffer)
run os [] b = some ([], b)
run os (get xid ∷ ops) b = elim (get_state os xid b) [
  | none ↦ none
  | some (state, b') ↦ elim (run os ops b') [
    | none ↦ none
    | some (states, b'') ↦ some (state ∷ states, b'')
  ]
]
run os (put xid state ∷ ops) b = elim (set_state os xid state b) [
  | none ↦ none
  | some b' ↦ run os ops b'
]
run os (flush outcomes ∷ ops) b = run os ops (flush_dirty outcomes b).1

-- Transaction 0 stays in progress.
abbrev put_state : ℕ → TxnState → Clog → Clog
put_state xid state clog = if xid == 0 then clog else Clog.set_state xid state clog

-- What the contract says of the same operations.
unfoldable pub spec : List Op → Clog → List TxnState × Clog
spec [] clog = ([], clog)
spec (get xid ∷ ops) clog = let (states, clog') = spec ops clog in (clog xid ∷ states, clog')
spec (put xid state ∷ ops) clog = spec ops (put_state xid state clog)
spec (flush _ ∷ ops) clog = spec ops clog

abbrev pub IsOp : Op → Type 0
IsOp (get xid) = xid < 2 ^ 64
IsOp (put xid _) = xid < 2 ^ 64
IsOp (flush _) = Unit {0}

-- The cache that is opened.
abbrev opened : ClogSegmentStore → ℕ → ClogBuffer
opened store n = record {
  store = store;
  inner = record {
    frame_count = n;
    frames = λ _. record {
      page_no = invalid_page_no;
      bytes = λ _. 0;
      dirty = false;
      referenced = false;
    };
    page_table = [];
    clock_hand = 0;
  };
  hits = 0;
  misses = 0;
}

open_buffer_lem :
    (s : ClogSegmentStore) (n : ℕ) (r : ClogBuffer)
    → open_buffer s n ≡ some r
    → (opened s n ≡ r) × (0 < n)
unfolding open_buffer
open_buffer_lem s n r h = (ground (arith, h), ground (arith, h))

opened-IsCoherent : (files : ℕ → ℕ → ℕ) (n : ℕ) → 0 < n → IsCoherent (opened (store_on files) n)
opened-IsCoherent files n h = record {
  hand = h;
  table = λ p idx there. absurd (ground (arith, there));
  held = λ idx lt full. absurd (full refl);
  clean = λ idx i lt full d ib. absurd (full refl);
  tracked = λ segment offset out. refl;
}

-- A cache that is opened on files stands for the log in them.
pub open_buffer-Holds :
    (files : ℕ → ℕ → ℕ) (clog : Clog) (n : ℕ) (r : ClogBuffer)
    → ((p i : ℕ) → p ≢ invalid_page_no → i < clog_page_bytes → read_page p (store_on files) i < 256)
    → ((xid : ℕ)
        → xid < 2 ^ 64
        → state_in (λ p. read_page p (store_on files)) xid ≡ some (clog xid))
    → open_buffer (store_on files) n ≡ some r
    → Holds r clog
unfolding page_of
open_buffer-Holds files clog n r bytes states h =
    let (same, positive) = open_buffer_lem (store_on files) n r h in
    subst (λ (t : ClogBuffer). Holds t clog) same
      (record { coherent = opened-IsCoherent files n positive; bytes = bytes; states = states })

-- Let the cache stand for a log, and let a flush succeed. Whatever a crash leaves of the files, a cache
-- that is opened on them afterwards stands for the same log.
pub crash_keeps_states :
    (os : Os) (b : ClogBuffer) (clog : Clog) (files : ℕ → ℕ → ℕ) (n : ℕ) (r : ClogBuffer)
    → Holds b clog
    → (flush_dirty os b).0 ≡ ok tt
    → IsCrash (flush_dirty os b).1.store files
    → open_buffer (store_on files) n ≡ some r
    → Holds r clog
crash_keeps_states os b clog files n r h done crash restart =
    let durable = flush_dirty_durable os b h.coherent done files crash in
    open_buffer-Holds files clog n r (λ p i ne lt. rw (durable p i ne lt) (h.bytes p i ne lt))
      (λ xid small.
        let (ne, lt) = address_bounds xid small in
        state_in_same (λ p. read_page p (store_on files)) (page_of b) xid
          (durable (page_no_of_xid xid) (byte_in_page_of_xid xid) ne lt)
        ∙ h.states xid small)
      restart
