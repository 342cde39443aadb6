-- ===== src/Txn/Clog.antt =====
-- The commit log: `TxnState` and the contract of `ClogAccessor` (crates/pg-storage/src/clog.rs),
-- the in-memory log (crates/pg-txn/src/clog_mem.rs), and the addresses and nibbles of the log on
-- disk (crates/pg-txn/src/clog_file.rs).
pub mod Memory
pub mod Address
pub mod Segments
pub mod Buffer
use ams.Common.{ℕ, Bool, true, false, ◌≡◌, ◌==◌, if◌then◌else◌}

pub data TxnState : Type 0 where
  in_progress committed aborted sub_committed : TxnState

-- `TxnState as u8`.
unfoldable pub state_code : TxnState → ℕ
state_code in_progress = 0
state_code committed = 1
state_code aborted = 2
state_code sub_committed = 3

-- `state == TxnState::Committed`.
unfoldable pub is_committed : TxnState → Bool
is_committed committed = true
is_committed _ = false

-- What `get_state` of a `ClogAccessor` answers, and what `set_state` makes of it.
abbrev pub Clog : Type 0
Clog = ℕ → TxnState

unfoldable pub set_state : ℕ → TxnState → Clog → Clog
set_state xid state clog x = if xid == x then state else clog x
