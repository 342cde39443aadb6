-- ===== src/Txn/Manager/Schedule.antt =====
-- Every interleaving of transactions that begin, end and take snapshots.
use ams.Common.{ℕ, ◌+◌, ◌^◌, ◌<◌, ◌≡◌, true, List, [], ◌∷◌, ◌++◌, contains}
use ams.Txn.Clog.{TxnState, Clog}
use ams.Txn.Visibility.{Snapshot}
use ams.Txn.Manager.{
  TxnManager, new, begin_txn, end_txn_state, end_txn_leave, snapshot, drop_guard, wait_for_round,
}

-- The manager, and the snapshots whose guard is alive.
pub record Schedule : Type 0 where
  pub manager : TxnManager
  pub live : List Snapshot

unfoldable pub take_snapshot : ℕ → Schedule → Schedule
take_snapshot xid s =
    let (snap, m) = snapshot xid s.manager in record { manager = m; live = snap ∷ s.live }

pub data Step (s : Schedule) : Schedule → Type 0 where
  -- The clock of 64 bits is not used up.
  begin : s.manager.next + 1 < 2 ^ 64 → Step s (record s { manager = (begin_txn s.manager).1 })
  -- The two halves of `end_txn`, which only an active transaction calls.
  flip :
      (xid : ℕ) (state : TxnState)
      → contains xid s.manager.active ≡ true
      → Step s (record s { manager = end_txn_state xid state s.manager })
  leave :
      (xid : ℕ)
      → contains xid s.manager.active ≡ true
      → Step s (record s { manager = end_txn_leave xid s.manager })
  -- `current_xid` is any id: a reader's snapshot has none.
  take : (xid : ℕ) → Step s (take_snapshot xid s)
  drop :
      (before after : List Snapshot) (snap : Snapshot)
      → s.live ≡ before ++ (snap ∷ after)
      → Step s (record { manager = drop_guard snap.xmin s.manager; live = before ++ after })
  -- A round of a row-lock wait.
  wait :
      (self_xid blocking_xid : ℕ)
      → Step s (record s { manager = (wait_for_round self_xid blocking_xid s.manager).1 })

pub data Reach (s : Schedule) : Schedule → Type 0 where
  here : Reach s s
  next : {t u : Schedule} → Reach s t → Step t u → Reach s u

-- A manager as it is opened: nothing runs.
abbrev pub opened : ℕ → Clog → Schedule
opened start clog = record { manager = new start clog; live = [] }
