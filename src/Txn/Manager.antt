-- ===== src/Txn/Manager.antt =====
-- `TxnManager` of crates/pg-txn/src/manager.rs: the clock of transaction ids
-- (crates/pg-storage/src/txn_id.rs), the active set, the registry of snapshots and of row waits.
pub mod Schedule
pub mod Invariant
pub mod Steps
pub mod Isolation
pub mod Commit
pub mod Horizon
pub mod Vacuum
use ams.Common.{
  ℕ, zero, suc, ◌+◌, ◌-◌, ◌%◌, ◌^◌, Bool, true, false, Option, none, some, List, [], ◌∷◌, ◌==◌,
  if◌then◌else◌, contains, set_insert, set_remove, not,
}
use ams.Common.Map.{Map, lookup, insert, remove, keys}
use ams.Common.Sort.{sort, first, min?}
use ams.Txn.Victims
use ams.Txn.Victims.{Victims}
use ams.Txn.Clog.{TxnState, in_progress, Clog, set_state}
use ams.Txn.Visibility.{Snapshot}

-- `TxnId::FIRST`: where the clock of a new database starts.
abbrev pub first_xid : ℕ
first_xid = 1

pub record TxnManager : Type 0 where
  -- `TxnIdClock::next`
  pub next : ℕ
  pub clog : Clog
  -- `TxnShared`
  pub active : List ℕ
  pub snapshot_xmins : Map ℕ
  pub live_snapshots : ℕ
  pub row_wait_registry : Map ℕ
  pub deadlock_victims : Victims

abbrev pub new : ℕ → Clog → TxnManager
new start clog = record {
  next = start;
  clog = clog;
  active = [];
  snapshot_xmins = [];
  live_snapshots = 0;
  row_wait_registry = [];
  deadlock_victims = [];
}

-- `TxnIdClock::alloc`: `fetch_add` on 64 bits.
unfoldable pub alloc : TxnManager → ℕ × TxnManager
alloc m = (m.next, record m { next = (m.next + 1) % 2 ^ 64 })

unfoldable pub begin_txn : TxnManager → ℕ × TxnManager
unfolding alloc
begin_txn m = let (xid, m') = alloc m in (xid, record m' { active = set_insert xid m.active })

-- The first half of `end_txn`, up to the bit in the commit log; the lock of the active set is taken
-- afterwards, and others may act in between.
unfoldable pub end_txn_state : ℕ → TxnState → TxnManager → TxnManager
end_txn_state xid state m = record m {
  deadlock_victims = Victims.clear xid m.deadlock_victims;
  clog = set_state xid state m.clog;
}

-- The second half: the transaction leaves the active set (and the waiters are notified).
unfoldable pub end_txn_leave : ℕ → TxnManager → TxnManager
end_txn_leave xid m = record m { active = set_remove xid m.active }

unfoldable pub end_txn : ℕ → TxnState → TxnManager → TxnManager
unfolding end_txn_state end_txn_leave
end_txn xid state m = end_txn_leave xid (end_txn_state xid state m)

unfoldable pub is_active : TxnManager → ℕ → Bool
is_active m xid = contains xid m.active

unfoldable pub active_xids : TxnManager → List ℕ
active_xids m = sort m.active

unfoldable pub unwrap_or : Option ℕ → ℕ → ℕ
unwrap_or none d = d
unwrap_or (some x) d = x

-- `*entry(xmin).or_insert(0) += 1`
unfoldable pub register : ℕ → Map ℕ → Map ℕ
register xmin xmins = insert xmin (unwrap_or (lookup xmin xmins) 0 + 1) xmins

-- `snapshot`, one critical section; the guard that is returned holds the snapshot's `xmin`.
unfoldable pub snapshot : ℕ → TxnManager → Snapshot × TxnManager
unfolding unwrap_or register
snapshot current_xid m =
    let xmax = m.next in
    let xip = sort m.active in
    let xmin = unwrap_or (first xip) xmax in
    (
      record { xmin = xmin; xmax = xmax; xip = xip; current_xid = current_xid; curcid = 0 },
      record m {
        snapshot_xmins = register xmin m.snapshot_xmins;
        live_snapshots = m.live_snapshots + 1;
      },
    )

-- What `drop` does to the count of an `xmin`.
unfoldable pub unregister : ℕ → Map ℕ → Map ℕ
unregister xmin xmins = elim (lookup xmin xmins) [
  | none ↦ xmins
  | some count ↦ if count - 1 == 0 then remove xmin xmins else insert xmin (count - 1) xmins
]

-- `SnapshotGuard::drop`
unfoldable pub drop_guard : ℕ → TxnManager → TxnManager
unfolding unregister
drop_guard xmin m = record m {
  snapshot_xmins = unregister xmin m.snapshot_xmins;
  live_snapshots = m.live_snapshots - 1;
}

-- The least key of the registry, else the least active transaction, else the clock.
unfoldable pub oldest_snapshot_xmin : TxnManager → ℕ
unfolding unwrap_or
oldest_snapshot_xmin m = elim (min? (keys m.snapshot_xmins)) [
  | some xmin ↦ xmin
  | none ↦ unwrap_or (min? m.active) m.next
]

-- The registry and the count, for observers.
unfoldable pub snapshot_xmin_registry : TxnManager → Map ℕ
snapshot_xmin_registry m = m.snapshot_xmins

unfoldable pub live_registered_snapshots : TxnManager → ℕ
live_registered_snapshots m = m.live_snapshots

unfoldable pub register_row_wait : ℕ → ℕ → TxnManager → TxnManager
register_row_wait self_xid blocking_xid m = record m {
  row_wait_registry = insert self_xid blocking_xid m.row_wait_registry;
}

unfoldable pub unregister_row_wait : ℕ → TxnManager → TxnManager
unregister_row_wait self_xid m = record m {
  row_wait_registry = remove self_xid m.row_wait_registry;
}

-- `wait_for` returns, or sleeps on the condition variable.
pub data Wait : Type 0 where
  self_wait deadlock_victim done sleeps : Wait

-- One round of the loop of `wait_for`, under the registry's lock.
unfoldable pub wait_for_round : ℕ → ℕ → TxnManager → Wait × TxnManager
wait_for_round self_xid blocking_xid m =
    let (chosen, victims) = Victims.take self_xid m.deadlock_victims in
    let cleared = remove self_xid m.row_wait_registry in
    if self_xid == blocking_xid
    then (self_wait, m)
    else if chosen
    then (deadlock_victim, record m { deadlock_victims = victims; row_wait_registry = cleared })
    else if not (contains blocking_xid m.active)
    then (done, record m { deadlock_victims = victims; row_wait_registry = cleared })
    else (sleeps, record m { deadlock_victims = victims })
