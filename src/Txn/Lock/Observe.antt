-- ===== src/Txn/Lock/Observe.antt =====
-- What others see of the lock manager: `held_by`, `table_lock_state` and `table_lock_states` of
-- crates/pg-txn/src/lock_manager.rs. The lists that the source sorts are in the order of the map.
use ams.Common.{ℕ, ◌≡◌, refl, Option, none, some, [], ◌∷◌, arith, map}
use ams.Common.Map.{Map, lookup, HasKeysOnce}
use ams.Txn.Lock.{LockMode, Waiter, LockEntry, LockManager}

unfoldable pub held_in : ℕ → Map LockEntry → Map LockMode
held_in xid [] = []
held_in xid ((table, e) ∷ rest) =
    let others = held_in xid rest in
    elim (lookup xid e.granted) [ none ↦ others | some mode ↦ (table, mode) ∷ others ]

unfoldable pub held_by : LockManager → ℕ → Map LockMode
held_by m xid = held_in xid m.entries

pub record TableLockState : Type 0 where
  pub granted : Map LockMode
  pub waiters : Map LockMode

unfoldable pub lock_state : LockEntry → TableLockState
lock_state e = record {
  granted = e.granted;
  waiters = map (λ (w : Waiter). (w.xid, w.mode)) e.wait_queue;
}

unfoldable pub table_lock_state : LockManager → ℕ → Option TableLockState
table_lock_state m table = elim (lookup table m.entries) [
  | none ↦ none
  | some e ↦ some (lock_state e)
]

unfoldable pub contended : Map LockEntry → Map TableLockState
contended [] = []
contended ((table, e) ∷ rest) =
    let others = contended rest in
    elim e.wait_queue [ [] ↦ others | _ ∷ _ ↦ (table, lock_state e) ∷ others ]

unfoldable pub table_lock_states : LockManager → Map TableLockState
table_lock_states m = contended m.entries

-- The mode held on the table, if the table has an entry.
abbrev pub mode_at : ℕ → Option LockEntry → Option LockMode
mode_at xid none = none
mode_at xid (some e) = lookup xid e.granted

lookup-held_in :
    (xid table : ℕ) (entries : Map LockEntry)
    → HasKeysOnce entries
    → lookup table (held_in xid entries) ≡ mode_at xid (lookup table entries)
unfolding held_in
lookup-held_in xid table [] h = refl
lookup-held_in xid table ((t, e) ∷ rest) h = ground (arith, lookup-held_in xid table rest h.1, h.0)

-- In a manager with one entry for each table, `held_by` lists a table with a mode exactly when the
-- table's entry grants that mode to the transaction.
pub lookup-held_by :
    (m : LockManager) (xid table : ℕ)
    → HasKeysOnce m.entries
    → lookup table (held_by m xid) ≡ mode_at xid (lookup table m.entries)
unfolding held_by
lookup-held_by m xid table h = lookup-held_in xid table m.entries h
