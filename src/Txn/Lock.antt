-- ===== src/Txn/Lock.antt =====
-- crates/pg-txn/src/lock_manager.rs: table locks. A mode, the state of one table (`LockEntry`),
-- and the manager's operations. `Mutex` makes each operation, and each round of the loop of
-- `acquire` up to its `condvar.wait`, one step on the manager's state.
pub mod Modes
pub mod Observe
pub mod Entry
pub mod Queue
pub mod Enqueue
pub mod Settled
pub mod Grants
pub mod System
pub mod Sound
pub mod Steps
pub mod Safety
pub mod Release
mod Examples
use ams.Common.{
  ℕ, zero, suc, Bool, true, false, ◌||◌, not, Option, none, some, List, [], ◌∷◌, ◌++◌, ltb, leb,
  ◌==◌, if◌then◌else◌, length, retain,
}
use ams.Common.Map.{Map, lookup, insert, remove, all}
use ams.Txn.Victims
use ams.Txn.Victims.{Victims}

pub data LockMode : Type 0 where
  access_share row_exclusive exclusive access_exclusive : LockMode

-- The derived order: the position among the constructors.
abbrev pub strength : LockMode → ℕ
strength access_share = 0
strength row_exclusive = 1
strength exclusive = 2
strength access_exclusive = 3

unfoldable pub conflicts_with : LockMode → LockMode → Bool
conflicts_with access_exclusive _ = true
conflicts_with _ access_exclusive = true
conflicts_with row_exclusive exclusive = true
conflicts_with exclusive row_exclusive = true
conflicts_with exclusive exclusive = true
conflicts_with _ _ = false

pub record Waiter : Type 0 where
  pub xid : ℕ
  pub mode : LockMode

pub record LockEntry : Type 0 where
  pub granted : Map LockMode
  pub wait_queue : List Waiter

-- `LockEntry::default`
abbrev pub empty_entry : LockEntry
empty_entry = record { granted = []; wait_queue = [] }

-- The first gate of `can_grant`: already held, at the mode or stronger.
unfoldable pub holds_at_least : Option LockMode → LockMode → Bool
holds_at_least none mode = false
holds_at_least (some held) mode = leb (strength mode) (strength held)

-- The second gate: another transaction is at the head of the queue.
unfoldable pub is_behind : List Waiter → ℕ → Bool
is_behind [] xid = false
is_behind (head ∷ rest) xid = not (head.xid == xid)

-- The third gate: no other holder conflicts.
unfoldable pub is_compatible : Map LockMode → ℕ → LockMode → Bool
is_compatible granted xid mode =
    all (λ holder held. holder == xid || not (conflicts_with held mode)) granted

unfoldable pub can_grant : LockEntry → ℕ → LockMode → Bool
can_grant e xid mode =
    if holds_at_least (lookup xid e.granted) mode
    then true
    else if is_behind e.wait_queue xid
    then false
    else is_compatible e.granted xid mode

-- `entry(xid).or_insert(mode)`, and the stronger of the two modes.
unfoldable pub strengthen : Option LockMode → LockMode → LockMode
strengthen none mode = mode
strengthen (some held) mode = if ltb (strength held) (strength mode) then mode else held

unfoldable pub pop_own : List Waiter → ℕ → List Waiter
pop_own [] xid = []
pop_own (head ∷ rest) xid = if head.xid == xid then rest else head ∷ rest

unfoldable pub grant : LockEntry → ℕ → LockMode → LockEntry
grant e xid mode = record {
  granted = insert xid (strengthen (lookup xid e.granted) mode) e.granted;
  wait_queue = pop_own e.wait_queue xid;
}

unfoldable pub is_queued : List Waiter → ℕ → Bool
is_queued [] xid = false
is_queued (w ∷ ws) xid = w.xid == xid || is_queued ws xid

unfoldable pub enqueue_if_absent : LockEntry → ℕ → LockMode → LockEntry
enqueue_if_absent e xid mode =
    if is_queued e.wait_queue xid
    then e
    else record e { wait_queue = e.wait_queue ++ (record { xid = xid; mode = mode } ∷ []) }

-- `while let Some(head) = wait_queue.front()`, with fuel: each round pops the head, so that the
-- length of the queue is enough.
unfoldable pub regrant_loop : ℕ → LockEntry → LockEntry
regrant_loop zero e = e
regrant_loop (suc fuel) e = elim e.wait_queue [
  | [] ↦ e
  | head ∷ rest ↦
      let next = regrant_loop fuel (grant e head.xid head.mode) in
      if can_grant e head.xid head.mode then next else e
]

unfoldable pub regrant_heads : LockEntry → LockEntry
regrant_heads e = regrant_loop (length e.wait_queue) e

-- `wait_queue.retain(|w| w.xid != xid)`
unfoldable pub drop_waiter : ℕ → LockEntry → LockEntry
drop_waiter xid e = record e {
  wait_queue = retain (λ (w : Waiter). not (w.xid == xid)) e.wait_queue;
}

unfoldable pub is_unused : LockEntry → Bool
is_unused e = elim e.granted [
  | [] ↦ elim e.wait_queue [ [] ↦ true | _ ∷ _ ↦ false ]
  | _ ∷ _ ↦ false
]

pub record LockManager : Type 0 where
  pub entries : Map LockEntry
  pub victims : Victims

-- `entries.entry(table).or_default()`
unfoldable pub entry_of : LockManager → ℕ → LockEntry
entry_of m table = elim (lookup table m.entries) [ none ↦ empty_entry | some e ↦ e ]

-- What one round of `acquire` does: it returns, or it sleeps on the condition variable.
pub data Attempt : Type 0 where
  granted_now deadlock_victim must_wait : Attempt

-- The entry after a victim's request is dropped and the heads behind it are granted.
unfoldable pub interrupt_entry : ℕ → LockEntry → LockEntry
interrupt_entry xid e = regrant_heads (drop_waiter xid e)

unfoldable pub interrupt : ℕ → ℕ → Map LockEntry → Map LockEntry
interrupt xid table entries = elim (lookup table entries) [
  | none ↦ entries
  | some e ↦
      let e' = interrupt_entry xid e in
      if is_unused e' then remove table entries else insert table e' entries
]

-- One round of the loop of `acquire`.
unfoldable pub acquire_round : LockManager → ℕ → ℕ → LockMode → Attempt × LockManager
acquire_round m xid table mode =
    let (chosen, victims) = Victims.take xid m.victims in
    let e = entry_of m table in
    if chosen
    then (deadlock_victim, record { entries = interrupt xid table m.entries; victims = victims })
    else if can_grant e xid mode
    then (
      granted_now,
      record { entries = insert table (grant e xid mode) m.entries; victims = victims },
    )
    else (
      must_wait,
      record { entries = insert table (enqueue_if_absent e xid mode) m.entries; victims = victims },
    )

unfoldable pub try_acquire : LockManager → ℕ → ℕ → LockMode → Bool × LockManager
try_acquire m xid table mode =
    let grantable = elim (lookup table m.entries) as (λ _. Bool) [
      | none ↦ true
      | some e ↦ can_grant e xid mode
    ] in
    if grantable
    then (true, record m { entries = insert table (grant (entry_of m table) xid mode) m.entries })
    else (false, m)

unfoldable pub release_entry : ℕ → LockEntry → LockEntry
release_entry xid e = regrant_heads (drop_waiter xid (record e { granted = remove xid e.granted }))

-- `entries.retain`: the closure changes each entry in place, and drops it if it is unused.
unfoldable pub release_entries : ℕ → Map LockEntry → Map LockEntry
release_entries xid [] = []
release_entries xid ((table, e) ∷ rest) =
    let e' = release_entry xid e in
    let others = release_entries xid rest in if is_unused e' then others else (table, e') ∷ others

unfoldable pub release_all : LockManager → ℕ → LockManager
release_all m xid = record m { entries = release_entries xid m.entries }

unfoldable pub is_granted : LockManager → ℕ → ℕ → LockMode → Bool
is_granted m xid table mode = elim (lookup table m.entries) [
  | none ↦ false
  | some e ↦ holds_at_least (lookup xid e.granted) mode
]
