-- ===== src/Txn/Cycles/Examples.antt =====
-- Runs of the deadlock detector: two transactions that wait for each other's rows.
use ams.Common.{ℕ, ◌≡◌, refl, ◌⊎◌, true, false, some, List, [], ◌∷◌, All}
use ams.Txn.Victims.{Victims, is_marked}
use ams.Txn.Lock.{LockManager}
use ams.Txn.Lock.Observe.{contended, table_lock_states}
use ams.Txn.Clog.{in_progress}
use ams.Txn.Manager.{TxnManager, is_active}
use ams.Txn.Deadlock.{
  Edges, Cycle, IsDeadlock, wait_edges, table_edges, wait_for_edges, has_edge, still_there,
}
use ams.Txn.Cycles.{sources, find_cycles}
use ams.Txn.Cycles.Work.{find_cycles_sound}
use ams.Txn.Cycles.Found.{find_cycles_complete}
use ams.Txn.Cycles.Tick.{tick, tick_breaks-IsDeadlock, tick_marks_deadlocks}

abbrev crossed : Edges
crossed = (3, 5) ∷ (5, 3) ∷ (7, 3) ∷ []

find_cycles_sound_example :
    (cycles : List Cycle) × (find_cycles crossed ≡ some cycles)
    × All (λ c. still_there c.0 c.0 c.1 crossed ≡ true) cycles
find_cycles_sound_example = find_cycles_sound crossed

find_cycles_complete_example :
    (c : Cycle) × (cs : List Cycle) × (find_cycles crossed ≡ some (c ∷ cs))
unfolding still_there has_edge
find_cycles_complete_example = find_cycles_complete crossed 5 (3 ∷ []) refl

abbrev stuck : TxnManager
stuck = record {
  next = 8;
  clog = λ _. in_progress;
  active = 3 ∷ 5 ∷ [];
  snapshot_xmins = [];
  live_snapshots = 0;
  row_wait_registry = (3, 5) ∷ (5, 3) ∷ [];
  deadlock_victims = [];
}

abbrev no_tables : LockManager
no_tables = record { entries = []; victims = [] }

tick_breaks-IsDeadlock_example :
    (after : Victims) × (victim : ℕ) × (cycle : Cycle) × (tick stuck no_tables stuck no_tables []
      ≡ some after)
    × (is_marked victim after ≡ true)
    × IsDeadlock stuck (wait_for_edges stuck no_tables) victim cycle
unfolding still_there has_edge wait_for_edges wait_edges table_edges table_lock_states sources
    is_active contended
tick_breaks-IsDeadlock_example =
    tick_breaks-IsDeadlock stuck no_tables [] 3 (5 ∷ []) refl (λ v h. h)

tick_marks_deadlocks_example :
    (after : Victims) × (tick stuck no_tables stuck no_tables [] ≡ some after)
    × ((is_marked 3 after ≡ false)
        ⊎ (is_marked 3 [] ≡ true) × (is_active stuck 3 ≡ true)
        ⊎ ((cycle : Cycle) × IsDeadlock stuck (wait_for_edges stuck no_tables) 3 cycle))
tick_marks_deadlocks_example = tick_marks_deadlocks stuck no_tables stuck no_tables [] 3
