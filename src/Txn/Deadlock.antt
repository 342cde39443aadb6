-- ===== src/Txn/Deadlock.antt =====
-- The deadlock detector: crates/pg-txn/src/deadlock.rs. The graph of waits, and the choice of victims
-- among the cycles that were found. The lists of edges that the source sorts and rids of repetitions
-- are used as sets, and stay in the order of the maps.
use ams.Common.{
  ℕ, ◌≡◌, ◌⊎◌, inl, inr, Bool, true, false, ◌&&◌, ◌||◌, not, List, [], ◌∷◌, ◌++◌, arith, leb, ◌==◌,
  if◌then◌else◌, contains, contains-set_insert, Bool-cases,
}
use ams.Common.Map.{Map}
use ams.Txn.Victims
use ams.Txn.Victims.{Victims}
use ams.Txn.Lock.{LockMode, LockManager, conflicts_with}
use ams.Txn.Lock.Observe.{TableLockState, table_lock_states}
use ams.Txn.Manager.{TxnManager, is_active}

abbrev pub Edges : Type 0
Edges = List (ℕ × ℕ)

-- `TxnManager::wait_edges`
unfoldable pub wait_edges : TxnManager → Edges
wait_edges m = m.row_wait_registry

-- The conflicting holders that one waiter waits for.
unfoldable pub holder_edges : ℕ → LockMode → Map LockMode → Edges
holder_edges waiter waiter_mode [] = []
holder_edges waiter waiter_mode ((holder, holder_mode) ∷ granted) =
    let others = holder_edges waiter waiter_mode granted in
    if not (holder == waiter) && conflicts_with holder_mode waiter_mode
    then (waiter, holder) ∷ others
    else others

unfoldable pub waiter_edges : Map LockMode → Map LockMode → Edges
waiter_edges [] granted = []
waiter_edges ((waiter, waiter_mode) ∷ waiters) granted =
    holder_edges waiter waiter_mode granted ++ waiter_edges waiters granted

unfoldable pub table_edges : Map TableLockState → Edges
table_edges [] = []
table_edges ((table, state) ∷ states) =
    waiter_edges state.waiters state.granted ++ table_edges states

unfoldable pub wait_for_edges : TxnManager → LockManager → Edges
wait_for_edges txn lock_manager = wait_edges txn ++ table_edges (table_lock_states lock_manager)

unfoldable pub has_edge : ℕ → ℕ → Edges → Bool
has_edge from to [] = false
has_edge from to ((a, b) ∷ edges) = (a == from && b == to) || has_edge from to edges

-- A cycle is not empty: its first transaction and the others.
abbrev pub Cycle : Type 0
Cycle = ℕ × List ℕ

-- `cycle.iter().max()`
unfoldable pub youngest : ℕ → List ℕ → ℕ
youngest x [] = x
youngest x (y ∷ ys) = youngest (if leb x y then y else x) ys

-- Every edge from `cur` along the others and back to the first is in the fresh graph.
unfoldable pub still_there : ℕ → ℕ → List ℕ → Edges → Bool
still_there first cur [] fresh = has_edge cur first fresh
still_there first cur (y ∷ ys) fresh = has_edge cur y fresh && still_there first y ys fresh

-- One turn of the loop of `mark_victims`.
unfoldable pub mark_cycle : TxnManager → Edges → Cycle → Victims → Victims
mark_cycle txn fresh (x, xs) victims =
    let victim = youngest x xs in
    if Victims.is_marked victim victims
    then victims
    else if not (is_active txn victim)
    then victims
    else if not (still_there x x xs fresh)
    then victims
    else Victims.mark victim victims

unfoldable pub mark_victims : TxnManager → Edges → List Cycle → Victims → Victims
mark_victims txn fresh [] victims = victims
mark_victims txn fresh (cycle ∷ cycles) victims =
    mark_victims txn fresh cycles (mark_cycle txn fresh cycle victims)

-- The first loop of `tick`: marks of transactions that ended are dropped.
unfoldable pub prune : TxnManager → List ℕ → Victims → Victims
prune txn [] victims = victims
prune txn (xid ∷ marked) victims =
    prune txn marked (if not (is_active txn xid) then Victims.clear xid victims else victims)

-- A cycle whose youngest member is active, and whose edges are all in the fresh graph.
pub record IsDeadlock (txn : TxnManager) (fresh : Edges) (victim : ℕ) (cycle : Cycle) : Type 0 where
  pub chosen : youngest cycle.0 cycle.1 ≡ victim
  pub running : is_active txn victim ≡ true
  pub closed : still_there cycle.0 cycle.0 cycle.1 fresh ≡ true

-- One of the cycles satisfies a predicate.
abbrev pub Some : (Cycle → Type 0) → List Cycle → Type 0
Some P [] = ⊥
Some P (c ∷ cs) = P c ⊎ Some P cs

mark_cycle_lem :
    (txn : TxnManager) (fresh : Edges) (cycle : Cycle) (victims : Victims) (victim : ℕ)
    → Victims.is_marked victim (mark_cycle txn fresh cycle victims) ≡ true
    → (Victims.is_marked victim victims ≡ true) ⊎ IsDeadlock txn fresh victim cycle
unfolding mark_cycle Victims.is_marked Victims.mark
mark_cycle_lem txn fresh (x, xs) victims victim h = elim (Bool-cases (contains victim victims)) [
  | inl e ↦ inl e
  | inr e ↦ inr (record {
    chosen = ground (arith, contains-set_insert (youngest x xs) victim victims);
    running = ground (arith, contains-set_insert (youngest x xs) victim victims);
    closed = ground (arith, contains-set_insert (youngest x xs) victim victims);
  })
]

-- A transaction that is marked after `mark_victims` was marked before, or it is active and the
-- youngest of one of the cycles, all of whose edges are still in the fresh graph.
pub mark_victims_lem :
    (txn : TxnManager) (fresh : Edges) (cycles : List Cycle) (victims : Victims) (victim : ℕ)
    → Victims.is_marked victim (mark_victims txn fresh cycles victims) ≡ true
    → (Victims.is_marked victim victims ≡ true) ⊎ Some (IsDeadlock txn fresh victim) cycles
unfolding mark_victims
mark_victims_lem txn fresh [] victims victim h = inl h
mark_victims_lem txn fresh (c ∷ cs) victims victim h =
    elim (mark_victims_lem txn fresh cs (mark_cycle txn fresh c victims) victim h) [
      | inr later ↦ inr (inr later)
      | inl now ↦ elim (mark_cycle_lem txn fresh c victims victim now) [
        | inl before ↦ inl before
        | inr d ↦ inr (inl d)
      ]
    ]
