-- ===== src/Txn/Cycles/Tick.antt =====
-- One round of the deadlock detector, from the graph of waits to the marks: `tick` of
-- crates/pg-txn/src/deadlock.rs. Other transactions act between the two snapshots of the graph, so
-- that the round reads two states.
use ams.Common.{
  ℕ, ◌≡◌, refl, sym, ◌⊎◌, inl, inr, Bool, true, false, Option, none, some, List, [], ◌∷◌, contains,
  contains-set_insert, contains-set_remove, not, arith, leb, ◌==◌, if◌then◌else◌, Bool-cases,
}
use ams.Txn.Victims
use ams.Txn.Victims.{Victims}
use ams.Txn.Lock.{LockManager}
use ams.Txn.Manager.{TxnManager, is_active}
use ams.Txn.Deadlock.{
  Edges, Cycle, IsDeadlock, Some, wait_for_edges, youngest, still_there, mark_cycle, mark_victims,
  mark_victims_lem, prune,
}
use ams.Txn.Cycles.{sources, find_cycles}
use ams.Txn.Cycles.Work.{find_cycles_sound}
use ams.Txn.Cycles.Found.{find_cycles_complete, still_there-source}

abbrev pub is_empty {ℓ} : {A : Type ℓ} → List A → Bool
is_empty [] = true
is_empty (x ∷ xs) = false

-- Without a value the round would not return.
unfoldable pub tick : TxnManager → LockManager → TxnManager → LockManager → Victims → Option Victims
tick txn lock_manager txn' lock_manager' victims =
    let kept = prune txn victims victims in
    let edges = wait_for_edges txn lock_manager in
    if is_empty edges then some kept else elim (find_cycles edges) [
      | none ↦ none
      | some cycles ↦
          if is_empty cycles
          then some kept
          else some (mark_victims txn' (wait_for_edges txn' lock_manager') cycles kept)
    ]

youngest_on : (x : ℕ) (xs : List ℕ) → contains (youngest x xs) (x ∷ xs) ≡ true
unfolding youngest
youngest_on x [] = ground arith
youngest_on x (y ∷ ys) = ground (arith, youngest_on (if leb x y then y else x) ys)

on_cycle-source :
    (first cur : ℕ) (ys : List ℕ) (v : ℕ) (edges : Edges)
    → still_there first cur ys edges ≡ true
    → contains v (cur ∷ ys) ≡ true
    → contains v (sources edges) ≡ true
unfolding still_there
on_cycle-source first cur [] v edges h on =
    let same : cur ≡ v = ground (arith, on) in
    rw (sym same) (still_there-source first cur [] edges h)
on_cycle-source first cur (y ∷ ys) v edges h on = elim (Bool-cases (cur == v)) [
  | inl here ↦
      let same : cur ≡ v = ground (arith, here) in
      rw (sym same) (still_there-source first cur (y ∷ ys) edges h)
  | inr other ↦ on_cycle-source first y ys v edges (ground (arith, h)) (ground (arith, other, on))
]

waits : (v : ℕ) (edges : Edges) → contains v (sources edges) ≡ true → is_empty edges ≡ false
unfolding sources
waits v [] h = cc
waits v (e ∷ edges) h = refl

mark_cycle_marks :
    (txn : TxnManager) (fresh : Edges) (x : ℕ) (xs : List ℕ) (victims : Victims)
    → is_active txn (youngest x xs) ≡ true
    → still_there x x xs fresh ≡ true
    → Victims.is_marked (youngest x xs) (mark_cycle txn fresh (x, xs) victims) ≡ true
unfolding mark_cycle Victims.is_marked Victims.mark
mark_cycle_marks txn fresh x xs victims running closed =
    ground (arith, contains-set_insert (youngest x xs) (youngest x xs) victims)

mark_cycle_keeps :
    (txn : TxnManager) (fresh : Edges) (c : Cycle) (victims : Victims) (v : ℕ)
    → Victims.is_marked v victims ≡ true
    → Victims.is_marked v (mark_cycle txn fresh c victims) ≡ true
unfolding mark_cycle Victims.is_marked Victims.mark
mark_cycle_keeps txn fresh (x, xs) victims v h =
    ground (arith, h, contains-set_insert (youngest x xs) v victims)

mark_victims_keeps :
    (txn : TxnManager) (fresh : Edges) (cs : List Cycle) (victims : Victims) (v : ℕ)
    → Victims.is_marked v victims ≡ true
    → Victims.is_marked v (mark_victims txn fresh cs victims) ≡ true
unfolding mark_victims
mark_victims_keeps txn fresh [] victims v h = h
mark_victims_keeps txn fresh (c ∷ cs) victims v h =
    mark_victims_keeps txn fresh cs (mark_cycle txn fresh c victims) v
      (mark_cycle_keeps txn fresh c victims v h)

-- A deadlock is broken: if transactions wait for each other in a cycle, all that wait are active and
-- nothing changes during the round, then after it the youngest transaction of a cycle is marked.
pub tick_breaks-IsDeadlock :
    (txn : TxnManager) (lock_manager : LockManager) (victims : Victims) (first : ℕ)
    (others : List ℕ)
    → still_there first first others (wait_for_edges txn lock_manager) ≡ true
    → ((v : ℕ)
        → contains v (sources (wait_for_edges txn lock_manager)) ≡ true
        → is_active txn v ≡ true)
    → (after : Victims) × (victim : ℕ) × (cycle : Cycle) × (tick txn lock_manager txn lock_manager
          victims
        ≡ some after)
      × (Victims.is_marked victim after ≡ true)
      × IsDeadlock txn (wait_for_edges txn lock_manager) victim cycle
unfolding tick mark_victims
tick_breaks-IsDeadlock txn lock_manager victims first others closed running =
    let edges = wait_for_edges txn lock_manager in
    let kept = prune txn victims victims in
    let (c, cs, found) = find_cycles_complete edges first others closed in
    let (cycles, same, sound) = find_cycles_sound edges in
    let listed : cycles ≡ c ∷ cs = ground (arith, found, same) in
    let closes : still_there c.0 c.0 c.1 edges ≡ true = (rw listed at sound).0 in
    let victim = youngest c.0 c.1 in
    let active : is_active txn victim ≡ true =
      running victim (on_cycle-source c.0 c.0 c.1 victim edges closes (youngest_on c.0 c.1)) in
    let some_wait : is_empty edges ≡ false =
      waits first edges (still_there-source first first others edges closed) in
    (
      mark_victims txn edges (c ∷ cs) kept,
      victim,
      c,
      rw (tick, some_wait, found) refl,
      mark_victims_keeps txn edges cs (mark_cycle txn edges c kept) victim
          (mark_cycle_marks txn edges c.0 c.1 kept active closes),
      record { chosen = refl; running = active; closed = closes },
    )

prune_keeps :
    (txn : TxnManager) (marked : List ℕ) (victims : Victims) (v : ℕ)
    → Victims.is_marked v (prune txn marked victims) ≡ true
    → (Victims.is_marked v victims ≡ true)
      × ((contains v marked ≡ false) ⊎ (is_active txn v ≡ true))
unfolding prune Victims.is_marked Victims.clear
prune_keeps txn [] victims v h = (h, inl refl)
prune_keeps txn (x ∷ marked) victims v h =
    let rest =
      prune_keeps txn marked (if not (is_active txn x) then Victims.clear x victims else victims) v
        h in
    elim (Bool-cases (is_active txn x)) [
      | inl active ↦ ground (arith, rest, active)
      | inr ended ↦ ground (arith, rest, ended, contains-set_remove x v victims)
    ]

still_marked :
    (txn : TxnManager) (victims : Victims) (v : ℕ)
    → Victims.is_marked v (prune txn victims victims) ≡ true
    → (Victims.is_marked v victims ≡ true) × (is_active txn v ≡ true)
unfolding Victims.is_marked
still_marked txn victims v h =
    let (was, active) = prune_keeps txn victims victims v h in ground (arith, was, active)

Some-cycle :
    (txn : TxnManager) (fresh : Edges) (v : ℕ) (cycles : List Cycle)
    → Some (IsDeadlock txn fresh v) cycles
    → (cycle : Cycle) × IsDeadlock txn fresh v cycle
Some-cycle txn fresh v [] h = absurd h
Some-cycle txn fresh v (c ∷ cs) (inl d) = (c, d)
Some-cycle txn fresh v (c ∷ cs) (inr later) = Some-cycle txn fresh v cs later

-- A round always returns, and a transaction that is marked after it was marked before and active at
-- its start, or it is active at its end and the youngest of a cycle of the fresh graph.
pub tick_marks_deadlocks :
    (txn : TxnManager) (lock_manager : LockManager) (txn' : TxnManager)
    (lock_manager' : LockManager) (victims : Victims) (v : ℕ)
    → (after : Victims) × (tick txn lock_manager txn' lock_manager' victims ≡ some after)
      × ((Victims.is_marked v after ≡ false)
          ⊎ (Victims.is_marked v victims ≡ true) × (is_active txn v ≡ true)
          ⊎ ((cycle : Cycle) × IsDeadlock txn' (wait_for_edges txn' lock_manager') v cycle))
unfolding tick
tick_marks_deadlocks txn lock_manager txn' lock_manager' victims v =
    let edges = wait_for_edges txn lock_manager in
    let fresh = wait_for_edges txn' lock_manager' in
    let kept = prune txn victims victims in
    let (cycles, found, _) = find_cycles_sound edges in
    elim (Bool-cases (is_empty edges)) [
      | inl idle ↦ (kept, rw (tick, idle) refl, outcome kept (λ h. inl h))
      | inr busy ↦ elim (Bool-cases (is_empty cycles)) [
        | inl free ↦ (kept, rw (tick, busy, found, free) refl, outcome kept (λ h. inl h))
        | inr dead ↦ (
          mark_victims txn' fresh cycles kept,
          rw (tick, busy, found, dead) refl,
          outcome (mark_victims txn' fresh cycles kept)
              (λ h. mark_victims_lem txn' fresh cycles kept v h),
        )
      ]
    ]
  where
    outcome :
        (after : Victims)
        → (Victims.is_marked v after ≡ true
            → (Victims.is_marked v (prune txn victims victims) ≡ true)
              ⊎ Some
                  (IsDeadlock txn' (wait_for_edges txn' lock_manager') v)
                  (find_cycles_sound (wait_for_edges txn lock_manager)).0)
        → (Victims.is_marked v after ≡ false)
          ⊎ (Victims.is_marked v victims ≡ true) × (is_active txn v ≡ true)
          ⊎ ((cycle : Cycle) × IsDeadlock txn' (wait_for_edges txn' lock_manager') v cycle)
    outcome after why = elim (Bool-cases (Victims.is_marked v after)) [
      | inr e ↦ inl e
      | inl e ↦ elim (why e) [
        | inr dead ↦ inr (
            inr (
              Some-cycle txn' (wait_for_edges txn' lock_manager') v
                (find_cycles_sound (wait_for_edges txn lock_manager)).0 dead))
        | inl before ↦ inr (inl (still_marked txn victims v before))
      ]
    ]
