-- ===== src/Txn/Manager/Invariant.antt =====
-- What holds of the manager in every interleaving: the ids in use are below the clock, a snapshot
-- knows every older transaction that still runs, and the registry counts the live snapshots.
use ams.Common.{
  ℕ, suc, ◌+◌, ◌-◌, ◌%◌, ◌^◌, ◌≤◌, ◌<◌, ◌≡◌, true, Option, none, some, List, [], ◌∷◌, ◌++◌, ◌==◌,
  if◌then◌else◌, contains, arith, set_insert, set_remove, contains-set_insert, contains-set_remove,
  All, inl, inr, Option-cases, length,
}
use ams.Common.Map.{Map, lookup, lookup-insert, lookup-remove}
use ams.Common.Sort.{
  sort, first, contains-sort, first-sort_le, contains-first-sort, not-contains-first-sort,
}
use ams.Txn.Visibility.{Snapshot}
use ams.Txn.Manager.{
  TxnManager, begin_txn, end_txn_state, end_txn_leave, unwrap_or, register, unregister, snapshot,
  drop_guard, wait_for_round,
}
use ams.Txn.Manager.Schedule.{Schedule, take_snapshot, Step, begin, flip, leave, take, drop, wait}

-- A snapshot against the present: what runs now and is older than the snapshot ran then.
pub record IsCurrent (clock : ℕ) (active : List ℕ) (snap : Snapshot) : Type 0 where
  pub begun : snap.xmax ≤ clock
  pub ordered : snap.xmin ≤ snap.xmax
  pub lowest : (x : ℕ) → contains x snap.xip ≡ true → snap.xmin ≤ x
  pub knows : (x : ℕ) → contains x active ≡ true → x < snap.xmax → contains x snap.xip ≡ true

-- How many live snapshots have an `xmin`.
abbrev pub count : ℕ → List Snapshot → ℕ
count k [] = 0
count k (s ∷ ss) = if s.xmin == k then suc (count k ss) else count k ss

abbrev pub as_entry : ℕ → Option ℕ
as_entry n = if n == 0 then none else some n

pub record IsSound (s : Schedule) : Type 0 where
  pub allocated : (x : ℕ) → contains x s.manager.active ≡ true → x < s.manager.next
  pub current : All (IsCurrent s.manager.next s.manager.active) s.live
  pub registered : (k : ℕ) → lookup k s.manager.snapshot_xmins ≡ as_entry (count k s.live)
  pub counted : s.manager.live_snapshots ≡ length s.live

-- A snapshot stays current while transactions begin with fresh ids and leave.
grow-IsCurrent :
    (clock : ℕ) (active : List ℕ) (snap : Snapshot)
    → IsCurrent clock active snap
    → IsCurrent (clock + 1) (set_insert clock active) snap
grow-IsCurrent clock active snap h = record {
  begun = omega arith;
  ordered = h.ordered;
  lowest = h.lowest;
  knows = λ x a lt. ground (arith, contains-set_insert clock x active, h.knows x, h.begun);
}

leave-IsCurrent :
    (clock xid : ℕ) (active : List ℕ) (snap : Snapshot)
    → IsCurrent clock active snap
    → IsCurrent clock (set_remove xid active) snap
leave-IsCurrent clock xid active snap h = record {
  begun = h.begun;
  ordered = h.ordered;
  lowest = h.lowest;
  knows = λ x a lt. ground (arith, contains-set_remove xid x active, h.knows x);
}

pub All-map {ℓ κ} :
    {A : Type ℓ} {P Q : A → Type κ} (f : (a : A) → P a → Q a) (xs : List A) → All P xs → All Q xs
All-map f [] h = tt
All-map f (x ∷ xs) h = (f x h.0, All-map f xs h.1)

-- A snapshot that is taken now is current.
module _ (m : TxnManager) (xid : ℕ)
    (allocated : (x : ℕ) → contains x m.active ≡ true → x < m.next) where
  pub snapshot-IsCurrent : IsCurrent m.next m.active (snapshot xid m).0
  unfolding snapshot unwrap_or
  snapshot-IsCurrent = elim (Option-cases (first (sort m.active))) [
    | inl empty ↦ record {
      begun = omega arith;
      ordered = rw empty (omega arith);
      lowest = λ x a.
          ground
            (arith, empty, a, not-contains-first-sort m.active x empty, contains-sort x m.active);
      knows = λ x a lt. rw contains-sort a;
    }
    | inr (k, e) ↦ record {
      begun = omega arith;
      ordered = rw e (omega (arith, allocated k (contains-first-sort m.active k e)));
      lowest = λ x a. rw e (first-sort_le m.active k x e (rw contains-sort at a));
      knows = λ x a lt. rw contains-sort a;
    }
  ]

-- A round of a wait changes nothing that snapshots depend on.
pub wait_keeps :
    (self_xid blocking_xid : ℕ) (m : TxnManager)
    → let m' = (wait_for_round self_xid blocking_xid m).1 in
      (m'.next ≡ m.next)
      × (m'.active ≡ m.active)
      × (m'.clog ≡ m.clog)
      × (m'.snapshot_xmins ≡ m.snapshot_xmins)
      × (m'.live_snapshots ≡ m.live_snapshots)
unfolding wait_for_round
wait_keeps self_xid blocking_xid m = ground arith

pub next_lem : (n : ℕ) → n + 1 < 2 ^ 64 → (n + 1) % 2 ^ 64 ≡ n + 1
next_lem n h = omega arith

-- Every step keeps a snapshot current, whether its guard lives or not.
pub Step-IsCurrent :
    {s t : Schedule} (snap : Snapshot)
    → Step s t
    → IsCurrent s.manager.next s.manager.active snap
    → IsCurrent t.manager.next t.manager.active snap
unfolding begin_txn end_txn_state end_txn_leave take_snapshot snapshot drop_guard wait_for_round
Step-IsCurrent {s} snap (begin small) h =
    rw (next_lem s.manager.next small) (grow-IsCurrent s.manager.next s.manager.active snap h)
Step-IsCurrent snap (flip xid state a) h = h
Step-IsCurrent {s} snap (leave xid a) h = leave-IsCurrent s.manager.next xid s.manager.active snap h
Step-IsCurrent snap (take xid) h = h
Step-IsCurrent snap (drop before after gone e) h = h
Step-IsCurrent {s} snap (wait self_xid blocking_xid) h =
    let w = wait_keeps self_xid blocking_xid s.manager in rw (w.0, w.1) h

-- The registry's count of an `xmin` when a snapshot is registered, and when one is dropped.
pub register_lem :
    (k xmin : ℕ) (xmins : Map ℕ) (live : List Snapshot) (snap : Snapshot)
    → snap.xmin ≡ xmin
    → ((j : ℕ) → lookup j xmins ≡ as_entry (count j live))
    → lookup k (register xmin xmins) ≡ as_entry (count k (snap ∷ live))
unfolding register unwrap_or
register_lem k xmin xmins live snap e h =
    ground (arith, lookup-insert xmin k (unwrap_or (lookup xmin xmins) 0 + 1) xmins, h k, h xmin)

pub count-append :
    (k : ℕ) (before after : List Snapshot)
    → count k (before ++ after) ≡ count k before + count k after
count-append k [] after = omega arith
count-append k (x ∷ before) after = ground (arith, count-append k before after)

pub unregister_lem :
    (k xmin : ℕ) (xmins : Map ℕ) (n : ℕ → ℕ)
    → ((j : ℕ) → lookup j xmins ≡ as_entry (if xmin == j then suc (n j) else n j))
    → lookup k (unregister xmin xmins) ≡ as_entry (n k)
unfolding unregister
unregister_lem k xmin xmins n h = elim (Option-cases (lookup xmin xmins)) [
  | inl e ↦ ground (arith, e, h xmin)
  | inr (c, e) ↦
      ground (arith, e, h xmin, h k, lookup-insert xmin k (c - 1) xmins, lookup-remove xmin k xmins)
]
