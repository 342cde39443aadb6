-- ===== src/Txn/Lock/Release.antt =====
-- Two-phase locking: a lock is held until its own transaction releases all that it has.
use ams.Common.{
  ℕ, contains, ◌≡◌, ◌≢◌, refl, ap, ◌⊎◌, true, false, Option, none, some, arith, ◌==◌, inl, inr,
  Bool-cases, Option-cases, ==→eq, ==-refl,
}
use ams.Common.Map.{Map, lookup, insert, remove, lookup-insert, lookup-remove, HasKeysOnce}
use ams.Txn.Victims
use ams.Txn.Lock.{
  LockMode, LockEntry, LockManager, empty_entry, entry_of, holds_at_least, can_grant, grant,
  strengthen, drop_waiter, regrant_heads, is_unused, interrupt_entry, interrupt, acquire_round,
  try_acquire, is_granted, release_entry, release_all,
}
use ams.Txn.Lock.Queue.{request_of, request_of-drop}
use ams.Txn.Lock.Entry.{regrant_heads_induction, grant_head}
use ams.Txn.Lock.Grants.{granted-enqueue}
use ams.Txn.Lock.System.{System, after_round, Step, acquire, try, release, mark, Reach, start}
use ams.Txn.Lock.Sound.{entry_at, entry_of_lem, released, lookup-release_entries, unused-empty}
use ams.Txn.Lock.Steps.{Reach-IsSound}
use ams.Txn.Lock.Safety.{is_granted_lem}

-- What a transaction holds on a table survives the grants to others.
grant-keeps :
    (e : LockEntry) (x y : ℕ) (m a : LockMode)
    → holds_at_least (lookup y e.granted) a ≡ true
    → holds_at_least (lookup y (grant e x m).granted) a ≡ true
unfolding grant holds_at_least strengthen
grant-keeps e x y m a h =
    ground (arith, lookup-insert x y (strengthen (lookup x e.granted) m) e.granted, ==→eq x y)

regrant_heads-keeps :
    (e : LockEntry) (y : ℕ) (a : LockMode)
    → holds_at_least (lookup y e.granted) a ≡ true
    → holds_at_least (lookup y (regrant_heads e).granted) a ≡ true
regrant_heads-keeps e y a =
    regrant_heads_induction (λ e. holds_at_least (lookup y e.granted) a ≡ true)
      (λ g head rest ok h. grant-keeps _ head.xid y head.mode a h) e

abbrev HoldsHere : ℕ → LockMode → LockEntry → Type 0
HoldsHere x a e = holds_at_least (lookup x e.granted) a ≡ true

-- Who neither holds nor asks is granted nothing when the heads are.
module _ (x : ℕ) where
  abbrev IsAway : LockEntry → Type 0
  IsAway e = (lookup x e.granted ≡ none) × (request_of e.wait_queue x ≡ none)

  regrant_heads-IsAway : (e : LockEntry) → IsAway e → IsAway (regrant_heads e)
  regrant_heads-IsAway = regrant_heads_induction IsAway (λ g head rest ok h.
      rw grant_head
        (ground (arith, lookup-insert head.xid x (strengthen (lookup head.xid g) head.mode) g)))

  release_entry-IsAway : (e : LockEntry) → IsAway (release_entry x e)
  unfolding release_entry drop_waiter
  release_entry-IsAway e =
      regrant_heads-IsAway _
        (rw (lookup-remove, ==-refl) refl, rw (request_of-drop x x e.wait_queue, ==-refl) refl)

release_entry-keeps :
    (x y : ℕ) (a : LockMode) (e : LockEntry)
    → x ≢ y
    → HoldsHere y a e
    → HoldsHere y a (release_entry x e)
unfolding release_entry drop_waiter
release_entry-keeps x y a e ne h =
    regrant_heads-keeps _ y a (ground (arith, lookup-remove x y e.granted))

-- What a table holds after its release, whether its entry is kept or not.
away_after : (x : ℕ) (o : Option LockEntry) → lookup x (entry_at (released x o)).granted ≡ none
away_after x none = refl
away_after x (some e) = elim (Bool-cases (is_unused (release_entry x e))) [
  | inl unused ↦ rw unused
  | inr busy ↦ rw busy (release_entry-IsAway x e).0
]

kept_after :
    (x y : ℕ) (a : LockMode) (o : Option LockEntry)
    → x ≢ y
    → HoldsHere y a (entry_at o)
    → HoldsHere y a (entry_at (released x o))
kept_after x y a none ne h = h
kept_after x y a (some e) ne h = elim (Bool-cases (is_unused (release_entry x e))) [
  | inl unused ↦ rw unused (rw (unused-empty _ unused) at (release_entry-keeps x y a e ne h))
  | inr busy ↦ rw busy (release_entry-keeps x y a e ne h)
]

released_entry :
    (m : LockManager) (x table : ℕ)
    → HasKeysOnce m.entries
    → entry_of (release_all m x) table ≡ entry_at (released x (lookup table m.entries))
unfolding release_all
released_entry m x table u = rw (entry_of_lem, lookup-release_entries x table m.entries u)

-- In a reachable state: after `release_all` a transaction holds no lock on any table, in no mode.
pub release_all_lem :
    {s : System} (r : Reach start s) (x table : ℕ) (mode : LockMode)
    → is_granted (release_all s.manager x) x table mode ≡ false
release_all_lem {s} r x table mode =
    rw (is_granted_lem, released_entry s.manager x table (Reach-IsSound r).keys, away_after)
      (unfold holds_at_least in refl)

-- In a reachable state: `release_all` of one transaction takes no lock from another.
pub release_all_keeps_others :
    {s : System} (r : Reach start s) (x y table : ℕ) (mode : LockMode)
    → x ≢ y
    → is_granted s.manager y table mode ≡ true
    → is_granted (release_all s.manager x) y table mode ≡ true
release_all_keeps_others {s} r x y table mode ne h =
    rw (is_granted_lem, released_entry s.manager x table (Reach-IsSound r).keys)
      (kept_after x y mode (lookup table s.manager.entries) ne
        (rw (is_granted_lem, entry_of_lem) at h))

drop_waiter-keeps :
    (x y : ℕ) (a : LockMode) (e : LockEntry) → HoldsHere y a e → HoldsHere y a (interrupt_entry x e)
unfolding interrupt_entry drop_waiter
drop_waiter-keeps x y a e h = regrant_heads-keeps _ y a h

module _ (y : ℕ) (a : LockMode) (table t : ℕ) (entries : Map LockEntry) (e : LockEntry)
    (keep : HoldsHere y a (entry_at (lookup table entries)) → HoldsHere y a e)
    (h : HoldsHere y a (entry_at (lookup t entries))) where
  set-keeps : HoldsHere y a (entry_at (lookup t (insert table e entries)))
  set-keeps = rw lookup-insert (elim (Bool-cases (table == t)) [
    | inl p ↦ rw p (keep (rw (← ==→eq table t p) at h))
    | inr p ↦ rw p h
  ])

  drop-keeps : e ≡ empty_entry → HoldsHere y a (entry_at (lookup t (remove table entries)))
  drop-keeps empty = rw lookup-remove (elim (Bool-cases (table == t)) [
    | inl p ↦ rw p (rw empty at (keep (rw (← ==→eq table t p) at h)))
    | inr p ↦ rw p h
  ])

interrupt-keeps :
    (x y t table : ℕ) (a : LockMode) (entries : Map LockEntry)
    → HoldsHere y a (entry_at (lookup t entries))
    → HoldsHere y a (entry_at (lookup t (interrupt x table entries)))
interrupt-keeps x y t table a entries h = elim (Option-cases (lookup table entries)) [
  | inl missing ↦ unfold interrupt in rw (missing, interrupt) h
  | inr (e, found) ↦
      let keep : HoldsHere y a (entry_at (lookup table entries))
          → HoldsHere y a (interrupt_entry x e) =
        λ k. drop_waiter-keeps x y a e (rw found at k) in
      elim (Bool-cases (is_unused (interrupt_entry x e))) [
        | inl unused ↦
            unfold interrupt in
            rw (found, interrupt, unused)
              (drop-keeps y a table t entries (interrupt_entry x e) keep h (unused-empty _ unused))
        | inr busy ↦
            unfold interrupt in
            rw (found, interrupt, busy) (set-keeps y a table t entries (interrupt_entry x e) keep h)
      ]
]

round-keeps :
    (m : LockManager) (x y t table : ℕ) (mode a : LockMode)
    → HoldsHere y a (entry_of m t)
    → HoldsHere y a (entry_of (acquire_round m x table mode).1 t)
unfolding acquire_round Victims.take
round-keeps m x y t table mode a h = elim (Bool-cases (contains x m.victims)) [
  | inl chosen ↦ rw (chosen, entry_of_lem) (interrupt-keeps x y t table a m.entries here_now)
  | inr spared ↦ elim (Bool-cases (can_grant (entry_of m table) x mode)) [
    | inl ok ↦
        rw (spared, ok, entry_of_lem)
          (set-keeps y a table t m.entries _ (λ k. grant-keeps _ x y mode a (rw entry_of_lem k))
            here_now)
    | inr wait ↦
        rw (spared, wait, entry_of_lem)
          (set-keeps y a table t m.entries _ (λ k. rw granted-enqueue (rw entry_of_lem k)) here_now)
  ]
]
  where
    here_now : HoldsHere y a (entry_at (lookup t m.entries))
    here_now = rw entry_of_lem at h

try-keeps :
    (m : LockManager) (x y t table : ℕ) (mode a : LockMode)
    → HoldsHere y a (entry_of m t)
    → HoldsHere y a (entry_of (try_acquire m x table mode).1 t)
unfolding try_acquire
try-keeps m x y t table mode a h = elim (Option-cases (lookup table m.entries)) [
  | inl missing ↦ rw missing granted_case
  | inr (e, found) ↦ elim (Bool-cases (can_grant e x mode)) [
    | inl ok ↦ rw (found, ok) granted_case
    | inr wait ↦ rw (found, wait) h
  ]
]
  where
    granted_case : HoldsHere y a (
        entry_of
          (record m { entries = insert table (grant (entry_of m table) x mode) m.entries })
          t)
    granted_case = rw entry_of_lem (
        set-keeps y a table t m.entries _ (λ k. grant-keeps _ x y mode a (rw entry_of_lem k))
          (rw entry_of_lem at h))

-- In a reachable state, a step of the system takes no lock from a transaction but by its own `release_all`: not the
-- calls of others, not a mark as a victim, not the interruption of its own call.
pub Step_keeps_locks :
    {s t : System} (st : Step s t) (r : Reach start s) (x table : ℕ) (mode : LockMode)
    → is_granted s.manager x table mode ≡ true
    → (is_granted t.manager x table mode ≡ true) ⊎ (t.manager ≡ release_all s.manager x)
Step_keeps_locks {s} (acquire y other m own) r x table mode h = inl (
    unfold after_round in
    rw is_granted_lem (round-keeps s.manager y x table other m mode (rw is_granted_lem at h)))
Step_keeps_locks {s} (try y other m idle) r x table mode h =
    inl (rw is_granted_lem (try-keeps s.manager y x table other m mode (rw is_granted_lem at h)))
Step_keeps_locks {s} (release y idle) r x table mode h = elim (Bool-cases (y == x)) [
  | inl p ↦ inr (ap (release_all s.manager) (==→eq y x p))
  | inr p ↦ inl (release_all_keeps_others r y x table mode (λ q. ground arith) h)
]
Step_keeps_locks (mark y) r x table mode h = inl (unfold is_granted in h)
