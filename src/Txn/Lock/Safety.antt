-- ===== src/Txn/Lock/Safety.antt =====
-- What the table lock manager promises to every transaction, in every reachable state.
use ams.Common.{
  ℕ, ◌≤◌, ◌<◌, contains, contains-set_remove, ◌≡◌, ◌≢◌, refl, ◌⊎◌, true, false, Option, none, some,
  List, [], ◌∷◌, arith, inl, inr, Bool-cases, Option-cases, ==-refl,
}
use ams.Common.Map.{Map, lookup, insert, lookup-insert}
use ams.Txn.Victims
use ams.Txn.Lock.{
  LockMode, strength, Waiter, conflicts_with, LockEntry, LockManager, entry_of, holds_at_least,
  is_behind, can_grant, grant, is_unused, granted_now, deadlock_victim, must_wait, acquire_round,
  try_acquire, is_granted,
}
use ams.Txn.Lock.Queue.{Request, request_of}
use ams.Txn.Lock.Entry.{HeadWaits-blocker}
use ams.Txn.Lock.Modes.{strengthen-holds}
use ams.Txn.Lock.Settled.{IsSettled}
use ams.Txn.Lock.Enqueue.{
  StartsWith, behind_another, holds_less, enqueue_keeps_granted, enqueue_keeps_head, queued_or,
  request_of-enqueue_if_absent, request_of-enqueue_other,
}
use ams.Txn.Lock.System.{System, Reach, start}
use ams.Txn.Lock.Modes.{conflicts_with_mono, conflicts_with_comm}
use ams.Txn.Lock.Sound.{entry_of_lem}
use ams.Txn.Lock.Steps.{Reach-IsSound}

holds_mode :
    (o : Option LockMode) (m : LockMode)
    → holds_at_least o m ≡ true
    → (h : LockMode) × (o ≡ some h) × (strength m ≤ strength h)
unfolding holds_at_least
holds_mode none m h = cc
holds_mode (some a) m h = (a, refl, ground arith)

pub is_granted_lem :
    (m : LockManager) (x table : ℕ) (a : LockMode)
    → is_granted m x table a ≡ holds_at_least (lookup x (entry_of m table).granted) a
unfolding is_granted entry_of holds_at_least
is_granted_lem m x table a = ground arith

is_granted_holder :
    (m : LockManager) (x table : ℕ) (a : LockMode)
    → is_granted m x table a ≡ true
    → (h : LockMode) × (lookup x (entry_of m table).granted ≡ some h) × (strength a ≤ strength h)
unfolding is_granted entry_of
is_granted_holder m x table a h = holds_mode _ a (rw is_granted_lem at h)

-- In every reachable state, modes that two transactions hold on one table do not conflict.
pub mutual_exclusion :
    {s : System} (r : Reach start s) (table x y : ℕ) (a b : LockMode)
    → x ≢ y
    → is_granted s.manager x table a ≡ true
    → is_granted s.manager y table b ≡ true
    → conflicts_with a b ≡ false
mutual_exclusion {s} r table x y a b ne hx hy =
    let (p, px, lex) = is_granted_holder s.manager x table a hx in
    let (q, qy, ley) = is_granted_holder s.manager y table b hy in
    let settled : IsSettled s.calls table (entry_of s.manager table) =
      rw entry_of_lem ((Reach-IsSound r).tables table) in
    ground (
      arith,
      settled.compatible.pairs x y p q ne px qy,
      conflicts_with_mono a p b lex,
      conflicts_with_mono b q p ley,
      conflicts_with_comm p b,
      conflicts_with_comm p q,
    )

-- The head of the queue, and a holder that blocks it.
pub record IsBlocked (e : LockEntry) : Type 0 where
  pub head : Waiter
  pub rest : List Waiter
  pub holder : ℕ
  pub held : LockMode
  pub queue : e.wait_queue ≡ head ∷ rest
  pub other : holder ≢ head.xid
  pub holds : lookup holder e.granted ≡ some held
  pub conflict : conflicts_with held head.mode ≡ true

waiting_head :
    (calls : Map Request) (table x : ℕ) (m : LockMode) (g : Map LockMode) (q : List Waiter)
    → IsSettled calls table (record { granted = g; wait_queue = q })
    → request_of q x ≡ some m
    → IsBlocked (record { granted = g; wait_queue = q })
waiting_head calls table x m g [] h p = cc
waiting_head calls table x m g (head ∷ rest) h p =
    let (holder, held, ne, found, bad) = HeadWaits-blocker g head rest h.compatible.keys h.waits in
    record {
      head = head;
      rest = rest;
      holder = holder;
      held = held;
      queue = refl;
      other = ne;
      holds = found;
      conflict = bad;
    }

-- In every reachable state, a call of `acquire` that sleeps either is granted when it wakes, or
-- the head of its table's queue is blocked by a conflicting lock of another transaction.
pub no_lost_wakeup :
    {s : System} (r : Reach start s) (x table : ℕ) (m : LockMode)
    → lookup x s.calls ≡ some (table, m)
    → (can_grant (entry_of s.manager table) x m ≡ true) ⊎ IsBlocked (entry_of s.manager table)
unfolding can_grant
no_lost_wakeup {s} r x table m asleep =
    let settled : IsSettled s.calls table (entry_of s.manager table) =
      rw entry_of_lem ((Reach-IsSound r).tables table) in
    elim (settled.pending.served x m asleep) [
      | inl queued ↦ inr (waiting_head s.calls table x m _ _ settled queued)
      | inr held ↦ inl (rw held)
    ]

grant_holds :
    (e : LockEntry) (x : ℕ) (m : LockMode)
    → holds_at_least (lookup x (grant e x m).granted) m ≡ true
unfolding grant
grant_holds e x m = rw (lookup-insert, ==-refl) (strengthen-holds _ m)

pub lookup-insert_self :
    (t : ℕ) (e : LockEntry) (entries : Map LockEntry) → lookup t (insert t e entries) ≡ some e
lookup-insert_self t e entries = rw (lookup-insert, ==-refl)

-- Let the queue of a table begin with the request of another transaction, and let `x` hold no mode
-- of the table that is as strong as the one it asks for. Then it is not granted, even a mode that
-- conflicts with nothing: a round of `acquire` sleeps, with the locks of the table as they were and
-- the same request at the head, or it fails as a marked victim; `try_acquire` answers false and
-- changes nothing.
pub no_barging :
    (m : LockManager) (x table : ℕ) (mode : LockMode) (head : Waiter) (rest : List Waiter)
    → (entry_of m table).wait_queue ≡ head ∷ rest
    → head.xid ≢ x
    → ((held : LockMode)
        → lookup x (entry_of m table).granted ≡ some held
        → strength held < strength mode)
    → let (outcome, m') = acquire_round m x table mode in
      (((outcome ≡ must_wait)
          × ((entry_of m' table).granted ≡ (entry_of m table).granted)
          × StartsWith head (entry_of m' table).wait_queue)
        ⊎ ((outcome ≡ deadlock_victim) × (Victims.is_marked x m.victims ≡ true)))
      × (try_acquire m x table mode ≡ (false, m))
unfolding acquire_round try_acquire Victims.take Victims.is_marked
no_barging m x table mode head rest queue ne less = (round, stays)
  where
    new : holds_at_least (lookup x (entry_of m table).granted) mode ≡ false
    new = holds_less (lookup x (entry_of m table).granted) mode less

    behind : is_behind (entry_of m table).wait_queue x ≡ true
    behind = behind_another (entry_of m table).wait_queue rest head x queue ne

    nobody : is_behind [] x ≡ false
    nobody = unfold is_behind in refl

    refused : can_grant (entry_of m table) x mode ≡ false
    refused = unfold can_grant in rw (new, behind)

    round :
        let (outcome, m') = acquire_round m x table mode in
        ((outcome ≡ must_wait)
          × ((entry_of m' table).granted ≡ (entry_of m table).granted)
          × StartsWith head (entry_of m' table).wait_queue)
        ⊎ ((outcome ≡ deadlock_victim) × (Victims.is_marked x m.victims ≡ true))
    round = elim (Bool-cases (contains x m.victims)) [
      | inl chosen ↦ rw chosen (inr (refl, refl))
      | inr spared ↦
          rw (spared, refused)
            (inl (
              refl,
              rw (entry_of_lem, lookup-insert_self)
                  (enqueue_keeps_granted (entry_of m table) x mode),
              rw (entry_of_lem, lookup-insert_self)
                  (enqueue_keeps_head (entry_of m table) x mode head rest queue),
            ))
    ]

    stays : try_acquire m x table mode ≡ (false, m)
    stays = elim (Option-cases (lookup table m.entries)) [
      | inl missing ↦ cc (nobody, rw (entry_of_lem, missing) at behind)
      | inr (e, found) ↦ rw (found, rw (entry_of_lem, found) at refused)
    ]

-- A round of `acquire` ends in one of three ways. It returns with the lock, which is then held at
-- the mode asked or stronger. It sleeps, since the mode cannot be granted, and is queued for the mode
-- asked, or still for the one that it had queued for before; the request of each other transaction is
-- as it was. Or it fails, because its transaction was chosen as a deadlock victim, and the choice is
-- used up.
pub acquire_outcome :
    (m : LockManager) (x y table : ℕ) (mode : LockMode)
    → x ≢ y
    → let (outcome, m') = acquire_round m x table mode in
      let before = (entry_of m table).wait_queue in
      let after = (entry_of m' table).wait_queue in
      ((outcome ≡ granted_now) × (is_granted m' x table mode ≡ true))
      ⊎ (((outcome ≡ must_wait)
            × (request_of after x ≡ some (queued_or (request_of before x) mode))
            × (request_of after y ≡ request_of before y)
            × (can_grant (entry_of m table) x mode ≡ false))
          ⊎ ((outcome ≡ deadlock_victim)
              × (Victims.is_marked x m.victims ≡ true)
              × (Victims.is_marked x m'.victims ≡ false)))
unfolding acquire_round Victims.take Victims.is_marked
acquire_outcome m x y table mode ne = elim (Bool-cases (contains x m.victims)) [
  | inl chosen ↦ rw chosen (inr (inr (refl, refl, rw (contains-set_remove, ==-refl) refl)))
  | inr spared ↦ elim (Bool-cases (can_grant (entry_of m table) x mode)) [
    | inl ok ↦
        rw (spared, ok)
          (inl (refl, rw (is_granted_lem, entry_of_lem, lookup-insert_self) (grant_holds _ x mode)))
    | inr wait ↦
        rw (spared, wait)
          (inr (
            inl (
              refl,
              rw (entry_of_lem, lookup-insert_self) (request_of-enqueue_if_absent _ x mode),
              rw (entry_of_lem, lookup-insert_self) (request_of-enqueue_other _ x y mode ne),
              refl,
            )))
  ]
]

-- In every reachable state, no table keeps an entry that nobody holds and nobody waits for.
pub no_leaked_entry :
    {s : System} (r : Reach start s) (table : ℕ) (e : LockEntry)
    → lookup table s.manager.entries ≡ some e
    → is_unused e ≡ false
no_leaked_entry r table e found = (Reach-IsSound r).used table e found
