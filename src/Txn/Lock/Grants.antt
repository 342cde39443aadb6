-- ===== src/Txn/Lock/Grants.antt =====
-- The granting and the sleeping branch of `acquire` on one table.
use ams.Common.{
  ℕ, ◌≡◌, refl, sym, ap, true, false, none, some, List, [], ◌∷◌, arith, ◌==◌, inl, inr, Bool-cases,
  Option-cases, ==-refl,
}
use ams.Common.Map.{Map, lookup, insert, remove, lookup-insert, lookup-remove, insert_same}
use ams.Txn.Lock.{
  LockMode, Waiter, LockEntry, holds_at_least, is_behind, can_grant, strengthen, pop_own, grant,
  is_queued, enqueue_if_absent,
}
use ams.Txn.Lock.Modes.{strengthen_held}
use ams.Txn.Lock.Entry.{HeadWaits, grant-IsCompatible}
use ams.Txn.Lock.Queue.{
  Request, IsPending, request_of-append, Once-append, is_queued-request_of,
  not-is_queued-request_of,
}
use ams.Txn.Lock.Settled.{IsSettled, MayAsk}

-- Who may ask and is granted is not at the head of the queue.
not-head :
    (calls : Map Request) (table x : ℕ) (m : LockMode) (g : Map LockMode) (head : Waiter)
    (rest : List Waiter)
    → (let e : LockEntry = record { granted = g; wait_queue = head ∷ rest } in
        MayAsk calls x table m
        → IsSettled calls table e
        → can_grant e x m ≡ true
        → (head.xid == x) ≡ false)
not-head calls table x m g head rest own h ok = ground (arith, h.pending.asked head.xid head.mode)

holds_strengthen :
    (g : Map LockMode) (x : ℕ) (m : LockMode)
    → holds_at_least (lookup x g) m ≡ true
    → insert x (strengthen (lookup x g) m) g ≡ g
holds_strengthen g x m h = elim (Option-cases (lookup x g)) [
  | inl e ↦ cc (rw e at h, holds_none m)
  | inr (a, e) ↦ insert_same x _ g (rw e (ap some (sym (strengthen_held a m (rw e at h)))))
]
  where
    holds_none : (m : LockMode) → holds_at_least none m ≡ false
    holds_none m = unfold holds_at_least in refl

-- Where the gates open beside a queue, the mode is held and nothing changes.
grant_quiet :
    (calls : Map Request) (table x : ℕ) (m : LockMode) (g : Map LockMode) (head : Waiter)
    (rest : List Waiter)
    → (let e : LockEntry = record { granted = g; wait_queue = head ∷ rest } in
        MayAsk calls x table m
        → IsSettled calls table e
        → can_grant e x m ≡ true
        → (grant e x m ≡ e) × (holds_at_least (lookup x g) m ≡ true))
grant_quiet calls table x m g head rest own h ok =
    (unfold grant pop_own in rw (holds_strengthen g x m held, other), held)
  where
    other : (head.xid == x) ≡ false
    other = not-head calls table x m g head rest own h ok

    held : holds_at_least (lookup x g) m ≡ true
    held = unfold can_grant is_behind in ground (arith, other)

-- Waking up with the lock: who holds what it asked for is not queued any more.
awake-IsPending :
    (calls : Map Request) (table x : ℕ) (m : LockMode) (e : LockEntry)
    → MayAsk calls x table m
    → IsPending calls table e
    → holds_at_least (lookup x e.granted) m ≡ true
    → IsPending (remove x calls) table e
awake-IsPending calls table x m e own h held = record {
  once = h.once;
  asked = λ y n p. ground (arith, lookup-remove x y calls, h.asked y n);
  served = λ y n p. ground (arith, lookup-remove x y calls, h.served y n);
}

first_grant-IsPending :
    (calls : Map Request) (table x : ℕ) (m : LockMode) (g : Map LockMode)
    → (let e : LockEntry = record { granted = g; wait_queue = [] } in
        MayAsk calls x table m
        → IsPending calls table e
        → IsPending (remove x calls) table (grant e x m))
unfolding grant pop_own
first_grant-IsPending calls table x m g own h = record {
  once = tt;
  asked = λ y n p. cc;
  served = λ y n p. ground (
    arith,
    lookup-remove x y calls,
    lookup-insert x y (strengthen (lookup x g) m) g,
    h.served y n,
  );
}

grant_settles :
    (calls : Map Request) (table x : ℕ) (m : LockMode) (g : Map LockMode) (q : List Waiter)
    → (let e : LockEntry = record { granted = g; wait_queue = q } in
        MayAsk calls x table m
        → IsSettled calls table e
        → can_grant e x m ≡ true
        → IsSettled (remove x calls) table (grant e x m))
grant_settles calls table x m g [] own h ok = record {
  compatible = grant-IsCompatible _ x m ok h.compatible;
  waits = unfold grant pop_own in tt;
  pending = first_grant-IsPending calls table x m g own h.pending;
}
grant_settles calls table x m g (head ∷ rest) own h ok =
    let (same, held) = grant_quiet calls table x m g head rest own h ok in
    rw same (record {
      compatible = h.compatible;
      waits = h.waits;
      pending = awake-IsPending calls table x m _ own h.pending held;
    })

-- The granting branch of `acquire`, and of `try_acquire`.
pub grant-IsSettled :
    (calls : Map Request) (table x : ℕ) (m : LockMode) (e : LockEntry)
    → MayAsk calls x table m
    → IsSettled calls table e
    → can_grant e x m ≡ true
    → IsSettled (remove x calls) table (grant e x m)
grant-IsSettled calls table x m e own h ok =
    grant_settles calls table x m e.granted e.wait_queue own h ok

not-can_grant_held :
    (e : LockEntry) (x : ℕ) (m : LockMode)
    → can_grant e x m ≡ false
    → holds_at_least (lookup x e.granted) m ≡ false
unfolding can_grant
not-can_grant_held e x m h = ground arith

-- The call that goes to sleep is queued, once.
sleep-IsPending :
    (calls : Map Request) (table x : ℕ) (m : LockMode) (e : LockEntry)
    → MayAsk calls x table m
    → IsPending calls table e
    → can_grant e x m ≡ false
    → IsPending (insert x (table, m) calls) table (enqueue_if_absent e x m)
unfolding enqueue_if_absent
sleep-IsPending calls table x m e own h wait = elim (Bool-cases (is_queued e.wait_queue x)) [
  | inl queued ↦
      let (n, had) = not-is_queued-request_of x e.wait_queue queued in
      rw queued (record {
        once = h.once;
        asked =
            λ y k p. ground (arith, lookup-insert x y (table, m) calls, h.asked x n, h.asked y k);
        served =
            λ y k p. ground (arith, lookup-insert x y (table, m) calls, h.asked x n, h.served y k);
      })
  | inr absent ↦
      let none_had = is_queued-request_of x e.wait_queue absent in
      rw absent (record {
        once = Once-append x m e.wait_queue none_had h.once;
        asked = λ y k p. ground (
          arith,
          lookup-insert x y (table, m) calls,
          request_of-append x y m e.wait_queue none_had,
          h.asked y k,
          not-can_grant_held e x m wait,
        );
        served = λ y k p. ground (
          arith,
          lookup-insert x y (table, m) calls,
          request_of-append x y m e.wait_queue none_had,
          h.served y k,
        );
      })
]

HeadWaits-enqueue :
    (x : ℕ) (m : LockMode) (g : Map LockMode) (q : List Waiter)
    → (let e : LockEntry = record { granted = g; wait_queue = q } in
        can_grant e x m ≡ false → HeadWaits g q → HeadWaits g (enqueue_if_absent e x m).wait_queue)
unfolding enqueue_if_absent is_queued can_grant is_behind
HeadWaits-enqueue x m g [] wait h = ground (arith, ==-refl x)
HeadWaits-enqueue x m g (head ∷ rest) wait h = elim (Bool-cases (is_queued (head ∷ rest) x)) [
  | inl queued ↦ rw queued h
  | inr absent ↦ rw absent h
]

pub granted-enqueue :
    (e : LockEntry) (x : ℕ) (m : LockMode) → (enqueue_if_absent e x m).granted ≡ e.granted
unfolding enqueue_if_absent
granted-enqueue e x m = ground arith

-- The sleeping branch of `acquire`.
pub enqueue-IsSettled :
    (calls : Map Request) (table x : ℕ) (m : LockMode) (e : LockEntry)
    → MayAsk calls x table m
    → IsSettled calls table e
    → can_grant e x m ≡ false
    → IsSettled (insert x (table, m) calls) table (enqueue_if_absent e x m)
enqueue-IsSettled calls table x m e own h wait = record {
  compatible = rw granted-enqueue h.compatible;
  waits = rw granted-enqueue (HeadWaits-enqueue x m e.granted e.wait_queue wait h.waits);
  pending = sleep-IsPending calls table x m e own h.pending wait;
}
