-- ===== src/Txn/Lock/Queue.antt =====
-- The queue of one table against the calls of `acquire` that sleep: every queued request is such a
-- call, and every such call is queued or has been granted.
use ams.Common.{
  ℕ, ◌≡◌, refl, ◌⊎◌, true, false, not, Option, none, some, List, [], ◌∷◌, ◌++◌, arith, ◌==◌,
  if◌then◌else◌, retain, inl, inr, Bool-cases,
}
use ams.Common.Map.{Map, lookup, remove, lookup-insert, lookup-remove}
use ams.Txn.Lock.{
  LockMode, Waiter, LockEntry, holds_at_least, can_grant, strengthen, grant, is_queued,
  regrant_heads, drop_waiter,
}
use ams.Txn.Lock.Modes.{strengthen-holds}
use ams.Txn.Lock.Entry.{grant_head, regrant_heads_induction}

-- The mode that a transaction has queued for.
abbrev pub request_of : List Waiter → ℕ → Option LockMode
request_of [] x = none
request_of (w ∷ ws) x = if w.xid == x then some w.mode else request_of ws x

-- No transaction is queued twice.
abbrev pub Once : List Waiter → Type 0
Once [] = Unit {0}
Once (w ∷ ws) = (request_of ws w.xid ≡ none) × Once ws

-- A sleeping call of `acquire`: the table and the mode.
abbrev pub Request : Type 0
Request = ℕ × LockMode

pub record IsPending (calls : Map Request) (table : ℕ) (e : LockEntry) : Type 0 where
  pub once : Once e.wait_queue
  -- Who is queued sleeps in that call, and does not hold what it asks for.
  pub asked :
      (x : ℕ) (m : LockMode)
      → request_of e.wait_queue x ≡ some m
      → (lookup x calls ≡ some (table, m)) × (holds_at_least (lookup x e.granted) m ≡ false)
  -- Who sleeps is queued, or holds what it asked for.
  pub served :
      (x : ℕ) (m : LockMode)
      → lookup x calls ≡ some (table, m)
      → (request_of e.wait_queue x ≡ some m) ⊎ (holds_at_least (lookup x e.granted) m ≡ true)

module _ (calls : Map Request) (table : ℕ) where
  grant_head-IsPending :
      (g : Map LockMode) (head : Waiter) (rest : List Waiter)
      → (let e : LockEntry = record { granted = g; wait_queue = head ∷ rest } in
          can_grant e head.xid head.mode ≡ true
          → IsPending calls table e
          → IsPending calls table (grant e head.xid head.mode))
  grant_head-IsPending g head rest ok h =
      let new = strengthen (lookup head.xid g) head.mode in
      rw grant_head (record {
        once = h.once.1;
        asked = λ x m p. ground (arith, h.once.0, lookup-insert head.xid x new g, h.asked x m);
        served = λ x m p. ground (
          arith,
          lookup-insert head.xid x new g,
          h.served x m,
          h.asked head.xid head.mode,
          strengthen-holds (lookup head.xid g) head.mode,
        );
      })

  pub regrant_heads-IsPending :
      (e : LockEntry) → IsPending calls table e → IsPending calls table (regrant_heads e)
  regrant_heads-IsPending =
      regrant_heads_induction (λ e. IsPending calls table e) grant_head-IsPending

pub request_of-drop :
    (x y : ℕ) (q : List Waiter)
    → request_of (retain (λ (w : Waiter). not (w.xid == x)) q) y
      ≡ (if x == y then none else request_of q y)
request_of-drop x y [] = ground arith
request_of-drop x y (w ∷ ws) = ground (arith, request_of-drop x y ws)

Once-drop : (x : ℕ) (q : List Waiter) → Once q → Once (retain (λ (w : Waiter). not (w.xid == x)) q)
Once-drop x [] h = tt
Once-drop x (w ∷ ws) h = ground (arith, Once-drop x ws h.1, request_of-drop x w.xid ws)

pub request_of-append :
    (x y : ℕ) (m : LockMode) (q : List Waiter)
    → request_of q x ≡ none
    → request_of (q ++ (record { xid = x; mode = m } ∷ [])) y
      ≡ (if x == y then some m else request_of q y)
request_of-append x y m [] h = refl
request_of-append x y m (w ∷ ws) h = ground (arith, request_of-append x y m ws)

pub Once-append :
    (x : ℕ) (m : LockMode) (q : List Waiter)
    → request_of q x ≡ none
    → Once q
    → Once (q ++ (record { xid = x; mode = m } ∷ []))
Once-append x m [] h o = (refl, tt)
Once-append x m (w ∷ ws) h o = ground (arith, Once-append x m ws, request_of-append x w.xid m ws)

pub is_queued-request_of : (x : ℕ) (q : List Waiter) → is_queued q x ≡ false → request_of q x ≡ none
unfolding is_queued
is_queued-request_of x [] h = refl
is_queued-request_of x (w ∷ ws) h = ground (arith, is_queued-request_of x ws)

pub not-is_queued-request_of :
    (x : ℕ) (q : List Waiter) → is_queued q x ≡ true → (m : LockMode) × (request_of q x ≡ some m)
unfolding is_queued
not-is_queued-request_of x [] h = cc
not-is_queued-request_of x (w ∷ ws) h = elim (Bool-cases (w.xid == x)) [
  | inl e ↦ (w.mode, rw e)
  | inr e ↦ rw e (not-is_queued-request_of x ws (rw e at h))
]

-- A transaction that does not sleep any more leaves the queue of the table.
pub drop_waiter-IsPending :
    (calls : Map Request) (table x : ℕ) (e : LockEntry)
    → IsPending calls table e
    → IsPending (remove x calls) table (drop_waiter x e)
unfolding drop_waiter
drop_waiter-IsPending calls table x e h = record {
  once = Once-drop x e.wait_queue h.once;
  asked = λ y m p.
      ground (arith, request_of-drop x y e.wait_queue, lookup-remove x y calls, h.asked y m);
  served = λ y m p.
      ground (arith, request_of-drop x y e.wait_queue, lookup-remove x y calls, h.served y m);
}
