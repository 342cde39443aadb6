-- ===== src/Txn/Lock/Enqueue.antt =====
-- `enqueue_if_absent` and the gates of `can_grant` of crates/pg-txn/src/lock_manager.rs, by the
-- requests in the queue.
use ams.Common.{
  ℕ, ◌<◌, ◌==◌, ap, ◌∙◌, ◌≡◌, ◌≢◌, refl, ◌⊎◌, true, false, Option, none, some, List, [], ◌∷◌, ◌++◌,
  arith, inl, inr, Bool-cases, ==-refl,
}
use ams.Txn.Lock.{
  LockMode, strength, Waiter, is_queued, LockEntry, holds_at_least, is_behind, enqueue_if_absent,
}
use ams.Txn.Lock.Queue.{request_of, request_of-append}

-- A queue that begins with a request.
pub record StartsWith (head : Waiter) (q : List Waiter) : Type 0 where
  pub others : List Waiter
  pub queue : q ≡ head ∷ others

pub enqueue_keeps_granted :
    (e : LockEntry) (x : ℕ) (m : LockMode) → (enqueue_if_absent e x m).granted ≡ e.granted
unfolding enqueue_if_absent
enqueue_keeps_granted e x m = elim (Bool-cases (is_queued e.wait_queue x)) [
  | inl there ↦ rw there refl
  | inr absent ↦ rw absent refl
]

pub enqueue_keeps_head :
    (e : LockEntry) (x : ℕ) (m : LockMode) (head : Waiter) (rest : List Waiter)
    → e.wait_queue ≡ head ∷ rest
    → StartsWith head (enqueue_if_absent e x m).wait_queue
unfolding enqueue_if_absent
enqueue_keeps_head e x m head rest queue = elim (Bool-cases (is_queued e.wait_queue x)) [
  | inl there ↦ rw there (record { others = rest; queue = queue })
  | inr absent ↦ rw absent (record {
    others = rest ++ (record { xid = x; mode = m } ∷ []);
    queue = ap (λ (t : List Waiter). t ++ (record { xid = x; mode = m } ∷ [])) queue;
  })
]

pub behind_another :
    (q rest : List Waiter) (head : Waiter) (x : ℕ)
    → q ≡ head ∷ rest
    → head.xid ≢ x
    → is_behind q x ≡ true
unfolding is_behind
behind_another q rest head x e ne = rw e (ground (arith, ne))

pub holds_less :
    (o : Option LockMode) (mode : LockMode)
    → ((held : LockMode) → o ≡ some held → strength held < strength mode)
    → holds_at_least o mode ≡ false
unfolding holds_at_least
holds_less none mode h = refl
holds_less (some held) mode h = ground (arith, h held refl)

-- The request that a transaction has queued, or the one that it makes now.
abbrev pub queued_or : Option LockMode → LockMode → LockMode
queued_or none mode = mode
queued_or (some queued) mode = queued

is_queued-request_of :
    (q : List Waiter) (x : ℕ)
    → ((is_queued q x ≡ false) × (request_of q x ≡ none))
      ⊎ ((is_queued q x ≡ true) × ((k : LockMode) × (request_of q x ≡ some k)))
unfolding is_queued
is_queued-request_of [] x = inl (refl, refl)
is_queued-request_of (w ∷ ws) x = elim (Bool-cases (w.xid == x)) [
  | inl own ↦ rw own (inr (refl, (w.mode, refl)))
  | inr other ↦ rw other (is_queued-request_of ws x)
]

pub request_of-enqueue_if_absent :
    (e : LockEntry) (x : ℕ) (m : LockMode)
    → request_of (enqueue_if_absent e x m).wait_queue x
      ≡ some (queued_or (request_of e.wait_queue x) m)
unfolding enqueue_if_absent
request_of-enqueue_if_absent e x m = elim (is_queued-request_of e.wait_queue x) [
  | inl (absent, nothing) ↦
      rw (absent, nothing) (request_of-append x x m e.wait_queue nothing ∙ rw (==-refl x) refl)
  | inr (queued, (k, found)) ↦ rw (queued, found) refl
]

pub request_of-enqueue_other :
    (e : LockEntry) (x y : ℕ) (m : LockMode)
    → x ≢ y
    → request_of (enqueue_if_absent e x m).wait_queue y ≡ request_of e.wait_queue y
unfolding enqueue_if_absent
request_of-enqueue_other e x y m ne = elim (is_queued-request_of e.wait_queue x) [
  | inl (absent, nothing) ↦
      rw absent (request_of-append x y m e.wait_queue nothing ∙ ground (arith, ne))
  | inr (queued, _) ↦ rw queued refl
]
