-- ===== src/Txn/Lock/Settled.antt =====
-- The state of one table between two steps of the lock manager, and the parts of `acquire`,
-- `try_acquire` and `release_all` that act on one table.
use ams.Common.{ℕ, ◌≡◌, ◌≢◌, ◌⊎◌, none, some, [], arith}
use ams.Common.Map.{Map, lookup, insert, remove, lookup-insert, lookup-remove, remove_absent}
use ams.Txn.Lock.{
  LockMode, LockEntry, empty_entry, regrant_heads, drop_waiter, interrupt_entry, release_entry,
}
use ams.Txn.Lock.Entry.{
  IsCompatible, HeadWaits, remove-IsCompatible, regrant_heads-IsCompatible, regrant_heads-HeadWaits,
}
use ams.Txn.Lock.Queue.{Request, IsPending, regrant_heads-IsPending, drop_waiter-IsPending}

-- No two holders conflict, the head of the queue is blocked, and the queue is what sleeps.
pub record IsSettled (calls : Map Request) (table : ℕ) (e : LockEntry) : Type 0 where
  pub compatible : IsCompatible e.granted
  pub waits : HeadWaits e.granted e.wait_queue
  pub pending : IsPending calls table e

-- A transaction acts on a table: it does not sleep, or wakes in its call on that table.
abbrev pub MayAsk : Map Request → ℕ → ℕ → LockMode → Type 0
MayAsk calls x table m = (lookup x calls ≡ none) ⊎ (lookup x calls ≡ some (table, m))

regrant_heads-IsSettled :
    (calls : Map Request) (table : ℕ) (e : LockEntry)
    → IsCompatible e.granted
    → IsPending calls table e
    → IsSettled calls table (regrant_heads e)
regrant_heads-IsSettled calls table e c p = record {
  compatible = regrant_heads-IsCompatible e c;
  waits = regrant_heads-HeadWaits e;
  pending = regrant_heads-IsPending calls table e p;
}

-- The victim's branch of `acquire`.
pub interrupt_entry-IsSettled :
    (calls : Map Request) (table x : ℕ) (e : LockEntry)
    → IsSettled calls table e
    → IsSettled (remove x calls) table (interrupt_entry x e)
unfolding interrupt_entry
interrupt_entry-IsSettled calls table x e h =
    regrant_heads-IsSettled (remove x calls) table (drop_waiter x e)
      (unfold drop_waiter in h.compatible) (drop_waiter-IsPending calls table x e h.pending)

remove-holder-IsPending :
    (calls : Map Request) (table x : ℕ) (e : LockEntry)
    → lookup x calls ≡ none
    → IsPending calls table e
    → IsPending calls table (record e { granted = remove x e.granted })
remove-holder-IsPending calls table x e idle h = record {
  once = h.once;
  asked = λ y m p. ground (arith, lookup-remove x y e.granted, h.asked y m);
  served = λ y m p. ground (arith, lookup-remove x y e.granted, h.served y m);
}

-- A transaction that does not sleep releases what it holds.
pub release_entry-IsSettled :
    (calls : Map Request) (table x : ℕ) (e : LockEntry)
    → lookup x calls ≡ none
    → IsSettled calls table e
    → IsSettled calls table (release_entry x e)
unfolding release_entry
release_entry-IsSettled calls table x e idle h =
    let e' : LockEntry = record e { granted = remove x e.granted } in
    regrant_heads-IsSettled calls table (drop_waiter x e')
      (unfold drop_waiter in remove-IsCompatible x e.granted h.compatible)
      (rw (remove_absent x calls idle) at (
        drop_waiter-IsPending calls table x e'
          (remove-holder-IsPending calls table x e idle h.pending)))

-- The other tables do not notice.
pub wake-IsSettled :
    (calls : Map Request) (table other x : ℕ) (m : LockMode) (e : LockEntry)
    → table ≢ other
    → MayAsk calls x table m
    → IsSettled calls other e
    → IsSettled (remove x calls) other e
wake-IsSettled calls table other x m e ne own h = record {
  compatible = h.compatible;
  waits = h.waits;
  pending = record {
    once = h.pending.once;
    asked = λ y k p. ground (arith, lookup-remove x y calls, h.pending.asked y k);
    served = λ y k p. ground (arith, lookup-remove x y calls, h.pending.served y k);
  };
}

pub sleep-IsSettled :
    (calls : Map Request) (table other x : ℕ) (m : LockMode) (e : LockEntry)
    → table ≢ other
    → MayAsk calls x table m
    → IsSettled calls other e
    → IsSettled (insert x (table, m) calls) other e
sleep-IsSettled calls table other x m e ne own h = record {
  compatible = h.compatible;
  waits = h.waits;
  pending = record {
    once = h.pending.once;
    asked = λ y k p. ground (arith, lookup-insert x y (table, m) calls, h.pending.asked y k);
    served = λ y k p. ground (arith, lookup-insert x y (table, m) calls, h.pending.served y k);
  };
}

pub empty_entry-IsSettled : (table : ℕ) → IsSettled [] table empty_entry
empty_entry-IsSettled table = record {
  compatible = record { keys = tt; pairs = λ x y a b ne p q. cc };
  waits = tt;
  pending = record { once = tt; asked = λ x m p. cc; served = λ x m p. cc };
}

pub empty_entry-forget :
    (calls : Map Request) (table x : ℕ)
    → IsSettled calls table empty_entry
    → IsSettled (remove x calls) table empty_entry
empty_entry-forget calls table x h = record {
  compatible = h.compatible;
  waits = tt;
  pending = record {
    once = tt;
    asked = λ y k p. cc;
    served = λ y k p. ground (arith, lookup-remove x y calls, h.pending.served y k);
  };
}
