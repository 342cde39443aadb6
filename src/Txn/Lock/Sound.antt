-- ===== src/Txn/Lock/Sound.antt =====
-- The map of tables: each table settled, and no entry kept that is empty.
use ams.Common.{
  ℕ, ◌≡◌, ◌≢◌, refl, subst, true, false, Option, none, some, List, [], ◌∷◌, arith, ◌==◌,
  if◌then◌else◌, inl, inr, Bool-cases, Option-cases, ==→eq,
}
use ams.Common.Map.{
  Map, lookup, insert, remove, lookup-insert, lookup-remove, HasKeysOnce, insert-HasKeysOnce,
  remove-HasKeysOnce,
}
use ams.Txn.Lock.{
  LockMode, Waiter, is_queued, LockEntry, LockManager, empty_entry, entry_of, grant,
  enqueue_if_absent, is_unused, interrupt_entry, interrupt, release_entry, release_entries,
}
use ams.Txn.Lock.Queue.{Request}
use ams.Txn.Lock.Settled.{
  IsSettled, MayAsk, interrupt_entry-IsSettled, release_entry-IsSettled, wake-IsSettled,
  empty_entry-forget,
}

abbrev pub entry_at : Option LockEntry → LockEntry
entry_at none = empty_entry
entry_at (some e) = e

pub entry_of_lem : (m : LockManager) (t : ℕ) → entry_of m t ≡ entry_at (lookup t m.entries)
unfolding entry_of
entry_of_lem m t = ground arith

-- Every table is settled, a table that is not in the map as an entry that is empty.
pub record IsSound (entries : Map LockEntry) (calls : Map Request) : Type 0 where
  pub keys : HasKeysOnce entries
  pub tables : (table : ℕ) → IsSettled calls table (entry_at (lookup table entries))
  -- No entry without a holder or a waiter is kept.
  pub used : (table : ℕ) (e : LockEntry) → lookup table entries ≡ some e → is_unused e ≡ false

IsSettled-at :
    (calls : Map Request) (t t' : ℕ) (o : Option LockEntry) (e : LockEntry)
    → ((t ≡ t') → IsSettled calls t' e)
    → ((t ≢ t') → IsSettled calls t' (entry_at o))
    → IsSettled calls t' (entry_at (if t == t' then some e else o))
IsSettled-at calls t t' o e same other = elim (Bool-cases (t == t')) [
  | inl p ↦ rw p (same (==→eq t t' p))
  | inr p ↦ rw p (other (λ q. ground arith))
]

IsSettled-drop :
    (calls : Map Request) (t t' : ℕ) (o : Option LockEntry)
    → ((t ≡ t') → IsSettled calls t' empty_entry)
    → ((t ≢ t') → IsSettled calls t' (entry_at o))
    → IsSettled calls t' (entry_at (if t == t' then none else o))
IsSettled-drop calls t t' o same other = elim (Bool-cases (t == t')) [
  | inl p ↦ rw p (same (==→eq t t' p))
  | inr p ↦ rw p (other (λ q. ground arith))
]

-- One table changes, and the others do not notice.
module _ (entries : Map LockEntry) (calls calls' : Map Request) (table : ℕ)
    (h : IsSound entries calls)
    (others : (t : ℕ)
      → table ≢ t
      → IsSettled calls t (entry_at (lookup t entries))
      → IsSettled calls' t (entry_at (lookup t entries))) where
  pub set-IsSound :
      (e : LockEntry)
      → is_unused e ≡ false
      → IsSettled calls' table e
      → IsSound (insert table e entries) calls'
  set-IsSound e busy settled = record {
    keys = insert-HasKeysOnce table e entries h.keys;
    tables = λ t. rw lookup-insert (
        IsSettled-at calls' table t (lookup t entries) e
          (λ q. subst (λ k. IsSettled calls' k e) q settled) (λ ne. others t ne (h.tables t)));
    used = λ t f found. ground (arith, lookup-insert table t e entries, h.used t f);
  }

  drop-IsSound : IsSettled calls' table empty_entry → IsSound (remove table entries) calls'
  drop-IsSound settled = record {
    keys = remove-HasKeysOnce table entries h.keys;
    tables = λ t. rw lookup-remove (
        IsSettled-drop calls' table t (lookup t entries)
          (λ q. subst (λ k. IsSettled calls' k empty_entry) q settled)
          (λ ne. others t ne (h.tables t)));
    used = λ t f found. ground (arith, lookup-remove table t entries, h.used t f);
  }

pub unused-empty : (e : LockEntry) → is_unused e ≡ true → e ≡ empty_entry
unfolding is_unused
unused-empty e h = ground arith

-- A table's entry, as the map has it.
pub tables_some :
    (entries : Map LockEntry) (calls : Map Request) (table : ℕ) (e : LockEntry)
    → IsSound entries calls
    → lookup table entries ≡ some e
    → IsSettled calls table e
tables_some entries calls table e h found = rw found at (h.tables table)

missing-IsSound :
    (entries : Map LockEntry) (calls : Map Request) (x table : ℕ) (m : LockMode)
    → MayAsk calls x table m
    → IsSound entries calls
    → lookup table entries ≡ none
    → IsSound entries (remove x calls)
missing-IsSound entries calls x table m own h missing = record {
  keys = h.keys;
  tables = λ t. elim (Bool-cases (table == t)) [
    | inl p ↦
        let e : table ≡ t = ==→eq table t p in
        let gone : lookup t entries ≡ none = rw (← e) missing in
        rw gone (empty_entry-forget calls t x (rw gone at (h.tables t)))
    | inr p ↦ wake-IsSettled calls table t x m _ (λ q. ground arith) own (h.tables t)
  ];
  used = h.used;
}

-- The victim's branch keeps the tables sound; its call is over.
pub interrupt-IsSound :
    (entries : Map LockEntry) (calls : Map Request) (x table : ℕ) (m : LockMode)
    → MayAsk calls x table m
    → IsSound entries calls
    → IsSound (interrupt x table entries) (remove x calls)
unfolding interrupt
interrupt-IsSound entries calls x table m own h = elim (Option-cases (lookup table entries)) [
  | inl missing ↦ rw (missing, interrupt) (missing-IsSound entries calls x table m own h missing)
  | inr (e, found) ↦
      let settled : IsSettled (remove x calls) table (interrupt_entry x e) =
        interrupt_entry-IsSettled calls table x e (tables_some entries calls table e h found) in
      elim (Bool-cases (is_unused (interrupt_entry x e))) [
        | inl unused ↦
            rw (found, interrupt, unused)
              (drop-IsSound entries calls (remove x calls) table h others
                (rw (unused-empty _ unused) at settled))
        | inr busy ↦
            rw (found, interrupt, busy)
              (set-IsSound entries calls (remove x calls) table h others (interrupt_entry x e) busy
                settled)
      ]
]
  where
    others :
        (t : ℕ)
        → table ≢ t
        → IsSettled calls t (entry_at (lookup t entries))
        → IsSettled (remove x calls) t (entry_at (lookup t entries))
    others t ne st = wake-IsSettled calls table t x m _ ne own st

insert-busy :
    (x : ℕ) (m : LockMode) (g : Map LockMode) (q : List Waiter)
    → is_unused (record { granted = insert x m g; wait_queue = q }) ≡ false
unfolding is_unused
insert-busy x m [] q = refl
insert-busy x m ((k, v) ∷ g) q = ground arith

pub grant-busy : (e : LockEntry) (x : ℕ) (m : LockMode) → is_unused (grant e x m) ≡ false
unfolding grant
grant-busy e x m = insert-busy x _ e.granted _

enqueued-busy :
    (x : ℕ) (m : LockMode) (g : Map LockMode) (q : List Waiter)
    → is_unused (enqueue_if_absent (record { granted = g; wait_queue = q }) x m) ≡ false
unfolding is_unused enqueue_if_absent is_queued
enqueued-busy x m [] [] = refl
enqueued-busy x m [] (w ∷ ws) = ground arith
enqueued-busy x m (p ∷ g) q = ground arith

pub enqueue-busy :
    (e : LockEntry) (x : ℕ) (m : LockMode) → is_unused (enqueue_if_absent e x m) ≡ false
enqueue-busy e x m = enqueued-busy x m e.granted e.wait_queue

-- The entry of a table after its release, if it is kept.
abbrev pub released : ℕ → Option LockEntry → Option LockEntry
released x none = none
released x (some e) = if is_unused (release_entry x e) then none else some (release_entry x e)

pub lookup-release_entries :
    (x t : ℕ) (entries : Map LockEntry)
    → HasKeysOnce entries
    → lookup t (release_entries x entries) ≡ released x (lookup t entries)
unfolding release_entries
lookup-release_entries x t [] h = refl
lookup-release_entries x t ((k, e) ∷ rest) h = ground (arith, lookup-release_entries x t rest h.1)

release_entries-HasKeysOnce :
    (x : ℕ) (entries : Map LockEntry)
    → HasKeysOnce entries
    → HasKeysOnce (release_entries x entries)
unfolding release_entries
release_entries-HasKeysOnce x [] h = tt
release_entries-HasKeysOnce x ((k, e) ∷ rest) h =
    ground (arith, release_entries-HasKeysOnce x rest h.1, lookup-release_entries x k rest h.1)

released-IsSettled :
    (calls : Map Request) (x t : ℕ) (o : Option LockEntry)
    → lookup x calls ≡ none
    → IsSettled calls t (entry_at o)
    → IsSettled calls t (entry_at (released x o))
released-IsSettled calls x t none idle h = h
released-IsSettled calls x t (some e) idle h = elim (Bool-cases (is_unused (release_entry x e))) [
  | inl unused ↦
      rw unused (rw (unused-empty _ unused) at (release_entry-IsSettled calls t x e idle h))
  | inr busy ↦ rw busy (release_entry-IsSettled calls t x e idle h)
]

released-busy :
    (x : ℕ) (o : Option LockEntry) (f : LockEntry) → released x o ≡ some f → is_unused f ≡ false
released-busy x o f h = ground arith

pub release_entries-IsSound :
    (entries : Map LockEntry) (calls : Map Request) (x : ℕ)
    → lookup x calls ≡ none
    → IsSound entries calls
    → IsSound (release_entries x entries) calls
release_entries-IsSound entries calls x idle h = record {
  keys = release_entries-HasKeysOnce x entries h.keys;
  tables = λ t.
      rw (lookup-release_entries x t entries h.keys)
        (released-IsSettled calls x t (lookup t entries) idle (h.tables t));
  used = λ t f found.
      released-busy x (lookup t entries) f
        (rw (lookup-release_entries x t entries h.keys) at found);
}
