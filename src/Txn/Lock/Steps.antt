-- ===== src/Txn/Lock/Steps.antt =====
-- Every step of the lock manager keeps its tables sound, and so every reachable state is.
use ams.Common.{ℕ, contains, ◌≡◌, refl, true, none, inl, inr, Bool-cases, Option-cases}
use ams.Common.Map.{lookup, insert, remove, remove_absent}
use ams.Txn.Victims
use ams.Txn.Lock.{
  LockMode, empty_entry, entry_of, holds_at_least, is_behind, is_compatible, can_grant, grant,
  acquire_round, try_acquire, release_all,
}
use ams.Txn.Lock.Settled.{IsSettled, MayAsk, wake-IsSettled, sleep-IsSettled, empty_entry-IsSettled}
use ams.Txn.Lock.Grants.{grant-IsSettled, enqueue-IsSettled}
use ams.Txn.Lock.System.{
  System, after_round, Step, acquire, try, release, mark, Reach, here, next, start,
}
use ams.Txn.Lock.Sound.{
  IsSound, entry_of_lem, set-IsSound, interrupt-IsSound, grant-busy, enqueue-busy,
  release_entries-IsSound,
}

-- A system is sound if its tables are.
abbrev pub SystemIsSound : System → Type 0
SystemIsSound s = IsSound s.manager.entries s.calls

round-IsSound :
    (s : System) (x table : ℕ) (m : LockMode)
    → MayAsk s.calls x table m
    → SystemIsSound s
    → SystemIsSound (after_round s x table m)
unfolding after_round acquire_round Victims.take
round-IsSound s x table m own h = elim (Bool-cases (contains x s.manager.victims)) [
  | inl chosen ↦ rw chosen (interrupt-IsSound s.manager.entries s.calls x table m own h)
  | inr spared ↦ elim (Bool-cases (can_grant (entry_of s.manager table) x m)) [
    | inl ok ↦
        rw (spared, ok)
          (set-IsSound s.manager.entries s.calls (remove x s.calls) table h
            (λ t ne st. wake-IsSettled s.calls table t x m _ ne own st) _ (grant-busy _ x m)
            (grant-IsSettled s.calls table x m _ own settled ok))
    | inr wait ↦
        rw (spared, wait)
          (set-IsSound s.manager.entries s.calls (insert x (table, m) s.calls) table h
            (λ t ne st. sleep-IsSettled s.calls table t x m _ ne own st) _ (enqueue-busy _ x m)
            (enqueue-IsSettled s.calls table x m _ own settled wait))
  ]
]
  where
    settled : IsSettled s.calls table (entry_of s.manager table)
    settled = rw entry_of_lem (h.tables table)

can_grant_empty : (x : ℕ) (m : LockMode) → can_grant empty_entry x m ≡ true
unfolding can_grant holds_at_least is_behind is_compatible
can_grant_empty x m = refl

granted_try :
    (s : System) (x table : ℕ) (m : LockMode)
    → lookup x s.calls ≡ none
    → SystemIsSound s
    → can_grant (entry_of s.manager table) x m ≡ true
    → IsSound (insert table (grant (entry_of s.manager table) x m) s.manager.entries) s.calls
granted_try s x table m idle h ok =
    set-IsSound s.manager.entries s.calls s.calls table h (λ t ne st. st) _ (grant-busy _ x m)
      (rw (remove_absent x s.calls idle) at
        (grant-IsSettled s.calls table x m _ (inl idle) (rw entry_of_lem (h.tables table)) ok))

try-IsSound :
    (s : System) (x table : ℕ) (m : LockMode)
    → lookup x s.calls ≡ none
    → SystemIsSound s
    → IsSound (try_acquire s.manager x table m).1.entries s.calls
unfolding try_acquire
try-IsSound s x table m idle h = elim (Option-cases (lookup table s.manager.entries)) [
  | inl missing ↦
      rw missing (granted_try s x table m idle h (rw (entry_of_lem, missing) (can_grant_empty x m)))
  | inr (e, found) ↦ elim (Bool-cases (can_grant e x m)) [
    | inl ok ↦ rw (found, ok) (granted_try s x table m idle h (rw (entry_of_lem, found) ok))
    | inr wait ↦ rw (found, wait) h
  ]
]

-- Every step keeps the system sound.
pub Step-IsSound : {s t : System} → Step s t → SystemIsSound s → SystemIsSound t
unfolding release_all
Step-IsSound {s} (acquire x table m own) h = round-IsSound s x table m own h
Step-IsSound {s} (try x table m idle) h = try-IsSound s x table m idle h
Step-IsSound {s} (release x idle) h = release_entries-IsSound s.manager.entries s.calls x idle h
Step-IsSound (mark x) h = h

pub start-IsSound : SystemIsSound start
start-IsSound = record { keys = tt; tables = empty_entry-IsSettled; used = λ t e p. cc }

pub Reach-IsSound : {s : System} → Reach start s → SystemIsSound s
Reach-IsSound here = start-IsSound
Reach-IsSound (next r st) = Step-IsSound st (Reach-IsSound r)
