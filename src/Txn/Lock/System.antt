-- ===== src/Txn/Lock/System.antt =====
-- The lock manager under its callers: every interleaving of the rounds of `acquire`, of
-- `try_acquire` and of `release_all`, and of marks by the deadlock detector. A transaction is one
-- thread: while its call of `acquire` sleeps it makes no other call (`calls` records the sleepers).
use ams.Common.{ℕ, ◌≡◌, none, []}
use ams.Common.Map.{Map, lookup, insert, remove}
use ams.Txn.Victims
use ams.Txn.Lock.{
  LockMode, LockManager, Attempt, must_wait, acquire_round, try_acquire, release_all,
}
use ams.Txn.Lock.Queue.{Request}
use ams.Txn.Lock.Settled.{MayAsk}

pub record System : Type 0 where
  pub manager : LockManager
  pub calls : Map Request

-- The call sleeps, or it returns and its transaction goes on.
abbrev pub calls_after : Attempt → ℕ → Request → Map Request → Map Request
calls_after must_wait xid r calls = insert xid r calls
calls_after _ xid r calls = remove xid calls

unfoldable pub after_round : System → ℕ → ℕ → LockMode → System
after_round s xid table mode =
    let (outcome, m) = acquire_round s.manager xid table mode in
    record { manager = m; calls = calls_after outcome xid (table, mode) s.calls }

pub data Step (s : System) : System → Type 0 where
  -- A transaction that does not sleep calls `acquire`, or a sleeper wakes and goes round again.
  acquire :
      (xid table : ℕ) (mode : LockMode)
      → MayAsk s.calls xid table mode
      → Step s (after_round s xid table mode)
  try :
      (xid table : ℕ) (mode : LockMode)
      → lookup xid s.calls ≡ none
      → Step s (record s { manager = (try_acquire s.manager xid table mode).1 })
  release :
      (xid : ℕ)
      → lookup xid s.calls ≡ none
      → Step s (record s { manager = release_all s.manager xid })
  mark :
      (xid : ℕ)
      → Step s
          (record s { manager = record s.manager { victims = Victims.mark xid s.manager.victims } })

pub data Reach (s : System) : System → Type 0 where
  here : Reach s s
  next : {t u : System} → Reach s t → Step t u → Reach s u

-- `LockManager::new`
abbrev pub start : System
start = record { manager = record { entries = []; victims = [] }; calls = [] }
