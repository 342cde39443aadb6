-- ===== src/Txn/Victims.antt =====
-- The registry of deadlock victims: `DeadlockVictims` of crates/pg-txn/src/deadlock.rs.
-- Its mutex is a leaf lock, so that each call is one step; the state is the set of marked ids.
use ams.Common.{ℕ, Bool, List, contains, set_insert, set_remove}

abbrev pub Victims : Type 0
Victims = List ℕ

unfoldable pub mark : ℕ → Victims → Victims
mark xid s = set_insert xid s

unfoldable pub is_marked : ℕ → Victims → Bool
is_marked xid s = contains xid s

-- `HashSet::remove` tells whether the id was there.
unfoldable pub take : ℕ → Victims → Bool × Victims
take xid s = (contains xid s, set_remove xid s)

unfoldable pub clear : ℕ → Victims → Victims
clear xid s = set_remove xid s
