-- ===== src/Txn/Visibility/Rule.antt =====
-- The judgment of visibility against a short rule, and what it depends on.
use ams.Common.{
  ℕ, ◌<◌, ◌≡◌, Bool, false, ◌&&◌, ◌||◌, not, arith, ltb, ◌==◌, if◌then◌else◌, contains,
}
use ams.Txn.Clog.{Clog, is_committed}
use ams.Txn.Visibility.{
  invalid, Snapshot, visible, invisible, judge_xmax, oracle_is_visible, rest_is_visible, is_visible,
}

-- The effects of a transaction that a snapshot takes as done: it is not the snapshot's own, it
-- began before the snapshot, it was not in progress then, and it committed.
abbrev pub seen : Snapshot → Clog → ℕ → Bool
seen s clog xid =
    not (xid == s.current_xid)
    && (ltb xid s.xmax && (not (contains xid s.xip) && is_committed (clog xid)))

-- Written or deleted by the snapshot's own transaction, in an earlier command.
abbrev pub own_earlier : Snapshot → ℕ → ℕ → Bool
own_earlier s xid t_cid = xid == s.current_xid && ltb t_cid s.curcid

-- The rule of snapshot isolation: the insertion counts and the deletion does not.
abbrev pub rule : ℕ → ℕ → ℕ → Snapshot → Clog → Bool
rule xmin xmax t_cid s clog =
    (seen s clog xmin || own_earlier s xmin t_cid)
    && not (not (xmax == invalid) && (seen s clog xmax || own_earlier s xmax t_cid))

judge_xmax-rule :
    (xmax t_cid : ℕ) (s : Snapshot) (clog : Clog)
    → judge_xmax xmax t_cid s clog ≡ (
        if not (xmax == invalid) && (seen s clog xmax || own_earlier s xmax t_cid)
        then invisible
        else visible)
unfolding judge_xmax
judge_xmax-rule xmax t_cid s clog = ground arith

-- The oracle answers by the rule, on every row version, and never `Uncertain`.
pub oracle_is_visible-rule :
    (xmin xmax t_cid : ℕ) (s : Snapshot) (clog : Clog)
    → oracle_is_visible xmin xmax t_cid s clog
      ≡ (if rule xmin xmax t_cid s clog then visible else invisible)
unfolding oracle_is_visible
oracle_is_visible-rule xmin xmax t_cid s clog = ground (arith, judge_xmax-rule xmax t_cid s clog)

rest_is_visible-judge_xmax :
    (xmax t_cid : ℕ) (s : Snapshot) (clog : Clog)
    → judge_xmax xmax t_cid s clog
      ≡ (if rest_is_visible xmax t_cid s clog then visible else invisible)
unfolding judge_xmax rest_is_visible
rest_is_visible-judge_xmax xmax t_cid s clog = ground arith

-- The two copies of the judgment agree: the function answers true exactly when the oracle answers
-- `Visible`.
pub is_visible-oracle :
    (xmin xmax t_cid : ℕ) (s : Snapshot) (clog : Clog)
    → oracle_is_visible xmin xmax t_cid s clog
      ≡ (if is_visible xmin xmax t_cid s clog then visible else invisible)
unfolding oracle_is_visible is_visible
is_visible-oracle xmin xmax t_cid s clog =
    ground (arith, rest_is_visible-judge_xmax xmax t_cid s clog)

-- Two states of the commit log that agree on what a snapshot looks up.
abbrev pub SameFor : Snapshot → Clog → Clog → Type 0
SameFor s c d =
    (x : ℕ) → x < s.xmax → contains x s.xip ≡ false → is_committed (c x) ≡ is_committed (d x)

-- A snapshot's judgment does not depend on the outcome of the transactions that were in progress
-- when it was taken, nor of those that began later.
pub is_visible_stable :
    (xmin xmax t_cid : ℕ) (s : Snapshot) (c d : Clog)
    → SameFor s c d
    → is_visible xmin xmax t_cid s c ≡ is_visible xmin xmax t_cid s d
unfolding is_visible rest_is_visible
is_visible_stable xmin xmax t_cid s c d h = ground (arith, h xmin, h xmax)

pub is_visible-rule :
    (xmin xmax t_cid : ℕ) (s : Snapshot) (clog : Clog)
    → is_visible xmin xmax t_cid s clog ≡ rule xmin xmax t_cid s clog
is_visible-rule xmin xmax t_cid s clog =
    ground (
      arith,
      is_visible-oracle xmin xmax t_cid s clog,
      oracle_is_visible-rule xmin xmax t_cid s clog,
    )
