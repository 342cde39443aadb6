-- ===== src/Txn/Visibility.antt =====
-- Snapshots and visibility: crates/pg-txn/src/snapshot.rs and visibility.rs.
pub mod Rule
use ams.Common.{
  ℕ, ◌+◌, ◌-◌, ◌^◌, Bool, true, false, List, [], ltb, leb, ◌==◌, if◌then◌else◌, contains, not,
}
use ams.Txn.Clog.{Clog, is_committed}

-- `TxnId::INVALID`.
abbrev pub invalid : ℕ
invalid = 0

pub record Snapshot : Type 0 where
  pub xmin : ℕ
  pub xmax : ℕ
  pub xip : List ℕ
  pub current_xid : ℕ
  pub curcid : ℕ

-- `Snapshot::everything`; `u64::MAX` for `xmax`.
abbrev pub everything : Snapshot
everything = record { xmin = 0; xmax = 2 ^ 64 - 1; xip = []; current_xid = invalid; curcid = 0 }

-- `Snapshot::new_unregistered`
abbrev pub new_unregistered : ℕ → ℕ → List ℕ → ℕ → ℕ → Snapshot
new_unregistered xmin xmax xip current_xid curcid = record {
  xmin = xmin;
  xmax = xmax;
  xip = xip;
  current_xid = current_xid;
  curcid = curcid;
}

unfoldable pub set_current_xid : ℕ → Snapshot → Snapshot
set_current_xid xid s = record s { current_xid = xid }

unfoldable pub set_curcid : ℕ → Snapshot → Snapshot
set_curcid curcid s = record s { curcid = curcid }

-- The counter is a `u32`; the new value is returned. (`+=` past the last value is a panic in a
-- debug build and wraps in a release build.)
unfoldable pub advance_curcid : Snapshot → ℕ × Snapshot
advance_curcid s = (s.curcid + 1, record s { curcid = s.curcid + 1 })

pub data Visibility : Type 0 where
  visible invisible uncertain : Visibility

-- Step 2 of the judgment: what the deleting transaction says.
unfoldable pub judge_xmax : ℕ → ℕ → Snapshot → Clog → Visibility
judge_xmax xmax t_cid snapshot clog =
    if xmax == invalid
    then visible
    else if xmax == snapshot.current_xid
    then (if ltb t_cid snapshot.curcid then invisible else visible)
    else if leb snapshot.xmax xmax
    then visible
    else if contains xmax snapshot.xip
    then visible
    else if not (is_committed (clog xmax))
    then visible
    else invisible

-- `PgVisibilityOracle::is_visible`. Step 1 returns or falls through to step 2.
unfoldable pub oracle_is_visible : ℕ → ℕ → ℕ → Snapshot → Clog → Visibility
oracle_is_visible xmin xmax t_cid snapshot clog =
    if xmin == snapshot.current_xid
    then (if leb snapshot.curcid t_cid then invisible else judge_xmax xmax t_cid snapshot clog)
    else if leb snapshot.xmax xmin
    then invisible
    else if contains xmin snapshot.xip
    then invisible
    else if not (is_committed (clog xmin))
    then invisible
    else judge_xmax xmax t_cid snapshot clog

-- The free function `is_visible`, written out a second time in the source.
unfoldable pub rest_is_visible : ℕ → ℕ → Snapshot → Clog → Bool
rest_is_visible t_xmax t_cid snap clog =
    if t_xmax == invalid
    then true
    else if t_xmax == snap.current_xid
    then leb snap.curcid t_cid
    else if leb snap.xmax t_xmax
    then true
    else if contains t_xmax snap.xip
    then true
    else if not (is_committed (clog t_xmax))
    then true
    else false

unfoldable pub is_visible : ℕ → ℕ → ℕ → Snapshot → Clog → Bool
is_visible t_xmin t_xmax t_cid snap clog =
    if t_xmin == snap.current_xid
    then (if leb snap.curcid t_cid then false else rest_is_visible t_xmax t_cid snap clog)
    else if leb snap.xmax t_xmin
    then false
    else if contains t_xmin snap.xip
    then false
    else if not (is_committed (clog t_xmin))
    then false
    else rest_is_visible t_xmax t_cid snap clog
