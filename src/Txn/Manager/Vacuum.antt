-- ===== src/Txn/Manager/Vacuum.antt =====
-- The horizon never moves back, and what is deleted below it stays out of every snapshot's sight.
use ams.Common.{
  ℕ, ◌≤◌, ◌<◌, ◌≡◌, ◌≢◌, refl, ◌∙◌, true, false, List, ◌∷◌, ◌++◌, arith, contains-set_insert,
  contains-set_remove, inl, inr, Option-cases,
}
use ams.Common.Sort.{sort, first, contains-first-sort}
use ams.Txn.Clog.{Clog, set_state}
use ams.Txn.Visibility.{Snapshot}
use ams.Txn.Manager.{begin_txn, end_txn_state, end_txn_leave, unwrap_or, snapshot, drop_guard}
use ams.Txn.Manager.Schedule.{
  Schedule, take_snapshot, Step, begin, flip, leave, take, drop, wait, Reach, here, next, opened,
}
use ams.Txn.Manager.Invariant.{IsCurrent, wait_keeps, next_lem}
use ams.Txn.Clog.{is_committed}
use ams.Txn.Visibility.{invalid, is_visible, rest_is_visible}
use ams.Txn.Manager.{oldest_snapshot_xmin}
use ams.Txn.Manager.Steps.{All-drop, All-mid, Reach-IsSound, opened-IsSound}
use ams.Txn.Manager.Horizon.{IsAbove, horizon-IsAbove, IsAbove-horizon}

snapshot-IsAbove : (h xid : ℕ) (s : Schedule) → IsAbove h s → h ≤ (snapshot xid s.manager).0.xmin
unfolding snapshot unwrap_or
snapshot-IsAbove h xid s above = elim (Option-cases (first (sort s.manager.active))) [
  | inl e ↦ rw e above.clock
  | inr (k, e) ↦ rw e (above.running k (contains-first-sort s.manager.active k e))
]

Step-IsAbove : {s t : Schedule} (h : ℕ) → Step s t → IsAbove h s → IsAbove h t
unfolding begin_txn end_txn_state end_txn_leave take_snapshot snapshot drop_guard
Step-IsAbove {s} h (begin small) a = rw (next_lem s.manager.next small) (record {
  clock = omega (arith, a.clock);
  running = λ x b.
      ground (arith, contains-set_insert s.manager.next x s.manager.active, a.running x, a.clock);
  living = a.living;
})
Step-IsAbove h (flip xid state active) a = record {
  clock = a.clock;
  running = a.running;
  living = a.living;
}
Step-IsAbove {s} h (leave xid active) a = record {
  clock = a.clock;
  running = λ x b. ground (arith, contains-set_remove xid x s.manager.active, a.running x);
  living = a.living;
}
Step-IsAbove {s} h (take xid) a = record {
  clock = a.clock;
  running = a.running;
  living = (snapshot-IsAbove h xid s a, a.living);
}
Step-IsAbove h (drop before after snap e) a = record {
  clock = a.clock;
  running = a.running;
  living = All-drop _ before after snap (rw e at a.living);
}
Step-IsAbove {s} h (wait self_xid blocking_xid) a =
    let w = wait_keeps self_xid blocking_xid s.manager in
    record { clock = rw w.0 a.clock; running = rw w.1 a.running; living = a.living }

Reach-IsAbove : {s t : Schedule} (h : ℕ) → Reach s t → IsAbove h s → IsAbove h t
Reach-IsAbove h here a = a
Reach-IsAbove h (next r step) a = Step-IsAbove h step (Reach-IsAbove h r a)

-- In every schedule, the horizon that `oldest_snapshot_xmin` answers never moves back, so that a
-- cleaner that read it some time ago is only more careful than it has to be.
pub horizon_monotone :
    (start : ℕ) (clog : Clog) (s t : Schedule)
    → Reach (opened start clog) s
    → Reach s t
    → oldest_snapshot_xmin s.manager ≤ oldest_snapshot_xmin t.manager
horizon_monotone start clog s t before after =
    let sound = Reach-IsSound before (opened-IsSound start clog) in
    IsAbove-horizon (oldest_snapshot_xmin s.manager) t (Reach-IsSound after sound)
      (Reach-IsAbove (oldest_snapshot_xmin s.manager) after (horizon-IsAbove s sound))

-- The outcome of a transaction below everything that runs is settled.
step_settled :
    {s t : Schedule} (h x : ℕ)
    → x < h
    → Step s t
    → IsAbove h s
    → t.manager.clog x ≡ s.manager.clog x
unfolding begin_txn end_txn_state end_txn_leave take_snapshot snapshot drop_guard set_state
step_settled h x lt (begin small) a = refl
step_settled h x lt (flip xid state active) a = ground (arith, a.running xid)
step_settled h x lt (leave xid active) a = refl
step_settled h x lt (take xid) a = refl
step_settled h x lt (drop before after snap e) a = refl
step_settled {s} h x lt (wait self_xid blocking_xid) a =
    rw (wait_keeps self_xid blocking_xid s.manager).2 refl

settled :
    {s t : Schedule} (h x : ℕ)
    → x < h
    → Reach s t
    → IsAbove h s
    → t.manager.clog x ≡ s.manager.clog x
settled h x lt here a = refl
settled h x lt (next r step) a = step_settled h x lt step (Reach-IsAbove h r a) ∙ settled h x lt r a

-- A current snapshot does not see what was deleted below its `xmin`.
deleted_below :
    (clock : ℕ) (active : List ℕ) (snap : Snapshot) (clog : Clog) (xmin xmax t_cid : ℕ)
    → IsCurrent clock active snap
    → xmax ≢ invalid
    → xmax ≢ snap.current_xid
    → xmax < snap.xmin
    → is_committed (clog xmax) ≡ true
    → is_visible xmin xmax t_cid snap clog ≡ false
unfolding is_visible rest_is_visible
deleted_below clock active snap clog xmin xmax t_cid h d c lt e =
    ground (arith, h.lowest xmax, h.ordered)

-- A cleaner reads the horizon in a state `s` of any schedule, and finds a row version whose deleting
-- transaction is committed and below that horizon. Then no snapshot that is alive then or at any
-- time afterwards sees the version, unless it is the deleting transaction's own: removing the
-- version changes no reader's answer.
pub vacuum_safety :
    (start : ℕ) (clog : Clog) (s t : Schedule) (before after : List Snapshot) (snap : Snapshot)
    (xmin xmax t_cid : ℕ)
    → Reach (opened start clog) s
    → Reach s t
    → t.live ≡ before ++ (snap ∷ after)
    → xmax ≢ invalid
    → xmax ≢ snap.current_xid
    → xmax < oldest_snapshot_xmin s.manager
    → is_committed (s.manager.clog xmax) ≡ true
    → is_visible xmin xmax t_cid snap t.manager.clog ≡ false
vacuum_safety start clog s t before after snap xmin xmax t_cid r1 r2 e d c lt committed =
    let sound = Reach-IsSound r1 (opened-IsSound start clog) in
    let above = horizon-IsAbove s sound in
    let living =
      All-mid _ before after snap
        (rw e at ((Reach-IsAbove (oldest_snapshot_xmin s.manager) r2 above).living)) in
    let current = All-mid _ before after snap (rw e at ((Reach-IsSound r2 sound).current)) in
    deleted_below t.manager.next t.manager.active snap t.manager.clog xmin xmax t_cid current d c
      (omega (arith, lt, living))
      (rw (settled (oldest_snapshot_xmin s.manager) xmax lt r2 above) committed)
