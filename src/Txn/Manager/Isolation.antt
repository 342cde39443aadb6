-- ===== src/Txn/Manager/Isolation.antt =====
-- Repeatable reads: what a snapshot shows does not change while other transactions run.
use ams.Common.{ℕ, ◌≡◌, refl, sym, ◌∙◌, arith}
use ams.Txn.Clog.{Clog, set_state}
use ams.Txn.Visibility.{Snapshot}
use ams.Txn.Manager.{begin_txn, end_txn_state, end_txn_leave, snapshot, drop_guard}
use ams.Txn.Manager.Schedule.{
  Schedule, take_snapshot, Step, begin, flip, leave, take, drop, wait, Reach, here, next, opened,
}
use ams.Txn.Manager.Invariant.{IsCurrent, snapshot-IsCurrent, Step-IsCurrent, wait_keeps}
use ams.Txn.Visibility.{is_visible}
use ams.Txn.Visibility.Rule.{SameFor, is_visible_stable}
use ams.Txn.Manager.Steps.{Reach-IsSound, opened-IsSound}

-- A step leaves the outcomes alone that a current snapshot looks up.
Step-SameFor :
    {s t : Schedule} (snap : Snapshot)
    → Step s t
    → IsCurrent s.manager.next s.manager.active snap
    → SameFor snap s.manager.clog t.manager.clog
unfolding begin_txn end_txn_state end_txn_leave take_snapshot snapshot drop_guard set_state
Step-SameFor snap (begin small) h = λ x lt out. refl
Step-SameFor {s} snap (flip xid state a) h = λ x lt out. ground (arith, h.knows x, out, lt, a)
Step-SameFor snap (leave xid a) h = λ x lt out. refl
Step-SameFor snap (take xid) h = λ x lt out. refl
Step-SameFor snap (drop before after gone e) h = λ x lt out. refl
Step-SameFor {s} snap (wait self_xid blocking_xid) h =
    λ x lt out. rw (wait_keeps self_xid blocking_xid s.manager).2 refl

Reach-SameFor :
    {s t : Schedule} (snap : Snapshot)
    → Reach s t
    → IsCurrent s.manager.next s.manager.active snap
    → SameFor snap s.manager.clog t.manager.clog × IsCurrent t.manager.next t.manager.active snap
Reach-SameFor snap here h = (λ x lt out. refl, h)
Reach-SameFor snap (next r step) h =
    let (same, current) = Reach-SameFor snap r h in
    (
      λ x lt out. same x lt out ∙ Step-SameFor snap step current x lt out,
      Step-IsCurrent snap step current,
    )

-- From a manager as it is opened, take any schedule, a snapshot in the state it leads to, and any
-- schedule after that, in which transactions begin, commit and abort, the snapshot's guard may be
-- dropped and waits run: every row version looks to the snapshot as it did when it was taken.
pub repeatable_read :
    (start : ℕ) (clog : Clog) (s t : Schedule) (xid : ℕ) (xmin xmax t_cid : ℕ)
    → Reach (opened start clog) s
    → Reach (take_snapshot xid s) t
    → let snap = (snapshot xid s.manager).0 in
      is_visible xmin xmax t_cid snap t.manager.clog
      ≡ is_visible xmin xmax t_cid snap s.manager.clog
unfolding take_snapshot snapshot
repeatable_read start clog s t xid xmin xmax t_cid before after =
    let sound = Reach-IsSound before (opened-IsSound start clog) in
    let (same, current) =
      Reach-SameFor (snapshot xid s.manager).0 after
        (snapshot-IsCurrent s.manager xid sound.allocated) in
    sym (
      is_visible_stable xmin xmax t_cid (snapshot xid s.manager).0 s.manager.clog t.manager.clog
        same)
