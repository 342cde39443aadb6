-- ===== src/Txn/Examples.antt =====
-- Runs of the transaction manager, of visibility and of the commit log.
use ams.Common.{◌+◌, ◌≡◌, refl, false, some, [], ◌∷◌, arith, ltb, if◌then◌else◌}
use ams.Common.{ℕ, true, List}
use ams.Txn.Clog.{in_progress, committed, aborted, is_committed, set_state, Clog}
use ams.Txn.Clog.Memory
use ams.Txn.Clog.Memory.{get_state, run_answers_calls}
use ams.Txn.Visibility.{Snapshot, visible, invisible, oracle_is_visible, is_visible}
use ams.Txn.Visibility.Rule.{rule, oracle_is_visible-rule}
use ams.Txn.Manager.{
  begin_txn, alloc, end_txn_state, end_txn_leave, snapshot, unwrap_or, oldest_snapshot_xmin,
}
use ams.Txn.Manager.Schedule.{
  Schedule, take_snapshot, begin, flip, leave, take, Reach, here, next, opened,
}
use ams.Txn.Manager.Isolation.{repeatable_read}
use ams.Txn.Manager.Commit.{CommitWal}
use ams.Txn.Manager.Vacuum.{vacuum_safety}

abbrev nothing_recorded : Clog
nothing_recorded xid = in_progress

-- Transaction 1 begins.
abbrev running : Schedule
running = let s = opened 1 nothing_recorded in record s { manager = (begin_txn s.manager).1 }

running_reached : Reach (opened 1 nothing_recorded) running
running_reached = next here (begin (omega arith))

-- Transaction 1 commits while a reader's snapshot lives.
abbrev watched : Schedule
watched = take_snapshot 0 running

abbrev flipped : Schedule
flipped = record watched { manager = end_txn_state 1 committed watched.manager }

flipped_reached : Reach watched flipped
unfolding take_snapshot snapshot begin_txn alloc
flipped_reached = next here (flip 1 committed refl)

repeatable_read_example :
    is_visible 1 0 0 (snapshot 0 running.manager).0 flipped.manager.clog
    ≡ is_visible 1 0 0 (snapshot 0 running.manager).0 running.manager.clog
repeatable_read_example =
    repeatable_read 1 nothing_recorded running flipped 0 1 0 0 running_reached flipped_reached

-- Transaction 1 commits and leaves; then a snapshot is taken.
abbrev committed_one : Schedule
committed_one = record running { manager = end_txn_state 1 committed running.manager }

abbrev left : Schedule
left = record committed_one { manager = end_txn_leave 1 committed_one.manager }

left_reached : Reach (opened 1 nothing_recorded) left
unfolding end_txn_state begin_txn alloc
left_reached = next (next running_reached (flip 1 committed refl)) (leave 1 refl)

vacuum_safety_example :
    is_visible 1 1 0 (snapshot 0 left.manager).0 (take_snapshot 0 left).manager.clog ≡ false
unfolding take_snapshot snapshot begin_txn alloc end_txn_state end_txn_leave set_state is_committed
    oldest_snapshot_xmin unwrap_or
vacuum_safety_example =
    vacuum_safety 1 nothing_recorded left (take_snapshot 0 left) [] [] (snapshot 0 left.manager).0 1
      1 0 left_reached (next here (take 0)) refl (λ e. omega (arith, e)) (λ e. omega (arith, e))
      (omega arith) refl

abbrev reader : Snapshot
reader = record { xmin = 3; xmax = 9; xip = 3 ∷ 5 ∷ []; current_xid = 4; curcid = 2 }

abbrev early_committed : Clog
early_committed xid = if ltb xid 8 then committed else in_progress

oracle_is_visible-rule_example :
    oracle_is_visible 2 6 0 reader early_committed
    ≡ (if rule 2 6 0 reader early_committed then visible else invisible)
oracle_is_visible-rule_example = oracle_is_visible-rule 2 6 0 reader early_committed

-- Recordings and a collection that forgets the commit of 3, and keeps the abort of 4.
abbrev calls_made : List Memory.Op
calls_made =
    Memory.record_op 3 committed
    ∷ Memory.record_op 4 aborted
    ∷ Memory.gc_op 10
    ∷ Memory.record_op 5 committed
    ∷ []

run_answers_calls_example :
    get_state (Memory.run calls_made (if true then Memory.with_gc_enabled else Memory.new))
    ≡ Memory.spec true calls_made (λ _. in_progress)
run_answers_calls_example = run_answers_calls true calls_made

-- A log that is its end and the position that was flushed last; a record is an id.
abbrev plain_wal : CommitWal (ℕ × ℕ) ℕ
plain_wal = record {
  append = λ r log. (some log.0, (log.0 + 32, log.1));
  flush_to = λ lsn log. (true, (log.0, lsn));
}
