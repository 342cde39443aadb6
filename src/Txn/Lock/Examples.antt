-- ===== src/Txn/Lock/Examples.antt =====
-- Runs of the table lock manager.
use ams.Common.{◌≡◌, refl, true, false, inl, ◌⊎◌, arith}
use ams.Txn.Victims
use ams.Txn.Lock.{
  access_share, row_exclusive, access_exclusive, conflicts_with, is_granted, is_behind,
  holds_at_least, can_grant, is_compatible, grant, granted_now, deadlock_victim, must_wait,
  acquire_round, try_acquire, release_all, entry_of, enqueue_if_absent, is_queued, strengthen,
  pop_own,
}
use ams.Common.{[], ◌∷◌}
use ams.Txn.Lock.{LockManager, exclusive}
use ams.Txn.Lock.{Waiter}
use ams.Common.{some}
use ams.Txn.Lock.Queue.{request_of}
use ams.Txn.Lock.Enqueue.{StartsWith, queued_or}
use ams.Txn.Lock.System.{System, after_round, acquire, Reach, here, next, start}
use ams.Txn.Lock.Safety.{mutual_exclusion, IsBlocked, no_lost_wakeup, no_barging, acquire_outcome}
use ams.Txn.Lock.Release.{release_all_lem}

-- Transactions 1 and 2 write to table 7; then 3 asks for all of it, and waits behind them.
abbrev one : System
one = after_round start 1 7 row_exclusive

abbrev two : System
two = after_round one 2 7 row_exclusive

abbrev three : System
three = after_round two 3 7 access_exclusive

two_reached : Reach start two
unfolding after_round acquire_round Victims.take can_grant holds_at_least entry_of is_behind
    is_compatible conflicts_with grant strengthen pop_own enqueue_if_absent is_queued
two_reached =
    next (next here (acquire 1 7 row_exclusive (inl refl))) (acquire 2 7 row_exclusive (inl refl))

three_reached : Reach start three
unfolding after_round acquire_round Victims.take can_grant holds_at_least entry_of is_behind
    is_compatible conflicts_with grant strengthen pop_own enqueue_if_absent is_queued
three_reached = next two_reached (acquire 3 7 access_exclusive (inl refl))

mutual_exclusion_example : conflicts_with row_exclusive row_exclusive ≡ false
unfolding after_round acquire_round Victims.take can_grant holds_at_least entry_of is_behind
    is_compatible conflicts_with grant strengthen pop_own enqueue_if_absent is_queued is_granted
mutual_exclusion_example =
    mutual_exclusion three_reached 7 1 2 row_exclusive row_exclusive (λ e. omega (arith, e)) refl
      refl

no_lost_wakeup_example :
    (can_grant (entry_of three.manager 7) 3 access_exclusive ≡ true)
    ⊎ IsBlocked (entry_of three.manager 7)
unfolding after_round acquire_round Victims.take can_grant holds_at_least entry_of is_behind
    is_compatible conflicts_with grant strengthen pop_own enqueue_if_absent is_queued
no_lost_wakeup_example = no_lost_wakeup three_reached 3 7 access_exclusive refl

-- The request of 3 at the head of the queue.
abbrev first : Waiter
first = record { xid = 3; mode = access_exclusive }

no_barging_example :
    let (outcome, m') = acquire_round three.manager 4 7 access_share in
    (((outcome ≡ must_wait)
        × ((entry_of m' 7).granted ≡ (entry_of three.manager 7).granted)
        × StartsWith first (entry_of m' 7).wait_queue)
      ⊎ ((outcome ≡ deadlock_victim) × (Victims.is_marked 4 three.manager.victims ≡ true)))
    × (try_acquire three.manager 4 7 access_share ≡ (false, three.manager))
unfolding after_round acquire_round Victims.take can_grant holds_at_least entry_of is_behind
    is_compatible conflicts_with grant strengthen pop_own enqueue_if_absent is_queued
no_barging_example =
    no_barging three.manager 4 7 access_share first [] refl (λ e. omega (arith, e)) (λ held e. cc)

acquire_outcome_example :
    let (outcome, m') = acquire_round three.manager 4 7 access_share in
    let before = (entry_of three.manager 7).wait_queue in
    let after = (entry_of m' 7).wait_queue in
    ((outcome ≡ granted_now) × (is_granted m' 4 7 access_share ≡ true))
    ⊎ (((outcome ≡ must_wait)
          × (request_of after 4 ≡ some (queued_or (request_of before 4) access_share))
          × (request_of after 3 ≡ request_of before 3)
          × (can_grant (entry_of three.manager 7) 4 access_share ≡ false))
        ⊎ ((outcome ≡ deadlock_victim)
            × (Victims.is_marked 4 three.manager.victims ≡ true)
            × (Victims.is_marked 4 m'.victims ≡ false)))
acquire_outcome_example = acquire_outcome three.manager 4 3 7 access_share (λ e. omega (arith, e))

release_all_lem_example : is_granted (release_all three.manager 1) 1 7 access_share ≡ false
release_all_lem_example = release_all_lem three_reached 1 7 access_share

abbrev held_manager : LockManager
held_manager = record {
  entries = (7, record { granted = (1, exclusive) ∷ []; wait_queue = [] }) ∷ [];
  victims = [];
}
