-- ===== src/Txn/Clog/Buffer/Examples.antt =====
-- Runs of the cache of commit log pages.
use ams.Common.{ℕ, ◌<◌, ◌≡◌, refl, inl, true, false, some, List, [], ◌∷◌, arith}
use ams.Txn.Clog
use ams.Txn.Clog.{TxnState, in_progress, committed, aborted, Clog}
use ams.Txn.Clog.Address.{get_nibble, txn_state_from_nibble}
use ams.Txn.Clog.Segments.{Os, read_page}
use ams.Txn.Clog.Buffer.{Inner, ClogBuffer, open_buffer, set_state, flush_dirty}
use ams.Txn.Clog.Buffer.Sweep.{Takes, find_victim_ends}
use ams.Txn.Clog.Buffer.Flush.{store_on, flush_dirty_succeeds}
use ams.Txn.Clog.Buffer.Contract.{state_in, Holds, set_state_lem}
use ams.Txn.Clog.Buffer.Runs.{Op, get, put, flush, spec, open_buffer-Holds, crash_keeps_states}

abbrev good_os : Os
good_os = record { reads = λ _. true; writes = λ _. true; syncs = λ _. true }

-- No call of the operating system works.
abbrev broken_os : Os
broken_os = record { reads = λ _. false; writes = λ _. false; syncs = λ _. false }

abbrev empty_files : ℕ → ℕ → ℕ
empty_files = λ _ _. 0

abbrev no_states : Clog
no_states = λ _. in_progress

fresh : (r : ClogBuffer) × (open_buffer (store_on empty_files) 4 ≡ some r)
unfolding open_buffer
fresh = (_, refl)

empty_states : (xid : ℕ) → state_in (λ p. read_page p (store_on empty_files)) xid ≡ some in_progress
unfolding state_in read_page get_nibble txn_state_from_nibble
empty_states xid = ground arith

empty_bytes : (p i : ℕ) → read_page p (store_on empty_files) i < 256
unfolding read_page
empty_bytes p i = omega arith

fresh-Holds : Holds fresh.0 no_states
fresh-Holds =
    open_buffer-Holds empty_files no_states 4 fresh.0 (λ p i _ _. empty_bytes p i)
      (λ xid _. empty_states xid) fresh.1

abbrev some_ops : List Op
some_ops = put 5 committed ∷ put 100000 aborted ∷ flush broken_os ∷ get 5 ∷ get 100000 ∷ get 4 ∷ []

some_answers : (spec some_ops no_states).0 ≡ committed ∷ aborted ∷ in_progress ∷ []
unfolding spec Clog.set_state
some_answers = refl

-- A cache with one state that is not written back.
dirty :
    (r : ClogBuffer) × (set_state good_os 5 committed fresh.0 ≡ some r)
    × Holds r (Clog.set_state 5 committed no_states)
dirty =
    set_state_lem good_os fresh.0 no_states 5 committed (λ _. (refl, refl)) fresh-Holds
      (omega arith) (λ e. omega (arith, e))

abbrev left : ℕ → ℕ → ℕ
left = (flush_dirty good_os dirty.0).1.store.synced

restarted : (r : ClogBuffer) × (open_buffer (store_on left) 8 ≡ some r)
unfolding open_buffer
restarted = (_, refl)

crash_keeps_states_example : Holds restarted.0 (Clog.set_state 5 committed no_states)
crash_keeps_states_example =
    crash_keeps_states good_os dirty.0 (Clog.set_state 5 committed no_states) left 8 restarted.0
      dirty.2 (flush_dirty_succeeds good_os (λ _. (refl, refl)) dirty.0) (λ _ _. inl refl)
      restarted.1

find_victim_ends_example : (idx : ℕ) × (y : Inner) × Takes fresh.0.inner idx y
unfolding fresh
find_victim_ends_example = find_victim_ends fresh.0.inner (omega arith)
