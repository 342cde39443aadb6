-- ===== src/Txn/Clog/Memory.antt =====
-- `InMemoryClogAccessor` of crates/pg-txn/src/clog_mem.rs.
use ams.Common.{
  ℕ, ◌-◌, ◌≡◌, refl, Bool, true, false, ◌&&◌, not, Option, none, some, List, [], ◌∷◌, arith, ltb,
  ap, ◌∙◌, fun_ext, inl, inr, Bool-cases, if◌then◌else◌, length,
}
use ams.Common.Map.{Map, lookup, insert, lookup-insert, HasKeysOnce, insert-HasKeysOnce}
use ams.Txn.Clog.{TxnState, Clog, in_progress, is_committed, set_state}

pub record MemoryClog : Type 0 where
  pub states : Map TxnState
  pub never_gc : Bool

-- `new` and `with_gc_enabled`.
abbrev pub new : MemoryClog
new = record { states = []; never_gc = true }

abbrev pub with_gc_enabled : MemoryClog
with_gc_enabled = record { states = []; never_gc = false }

unfoldable pub or_in_progress : Option TxnState → TxnState
or_in_progress none = in_progress
or_in_progress (some s) = s

unfoldable pub get_state : MemoryClog → ℕ → TxnState
get_state c xid = or_in_progress (lookup xid c.states)

unfoldable pub record_state : ℕ → TxnState → MemoryClog → MemoryClog
record_state xid state c = record c { states = insert xid state c.states }

-- `retain(|xid, state| !(state == Committed && xid < bound))`
unfoldable pub keep_states : ℕ → Map TxnState → Map TxnState
keep_states bound [] = []
keep_states bound ((xid, state) ∷ rest) =
    let others = keep_states bound rest in
    if is_committed state && ltb xid bound then others else (xid, state) ∷ others

unfoldable pub gc_committed_below : ℕ → MemoryClog → ℕ × MemoryClog
gc_committed_below bound c = if c.never_gc then (0, c) else (
  length c.states - length (keep_states bound c.states),
  record c { states = keep_states bound c.states },
)

lookup-keep_states :
    (bound x : ℕ) (m : Map TxnState)
    → HasKeysOnce m
    → or_in_progress (lookup x (keep_states bound m)) ≡ (
        if is_committed (or_in_progress (lookup x m)) && ltb x bound
        then in_progress
        else or_in_progress (lookup x m))
unfolding keep_states or_in_progress is_committed
lookup-keep_states bound x [] h = refl
lookup-keep_states bound x ((k, s) ∷ m) h = ground (arith, lookup-keep_states bound x m h.1, h.0)

-- What a recording changes of the answers.
get_state-record_state :
    (c : MemoryClog) (xid x : ℕ) (state : TxnState)
    → get_state (record_state xid state c) x ≡ set_state xid state (get_state c) x
unfolding get_state record_state set_state or_in_progress
get_state-record_state c xid x state = ground (arith, lookup-insert xid x state c.states)

-- Garbage collection, in a log whose map has each key once, removes nothing while it is switched
-- off; else exactly the committed transactions below the bound read as in progress afterwards, and
-- every other transaction, each aborted one among them, reads as before.
pub gc_committed_below_lem :
    (c : MemoryClog) (bound x : ℕ)
    → HasKeysOnce c.states
    → get_state (gc_committed_below bound c).1 x ≡ (
        if not c.never_gc && (is_committed (get_state c x) && ltb x bound)
        then in_progress
        else get_state c x)
unfolding get_state gc_committed_below
gc_committed_below_lem c bound x h = ground (arith, lookup-keep_states bound x c.states h)

-- The calls that change the log.
pub data Op : Type 0 where
  record_op : ℕ → TxnState → Op
  gc_op : ℕ → Op

unfoldable pub run : List Op → MemoryClog → MemoryClog
run [] c = c
run (record_op xid state ∷ ops) c = run ops (record_state xid state c)
run (gc_op bound ∷ ops) c = run ops (gc_committed_below bound c).1

-- What the contract says of the same calls, where garbage collection forgets commits or does nothing.
unfoldable pub spec : Bool → List Op → Clog → Clog
spec gc [] clog = clog
spec gc (record_op xid state ∷ ops) clog = spec gc ops (set_state xid state clog)
spec gc (gc_op bound ∷ ops) clog =
    spec gc ops (λ x. if gc && (is_committed (clog x) && ltb x bound) then in_progress else clog x)

keep_states-missing :
    (bound x : ℕ) (m : Map TxnState) → lookup x m ≡ none → lookup x (keep_states bound m) ≡ none
unfolding keep_states
keep_states-missing bound x [] h = refl
keep_states-missing bound x ((k, s) ∷ m) h = ground (arith, keep_states-missing bound x m, h)

keep_states-HasKeysOnce :
    (bound : ℕ) (m : Map TxnState) → HasKeysOnce m → HasKeysOnce (keep_states bound m)
unfolding keep_states
keep_states-HasKeysOnce bound [] h = tt
keep_states-HasKeysOnce bound ((k, s) ∷ m) h =
    ground (arith, keep_states-HasKeysOnce bound m h.1, keep_states-missing bound k m h.0)

gc-HasKeysOnce :
    (bound : ℕ) (c : MemoryClog)
    → HasKeysOnce c.states
    → HasKeysOnce (gc_committed_below bound c).1.states
unfolding gc_committed_below
gc-HasKeysOnce bound c h = elim (Bool-cases c.never_gc) [
  | inl off ↦ rw off h
  | inr on ↦ rw on (keep_states-HasKeysOnce bound c.states h)
]

gc-never_gc : (bound : ℕ) (c : MemoryClog) → (gc_committed_below bound c).1.never_gc ≡ c.never_gc
unfolding gc_committed_below
gc-never_gc bound c = elim (Bool-cases c.never_gc) [ inl off ↦ rw off refl | inr on ↦ rw on refl ]

run_from :
    (c : MemoryClog) (ops : List Op)
    → HasKeysOnce c.states
    → get_state (run ops c) ≡ spec (not c.never_gc) ops (get_state c)
unfolding run spec record_state
run_from c [] h = refl
run_from c (record_op xid state ∷ ops) h =
    run_from (record_state xid state c) ops (insert-HasKeysOnce xid state c.states h)
    ∙ ap (spec (not c.never_gc) ops) (fun_ext (λ x. get_state-record_state c xid x state))
run_from c (gc_op bound ∷ ops) h =
    let collected = (gc_committed_below bound c).1 in
    run_from collected ops (gc-HasKeysOnce bound c h)
    ∙ ap (λ (b : Bool). spec (not b) ops (get_state collected)) (gc-never_gc bound c)
    ∙ ap (spec (not c.never_gc) ops) (fun_ext (λ x. gc_committed_below_lem c bound x h))

-- The log, opened with garbage collection or without, after any sequence of recordings and garbage
-- collections: a transaction that was never recorded reads as in progress, each other as recorded
-- last; a collection turns the committed transactions below its bound to in progress where it is
-- switched on, and nothing else.
pub run_answers_calls :
    (gc : Bool) (ops : List Op)
    → get_state (run ops (if gc then with_gc_enabled else new)) ≡ spec gc ops (λ _. in_progress)
unfolding get_state or_in_progress
run_answers_calls true ops = run_from with_gc_enabled ops tt
run_answers_calls false ops = run_from new ops tt
