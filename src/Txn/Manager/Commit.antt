-- ===== src/Txn/Manager/Commit.antt =====
-- The durable end of a transaction: `CommitWal`, `commit_txn` and `abort_txn` of
-- crates/pg-txn/src/manager.rs, over the trait object of the write-ahead log,
-- of which nothing is assumed.
use ams.Common.{
  ℕ, ◌+◌, ◌%◌, ◌^◌, ◌≡◌, ◌≢◌, refl, ap, ◌⊎◌, inl, inr, Bool, true, false, Option, none, some, arith,
  contains-set_remove, if◌then◌else◌, ==-refl, Option-cases,
}
use ams.Txn.Clog.{TxnState, committed, aborted, set_state}
use ams.Txn.Manager.{TxnManager, end_txn, end_txn_state, end_txn_leave, is_active}

-- `CommitWal`, on a state of the log: any two operations; `none` and `false` are errors.
pub record CommitWal (Log Record : Type 0) : Type 0 where
  pub append : Record → Log → Option ℕ × Log
  pub flush_to : ℕ → Log → Bool × Log

-- The records `WalRecord::txn_commit` and `txn_abort`, which may fail, and `record_size`.
module _ {Log Record : Type 0} (wal : CommitWal Log Record) (record_size : Record → ℕ) where
  -- `append` and `flush_to` through the end of the record.
  unfoldable pub write_through : Option Record → Log → Bool × Log
  write_through none log = (false, log)
  write_through (some r) log =
      let (lsn?, appended) = wal.append r log in
      elim lsn? [
        | none ↦ (false, appended)
        | some lsn ↦ wal.flush_to ((lsn + record_size r) % 2 ^ 64) appended
      ]

  -- `fail` is the failure that tests inject.
  unfoldable pub commit_txn :
      Bool → (ℕ → Option Record) → ℕ → Log × TxnManager → Bool × (Log × TxnManager)
  commit_txn fail txn_commit xid (log, m) =
      let (durable, log') = write_through (txn_commit xid) log in
      if fail
      then (false, (log, m))
      else if durable
      then (true, (log', end_txn xid committed m))
      else (false, (log', m))

  unfoldable pub abort_txn : (ℕ → Option Record) → ℕ → Log × TxnManager → Bool × (Log × TxnManager)
  abort_txn txn_abort xid (log, m) =
      let (durable, log') = write_through (txn_abort xid) log in
      if durable then (true, (log', end_txn xid aborted m)) else (false, (log', m))

  -- The calls that have succeeded, one after the other: the record is made, appended, and the log
  -- flushed through the end of the record, a sum of 64 bits.
  pub record IsFlushed (record? : Option Record) (log log' : Log) : Type 0 where
    pub entry : Record
    pub lsn : ℕ
    pub made : record? ≡ some entry
    pub appended : (wal.append entry log).0 ≡ some lsn
    pub flushed :
        wal.flush_to ((lsn + record_size entry) % 2 ^ 64) (wal.append entry log).1 ≡ (true, log')

  -- The call that has failed, and the log that it leaves.
  pub data IsRefused (record? : Option Record) (log log' : Log) : Type 0 where
    not_made : record? ≡ none → log' ≡ log → IsRefused record? log log'
    not_appended :
        (entry : Record)
        → record? ≡ some entry
        → wal.append entry log ≡ (none, log')
        → IsRefused record? log log'
    not_flushed :
        (entry : Record) (lsn : ℕ)
        → record? ≡ some entry
        → (wal.append entry log).0 ≡ some lsn
        → wal.flush_to ((lsn + record_size entry) % 2 ^ 64) (wal.append entry log).1 ≡ (false, log')
        → IsRefused record? log log'

  write_through-appended :
      (r : Record) (log : Log) (lsn : ℕ)
      → (wal.append r log).0 ≡ some lsn
      → write_through (some r) log
        ≡ wal.flush_to ((lsn + record_size r) % 2 ^ 64) (wal.append r log).1
  unfolding write_through
  write_through-appended r log lsn e = ground arith

  write_through-refused :
      (r : Record) (log : Log)
      → (wal.append r log).0 ≡ none
      → write_through (some r) log ≡ (false, (wal.append r log).1)
  unfolding write_through
  write_through-refused r log e = ground arith

  -- The outcome of a flush is one of two.
  outcome_cases : (o : Bool × Log) → (o ≡ (true, o.1)) ⊎ (o ≡ (false, o.1))
  outcome_cases (true, log) = inl refl
  outcome_cases (false, log) = inr refl

  write_through_lem :
      (record? : Option Record) (log : Log)
      → let (durable, log') = write_through record? log in
        ((durable ≡ true) × IsFlushed record? log log')
        ⊎ ((durable ≡ false) × IsRefused record? log log')
  write_through_lem none log = unfold write_through in inr (refl, not_made refl refl)
  write_through_lem (some r) log = elim (Option-cases (wal.append r log).0) [
    | inl e ↦
        rw (write_through-refused r log e)
          (inr (refl, not_appended r refl (ap (λ (t : Option ℕ). (t, (wal.append r log).1)) e)))
    | inr (lsn, e) ↦
        let end = (lsn + record_size r) % 2 ^ 64 in
        elim (outcome_cases (wal.flush_to end (wal.append r log).1)) [
          | inl done ↦ rw (write_through-appended r log lsn e) (
              inl (
                ap (λ (t : Bool × Log). t.0) done,
                record { entry = r; lsn = lsn; made = refl; appended = e; flushed = done },
              ))
          | inr failed ↦
              rw (write_through-appended r log lsn e)
                (inr (ap (λ (t : Bool × Log). t.0) failed, not_flushed r lsn refl e failed))
        ]
  ]

  -- What the manager makes of an end of `xid` in a state; `y` is any other transaction.
  ended :
      (xid y : ℕ) (state : TxnState) (m : TxnManager)
      → y ≢ xid
      → ((end_txn xid state m).clog xid ≡ state)
        × (is_active (end_txn xid state m) xid ≡ false)
        × ((end_txn xid state m).clog y ≡ m.clog y)
        × (is_active (end_txn xid state m) y ≡ is_active m y)
  unfolding end_txn end_txn_state end_txn_leave set_state is_active
  ended xid y state m ne = (
    rw ==-refl refl,
    rw (contains-set_remove, ==-refl) refl,
    ground (arith, ne),
    ground (arith, contains-set_remove xid y m.active, ne),
  )

  -- An abort, likewise.
  pub abort_txn_hard_order :
      (txn_abort : ℕ → Option Record) (xid y : ℕ) (log : Log) (m : TxnManager)
      → y ≢ xid
      → let (success, (log', m')) = abort_txn txn_abort xid (log, m) in
        ((success ≡ true)
          × IsFlushed (txn_abort xid) log log'
          × (m'.clog xid ≡ aborted)
          × (is_active m' xid ≡ false)
          × (m'.clog y ≡ m.clog y)
          × (is_active m' y ≡ is_active m y))
        ⊎ ((success ≡ false) × (m' ≡ m) × IsRefused (txn_abort xid) log log')
  unfolding abort_txn
  abort_txn_hard_order txn_abort xid y log m ne = elim (write_through_lem (txn_abort xid) log) [
    | inl (d, flushed) ↦
        let (bit, left, kept, others) = ended xid y aborted m ne in
        rw d (inl (refl, flushed, bit, left, kept, others))
    | inr (d, refused) ↦ rw d (inr (refl, refl, refused))
  ]
