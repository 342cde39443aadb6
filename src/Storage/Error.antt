-- ===== src/Storage/Error.antt =====
-- The errors of crates/pg-storage/src/error.rs, their messages and causes left out.
use ams.Common.{ℕ, ◌≡◌, refl, ◌⊎◌, inl, inr}

pub data StorageError : Type 0 where
  io : StorageError
  page_not_found : ℕ → StorageError
  buffer_pool_full : StorageError
  wal_corrupted : ℕ → StorageError
  wal_write_failed : StorageError
  wal_read_failed : StorageError
  checkpoint_failed : StorageError
  metadata_corrupted : StorageError
  lsn_not_available : ℕ → StorageError
  invalid_config : StorageError
  invalid_operation : StorageError
  serialize : StorageError
  recovery_required : StorageError
  unknown_record : ℕ → ℕ → StorageError

pub data Result (A : Type 0) : Type 0 where
  ok : A → Result A
  err : StorageError → Result A

pub Result-cases :
    {A : Type 0} (r : Result A) → ((e : StorageError) × (r ≡ err e)) ⊎ ((a : A) × (r ≡ ok a))
Result-cases (ok a) = inr (a, refl)
Result-cases (err e) = inl (e, refl)
