-- ===== src/Storage/Examples.antt =====
-- Runs of the clock of log positions and of the snapshot of free pages.
use ams.Common.{ℕ, ◌+◌, ◌%◌, ◌^◌, ◌≤◌, ◌≡◌, refl, some, List, [], ◌∷◌, length, arith}
use ams.Storage.LsnClock
use ams.Storage.LsnClock.{
  write, hold, call, Calls, none_yet, then_call, next, reserve, lsn_alignment, disjoint_records,
}
use ams.Storage.FreelistMeta.{FreelistMeta, IsStorable, encode, decode, decode-encode}

disjoint_records_example : (8 + 24 ≤ 48) × (8 % lsn_alignment ≡ 0) × (48 % lsn_alignment ≡ 0)
unfolding call next reserve LsnClock.new
disjoint_records_example =
    disjoint_records 8 8 32 48 56 8 48 (write 24) (write 8) 8 refl none_yet (omega arith) refl
      (then_call (hold 16) 32 none_yet (omega arith) refl) (omega arith) refl

abbrev sum_crc : List ℕ → ℕ
sum_crc bytes = length bytes % 2 ^ 32

abbrev two_free : FreelistMeta
two_free = record { checkpoint_lsn = 128; page_ids = 7 ∷ 42 ∷ [] }

two_free-IsStorable : IsStorable sum_crc two_free
two_free-IsStorable = record {
  checksum = λ bytes. omega arith;
  lsn = omega arith;
  ids = (omega arith, (omega arith, tt));
  few = omega arith;
}

two_free_read : decode sum_crc (encode sum_crc two_free) ≡ some two_free
two_free_read = decode-encode sum_crc two_free two_free-IsStorable

decode-encode_example : decode sum_crc (encode sum_crc two_free) ≡ some two_free
decode-encode_example = decode-encode sum_crc two_free two_free-IsStorable
