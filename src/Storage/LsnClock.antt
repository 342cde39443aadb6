-- ===== src/Storage/LsnClock.antt =====
-- The allocator of log positions: crates/pg-storage/src/lsn_clock.rs. The state is the next position.
use ams.Common.{
  ℕ, ◌+◌, ◌%◌, ◌^◌, ◌≤◌, ◌<◌, ◌≡◌, not, Option, none, some, arith, ◌==◌, if◌then◌else◌,
}

-- `LSN_ALIGNMENT`
abbrev pub lsn_alignment : ℕ
lsn_alignment = 8

-- `none` is a panic of an assertion.
unfoldable pub new : ℕ → Option ℕ
new start =
    if start == 0 then none else if not (start % lsn_alignment == 0) then none else some start

-- The position that is handed out, and the clock after it. `fetch_add` is on 64 bits.
unfoldable pub next : ℕ → ℕ → Option (ℕ × ℕ)
next record_size clock =
    if record_size == 0
    then none
    else if not (record_size % lsn_alignment == 0)
    then none
    else some (clock, (clock + record_size) % 2 ^ 64)

-- `reserve` is the same code.
unfoldable pub reserve : ℕ → ℕ → Option (ℕ × ℕ)
reserve record_size clock =
    if record_size == 0
    then none
    else if not (record_size % lsn_alignment == 0)
    then none
    else some (clock, (clock + record_size) % 2 ^ 64)

-- A call on the clock: a record is written, or a place for one is reserved.
pub data Call : Type 0 where
  write hold : (record_size : ℕ) → Call

abbrev pub size_of : Call → ℕ
size_of (write n) = n
size_of (hold n) = n

unfoldable pub call : Call → ℕ → Option (ℕ × ℕ)
call (write n) clock = next n clock
call (hold n) clock = reserve n clock

-- Every sequence of calls that succeed and do not use up the clock, from one clock to another.
pub data Calls (clock : ℕ) : ℕ → Type 0 where
  none_yet : Calls clock clock
  then_call :
      {c d : ℕ} (k : Call) (lsn : ℕ)
      → Calls clock c
      → c + size_of k < 2 ^ 64
      → call k c ≡ some (lsn, d)
      → Calls clock d

one_call :
    (k : Call) (c lsn d : ℕ)
    → c + size_of k < 2 ^ 64
    → call k c ≡ some (lsn, d)
    → (lsn ≡ c) × (d ≡ c + size_of k) × (c % lsn_alignment ≡ 0 → d % lsn_alignment ≡ 0) × (c < d)
unfolding call next reserve
one_call (write n) c lsn d h e = (ground arith, ground arith, λ a. ground arith, ground arith)
one_call (hold n) c lsn d h e = (ground arith, ground arith, λ a. ground arith, ground arith)

new_aligned : (start clock : ℕ) → new start ≡ some clock → clock % lsn_alignment ≡ 0
unfolding new
new_aligned start clock e = ground arith

Calls-grow : {c d : ℕ} → Calls c d → (c ≤ d) × (c % lsn_alignment ≡ 0 → d % lsn_alignment ≡ 0)
Calls-grow none_yet = (omega arith, λ a. a)
Calls-grow (then_call {c = c} {d = d} k lsn calls fits e) =
    let (same, moved, aligned, less) = one_call k c lsn d fits e in
    let before = Calls-grow calls in (omega (arith, before.0, less), λ a. aligned (before.1 a))

-- Two calls on a clock, with any calls before and between them, none of which uses up the 64 bits:
-- the earlier record ends where the later one begins or before it, and both begin on a boundary.
pub disjoint_records :
    (start c d e f lsn1 lsn2 : ℕ) (k1 k2 : Call) (clock : ℕ)
    → new start ≡ some clock
    → Calls clock c
    → c + size_of k1 < 2 ^ 64
    → call k1 c ≡ some (lsn1, d)
    → Calls d e
    → e + size_of k2 < 2 ^ 64
    → call k2 e ≡ some (lsn2, f)
    → (lsn1 + size_of k1 ≤ lsn2) × (lsn1 % lsn_alignment ≡ 0) × (lsn2 % lsn_alignment ≡ 0)
disjoint_records start c d e f lsn1 lsn2 k1 k2 clock opened before fits1 e1 between fits2 e2 =
    let (s1, m1, a1, l1) = one_call k1 c lsn1 d fits1 e1 in
    let (s2, m2, a2, l2) = one_call k2 e lsn2 f fits2 e2 in
    let first = (Calls-grow before).1 (new_aligned start clock opened) in
    let second = (Calls-grow between).1 (a1 first) in
    (
      omega (arith, s1, s2, m1, (Calls-grow between).0),
      omega (arith, s1, first),
      omega (arith, s2, second),
    )
