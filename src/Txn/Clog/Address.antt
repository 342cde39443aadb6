-- ===== src/Txn/Clog/Address.antt =====
-- The commit log on disk (crates/pg-txn/src/clog_file.rs): where the state of a transaction lies,
-- and the two states in one byte.
use Prim.Native.Nat.{bit_and, bit_or}
use ams.Common.Bits.{
  agree_below, agree_below_sound, bit_and-ones, bit_and-one, bit_or_disjoint, bit_or_comm,
}
use ams.Common.{
  ℕ, ◌+◌, ◌*◌, ◌/◌, ◌%◌, ◌^◌, ◌≤◌, ◌<◌, ◌≡◌, ◌≢◌, refl, Option, none, some, arith, ◌==◌,
  if◌then◌else◌, ◌⊎◌, inl, inr, ◌↔◌,
}
use ams.Txn.Clog.{TxnState, in_progress, committed, aborted, sub_committed, state_code}

abbrev pub clog_page_bytes : ℕ
clog_page_bytes = 8192

abbrev pub xids_per_clog_page : ℕ
xids_per_clog_page = clog_page_bytes * 2

abbrev pub xids_per_segment : ℕ
xids_per_segment = 268_435_456

abbrev pub clog_segment_bytes : ℕ
clog_segment_bytes = xids_per_segment / 2

abbrev pub clog_pages_per_segment : ℕ
clog_pages_per_segment = clog_segment_bytes / clog_page_bytes

unfoldable pub segment_id_of_xid : ℕ → ℕ
segment_id_of_xid xid = xid / xids_per_segment

unfoldable pub byte_offset_of_xid : ℕ → ℕ
byte_offset_of_xid xid = xid % xids_per_segment / 2

unfoldable pub page_no_of_xid : ℕ → ℕ
page_no_of_xid xid = xid / xids_per_clog_page

unfoldable pub byte_in_page_of_xid : ℕ → ℕ
byte_in_page_of_xid xid = xid % xids_per_clog_page / 2

unfoldable pub segment_id_of_page : ℕ → ℕ
segment_id_of_page page_no = page_no / clog_pages_per_segment

unfoldable pub page_offset_in_segment : ℕ → ℕ
page_offset_in_segment page_no = page_no % clog_pages_per_segment * clog_page_bytes

-- The page of a transaction lies in the transaction's segment, inside the segment's file, and the
-- byte in the page is the byte in the segment.
pub page_address :
    (xid : ℕ)
    → (segment_id_of_page (page_no_of_xid xid) ≡ segment_id_of_xid xid)
      × (page_offset_in_segment (page_no_of_xid xid) + byte_in_page_of_xid xid
          ≡ byte_offset_of_xid xid)
      × (page_offset_in_segment (page_no_of_xid xid) + clog_page_bytes ≤ clog_segment_bytes)
      × (byte_in_page_of_xid xid < clog_page_bytes)
unfolding segment_id_of_page page_no_of_xid segment_id_of_xid page_offset_in_segment
    byte_in_page_of_xid byte_offset_of_xid
page_address xid = omega arith

-- `byte >> 4` of the even transaction, `byte & 0x0F` of the odd one.
unfoldable pub get_nibble : ℕ → ℕ → ℕ
get_nibble byte xid = if bit_and xid 1 == 0 then byte / 2 ^ 4 else bit_and byte 0x0F

-- A byte keeps its low eight bits under `<<`.
unfoldable pub set_nibble : ℕ → ℕ → ℕ → ℕ
set_nibble byte xid state =
    if bit_and xid 1 == 0
    then bit_or (bit_and byte 0x0F) (bit_and state 0x0F * 2 ^ 4 % 2 ^ 8)
    else bit_or (bit_and byte 0xF0) (bit_and state 0x0F)

-- `none` is the panic on a nibble that is no state.
unfoldable pub txn_state_from_nibble : ℕ → Option TxnState
txn_state_from_nibble nibble =
    if nibble == 0
    then some in_progress
    else if nibble == 1
    then some committed
    else if nibble == 2
    then some aborted
    else if nibble == 3
    then some sub_committed
    else none

low_nibble : (b : ℕ) → bit_and b 0x0F ≡ b % 16
low_nibble b = bit_and-ones 4 b

high_nibble : (b : ℕ) → b < 256 → bit_and b 0xF0 ≡ b / 16 * 16
unfolding agree_below
high_nibble = agree_below_sound 256 (λ b. bit_and b 0xF0) (λ b. b / 16 * 16) refl

or_nibbles : (low high : ℕ) → low < 16 → bit_or low (high * 16) ≡ low + high * 16
or_nibbles low high h = bit_or_disjoint 4 low high h

-- A nibble is read and written as the high digit of the byte for an even transaction, and as the
-- low digit for an odd one.
get_nibble_even : (byte xid : ℕ) → xid % 2 ≡ 0 → get_nibble byte xid ≡ byte / 16
unfolding get_nibble
get_nibble_even byte xid h = ground (arith, bit_and-one xid)

get_nibble_odd : (byte xid : ℕ) → xid % 2 ≡ 1 → get_nibble byte xid ≡ byte % 16
unfolding get_nibble
get_nibble_odd byte xid h = ground (arith, bit_and-one xid, low_nibble byte)

set_nibble_even :
    (byte xid state : ℕ) → xid % 2 ≡ 0 → set_nibble byte xid state ≡ byte % 16 + state % 16 * 16
unfolding set_nibble
set_nibble_even byte xid state h = ground (
  arith,
  bit_and-one xid,
  low_nibble byte,
  low_nibble state,
  small,
  or_nibbles (byte % 16) (state % 16) (omega arith),
)
  where
    small : state % 16 * 16 % 256 ≡ state % 16 * 16
    small = omega arith

set_nibble_odd :
    (byte xid state : ℕ)
    → byte < 256
    → xid % 2 ≡ 1
    → set_nibble byte xid state ≡ byte / 16 * 16 + state % 16
unfolding set_nibble
set_nibble_odd byte xid state b h = ground (
  arith,
  bit_and-one xid,
  high_nibble byte b,
  low_nibble state,
  bit_or_comm (byte / 16 * 16) (state % 16),
  or_nibbles (state % 16) (byte / 16) (omega arith),
)

parity : (x : ℕ) → (x % 2 ≡ 0) ⊎ (x % 2 ≡ 1)
parity x = omega arith

-- A state of four bits that is written to a byte is read back for its transaction, the state of
-- the other transaction of the byte is not touched, and the result is a byte.
pub get_nibble-set_nibble :
    (byte xid state other : ℕ)
    → byte < 256
    → state < 16
    → other % 2 ≢ xid % 2
    → (get_nibble (set_nibble byte xid state) xid ≡ state)
      × (get_nibble (set_nibble byte xid state) other ≡ get_nibble byte other)
      × (set_nibble byte xid state < 256)
get_nibble-set_nibble byte xid state y b st ne = elim (parity xid) [
  | inl even ↦ rw (set_nibble_even byte xid state even) (
    rw (get_nibble_even _ xid even) (omega arith),
    rw (get_nibble_odd _ y (omega arith), get_nibble_odd byte y (omega arith)) (omega arith),
    omega arith,
  )
  | inr odd ↦ rw (set_nibble_odd byte xid state b odd) (
    rw (get_nibble_odd _ xid odd) (omega arith),
    rw (get_nibble_even _ y (omega arith), get_nibble_even byte y (omega arith)) (omega arith),
    omega arith,
  )
]

-- Each state is decoded from its nibble, and from no other nibble.
pub txn_state_from_nibble_iff :
    (nibble : ℕ) (s : TxnState) → (txn_state_from_nibble nibble ≡ some s) ↔ (nibble ≡ state_code s)
unfolding txn_state_from_nibble state_code
txn_state_from_nibble_iff nibble s = ground arith

-- Two transactions never share a place: their segments, their bytes or their halves of the byte
-- differ.
pub address_injective :
    (x y : ℕ)
    → x ≢ y
    → (segment_id_of_xid x ≢ segment_id_of_xid y)
      ⊎ ((byte_offset_of_xid x ≢ byte_offset_of_xid y) ⊎ (x % 2 ≢ y % 2))
unfolding segment_id_of_xid byte_offset_of_xid
address_injective x y ne = omega arith
