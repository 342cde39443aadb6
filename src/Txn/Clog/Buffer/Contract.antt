-- ===== src/Txn/Clog/Buffer/Contract.antt =====
-- The cache of commit log pages implements the contract of `ClogAccessor`, for every sequence of
-- operations, and across a crash (crates/pg-txn/src/clog_buffer.rs, crates/pg-storage/src/clog.rs).
use ams.Common.{
  ℕ, ◌+◌, ◌%◌, ◌^◌, ◌<◌, ◌≡◌, ◌≢◌, refl, ◌∙◌, inl, inr, ◌&&◌, Option, some, arith, ◌==◌,
  if◌then◌else◌, Bool-cases,
}
use ams.Txn.Clog
use ams.Txn.Clog.{TxnState, in_progress, committed, aborted, sub_committed, state_code, Clog}
use ams.Txn.Clog.Address.{
  clog_page_bytes, byte_in_page_of_xid, page_no_of_xid, get_nibble, set_nibble,
  txn_state_from_nibble, get_nibble-set_nibble, txn_state_from_nibble_iff,
}
use ams.Txn.Clog.Segments.{Os}
use ams.Txn.Clog.Buffer.{ClogBuffer, invalid_page_no, get_state, set_state, stamp}
use ams.Txn.Clog.Buffer.Coherent.{page_of, IsCoherent, Keeps}
use ams.Txn.Clog.Buffer.Locate.{
  IsHealthy, IsLocated, locate_frame_lem, stamp-IsCoherent, page_of-stamp,
}

-- The state of a transaction in the byte of a page; `none` is a nibble that is no state.
unfoldable pub state_in : (ℕ → ℕ → ℕ) → ℕ → Option TxnState
state_in pages xid =
    if xid == 0
    then some in_progress
    else txn_state_from_nibble
        (get_nibble (pages (page_no_of_xid xid) (byte_in_page_of_xid xid)) xid)

-- The cache stands for a log of states: its pages are bytes, with the state of each transaction.
pub record Holds (b : ClogBuffer) (clog : Clog) : Type 0 where
  pub coherent : IsCoherent b
  pub bytes : (p i : ℕ) → p ≢ invalid_page_no → i < clog_page_bytes → page_of b p i < 256
  pub states : (xid : ℕ) → xid < 2 ^ 64 → state_in (page_of b) xid ≡ some (clog xid)

pub address_bounds :
    (xid : ℕ)
    → xid < 2 ^ 64
    → (page_no_of_xid xid ≢ invalid_page_no) × (byte_in_page_of_xid xid < clog_page_bytes)
unfolding page_no_of_xid byte_in_page_of_xid
address_bounds xid h = (λ e. omega arith, omega arith)

-- The pages decide the states.
pub state_in_same :
    (f g : ℕ → ℕ → ℕ) (xid : ℕ)
    → f (page_no_of_xid xid) (byte_in_page_of_xid xid)
      ≡ g (page_no_of_xid xid) (byte_in_page_of_xid xid)
    → state_in f xid ≡ state_in g xid
unfolding state_in
state_in_same f g xid h = rw h refl

pub Keeps-Holds : {a b : ClogBuffer} (clog : Clog) → Keeps a b → Holds a clog → Holds b clog
Keeps-Holds {a} {b} clog k h = record {
  coherent = k.coherent;
  bytes = λ p i ne lt. rw (k.pages p i ne lt) (h.bytes p i ne lt);
  states = λ xid small.
      let (ne, lt) = address_bounds xid small in
      state_in_same (page_of b) (page_of a) xid
        (k.pages (page_no_of_xid xid) (byte_in_page_of_xid xid) ne lt)
      ∙ h.states xid small;
}

-- A page as its frame has it.
frame_page :
    {os : Os} {p idx : ℕ} {b r : ClogBuffer} (i : ℕ)
    → IsLocated os p b idx r
    → p ≢ invalid_page_no
    → (r.inner.frames idx).bytes i ≡ page_of r p i
unfolding page_of
frame_page {p = p} {idx = idx} {r = r} i l ne =
    ground (arith, rw l.holds at (l.keeps.coherent.held idx l.position (rw l.holds ne)))

-- Reading a state gives the state that the cache stands for.
pub get_state_lem :
    (os : Os) (b : ClogBuffer) (clog : Clog) (xid : ℕ)
    → IsHealthy os
    → Holds b clog
    → xid < 2 ^ 64
    → (r : ClogBuffer) × (get_state os xid b ≡ some (clog xid, r)) × Holds r clog
unfolding get_state state_in
get_state_lem os b clog xid healthy h small = elim (Bool-cases (xid == 0)) [
  | inl invalid ↦ (b, ground (arith, invalid, h.states xid small), h)
  | inr valid ↦
      let (ne, lt) = address_bounds xid small in
      let (idx, r, l) = locate_frame_lem b os (page_no_of_xid xid) h.coherent healthy ne in
      let after = Keeps-Holds clog l.keeps h in
      (
        r,
        ground (
          arith,
          valid,
          l.found,
          frame_page (byte_in_page_of_xid xid) l ne,
          after.states xid small,
        ),
        after,
      )
]

state_code_bound : (state : TxnState) → state_code state < 16
unfolding state_code
state_code_bound state = ground arith

-- Two transactions in one byte have different parities.
parities :
    (x y : ℕ)
    → x ≢ y
    → page_no_of_xid y ≡ page_no_of_xid x
    → byte_in_page_of_xid y ≡ byte_in_page_of_xid x
    → y % 2 ≢ x % 2
unfolding page_no_of_xid byte_in_page_of_xid
parities x y ne p q same = ne (omega (arith, p, q, same))

-- The pages after the state of a transaction is written to its byte.
abbrev write_state : (ℕ → ℕ → ℕ) → ℕ → TxnState → ℕ → ℕ → ℕ
write_state f xid state q i =
    if q == page_no_of_xid xid && (i == byte_in_page_of_xid xid)
    then set_nibble (f q i) xid (state_code state)
    else f q i

written_state :
    (f : ℕ → ℕ → ℕ) (xid : ℕ) (state : TxnState)
    → xid ≢ 0
    → f (page_no_of_xid xid) (byte_in_page_of_xid xid) < 256
    → state_in (write_state f xid state) xid ≡ some state
unfolding state_in
written_state f xid state ne small =
    let byte = f (page_no_of_xid xid) (byte_in_page_of_xid xid) in
    let (read, _, _) =
      get_nibble-set_nibble byte xid (state_code state) (xid + 1) small (state_code_bound state)
        (λ e. omega (arith, e)) in
    ground (arith, read, (txn_state_from_nibble_iff (state_code state) state).1 refl)

other_state :
    (f : ℕ → ℕ → ℕ) (xid y : ℕ) (state : TxnState)
    → xid ≢ y
    → f (page_no_of_xid xid) (byte_in_page_of_xid xid) < 256
    → state_in (write_state f xid state) y ≡ state_in f y
unfolding state_in
other_state f xid y state ne small =
    elim (Bool-cases (
      page_no_of_xid y == page_no_of_xid xid
      && (byte_in_page_of_xid y == byte_in_page_of_xid xid))) [
        | inr apart ↦ rw apart refl
        | inl shared ↦
            let p : page_no_of_xid y ≡ page_no_of_xid xid = ground (arith, shared) in
            let q : byte_in_page_of_xid y ≡ byte_in_page_of_xid xid = ground (arith, shared) in
            let byte = f (page_no_of_xid xid) (byte_in_page_of_xid xid) in
            let (_, kept, _) =
              get_nibble-set_nibble byte xid (state_code state) y small (state_code_bound state)
                (parities xid y ne p q) in
            ground (arith, shared, p, q, kept)
      ]

written_byte :
    (f : ℕ → ℕ → ℕ) (xid : ℕ) (state : TxnState) (p i : ℕ)
    → f p i < 256
    → f (page_no_of_xid xid) (byte_in_page_of_xid xid) < 256
    → write_state f xid state p i < 256
written_byte f xid state p i small byte =
    let (_, _, bound) =
      get_nibble-set_nibble (f p i) xid (state_code state) (xid + 1) small (state_code_bound state)
        (λ e. omega (arith, e)) in
    ground (arith, bound)

recorded :
    (f : ℕ → ℕ → ℕ) (clog : Clog) (xid y : ℕ) (state : TxnState)
    → xid ≢ 0
    → f (page_no_of_xid xid) (byte_in_page_of_xid xid) < 256
    → state_in f y ≡ some (clog y)
    → state_in (write_state f xid state) y ≡ some (Clog.set_state xid state clog y)
unfolding Clog.set_state
recorded f clog xid y state ne small h = elim (Bool-cases (xid == y)) [
  | inl same ↦
      let e : xid ≡ y = ground (arith, same) in rw (same, ← e) (written_state f xid state ne small)
  | inr other ↦ rw other (other_state f xid y state (λ e. ground (arith, other, e)) small ∙ h)
]

-- Writing a state makes the cache stand for the log in which it is recorded.
pub set_state_lem :
    (os : Os) (b : ClogBuffer) (clog : Clog) (xid : ℕ) (state : TxnState)
    → IsHealthy os
    → Holds b clog
    → xid < 2 ^ 64
    → xid ≢ 0
    → (r : ClogBuffer) × (set_state os xid state b ≡ some r)
      × Holds r (Clog.set_state xid state clog)
unfolding set_state
set_state_lem os b clog xid state healthy h small ne =
    let (valid, lt) = address_bounds xid small in
    let (idx, r, l) = locate_frame_lem b os (page_no_of_xid xid) h.coherent healthy valid in
    let held = Keeps-Holds clog l.keeps h in
    let pages = page_of-stamp r held.coherent xid state idx l.position l.holds valid in
    let byte = held.bytes (page_no_of_xid xid) (byte_in_page_of_xid xid) valid lt in
    (
      stamp xid state idx r,
      ground (arith, ne, l.found),
      record {
        coherent = stamp-IsCoherent r held.coherent xid state idx l.position l.holds valid;
        bytes = λ p i vp ib.
            rw (pages p i) (written_byte (page_of r) xid state p i (held.bytes p i vp ib) byte);
        states = λ y sy.
            state_in_same (page_of (stamp xid state idx r)) (write_state (page_of r) xid state) y
              (pages (page_no_of_xid y) (byte_in_page_of_xid y))
            ∙ recorded (page_of r) clog xid y state ne byte (held.states y sy);
      },
    )
