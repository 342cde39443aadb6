-- ===== src/Txn/Clog/Buffer/Sweep.antt =====
-- The search for a victim, `find_victim` of crates/pg-txn/src/clog_buffer.rs: it ends within two
-- revolutions, and it changes reference bits and the hand only.
use native.Mathlib.Nat.{mod-add-mod}
use ams.Common.{
  ℕ, zero, suc, ◌+◌, ◌%◌, ◌<◌, ◌≡◌, refl, ap, ◌∙◌, ◌⊎◌, inl, inr, Bool, true, false, ◌&&◌, not,
  none, some, arith, ◌==◌, if◌then◌else◌, Bool-cases, Option-cases,
}
use ams.Txn.Clog.Buffer.{Inner, invalid_page_no, set_frame, sweep, find_victim_from, find_victim}

-- Two states of the cache that differ in their reference bits and hands only.
pub record Agrees (x y : Inner) : Type 0 where
  pub count : y.frame_count ≡ x.frame_count
  pub table : y.page_table ≡ x.page_table
  pub page_no : (j : ℕ) → (y.frames j).page_no ≡ (x.frames j).page_no
  pub bytes : (j : ℕ) → (y.frames j).bytes ≡ (x.frames j).bytes
  pub dirty : (j : ℕ) → (y.frames j).dirty ≡ (x.frames j).dirty

pub Agrees-trans : {x y z : Inner} → Agrees x y → Agrees y z → Agrees x z
Agrees-trans a b = record {
  count = b.count ∙ a.count;
  table = b.table ∙ a.table;
  page_no = λ j. b.page_no j ∙ a.page_no j;
  bytes = λ j. b.bytes j ∙ a.bytes j;
  dirty = λ j. b.dirty j ∙ a.dirty j;
}

-- The reference bit of one frame, and the hand.
pub Agrees-marked :
    (idx hand : ℕ) (bit : Bool) (x : Inner)
    → Agrees x (record (set_frame idx (record (x.frames idx) { referenced = bit }) x) {
      clock_hand = hand;
    })
Agrees-marked idx hand bit x = record {
  count = refl;
  table = refl;
  page_no = λ j. ground arith;
  bytes = λ j. ground arith;
  dirty = λ j. ground arith;
}

Agrees-moved : (hand : ℕ) (x : Inner) → Agrees x (record x { clock_hand = hand })
Agrees-moved hand x = record {
  count = refl;
  table = refl;
  page_no = λ j. refl;
  bytes = λ j. refl;
  dirty = λ j. refl;
}

-- The state after one round of the sweep that takes no frame.
unfoldable passed : Inner → Inner
passed x =
    let idx = x.clock_hand in
    let moved = record x { clock_hand = (idx + 1) % x.frame_count } in
    if (x.frames idx).referenced
    then set_frame idx (record (x.frames idx) { referenced = false }) moved
    else moved

passed-Agrees : (x : Inner) → Agrees x (passed x)
unfolding passed
passed-Agrees x = elim (Bool-cases (x.frames x.clock_hand).referenced) [
  | inl set ↦ rw set (Agrees-marked x.clock_hand ((x.clock_hand + 1) % x.frame_count) false x)
  | inr clear ↦ rw clear (Agrees-moved ((x.clock_hand + 1) % x.frame_count) x)
]

-- One round takes the frame at the hand, which holds no page or is not referenced, or passes it.
sweep_round :
    (n : ℕ) (allow : Bool) (x : Inner)
    → (sweep (suc n) allow x
        ≡ (some x.clock_hand, record x { clock_hand = (x.clock_hand + 1) % x.frame_count }))
      ⊎ (sweep (suc n) allow x ≡ sweep n allow (passed x))
        × (((x.frames x.clock_hand).referenced ≡ true) ⊎ (allow ≡ false))
unfolding sweep passed
sweep_round n allow x = elim (Bool-cases ((x.frames x.clock_hand).page_no == invalid_page_no)) [
  | inl empty ↦ inl (ground (arith, empty))
  | inr full ↦ elim (Bool-cases (x.frames x.clock_hand).referenced) [
    | inl set ↦ inr (ground (arith, full, set), inl set)
    | inr clear ↦ elim (Bool-cases ((x.frames x.clock_hand).dirty && not allow)) [
      | inl kept ↦ inr (ground (arith, full, clear, kept), inr (ground (arith, kept)))
      | inr taken ↦ inl (ground (arith, full, clear, taken))
    ]
  ]
]

around : (a n : ℕ) → a < n → (a + n) % n ≡ a
around a n h = grind arith

step_around : (a n k : ℕ) → a < n → ((a + 1) % n + k) % n ≡ (a + suc k) % n
step_around a n k h = mod-add-mod (a + 1) n k ∙ ap (λ (t : ℕ). t % n) (omega arith)

sweep_ends : (allow : Bool) (x : Inner) → sweep 0 allow x ≡ (none, x)
unfolding sweep
sweep_ends allow x = refl

passed_hand : (x : Inner) → (passed x).clock_hand ≡ (x.clock_hand + 1) % x.frame_count
unfolding passed
passed_hand x = ground arith

passed_clears :
    (x : Inner) (j : ℕ)
    → ((x.frames j).referenced ≡ false) ⊎ (j ≡ x.clock_hand)
    → ((passed x).frames j).referenced ≡ false
unfolding passed
passed_clears x j h = ground arith

next_below : (a n : ℕ) → a < n → (a + 1) % n < n
next_below a n h = grind arith

-- A sweep changes reference bits and the hand only, and its victim is a frame of the cache.
sweep-Agrees :
    (n : ℕ) (allow : Bool) (x : Inner)
    → x.clock_hand < x.frame_count
    → Agrees x (sweep n allow x).1
      × ((sweep n allow x).1.clock_hand < x.frame_count)
      × ((idx : ℕ) → (sweep n allow x).0 ≡ some idx → idx < x.frame_count)
sweep-Agrees zero allow x h = rw (sweep_ends allow x) (Agrees-moved x.clock_hand x, h, λ idx e. cc)
sweep-Agrees (suc n) allow x h =
    let below = next_below x.clock_hand x.frame_count h in
    elim (sweep_round n allow x) [
      | inl taken ↦
          rw taken
            (Agrees-moved ((x.clock_hand + 1) % x.frame_count) x, below, λ idx e. ground (arith, e))
      | inr (more, _) ↦
          let here = passed-Agrees x in
          let (there, hand, victim) =
            sweep-Agrees n allow (passed x) (omega (arith, passed_hand x, here.count, below)) in
          rw more (
            Agrees-trans here there,
            omega (arith, hand, here.count),
            λ idx e. omega (arith, victim idx e, here.count),
          )
    ]

sweep_clears :
    (n : ℕ) (allow : Bool) (x : Inner) (j : ℕ)
    → (x.frames j).referenced ≡ false
    → ((sweep n allow x).1.frames j).referenced ≡ false
sweep_clears zero allow x j h = rw (sweep_ends allow x) h
sweep_clears (suc n) allow x j h = elim (sweep_round n allow x) [
  | inl taken ↦ rw taken h
  | inr (more, _) ↦ rw more (sweep_clears n allow (passed x) j (passed_clears x j (inl h)))
]

-- A sweep that takes no frame leaves the hand that many frames further.
sweep_hand :
    (n : ℕ) (allow : Bool) (x : Inner)
    → x.clock_hand < x.frame_count
    → (sweep n allow x).0 ≡ none
    → (sweep n allow x).1.clock_hand ≡ (x.clock_hand + n) % x.frame_count
sweep_hand zero allow x h missed = rw (sweep_ends allow x) (grind arith)
sweep_hand (suc n) allow x h missed = elim (sweep_round n allow x) [
  | inl taken ↦ absurd (ground (arith, missed, taken))
  | inr (more, _) ↦
      let count = (passed-Agrees x).count in
      let below = next_below x.clock_hand x.frame_count h in
      let rest =
        sweep_hand n allow (passed x) (omega (arith, passed_hand x, count, below))
          (rw more at missed) in
      rw more (rest ∙ rw (passed_hand x, count) (step_around x.clock_hand x.frame_count n h))
]

sweep_clears_first :
    (n : ℕ) (allow : Bool) (x : Inner)
    → 0 < n
    → (sweep n allow x).0 ≡ none
    → ((sweep n allow x).1.frames x.clock_hand).referenced ≡ false
sweep_clears_first zero allow x h missed = absurd (omega arith)
sweep_clears_first (suc n) allow x h missed = elim (sweep_round n allow x) [
  | inl taken ↦ absurd (ground (arith, missed, taken))
  | inr (more, _) ↦
      rw more
        (sweep_clears n allow (passed x) x.clock_hand (passed_clears x x.clock_hand (inr refl)))
]

-- A frame at the hand that is not referenced is taken at once when dirty frames may be taken.
sweep_takes :
    (n : ℕ) (x : Inner)
    → 0 < n
    → (x.frames x.clock_hand).referenced ≡ false
    → sweep n true x
      ≡ (some x.clock_hand, record x { clock_hand = (x.clock_hand + 1) % x.frame_count })
sweep_takes zero x h clear = absurd (omega arith)
sweep_takes (suc n) x h clear = elim (sweep_round n true x) [
  | inl taken ↦ taken
  | inr (_, why) ↦ absurd (ground (arith, why, clear))
]

-- What the search for a victim gives: a frame of the cache, and the state with its bits and its hand
-- moved.
pub record Takes (x : Inner) (idx : ℕ) (y : Inner) : Type 0 where
  pub found : find_victim x ≡ (some idx, y)
  pub position : idx < x.frame_count
  pub hand : y.clock_hand < x.frame_count
  pub agrees : Agrees x y

-- The search ends within two revolutions.
pub find_victim_ends :
    (x : Inner) → x.clock_hand < x.frame_count → (idx : ℕ) × (y : Inner) × Takes x idx y
unfolding find_victim find_victim_from
find_victim_ends x h =
    let (agrees, hand, victim) = sweep-Agrees x.frame_count false x h in
    let y = (sweep x.frame_count false x).1 in
    elim (Option-cases (sweep x.frame_count false x).0) [
      | inr (idx, found) ↦ (
        idx,
        y,
        record {
          found = ground (arith, found);
          position = victim idx found;
          hand = hand;
          agrees = agrees;
        },
      )
      | inl missed ↦
          let back : y.clock_hand ≡ x.clock_hand =
            sweep_hand x.frame_count false x h missed ∙ around x.clock_hand x.frame_count h in
          let clear : (y.frames y.clock_hand).referenced ≡ false =
            rw back (sweep_clears_first x.frame_count false x (omega arith) missed) in
          let second = sweep_takes y.frame_count y (omega (arith, agrees.count)) clear in
          (
            y.clock_hand,
            record y { clock_hand = (y.clock_hand + 1) % y.frame_count },
            record {
              found = ground (arith, missed, second);
              position = hand;
              hand = rw agrees.count (next_below y.clock_hand x.frame_count hand);
              agrees = Agrees-trans agrees (Agrees-moved ((y.clock_hand + 1) % y.frame_count) y);
            },
          )
    ]
