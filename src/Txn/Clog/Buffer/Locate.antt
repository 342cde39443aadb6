-- ===== src/Txn/Clog/Buffer/Locate.antt =====
-- Finding the frame of a page, and writing a state into it (crates/pg-txn/src/clog_buffer.rs).
use ams.Common.{
  ℕ, ◌+◌, ◌%◌, ◌^◌, ◌<◌, ◌≡◌, ◌≢◌, refl, sym, ◌∙◌, inl, inr, true, false, ◌&&◌, none, some, arith,
  ◌==◌, if◌then◌else◌, Option-cases,
}
use ams.Common.Map.{lookup}
use ams.Storage.Error.{ok}
use ams.Txn.Clog.{TxnState, state_code}
use ams.Txn.Clog.Address.{byte_in_page_of_xid, page_no_of_xid, set_nibble}
use ams.Txn.Clog.Segments.{Os}
use ams.Txn.Clog.Buffer.{ClogBuffer, invalid_page_no, set_frame, locate_frame, stamp}
use ams.Txn.Clog.Buffer.Sweep.{Agrees-marked, find_victim_ends}
use ams.Txn.Clog.Buffer.Coherent.{
  page_of, IsCoherent, Keeps, Keeps-trans, Agrees-Keeps, replace-Keeps,
}

-- Every read and every write of the operating system succeeds.
abbrev pub IsHealthy : Os → Type 0
IsHealthy os = (segment : ℕ) → (os.reads segment ≡ true) × (os.writes segment ≡ true)

-- The frame `idx` that was found for a page, and the cache `r` after the search.
pub record IsLocated (os : Os) (p : ℕ) (b : ClogBuffer) (idx : ℕ) (r : ClogBuffer) : Type 0 where
  pub found : locate_frame os p b ≡ some (ok idx, r)
  pub keeps : Keeps b r
  pub position : idx < r.inner.frame_count
  pub holds : (r.inner.frames idx).page_no ≡ p

locate_frame_absent :
    (b : ClogBuffer) (os : Os) (p : ℕ)
    → IsCoherent b
    → IsHealthy os
    → p ≢ invalid_page_no
    → lookup p b.inner.page_table ≡ none
    → (idx : ℕ) × (r : ClogBuffer) × IsLocated os p b idx r
unfolding locate_frame
locate_frame_absent b os p c healthy valid absent =
    let (victim, y, v) = find_victim_ends b.inner c.hand in
    let searched : ClogBuffer = record b { inner = y; misses = (b.misses + 1) % 2 ^ 64 } in
    let first = Agrees-Keeps b y b.hits ((b.misses + 1) % 2 ^ 64) c v.agrees v.hand in
    let (r, replaced, second, holds) =
      replace-Keeps searched first.coherent os p victim healthy
        (omega (arith, v.position, v.agrees.count)) valid (rw v.agrees.table absent) in
    (
      victim,
      r,
      record {
        found = ground (arith, absent, v.found, replaced);
        keeps = Keeps-trans first second;
        position = omega (arith, second.count, first.count, v.position);
        holds = holds;
      },
    )

-- The frame of every page is found.
pub locate_frame_lem :
    (b : ClogBuffer) (os : Os) (p : ℕ)
    → IsCoherent b
    → IsHealthy os
    → p ≢ invalid_page_no
    → (idx : ℕ) × (r : ClogBuffer) × IsLocated os p b idx r
unfolding locate_frame
locate_frame_lem b os p c healthy valid = elim (Option-cases (lookup p b.inner.page_table)) [
  | inl absent ↦ locate_frame_absent b os p c healthy valid absent
  | inr (idx, there) ↦
      let hits = (b.hits + 1) % 2 ^ 64 in
      let y = set_frame idx (record (b.inner.frames idx) { referenced = true }) b.inner in
      let (lt, same, _) = c.table p idx there in
      (
        idx,
        record b { inner = y; hits = hits },
        record {
          found = ground (arith, there);
          keeps =
              Agrees-Keeps b y hits b.misses c (Agrees-marked idx b.inner.clock_hand true b.inner)
                c.hand;
          position = lt;
          holds = ground (arith, same);
        },
      )
]

-- A state written to the frame of its page.
module _ (b : ClogBuffer) (c : IsCoherent b) (xid : ℕ) (state : TxnState) (idx : ℕ)
    (position : idx < b.inner.frame_count)
    (holds : (b.inner.frames idx).page_no ≡ page_no_of_xid xid)
    (valid : page_no_of_xid xid ≢ invalid_page_no) where
  abbrev stamped : ClogBuffer
  stamped = stamp xid state idx b

  stamped_page_no : (j : ℕ) → (stamped.inner.frames j).page_no ≡ (b.inner.frames j).page_no
  unfolding stamp
  stamped_page_no j = ground arith

  stamped_other :
      (j : ℕ) → (stamped.inner.frames j).dirty ≡ false → stamped.inner.frames j ≡ b.inner.frames j
  unfolding stamp
  stamped_other j h = ground arith

  stamped_table : stamped.inner.page_table ≡ b.inner.page_table
  unfolding stamp
  stamped_table = refl

  stamped_count : stamped.inner.frame_count ≡ b.inner.frame_count
  unfolding stamp
  stamped_count = refl

  stamped_store : stamped.store ≡ b.store
  unfolding stamp
  stamped_store = refl

  pub stamp-IsCoherent : IsCoherent (stamp xid state idx b)
  stamp-IsCoherent = record {
    hand = unfold stamp in c.hand;
    table = λ q j h.
        let (lt, same, ne) = c.table q j (rw stamped_table at h) in
        (rw stamped_count lt, stamped_page_no j ∙ same, ne);
    held = λ j lt ne.
        rw (stamped_page_no j, stamped_table)
          (c.held j (rw stamped_count at lt) (rw (stamped_page_no j) at ne));
    clean = λ j i lt ne d ib.
        let same = stamped_other j d in
        rw (same, stamped_store)
          (c.clean j i (rw stamped_count at lt) (rw same at ne) (rw same at d) ib);
    tracked = unfold stamp in c.tracked;
  }

  pub page_of-stamp :
      (q i : ℕ)
      → page_of (stamp xid state idx b) q i ≡ (
          if q == page_no_of_xid xid && (i == byte_in_page_of_xid xid)
          then set_nibble (page_of b q i) xid (state_code state)
          else page_of b q i)
  unfolding page_of stamp
  page_of-stamp q i = elim (Option-cases (lookup q b.inner.page_table)) [
    | inl out ↦ ground (arith, out, holds, c.held idx position (rw (sym holds) at valid))
    | inr (j, there) ↦
        ground
          (arith, there, holds, c.table q j there, c.held idx position (rw (sym holds) at valid))
  ]
