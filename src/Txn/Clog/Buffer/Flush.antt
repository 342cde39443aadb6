-- ===== src/Txn/Clog/Buffer/Flush.antt =====
-- Writing the dirty frames back, and the crash after it (`flush_dirty` of crates/pg-txn/src/clog_buffer.rs).
use ams.Common.{
  ℕ, zero, suc, ◌+◌, ◌≤◌, ◌<◌, ◌≡◌, ◌≢◌, List, [], ◌∷◌, refl, sym, ap, ◌∙◌, ◌⊎◌, inl, inr, true,
  false, ◌&&◌, not, arith, ◌==◌, Bool-cases, Option-cases,
}
use ams.Common.Map.{lookup}
use ams.Storage.Error.{Result, ok, err, Result-cases, StorageError}
use ams.Txn.Clog.Address.{clog_page_bytes, page_offset_in_segment, segment_id_of_page}
use ams.Txn.Clog.Segments.{
  Os, ClogSegmentStore, read_page, write_page, read_page-write_page, IsTracked,
  write_page-IsTracked, sync_unsynced, sync_pending, sync_pending_lem, sync_pending_done,
}
use ams.Txn.Clog.Buffer.{
  ClogBuffer, invalid_page_no, set_frame, flush_frame, flush_frames, flush_dirty,
}
use ams.Txn.Clog.Buffer.Coherent.{page_of, IsCoherent, Keeps, Keeps-trans}

-- No frame below an index holds a page that is not written back.
abbrev IsClean : ℕ → ClogBuffer → Type 0
IsClean n b =
    (j : ℕ)
    → j < n
    → (b.inner.frames j).page_no ≢ invalid_page_no
    → (b.inner.frames j).dirty ≡ false

module _ (b : ClogBuffer) (c : IsCoherent b) (idx : ℕ) (position : idx < b.inner.frame_count)
    (valid : (b.inner.frames idx).page_no ≢ invalid_page_no) where
  abbrev written : ClogBuffer
  written = record b {
    store = write_page (b.inner.frames idx).page_no (b.inner.frames idx).bytes b.store;
    inner = set_frame idx (record (b.inner.frames idx) { dirty = false }) b.inner;
  }

  written_page_no : (j : ℕ) → (written.inner.frames j).page_no ≡ (b.inner.frames j).page_no
  written_page_no j = ground arith

  written_bytes : (j : ℕ) → (written.inner.frames j).bytes ≡ (b.inner.frames j).bytes
  written_bytes j = ground arith

  written_clean :
      (j i : ℕ)
      → j < b.inner.frame_count
      → (b.inner.frames j).page_no ≢ invalid_page_no
      → (written.inner.frames j).dirty ≡ false
      → i < clog_page_bytes
      → (b.inner.frames j).bytes i ≡ read_page (b.inner.frames j).page_no written.store i
  written_clean j i lt full d ib = ground (
    arith,
    read_page-write_page (b.inner.frames idx).page_no (b.inner.frames j).page_no i
        (b.inner.frames idx).bytes b.store ib,
    c.held j lt full,
    c.held idx position valid,
    c.clean j i lt full,
  )

  written-Keeps : Keeps b written
  unfolding page_of
  written-Keeps = record {
    coherent = record {
      hand = c.hand;
      table = λ q j h. let (lt, same, ne) = c.table q j h in (lt, written_page_no j ∙ same, ne);
      held = λ j lt ne. rw (written_page_no j) (c.held j lt (rw (written_page_no j) at ne));
      clean = λ j i lt ne d ib.
          rw (written_page_no j, written_bytes j)
            (written_clean j i lt (rw (written_page_no j) at ne) d ib);
      tracked =
          write_page-IsTracked (b.inner.frames idx).page_no (b.inner.frames idx).bytes b.store
            c.tracked;
    };
    count = refl;
    pages = λ p i ne h.
        let fact =
          read_page-write_page (b.inner.frames idx).page_no p i (b.inner.frames idx).bytes b.store
            h in
        elim (Option-cases (lookup p b.inner.page_table)) [
          | inl out ↦ ground (arith, out, fact, c.held idx position valid)
          | inr (j, there) ↦ ground (arith, there, written_bytes j)
        ];
  }

Keeps-refl : {b : ClogBuffer} → IsCoherent b → Keeps b b
Keeps-refl c = record { coherent = c; count = refl; pages = λ p i ne h. refl }

-- The result and the state of a flush of the frames between two indices.
abbrev Flushed : ℕ → ℕ → ClogBuffer → Result (Unit {0}) × ClogBuffer → Type 0
Flushed from to b r = Keeps b r.1 × (r.0 ≡ ok tt → IsClean from b → IsClean to r.1)

flush_frame_lem :
    (os : Os) (idx : ℕ) (b : ClogBuffer)
    → IsCoherent b
    → idx < b.inner.frame_count
    → Flushed idx (suc idx) b (flush_frame os idx b)
unfolding flush_frame
flush_frame_lem os idx b c position =
    let frame = b.inner.frames idx in
    elim (Bool-cases (not (frame.page_no == invalid_page_no) && frame.dirty)) [
      | inr idle ↦ rw idle (
        Keeps-refl c,
        λ done below j lt full. elim (Bool-cases (j == idx)) [
          | inl same ↦ ground (arith, idle, same, full)
          | inr other ↦ below j (ground (arith, other)) full
        ],
      )
      | inl busy ↦ elim (Bool-cases (os.writes (segment_id_of_page frame.page_no))) [
        | inr fails ↦ rw (busy, fails) (Keeps-refl c, λ done below. absurd (ground (arith, done)))
        | inl works ↦
            let valid : frame.page_no ≢ invalid_page_no = λ e. ground (arith, busy, e) in
            rw (busy, works)
              (
                written-Keeps b c idx position valid,
                λ done below j lt full. elim (Bool-cases (j == idx)) [
                  | inl same ↦ rw same refl
                  | inr other ↦ rw other (below j (ground (arith, other)) (rw other at full))
                ],
              )
      ]
    ]

flush_frames_failed :
    (os : Os) (n idx : ℕ) (b : ClogBuffer) {e : StorageError}
    → (flush_frame os idx b).0 ≡ err e
    → flush_frames os (suc n) idx b ≡ (err e, (flush_frame os idx b).1)
unfolding flush_frames
flush_frames_failed os n idx b h = ground (arith, h)

flush_frames_more :
    (os : Os) (n idx : ℕ) (b : ClogBuffer) {u : Unit {0}}
    → (flush_frame os idx b).0 ≡ ok u
    → flush_frames os (suc n) idx b ≡ flush_frames os n (suc idx) (flush_frame os idx b).1
unfolding flush_frames
flush_frames_more os n idx b h = ground (arith, h)

flush_frames_none : (os : Os) (idx : ℕ) (b : ClogBuffer) → flush_frames os 0 idx b ≡ (ok tt, b)
unfolding flush_frames
flush_frames_none os idx b = refl

flush_frames_lem :
    (os : Os) (n idx : ℕ) (b : ClogBuffer)
    → IsCoherent b
    → idx + n ≤ b.inner.frame_count
    → Flushed idx (idx + n) b (flush_frames os n idx b)
flush_frames_lem os zero idx b c h =
    rw (flush_frames_none os idx b)
      (Keeps-refl c, λ done below j lt full. below j (omega (arith, lt)) full)
flush_frames_lem os (suc n) idx b c h =
    let (keeps, clean) = flush_frame_lem os idx b c (omega (arith, h)) in
    elim (Result-cases (flush_frame os idx b).0) [
      | inl (e, failed) ↦
          rw (flush_frames_failed os n idx b failed)
            (keeps, λ done below. absurd (ground (arith, done)))
      | inr (u, good) ↦
          let (rest, all) =
            flush_frames_lem os n (suc idx) (flush_frame os idx b).1 keeps.coherent
              (omega (arith, h, keeps.count)) in
          rw (flush_frames_more os n idx b good) (
            Keeps-trans keeps rest,
            λ done below j lt full. all done (clean good below) j (omega (arith, lt)) full,
          )
    ]

-- The files that a crash can leave: each byte was made durable by an fsync, or reached the disk
-- without one.
abbrev pub IsCrash : ClogSegmentStore → (ℕ → ℕ → ℕ) → Type 0
IsCrash s files =
    (segment offset : ℕ)
    → (files segment offset ≡ s.synced segment offset)
      ⊎ (files segment offset ≡ s.files segment offset)

-- The store that is opened on files.
abbrev pub store_on : (ℕ → ℕ → ℕ) → ClogSegmentStore
store_on files = record { files = files; synced = files; unsynced_segments = [] }

flush_dirty_failed :
    (os : Os) (b : ClogBuffer) {e : StorageError}
    → (flush_frames os b.inner.frame_count 0 b).0 ≡ err e
    → flush_dirty os b ≡ (err e, (flush_frames os b.inner.frame_count 0 b).1)
unfolding flush_dirty
flush_dirty_failed os b h = ground (arith, h)

-- The cache once the pending segments of its store are synced.
abbrev after_sync : Os → ClogBuffer → ClogBuffer
after_sync os a = record a { store = (sync_unsynced os a.store).1 }

flush_dirty_written :
    (os : Os) (b : ClogBuffer) {u : Unit {0}}
    → (flush_frames os b.inner.frame_count 0 b).0 ≡ ok u
    → flush_dirty os b ≡ (
      (sync_unsynced os (flush_frames os b.inner.frame_count 0 b).1.store).0,
      after_sync os (flush_frames os b.inner.frame_count 0 b).1,
    )
unfolding flush_dirty
flush_dirty_written os b h = ground (arith, h)

read_page-after_sync :
    (os : Os) (a : ClogBuffer) (p i : ℕ)
    → IsTracked a.store
    → read_page p (after_sync os a).store i ≡ read_page p a.store i
unfolding read_page sync_unsynced
read_page-after_sync os a p i tracked =
    ap (λ (t : ℕ → ℕ → ℕ). t (segment_id_of_page p) (page_offset_in_segment p + i))
      (sync_pending_lem os a.store.unsynced_segments a.store tracked).0

after_sync-Keeps : (os : Os) (a : ClogBuffer) → IsCoherent a → Keeps a (after_sync os a)
unfolding page_of sync_unsynced
after_sync-Keeps os a c = record {
  coherent = record {
    hand = c.hand;
    table = c.table;
    held = c.held;
    clean = λ j i lt full d ib.
        c.clean j i lt full d ib
        ∙ sym (read_page-after_sync os a (a.inner.frames j).page_no i c.tracked);
    tracked = (sync_pending_lem os a.store.unsynced_segments a.store c.tracked).1;
  };
  count = refl;
  pages = λ p i ne h. ground (arith, read_page-after_sync os a p i c.tracked);
}

-- A flush, whether it succeeds or not, keeps the invariant and every page.
pub flush_dirty-Keeps : (os : Os) (b : ClogBuffer) → IsCoherent b → Keeps b (flush_dirty os b).1
flush_dirty-Keeps os b c =
    let (keeps, _) = flush_frames_lem os b.inner.frame_count 0 b c (omega arith) in
    elim (Result-cases (flush_frames os b.inner.frame_count 0 b).0) [
      | inl (e, failed) ↦ rw (flush_dirty_failed os b failed) keeps
      | inr (u, good) ↦ rw (flush_dirty_written os b good) (
          Keeps-trans keeps
            (after_sync-Keeps os (flush_frames os b.inner.frame_count 0 b).1 keeps.coherent))
    ]

-- A cache without a dirty frame shows its files.
clean_page :
    (a : ClogBuffer) (p i : ℕ)
    → IsCoherent a
    → IsClean a.inner.frame_count a
    → i < clog_page_bytes
    → page_of a p i ≡ read_page p a.store i
unfolding page_of
clean_page a p i c clean h = elim (Option-cases (lookup p a.inner.page_table)) [
  | inl out ↦ ground (arith, out)
  | inr (j, there) ↦
      let (lt, same, ne) = c.table p j there in
      let full : (a.inner.frames j).page_no ≢ invalid_page_no = rw same ne in
      ground (arith, there, same, c.clean j i lt full (clean j lt full) h)
]

-- After a sync that succeeds, a crash leaves the files as they are.
crash_page :
    (os : Os) (a : ClogBuffer) (files : ℕ → ℕ → ℕ) (p i : ℕ)
    → IsTracked a.store
    → (sync_unsynced os a.store).0 ≡ ok tt
    → IsCrash (after_sync os a).store files
    → read_page p (store_on files) i ≡ read_page p (after_sync os a).store i
unfolding read_page sync_unsynced
crash_page os a files p i tracked done crash =
    let pending = a.store.unsynced_segments in
    let segment = segment_id_of_page p in
    let offset = page_offset_in_segment p + i in
    let none_left = sync_pending_done os pending a.store done segment (λ h. h) in
    let durable = (sync_pending_lem os pending a.store tracked).1 segment offset none_left in
    elim (crash segment offset) [ inl e ↦ e ∙ durable | inr e ↦ e ]

-- After a flush that succeeds every page is in the files, whatever a crash does to them.
pub flush_dirty_durable :
    (os : Os) (b : ClogBuffer)
    → IsCoherent b
    → (flush_dirty os b).0 ≡ ok tt
    → (files : ℕ → ℕ → ℕ) → IsCrash (flush_dirty os b).1.store files
    → (p i : ℕ) → p ≢ invalid_page_no
    → i < clog_page_bytes
    → read_page p (store_on files) i ≡ page_of b p i
flush_dirty_durable os b c done files crash p i ne h =
    let (keeps, clean) = flush_frames_lem os b.inner.frame_count 0 b c (omega arith) in
    let a = (flush_frames os b.inner.frame_count 0 b).1 in
    elim (Result-cases (flush_frames os b.inner.frame_count 0 b).0) [
      | inl (e, failed) ↦ absurd (ground (arith, flush_dirty_failed os b failed, done))
      | inr (u, good) ↦
          let last = flush_dirty_written os b good in
          crash_page os a files p i keeps.coherent.tracked (rw last at done) (rw last at crash)
          ∙ read_page-after_sync os a p i keeps.coherent.tracked
          ∙ sym (
              clean_page a p i keeps.coherent
                (λ j lt full.
                  clean good (λ k low. absurd (omega arith)) j (omega (arith, lt, keeps.count))
                    full)
                h)
          ∙ keeps.pages p i ne h
    ]

-- A flush succeeds where every write and every fsync does.
module _ (os : Os)
    (healthy : (segment : ℕ) → (os.writes segment ≡ true) × (os.syncs segment ≡ true)) where
  flush_frame_succeeds : (idx : ℕ) (b : ClogBuffer) → (flush_frame os idx b).0 ≡ ok tt
  unfolding flush_frame
  flush_frame_succeeds idx b =
      ground (arith, healthy (segment_id_of_page (b.inner.frames idx).page_no))

  flush_frames_succeeds : (n idx : ℕ) (b : ClogBuffer) → (flush_frames os n idx b).0 ≡ ok tt
  flush_frames_succeeds zero idx b = rw (flush_frames_none os idx b) refl
  flush_frames_succeeds (suc n) idx b =
      rw (flush_frames_more os n idx b (flush_frame_succeeds idx b))
        (flush_frames_succeeds n (suc idx) (flush_frame os idx b).1)

  sync_pending_succeeds :
      (pending : List ℕ) (s : ClogSegmentStore) → (sync_pending os pending s).0 ≡ ok tt
  unfolding sync_pending
  sync_pending_succeeds [] s = refl
  sync_pending_succeeds (segment ∷ pending) s =
      rw (healthy segment).1 (sync_pending_succeeds pending _)

  pub flush_dirty_succeeds : (b : ClogBuffer) → (flush_dirty os b).0 ≡ ok tt
  unfolding sync_unsynced
  flush_dirty_succeeds b =
      let a = (flush_frames os b.inner.frame_count 0 b).1 in
      rw (flush_dirty_written os b (flush_frames_succeeds b.inner.frame_count 0 b))
        (sync_pending_succeeds a.store.unsynced_segments a.store)
