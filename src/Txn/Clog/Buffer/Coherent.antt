-- ===== src/Txn/Clog/Buffer/Coherent.antt =====
-- What the cache of commit log pages shows of each page, and its invariant: table, frames and segment
-- files fit together (crates/pg-txn/src/clog_buffer.rs).
use ams.Common.{
  ℕ, ◌<◌, ◌≡◌, ◌≢◌, refl, sym, ap, ◌∙◌, ◌⊎◌, inl, inr, true, false, none, some, arith, ◌==◌,
  if◌then◌else◌, Bool-cases, Option-cases,
}
use ams.Common.Map.{lookup, insert, lookup-insert, lookup-remove}
use ams.Storage.Error.{ok}
use ams.Txn.Clog.Address.{clog_page_bytes, segment_id_of_page}
use ams.Txn.Clog.Segments.{Os, read_page, read_page-write_page, IsTracked, write_page-IsTracked}
use ams.Txn.Clog.Buffer.{
  ClogFrame, Inner, ClogBuffer, invalid_page_no, set_frame, evict, load, replace,
}
use ams.Txn.Clog.Buffer.Sweep.{Agrees}

-- A page as the cache shows it.
unfoldable pub page_of : ClogBuffer → ℕ → ℕ → ℕ
page_of b p i = elim (lookup p b.inner.page_table) [
  | none ↦ read_page p b.store i
  | some idx ↦ (b.inner.frames idx).bytes i
]

pub record IsCoherent (b : ClogBuffer) : Type 0 where
  pub hand : b.inner.clock_hand < b.inner.frame_count
  pub table :
      (p idx : ℕ)
      → lookup p b.inner.page_table ≡ some idx
      → (idx < b.inner.frame_count) × ((b.inner.frames idx).page_no ≡ p) × (p ≢ invalid_page_no)
  pub held :
      (idx : ℕ)
      → idx < b.inner.frame_count
      → (b.inner.frames idx).page_no ≢ invalid_page_no
      → lookup (b.inner.frames idx).page_no b.inner.page_table ≡ some idx
  pub clean :
      (idx i : ℕ)
      → idx < b.inner.frame_count
      → (b.inner.frames idx).page_no ≢ invalid_page_no
      → (b.inner.frames idx).dirty ≡ false
      → i < clog_page_bytes
      → (b.inner.frames idx).bytes i ≡ read_page (b.inner.frames idx).page_no b.store i
  pub tracked : IsTracked b.store

-- The invariant after an operation that shows every page as before.
pub record Keeps (b b' : ClogBuffer) : Type 0 where
  pub coherent : IsCoherent b'
  pub count : b'.inner.frame_count ≡ b.inner.frame_count
  pub pages : (p i : ℕ) → p ≢ invalid_page_no → i < clog_page_bytes → page_of b' p i ≡ page_of b p i

pub Keeps-trans : {a b c : ClogBuffer} → Keeps a b → Keeps b c → Keeps a c
Keeps-trans f g = record {
  coherent = g.coherent;
  count = g.count ∙ f.count;
  pages = λ p i ne h. g.pages p i ne h ∙ f.pages p i ne h;
}

-- Reference bits, the hand and the counters may change.
pub Agrees-Keeps :
    (b : ClogBuffer) (y : Inner) (hits misses : ℕ)
    → IsCoherent b
    → Agrees b.inner y
    → y.clock_hand < b.inner.frame_count
    → Keeps b (record b { inner = y; hits = hits; misses = misses })
unfolding page_of
Agrees-Keeps b y hits misses c a hand = record {
  coherent = record {
    hand = omega (arith, hand, a.count);
    table = λ p idx h. ground (arith, c.table p idx (rw (← a.table) h), a.count, a.page_no idx);
    held = λ idx lt ne.
        rw (a.table, a.page_no idx)
          (c.held idx (omega (arith, lt, a.count)) (rw (← a.page_no idx) ne));
    clean = λ idx i lt ne d ib.
        rw (a.bytes idx, a.page_no idx)
          (c.clean idx i (omega (arith, lt, a.count)) (rw (← a.page_no idx) ne)
            (sym (a.dirty idx) ∙ d) ib);
    tracked = c.tracked;
  };
  count = a.count;
  pages = λ p i ne h. elim (Option-cases (lookup p b.inner.page_table)) [
    | inl out ↦ ground (arith, out, a.table)
    | inr (idx, there) ↦ ground (arith, there, a.table, a.bytes idx)
  ];
}

-- A frame of a page that the cache does not hold takes that page.
module _ (b : ClogBuffer) (c : IsCoherent b) (os : Os) (p victim : ℕ)
    (healthy : (segment : ℕ) → (os.reads segment ≡ true) × (os.writes segment ≡ true))
    (position : victim < b.inner.frame_count) (valid : p ≢ invalid_page_no)
    (absent : lookup p b.inner.page_table ≡ none) where
  -- The cache after the eviction.
  abbrev evicted : ClogBuffer
  evicted = (evict os victim b).1

  abbrev old : ℕ
  old = (b.inner.frames victim).page_no

  evict_succeeds : (evict os victim b).0 ≡ ok tt
  unfolding evict
  evict_succeeds = ground (arith, healthy (segment_id_of_page old))

  evicted_frames : evicted.inner.frames ≡ b.inner.frames
  unfolding evict
  evicted_frames = ground arith

  evicted_hand : evicted.inner.clock_hand ≡ b.inner.clock_hand
  unfolding evict
  evicted_hand = ground arith

  evicted_count : evicted.inner.frame_count ≡ b.inner.frame_count
  unfolding evict
  evicted_count = ground arith

  evicted-IsTracked : IsTracked evicted.store
  unfolding evict
  evicted-IsTracked = λ segment offset out. ground (
    arith,
    healthy (segment_id_of_page old),
    c.tracked segment offset,
    write_page-IsTracked old (b.inner.frames victim).bytes b.store c.tracked segment offset,
  )

  evicted_table :
      (q : ℕ)
      → q ≢ invalid_page_no
      → lookup q evicted.inner.page_table ≡ (if q == old then none else lookup q b.inner.page_table)
  unfolding evict
  evicted_table q ne =
      ground (arith, lookup-remove old q b.inner.page_table, healthy (segment_id_of_page old))

  -- What the victim held is in its segment file.
  evicted_page :
      (q i : ℕ)
      → q ≢ invalid_page_no
      → i < clog_page_bytes
      → read_page q evicted.store i
        ≡ (if q == old then (b.inner.frames victim).bytes i else read_page q b.store i)
  unfolding evict
  evicted_page q i ne h = ground (
    arith,
    read_page-write_page old q i (b.inner.frames victim).bytes b.store h,
    healthy (segment_id_of_page old),
    c.clean victim i position,
  )

  -- The frame of the victim after the load.
  abbrev loaded_frame : ClogFrame
  loaded_frame = record {
    page_no = p;
    bytes = read_page p evicted.store;
    dirty = false;
    referenced = true;
  }

  abbrev loaded : ClogBuffer
  loaded = record evicted {
    inner = record (set_frame victim loaded_frame evicted.inner) {
      page_table = insert p victim evicted.inner.page_table;
    };
  }

  replace_succeeds : replace os p victim b ≡ (ok victim, loaded)
  unfolding replace load
  replace_succeeds = ground (arith, evict_succeeds, healthy (segment_id_of_page p))

  loaded_table :
      (q : ℕ)
      → q ≢ invalid_page_no
      → lookup q loaded.inner.page_table
        ≡ (if p == q then some victim else if q == old then none else lookup q b.inner.page_table)
  loaded_table q ne =
      ground (arith, lookup-insert p q victim evicted.inner.page_table, evicted_table q ne)

  evicted_sub :
      (q idx : ℕ)
      → lookup q evicted.inner.page_table ≡ some idx
      → (lookup q b.inner.page_table ≡ some idx) × (q ≢ old)
  unfolding evict
  evicted_sub q idx h = ground (
    arith,
    lookup-remove old q b.inner.page_table,
    healthy (segment_id_of_page old),
    c.table q idx,
  )

  loaded_sub :
      (q idx : ℕ)
      → lookup q loaded.inner.page_table ≡ some idx
      → ((q ≡ p) × (idx ≡ victim)) ⊎ ((lookup q b.inner.page_table ≡ some idx) × (idx ≢ victim))
  loaded_sub q idx h =
      let fact = lookup-insert p q victim evicted.inner.page_table in
      elim (Bool-cases (p == q)) [
        | inl same ↦ inl (ground (arith, same, fact, h))
        | inr other ↦
            let (there, ne) = evicted_sub q idx (ground (arith, other, fact, h)) in
            inr (
              there,
              λ same.
                  ne
                    (sym (c.table q idx there).1 ∙ ap (λ (t : ℕ). (b.inner.frames t).page_no) same),
            )
      ]

  -- Another frame that holds a page holds neither the victim's page nor the new one.
  other_page :
      (idx : ℕ)
      → idx < b.inner.frame_count
      → idx ≢ victim
      → (b.inner.frames idx).page_no ≢ invalid_page_no
      → ((b.inner.frames idx).page_no ≢ old) × ((b.inner.frames idx).page_no ≢ p)
  other_page idx lt ne full = (
    λ same.
        let here = c.held idx lt full in ground (arith, here, c.held victim position, same, full),
    λ same. ground (arith, c.held idx lt full, same, absent),
  )

  victim_frame : (idx : ℕ) → (idx == victim) ≡ true → loaded.inner.frames idx ≡ loaded_frame
  victim_frame idx same = rw same refl

  other_frame : (idx : ℕ) → (idx == victim) ≡ false → loaded.inner.frames idx ≡ b.inner.frames idx
  other_frame idx other = rw (other, evicted_frames) refl

  loaded_held :
      (idx : ℕ)
      → idx < b.inner.frame_count
      → (b.inner.frames idx).page_no ≢ invalid_page_no
      → (idx == victim) ≡ false
      → lookup (b.inner.frames idx).page_no loaded.inner.page_table ≡ some idx
  loaded_held idx lt full other =
      let (ne_old, ne_new) = other_page idx lt (λ same. ground (arith, other, same)) full in
      ground
        (arith, loaded_table (b.inner.frames idx).page_no full, c.held idx lt full, ne_old, ne_new)

  loaded_clean :
      (idx i : ℕ)
      → idx < b.inner.frame_count
      → (b.inner.frames idx).page_no ≢ invalid_page_no
      → (b.inner.frames idx).dirty ≡ false
      → i < clog_page_bytes
      → (idx == victim) ≡ false
      → (b.inner.frames idx).bytes i ≡ read_page (b.inner.frames idx).page_no loaded.store i
  loaded_clean idx i lt full d ib other =
      let (ne_old, _) = other_page idx lt (λ same. ground (arith, other, same)) full in
      ground (
        arith,
        c.clean idx i lt full d ib,
        evicted_page (b.inner.frames idx).page_no i full ib,
        ne_old,
      )

  loaded-IsCoherent : IsCoherent loaded
  loaded-IsCoherent = record {
    hand = omega (arith, evicted_hand, evicted_count, c.hand);
    table = λ q idx h. elim (loaded_sub q idx h) [
      | inl (same, here) ↦ ground (arith, same, here, evicted_count, position, valid)
      | inr (there, ne) ↦ ground (arith, c.table q idx there, evicted_frames, evicted_count, ne)
    ];
    held = λ idx lt full. elim (Bool-cases (idx == victim)) [
      | inl here ↦ rw (victim_frame idx here) (ground (arith, here, loaded_table p valid))
      | inr other ↦ rw (other_frame idx other) (
          loaded_held idx (omega (arith, lt, evicted_count)) (rw (other_frame idx other) at full)
            other)
    ];
    clean = λ idx i lt full d ib. elim (Bool-cases (idx == victim)) [
      | inl here ↦ rw (victim_frame idx here) refl
      | inr other ↦ rw (other_frame idx other) (
          loaded_clean idx i (omega (arith, lt, evicted_count)) (rw (other_frame idx other) at full)
            (rw (other_frame idx other) at d) ib other)
    ];
    tracked = evicted-IsTracked;
  }

  not_old : p ≢ old
  not_old same = ground (arith, c.held victim position (rw same at valid), same, absent)

  loaded_pages :
      (q i : ℕ) → q ≢ invalid_page_no → i < clog_page_bytes → page_of loaded q i ≡ page_of b q i
  unfolding page_of
  loaded_pages q i ne h = elim (Bool-cases (p == q)) [
    | inl same ↦ ground (arith, same, absent, not_old, loaded_table q ne, evicted_page q i ne h)
    | inr other ↦ elim (Bool-cases (q == old)) [
      | inl here ↦
          let same : q ≡ old = ground (arith, here) in
          let mine : lookup q b.inner.page_table ≡ some victim =
            rw same (c.held victim position (rw same at ne)) in
          ground (arith, other, here, mine, loaded_table q ne, evicted_page q i ne h)
      | inr away ↦ elim (Option-cases (lookup q b.inner.page_table)) [
        | inl out ↦ ground (arith, other, away, out, loaded_table q ne, evicted_page q i ne h)
        | inr (idx, there) ↦ elim (Bool-cases (idx == victim)) [
          | inl mine ↦ absurd (ground (arith, mine, away, c.table q idx there))
          | inr others ↦
              ground (arith, other, away, there, loaded_table q ne, other_frame idx others)
        ]
      ]
    ]
  ]

  pub replace-Keeps :
      (r : ClogBuffer) × (replace os p victim b ≡ (ok victim, r))
      × Keeps b r
      × ((r.inner.frames victim).page_no ≡ p)
  replace-Keeps = (
    loaded,
    replace_succeeds,
    record { coherent = loaded-IsCoherent; count = evicted_count; pages = loaded_pages },
    rw (victim_frame victim (ground arith)) refl,
  )
