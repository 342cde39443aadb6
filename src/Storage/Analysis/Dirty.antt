-- ===== src/Storage/Analysis/Dirty.antt =====
-- The table of dirty pages that the analysis phase rebuilds (crates/pg-storage/src/analysis.rs).
use ams.Common.{
  ℕ, ◌≤◌, ◌≡◌, refl, sym, ap, subst, length, ◌∙◌, inl, inr, Bool, ◌||◌, Option, none, some, List,
  [], ◌∷◌, arith, leb, ◌==◌, if◌then◌else◌, Bool-cases, Option-cases, contains, All,
}
use ams.Common.Map.{Map, lookup, insert, HasKeysOnce, lookup-insert, insert-HasKeysOnce, keys}
use ams.Common.Sort.{IsSorted}
use ams.Storage.Error.{Result, ok, err, StorageError, Result-cases}
use ams.Storage.Wal.Frame.{WalRecord}
use ams.Storage.Wal.Heap.{CheckpointEndRecord}
use ams.Storage.Touched.{Codecs, for_each_touched_page}
use ams.Storage.Analysis.{
  AnalysisResult, Log, scan, track_xid, or_insert, or_insert_all, insert_by_key, sort_by_key,
  collect_map, read_snapshot, run_analysis, load_att_snapshot, load_dpt_snapshot,
}
use ams.Storage.Analysis.Active.{run_analysis-scan, at_stop_ok}

-- The position of the first record that modifies a page.
abbrev pub first_touch : Codecs → ℕ → List WalRecord → Option ℕ
first_touch c p [] = none
first_touch c p (r ∷ records) =
    let rest = first_touch c p records in
    elim (for_each_touched_page c r) [
      | err _ ↦ rest
      | ok pages ↦ if contains p pages then some r.lsn else rest
    ]

abbrev pub or_else : Option ℕ → Option ℕ → Option ℕ
or_else none o = o
or_else (some v) o = some v

or_else-none : (o : Option ℕ) → or_else o none ≡ o
or_else-none none = refl
or_else-none (some v) = refl

or_else_twice :
    (o : Option ℕ) (s t : Bool) (l : ℕ)
    → or_else (or_else o (if s then some l else none)) (if t then some l else none)
      ≡ or_else o (if s || t then some l else none)
or_else_twice o s t l = ground arith

or_else_rest :
    (o rest : Option ℕ) (s : Bool) (l : ℕ)
    → or_else (or_else o (if s then some l else none)) rest ≡ or_else o (if s then some l else rest)
or_else_rest o rest s l = ground arith

lookup-or_insert :
    (p q lsn : ℕ) (dpt : Map ℕ)
    → lookup q (or_insert p lsn dpt) ≡ or_else (lookup q dpt) (if p == q then some lsn else none)
unfolding or_insert
lookup-or_insert p q lsn dpt = elim (Option-cases (lookup p dpt)) [
  | inl out ↦ elim (Bool-cases (p == q)) [
    | inl same ↦
        let e : p ≡ q = ground (arith, same) in
        ground (arith, out, same, lookup-insert p q lsn dpt, rw e at out)
    | inr other ↦ elim (Option-cases (lookup q dpt)) [
      | inl none_there ↦ ground (arith, out, other, none_there, lookup-insert p q lsn dpt)
      | inr (v, there) ↦ ground (arith, out, other, there, lookup-insert p q lsn dpt)
    ]
  ]
  | inr (v, there) ↦ elim (Bool-cases (p == q)) [
    | inl same ↦ let e : p ≡ q = ground (arith, same) in ground (arith, there, same, rw e at there)
    | inr other ↦ elim (Option-cases (lookup q dpt)) [
      | inl none_there ↦ ground (arith, there, other, none_there)
      | inr (w, here) ↦ ground (arith, there, other, here)
    ]
  ]
]

lookup-or_insert_all :
    (q lsn : ℕ) (pages : List ℕ) (dpt : Map ℕ)
    → lookup q (or_insert_all pages lsn dpt)
      ≡ or_else (lookup q dpt) (if contains q pages then some lsn else none)
unfolding or_insert_all
lookup-or_insert_all q lsn [] dpt = sym (or_else-none (lookup q dpt))
lookup-or_insert_all q lsn (p ∷ pages) dpt =
    lookup-or_insert_all q lsn pages (or_insert p lsn dpt)
    ∙ ap (λ (t : Option ℕ). or_else t (if contains q pages then some lsn else none))
        (lookup-or_insert p q lsn dpt)
    ∙ or_else_twice (lookup q dpt) (p == q) (contains q pages) lsn

scan_dpt :
    (c : Codecs) (q : ℕ) (records : List WalRecord) (stop : Option StorageError) (att a : List ℕ)
    (dpt d : Map ℕ)
    → scan c records stop att dpt ≡ ok (a, d)
    → lookup q d ≡ or_else (lookup q dpt) (first_touch c q records)
unfolding scan
scan_dpt c q [] stop att a dpt d h =
    ap (λ (t : List ℕ × Map ℕ). lookup q t.1) (sym (at_stop_ok stop (att, dpt) (a, d) h))
    ∙ sym (or_else-none (lookup q dpt))
scan_dpt c q (r ∷ records) stop att a dpt d h = elim (Result-cases (for_each_touched_page c r)) [
  | inl (e, bad) ↦ absurd (ground (arith, bad, h))
  | inr (pages, good) ↦
      let rest =
        scan_dpt c q records stop (track_xid r att) a (or_insert_all pages r.lsn dpt) d
          (rw good at h) in
      rest
      ∙ ap (λ (t : Option ℕ). or_else t (first_touch c q records))
          (lookup-or_insert_all q r.lsn pages dpt)
      ∙ or_else_rest (lookup q dpt) (first_touch c q records) (contains q pages) r.lsn
      ∙ ground (arith, good)
]

-- Sorting by key, of a table with each key once.
lookup-insert_by_key :
    (k j v : ℕ) (m : Map ℕ)
    → lookup k m ≡ none
    → lookup j (insert_by_key k v m) ≡ (if k == j then some v else lookup j m)
unfolding insert_by_key
lookup-insert_by_key k j v [] h = refl
lookup-insert_by_key k j v ((i, w) ∷ m) h = ground (arith, lookup-insert_by_key k j v m)

lookup-sort_by_key : (j : ℕ) (m : Map ℕ) → HasKeysOnce m → lookup j (sort_by_key m) ≡ lookup j m
unfolding sort_by_key
lookup-sort_by_key j [] h = refl
lookup-sort_by_key j ((k, v) ∷ m) h =
    lookup-insert_by_key k j v (sort_by_key m) (lookup-sort_by_key k m h.1 ∙ h.0)
    ∙ ground (arith, lookup-sort_by_key j m h.1)

All-insert_by_key :
    (c k v : ℕ) (m : Map ℕ)
    → c ≤ k
    → All (λ y. c ≤ y) (keys m)
    → All (λ y. c ≤ y) (keys (insert_by_key k v m))
unfolding insert_by_key
All-insert_by_key c k v [] h p = (h, tt)
All-insert_by_key c k v ((j, w) ∷ m) h p = ground (arith, All-insert_by_key c k v m h p.1)

lower : {a b : ℕ} (xs : List ℕ) → a ≤ b → All (λ y. b ≤ y) xs → All (λ y. a ≤ y) xs
lower [] h p = tt
lower (x ∷ xs) h p = (omega arith, lower xs h p.1)

insert_by_key-IsSorted :
    (k v : ℕ) (m : Map ℕ) → IsSorted (keys m) → IsSorted (keys (insert_by_key k v m))
unfolding insert_by_key
insert_by_key-IsSorted k v [] h = (tt, tt)
insert_by_key-IsSorted k v ((j, w) ∷ m) h = elim (Bool-cases (leb k j)) [
  | inl le ↦ rw le ((ground arith, lower {a = k} {b = j} (keys m) (ground arith) h.0), h)
  | inr gt ↦ rw gt (All-insert_by_key j k v m (ground arith) h.0, insert_by_key-IsSorted k v m h.1)
]

sort_by_key-IsSorted : (m : Map ℕ) → IsSorted (keys (sort_by_key m))
unfolding sort_by_key
sort_by_key-IsSorted [] = tt
sort_by_key-IsSorted ((k, v) ∷ m) =
    insert_by_key-IsSorted k v (sort_by_key m) (sort_by_key-IsSorted m)

or_insert-HasKeysOnce : (p lsn : ℕ) (m : Map ℕ) → HasKeysOnce m → HasKeysOnce (or_insert p lsn m)
or_insert-HasKeysOnce p lsn m h = elim (Option-cases (lookup p m)) [
  | inl out ↦
      let e : or_insert p lsn m ≡ insert p lsn m = unfold or_insert in ground (arith, out) in
      rw e (insert-HasKeysOnce p lsn m h)
  | inr (v, there) ↦
      let e : or_insert p lsn m ≡ m = unfold or_insert in ground (arith, there) in rw e h
]

or_insert_all-HasKeysOnce :
    (pages : List ℕ) (lsn : ℕ) (m : Map ℕ) → HasKeysOnce m → HasKeysOnce (or_insert_all pages lsn m)
unfolding or_insert_all
or_insert_all-HasKeysOnce [] lsn m h = h
or_insert_all-HasKeysOnce (p ∷ pages) lsn m h =
    or_insert_all-HasKeysOnce pages lsn (or_insert p lsn m) (or_insert-HasKeysOnce p lsn m h)

scan-HasKeysOnce :
    (c : Codecs) (records : List WalRecord) (stop : Option StorageError) (att a : List ℕ)
    (dpt d : Map ℕ)
    → HasKeysOnce dpt
    → scan c records stop att dpt ≡ ok (a, d)
    → HasKeysOnce d
unfolding scan
scan-HasKeysOnce c [] stop att a dpt d once h =
    subst (λ (t : List ℕ × Map ℕ). HasKeysOnce t.1) (at_stop_ok stop (att, dpt) (a, d) h) once
scan-HasKeysOnce c (r ∷ records) stop att a dpt d once h =
    elim (Result-cases (for_each_touched_page c r)) [
      | inl (e, bad) ↦ absurd (ground (arith, bad, h))
      | inr (pages, good) ↦
          scan-HasKeysOnce c records stop (track_xid r att) a (or_insert_all pages r.lsn dpt) d
            (or_insert_all-HasKeysOnce pages r.lsn dpt once) (rw good at h)
    ]

collect_map-HasKeysOnce : (entries m : Map ℕ) → HasKeysOnce m → HasKeysOnce (collect_map entries m)
unfolding collect_map
collect_map-HasKeysOnce [] m h = h
collect_map-HasKeysOnce ((k, v) ∷ entries) m h =
    collect_map-HasKeysOnce entries (insert k v m) (insert-HasKeysOnce k v m h)

loaded-HasKeysOnce :
    (crc : List ℕ → ℕ) (files : List ℕ → Result (List ℕ)) (c : Codecs) (path : List ℕ)
    → HasKeysOnce (load_dpt_snapshot crc files c path)
unfolding load_dpt_snapshot
loaded-HasKeysOnce crc files c path = elim (Bool-cases (length path == 0)) [
  | inl empty ↦ rw empty tt
  | inr named ↦ elim (Result-cases (read_snapshot crc files c.entries path)) [
    | inl (e, bad) ↦ rw (named, bad) tt
    | inr (entries, good) ↦ rw (named, good) (collect_map-HasKeysOnce entries [] tt)
  ]
]

-- The table of dirty pages of a successful analysis is sorted by page. The entry of a page is that of
-- the snapshot, or else the position of the first record after the redo point that modifies the page.
pub run_analysis_dpt :
    (crc : List ℕ → ℕ) (files : List ℕ → Result (List ℕ)) (c : Codecs) (end : CheckpointEndRecord)
    (log : Log) (res : AnalysisResult)
    → run_analysis crc files c end log ≡ ok res
    → IsSorted (keys res.dpt)
      × ((p : ℕ)
          → lookup p res.dpt
            ≡ or_else
                (lookup p (load_dpt_snapshot crc files c end.dpt_file))
                (first_touch c p log.records))
run_analysis_dpt crc files c end log res h =
    let (att, dpt, scanned, same) = run_analysis-scan crc files c end log res h in
    let listed = load_att_snapshot crc files c end.att_file in
    let seed = load_dpt_snapshot crc files c end.dpt_file in
    let table : res.dpt ≡ sort_by_key dpt = ap (λ (t : AnalysisResult). t.dpt) same in
    let once =
      scan-HasKeysOnce c log.records log.stop listed att seed dpt
        (loaded-HasKeysOnce crc files c end.dpt_file) scanned in
    rw table (
      sort_by_key-IsSorted dpt,
      λ p.
          lookup-sort_by_key p dpt once
          ∙ scan_dpt c p log.records log.stop listed att seed dpt scanned,
    )
