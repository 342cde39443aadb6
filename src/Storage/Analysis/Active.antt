-- ===== src/Storage/Analysis/Active.antt =====
-- The table of active transactions that the analysis phase rebuilds (crates/pg-storage/src/analysis.rs).
use ams.Common.{
  ℕ, ◌≡◌, ◌≢◌, refl, sym, ap, ◌⊎◌, inl, inr, ◌↔◌, Bool, true, false, ◌&&◌, ◌||◌, not, Option, List,
  [], ◌∷◌, arith, ◌==◌, if◌then◌else◌, Bool-cases, contains, contains-set_insert,
  contains-set_remove,
}
use ams.Common.Map.{Map}
use ams.Common.Sort.{sort, IsSorted, contains-sort, sort-IsSorted}
use ams.Storage.Error.{Result, ok, StorageError, Result-cases}
use ams.Storage.Wal.Frame.{WalRecord}
use ams.Storage.Wal.Heap.{CheckpointEndRecord}
use ams.Storage.Touched.{Codecs, for_each_touched_page}
use ams.Storage.Analysis.{
  AnalysisResult, Log, at_stop, is_terminal, track_xid, scan, or_insert_all, sort_by_key,
  run_analysis, load_att_snapshot, load_dpt_snapshot, is_unfinished, filter_recovered,
}
use ams.Txn.Clog.{Clog}

-- Whether a commit or an abort of a transaction is among the records.
abbrev pub ended : ℕ → List WalRecord → Bool
ended x [] = false
ended x (r ∷ records) = is_terminal r.record_type && (r.txn_id == x) || ended x records

-- Some record of a transaction, which is no end of it, is followed by no end of it.
pub data HasOpenRecord (x : ℕ) : List WalRecord → Type 0 where
  at_head :
      (r : WalRecord) (after : List WalRecord)
      → x ≢ 0
      → r.txn_id ≡ x
      → is_terminal r.record_type ≡ false
      → ended x after ≡ false
      → HasOpenRecord x (r ∷ after)
  later :
      (r : WalRecord) (after : List WalRecord) → HasOpenRecord x after → HasOpenRecord x (r ∷ after)

-- A transaction is in flight after the records if it was listed before them and none of them ends it,
-- or if it has an open record.
abbrev pub IsInFlight : ℕ → List ℕ → List WalRecord → Type 0
IsInFlight x listed records =
    ((contains x listed ≡ true) × (ended x records ≡ false)) ⊎ HasOpenRecord x records

track_all : List WalRecord → List ℕ → List ℕ
track_all [] att = att
track_all (r ∷ records) att = track_all records (track_xid r att)

contains-track_xid :
    (x : ℕ) (r : WalRecord) (att : List ℕ)
    → contains x (track_xid r att) ≡ (
        if is_terminal r.record_type
        then (if r.txn_id == x then false else contains x att)
        else (not (r.txn_id == 0) && (r.txn_id == x) || contains x att))
unfolding track_xid
contains-track_xid x r att =
    ground (arith, contains-set_insert r.txn_id x att, contains-set_remove r.txn_id x att)

track_all_sound :
    (x : ℕ) (records : List WalRecord) (att : List ℕ)
    → contains x (track_all records att) ≡ true
    → IsInFlight x att records
unfolding track_all
track_all_sound x [] att h = inl (h, refl)
track_all_sound x (r ∷ records) att h = elim (track_all_sound x records (track_xid r att) h) [
  | inr open_record ↦ inr (later r records open_record)
  | inl (listed, going) ↦
      let fact = contains-track_xid x r att in
      elim (Bool-cases (is_terminal r.record_type)) [
        | inl terminal ↦ inl (
          ground (arith, terminal, fact, listed, going),
          ground (arith, terminal, fact, listed, going),
        )
        | inr working ↦ elim (Bool-cases (not (r.txn_id == 0) && (r.txn_id == x))) [
          | inl mine ↦ inr (
              at_head r records (λ e. ground (arith, mine, e)) (ground (arith, mine)) working going)
          | inr other ↦
              inl (ground (arith, working, other, fact, listed), ground (arith, working, going))
        ]
      ]
]

track_all_complete :
    (x : ℕ) (records : List WalRecord) (att : List ℕ)
    → IsInFlight x att records
    → contains x (track_all records att) ≡ true
unfolding track_all
track_all_complete x [] att (inl (listed, _)) = listed
track_all_complete x [] att (inr h) = elim h [ ]
track_all_complete x (r ∷ records) att (inl (listed, going)) =
    track_all_complete x records (track_xid r att)
      (inl (ground (arith, contains-track_xid x r att, listed, going), ground (arith, going)))
track_all_complete x (r ∷ records) att (inr (later _ _ h)) =
    track_all_complete x records (track_xid r att) (inr h)
track_all_complete x (r ∷ records) att (inr (at_head _ _ ne mine working going)) =
    track_all_complete x records (track_xid r att)
      (inl (ground (arith, contains-track_xid x r att, ne, mine, working), going))

pub at_stop_ok : {A : Type 0} (stop : Option StorageError) (a b : A) → at_stop stop a ≡ ok b → a ≡ b
unfolding at_stop
at_stop_ok stop a b h = ground (arith, h)

scan_att :
    (c : Codecs) (records : List WalRecord) (stop : Option StorageError) (att a : List ℕ)
    (dpt d : Map ℕ)
    → scan c records stop att dpt ≡ ok (a, d)
    → a ≡ track_all records att
unfolding scan track_all
scan_att c [] stop att a dpt d h =
    ap (λ (t : List ℕ × Map ℕ). t.0) (sym (at_stop_ok stop (att, dpt) (a, d) h))
scan_att c (r ∷ records) stop att a dpt d h = elim (Result-cases (for_each_touched_page c r)) [
  | inl (e, bad) ↦ absurd (ground (arith, bad, h))
  | inr (pages, good) ↦
      scan_att c records stop (track_xid r att) a (or_insert_all pages r.lsn dpt) d (rw good at h)
]

-- What a successful analysis has scanned.
pub run_analysis-scan :
    (crc : List ℕ → ℕ) (files : List ℕ → Result (List ℕ)) (c : Codecs) (end : CheckpointEndRecord)
    (log : Log) (res : AnalysisResult)
    → run_analysis crc files c end log ≡ ok res
    → (att : List ℕ) × (dpt : Map ℕ) × (scan c log.records log.stop
          (load_att_snapshot crc files c end.att_file)
          (load_dpt_snapshot crc files c end.dpt_file)
        ≡ ok (att, dpt))
      × (res ≡ record { redo_start = end.checkpoint_lsn; att = sort att; dpt = sort_by_key dpt })
unfolding run_analysis
run_analysis-scan crc files c end log res h =
    elim (Result-cases (
      scan c log.records log.stop (load_att_snapshot crc files c end.att_file)
        (load_dpt_snapshot crc files c end.dpt_file))) [
          | inl (e, bad) ↦ absurd (ground (arith, bad, h))
          | inr ((att, dpt), good) ↦ (att, dpt, good, ground (arith, good, h))
        ]

contains-filter_recovered :
    (clog : Clog) (x : ℕ) (att : List ℕ)
    → contains x (filter_recovered clog att) ≡ (contains x att && is_unfinished (clog x))
unfolding filter_recovered
contains-filter_recovered clog x [] = refl
contains-filter_recovered clog x (y ∷ att) = elim (Bool-cases (y == x)) [
  | inl same ↦
      let e : y ≡ x = ground (arith, same) in
      rw e (ground (arith, contains-filter_recovered clog x att))
  | inr other ↦ ground (arith, other, contains-filter_recovered clog x att)
]

-- The transactions that a successful analysis finds, once the filter has dropped those that the commit
-- log knows as committed or aborted: exactly those in flight at the end of the records, from the
-- snapshot on, and not so known. The list of the analysis is sorted.
pub recovered_active :
    (crc : List ℕ → ℕ) (files : List ℕ → Result (List ℕ)) (c : Codecs) (end : CheckpointEndRecord)
    (log : Log) (res : AnalysisResult) (clog : Clog)
    → run_analysis crc files c end log ≡ ok res
    → IsSorted res.att
      × ((x : ℕ)
          → (contains x (filter_recovered clog res.att) ≡ true) ↔ (
              IsInFlight x (load_att_snapshot crc files c end.att_file) log.records
              × (is_unfinished (clog x) ≡ true)))
recovered_active crc files c end log res clog h =
    let (att, dpt, scanned, same) = run_analysis-scan crc files c end log res h in
    let listed = load_att_snapshot crc files c end.att_file in
    let tracked =
      scan_att c log.records log.stop listed att (load_dpt_snapshot crc files c end.dpt_file) dpt
        scanned in
    let sorted : res.att ≡ sort att = ap (λ (t : AnalysisResult). t.att) same in
    rw sorted (
      sort-IsSorted att,
      λ x.
          let fact = contains-filter_recovered clog x (sort att) in
          let kept = contains-sort x att in
          (
            λ there. (
              track_all_sound x log.records listed (ground (arith, there, fact, kept, tracked)),
              ground (arith, there, fact),
            ),
            λ (flight, unfinished). ground (
              arith,
              fact,
              kept,
              tracked,
              unfinished,
              track_all_complete x log.records listed flight,
            ),
          ),
    )
