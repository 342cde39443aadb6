-- ===== src/Storage/Analysis/Anchor.antt =====
-- Where redo starts, and which errors of the reader end a scan (crates/pg-storage/src/analysis.rs and
-- `run_analysis` of crates/pg-storage/src/engine.rs).
use ams.Common.{
  ℕ, ◌≡◌, ◌≢◌, refl, sym, ◌⊎◌, inl, inr, Bool, true, false, ◌||◌, Option, none, some, List, [], ◌∷◌,
  arith, ◌==◌, if◌then◌else◌, Bool-cases,
}
use ams.Storage.Error.{Result, ok, err, StorageError, Result-cases}
use ams.Storage.Wal.Frame.{WalRecord}
use ams.Storage.Wal.Heap.{CheckpointEndRecord, checkpoint_end_decode}
use ams.Storage.Touched.{Codecs}
use ams.Storage.Analysis.{
  AnalysisResult, Log, at_stop, is_hard_error, is_checkpoint_end, latest_after, find_checkpoint_end,
  find_latest_checkpoint_end, run_analysis, analyze,
}
use ams.Storage.Analysis.Active.{at_stop_ok}

abbrev pub has_end : List WalRecord → Bool
has_end [] = false
has_end (r ∷ records) = is_checkpoint_end r.record_type || has_end records

-- The last end of a checkpoint among the records, decoded, with its position.
pub data LastEnd (c : Codecs) : List WalRecord → CheckpointEndRecord → ℕ → Type 0 where
  at_head :
      (r : WalRecord) (after : List WalRecord) (end : CheckpointEndRecord) (lsn : ℕ)
      → is_checkpoint_end r.record_type ≡ true
      → checkpoint_end_decode c.checkpoint_end c.checkpoint_end_v1 r.payload r.flags ≡ ok end
      → r.lsn ≡ lsn
      → has_end after ≡ false
      → LastEnd c (r ∷ after) end lsn
  later :
      (r : WalRecord) (after : List WalRecord) (end : CheckpointEndRecord) (lsn : ℕ)
      → LastEnd c after end lsn
      → LastEnd c (r ∷ after) end lsn

-- What a scan returns: the last end of a checkpoint of the records, or else what it was given.
find_cases :
    (c : Codecs) (records : List WalRecord) (stop : Option StorageError)
    (latest found : Option (CheckpointEndRecord × ℕ))
    → find_checkpoint_end c records stop latest ≡ ok found
    → ((found ≡ latest) × (has_end records ≡ false))
      ⊎ (end : CheckpointEndRecord) × (lsn : ℕ) × (found ≡ some (end, lsn))
        × LastEnd c records end lsn
unfolding find_checkpoint_end latest_after
find_cases c [] stop latest found h = inl (sym (at_stop_ok stop latest found h), refl)
find_cases c (r ∷ records) stop latest found h =
    elim (Bool-cases (is_checkpoint_end r.record_type)) [
      | inr other ↦ elim (find_cases c records stop latest found (ground (arith, other, h))) [
        | inl (same, without) ↦ inl (same, ground (arith, other, without))
        | inr (end, lsn, same, last) ↦ inr (end, lsn, same, later r records end lsn last)
      ]
      | inl ends ↦
          elim (Result-cases
            (checkpoint_end_decode c.checkpoint_end c.checkpoint_end_v1 r.payload r.flags)) [
              | inl (e, bad) ↦ absurd (ground (arith, ends, bad, h))
              | inr (end, good) ↦
                  elim (find_cases c records stop (some (end, r.lsn)) found
                    (ground (arith, ends, good, h))) [
                      | inl (same, without) ↦
                          inr (end, r.lsn, same, at_head r records end r.lsn ends good refl without)
                      | inr (end', lsn, same, last) ↦
                          inr (end', lsn, same, later r records end' lsn last)
                    ]
            ]
    ]

-- The scan for a checkpoint, when it succeeds, finds the last end of a checkpoint of the log, or that
-- the log has none.
pub find_latest_lem :
    (c : Codecs) (log : Log) (found : Option (CheckpointEndRecord × ℕ))
    → find_latest_checkpoint_end c log ≡ ok found
    → ((found ≡ none) × (has_end log.records ≡ false))
      ⊎ (end : CheckpointEndRecord) × (lsn : ℕ) × (found ≡ some (end, lsn))
        × LastEnd c log.records end lsn
unfolding find_latest_checkpoint_end
find_latest_lem c log found h = find_cases c log.records log.stop none found h

find_hard_error :
    (c : Codecs) (records : List WalRecord) (e : StorageError)
    (latest : Option (CheckpointEndRecord × ℕ))
    → is_hard_error e ≡ true
    → (e' : StorageError) × (find_checkpoint_end c records (some e) latest ≡ err e')
unfolding find_checkpoint_end at_stop
find_hard_error c [] e latest hard = (e, ground (arith, hard))
find_hard_error c (r ∷ records) e latest hard = elim (Result-cases (latest_after c r latest)) [
  | inl (e', bad) ↦ (e', ground (arith, bad))
  | inr (next, good) ↦
      let (e', failed) = find_hard_error c records e next hard in (e', ground (arith, good, failed))
]

-- A hard error of the reader fails the analysis, whatever the log holds before it.
pub analyze_hard_error :
    (crc : List ℕ → ℕ) (files : List ℕ → Result (List ℕ)) (c : Codecs) (checkpoint_lsn : ℕ)
    (log_at : ℕ → Log) (e : StorageError)
    → is_hard_error e ≡ true
    → (log_at (if checkpoint_lsn == 0 then 8 else checkpoint_lsn)).stop ≡ some e
    → (e' : StorageError) × (analyze crc files c checkpoint_lsn log_at ≡ err e')
unfolding analyze find_latest_checkpoint_end
analyze_hard_error crc files c checkpoint_lsn log_at e hard stops =
    let start = if checkpoint_lsn == 0 then 8 else checkpoint_lsn in
    let (e', failed) = find_hard_error c (log_at start).records e none hard in
    (e', ground (arith, stops, failed))

-- A successful analysis of a database with a completed checkpoint starts redo at the position that the
-- superblock names, whatever ends of checkpoints the log holds.
pub analyze_redo_start :
    (crc : List ℕ → ℕ) (files : List ℕ → Result (List ℕ)) (c : Codecs) (checkpoint_lsn : ℕ)
    (log_at : ℕ → Log) (res : AnalysisResult)
    → checkpoint_lsn ≢ 0
    → analyze crc files c checkpoint_lsn log_at ≡ ok res
    → res.redo_start ≡ checkpoint_lsn
unfolding analyze run_analysis
analyze_redo_start crc files c checkpoint_lsn log_at res valid h = ground (arith, h)
