-- ===== src/Storage/Analysis/Examples.antt =====
-- Runs of the analysis phase.
use ams.Common.{ℕ, ◌≡◌, refl, ◌↔◌, true, none, some, List, [], ◌∷◌, length, arith, contains}
use ams.Common.Map.{lookup, keys}
use ams.Common.Sort.{sort, IsSorted}
use ams.Storage.Error.{Result, ok, err, StorageError, io, wal_corrupted}
use ams.Storage.Wal.RecordType.{heap_insert, txn_commit}
use ams.Storage.Wal.Frame.{WalRecord}
use ams.Storage.Wal.Codec.{Codec}
use ams.Storage.Wal.Heap.{CheckpointEndRecord}
use ams.Storage.Touched.{Codecs, decode_prefix, one_page, for_each_touched_page}
use ams.Storage.Analysis.{
  AnalysisResult, Log, at_stop, is_hard_error, track_xid, or_insert, or_insert_all, scan,
  insert_by_key, sort_by_key, load_att_snapshot, load_dpt_snapshot, run_analysis,
  find_checkpoint_end, latest_after, find_latest_checkpoint_end, analyze, is_unfinished,
  filter_recovered,
}
use ams.Storage.Analysis.Active.{IsInFlight, recovered_active}
use ams.Storage.Analysis.Dirty.{first_touch, or_else, run_analysis_dpt}
use ams.Storage.Analysis.Anchor.{analyze_hard_error, analyze_redo_start}
use ams.Txn.Clog.{Clog, in_progress}

abbrev no_codec : {T : Type 0} → Codec T
no_codec = record { encode_to_vec = λ _. none; decode_from_slice = λ _. none }

-- One byte is a number.
abbrev byte_codec : Codec ℕ
byte_codec = record {
  encode_to_vec = λ n. some (n ∷ []);
  decode_from_slice = λ bytes. elim bytes [ [] ↦ none | b ∷ _ ↦ some (b, 1) ];
}

abbrev codecs : Codecs
codecs = record {
  page_id = byte_codec;
  tid = no_codec;
  byte = byte_codec;
  short = byte_codec;
  lsn = byte_codec;
  seq_head = no_codec;
  tombstone = no_codec;
  publish_live = no_codec;
  checkpoint_end = no_codec;
  checkpoint_end_v1 = no_codec;
  xids = no_codec;
  entries = no_codec;
}

abbrev crc : List ℕ → ℕ
crc bytes = length bytes

abbrev no_files : List ℕ → Result (List ℕ)
no_files _ = err io

abbrev insert_at : ℕ → ℕ → ℕ → WalRecord
insert_at lsn xid page = record {
  lsn = lsn;
  prev_lsn = 0;
  txn_id = xid;
  record_type = heap_insert;
  flags = 0;
  payload = page ∷ [];
}

abbrev commit_at : ℕ → ℕ → WalRecord
commit_at lsn xid = record (insert_at lsn xid 0) { record_type = txn_commit }

-- Transaction 5 commits, 6 does not, and the log ends in a record that is torn.
abbrev torn_log : Log
torn_log = record {
  records = insert_at 64 6 4 ∷ insert_at 104 5 3 ∷ commit_at 144 5 ∷ insert_at 184 6 3 ∷ [];
  stop = some (wal_corrupted 224);
}

abbrev anchor : CheckpointEndRecord
anchor = record {
  checkpoint_lsn = 64;
  next_page_id = 0;
  next_txn_id = 0;
  next_oid = 0;
  att_file = [];
  dpt_file = [];
}

abbrev clog : Clog
clog = λ _. in_progress

abbrev found : AnalysisResult
found = record { redo_start = 64; att = 6 ∷ []; dpt = (3, 104) ∷ (4, 64) ∷ [] }

analyzed : run_analysis crc no_files codecs anchor torn_log ≡ ok found
unfolding run_analysis load_att_snapshot load_dpt_snapshot scan for_each_touched_page one_page
    decode_prefix track_xid or_insert or_insert_all at_stop is_hard_error sort sort_by_key
    insert_by_key
analyzed = refl

recovered_active_example :
    IsSorted found.att
    × ((x : ℕ)
        → (contains x (filter_recovered clog found.att) ≡ true) ↔ (
            IsInFlight x (load_att_snapshot crc no_files codecs anchor.att_file) torn_log.records
            × (is_unfinished (clog x) ≡ true)))
recovered_active_example = recovered_active crc no_files codecs anchor torn_log found clog analyzed

run_analysis_dpt_example :
    IsSorted (keys found.dpt)
    × ((p : ℕ)
        → lookup p found.dpt
          ≡ or_else
              (lookup p (load_dpt_snapshot crc no_files codecs anchor.dpt_file))
              (first_touch codecs p torn_log.records))
run_analysis_dpt_example = run_analysis_dpt crc no_files codecs anchor torn_log found analyzed

analyzed_whole : analyze crc no_files codecs 64 (λ _. torn_log) ≡ ok found
unfolding analyze find_latest_checkpoint_end find_checkpoint_end latest_after run_analysis
    load_att_snapshot load_dpt_snapshot scan for_each_touched_page one_page decode_prefix track_xid
    or_insert or_insert_all at_stop is_hard_error sort sort_by_key insert_by_key
analyzed_whole = refl

analyze_redo_start_example : found.redo_start ≡ 64
analyze_redo_start_example =
    analyze_redo_start crc no_files codecs 64 (λ _. torn_log) found (λ e. omega (arith, e))
      analyzed_whole

-- A log that the system fails to read on.
abbrev failing_log : Log
failing_log = record torn_log { stop = some io }

io_is_hard : is_hard_error io ≡ true
unfolding is_hard_error
io_is_hard = refl

analyze_hard_error_example :
    (e : StorageError) × (analyze crc no_files codecs 0 (λ _. failing_log) ≡ err e)
analyze_hard_error_example =
    analyze_hard_error crc no_files codecs 0 (λ _. failing_log) io io_is_hard refl

no_end : find_latest_checkpoint_end codecs torn_log ≡ ok none
unfolding find_latest_checkpoint_end find_checkpoint_end latest_after at_stop is_hard_error
no_end = refl
