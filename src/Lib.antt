-- ===== src/Lib.antt =====
-- AMS: a verification library for the database engine of this repository (crates/).
--
-- The engine keeps versioned rows in heap pages. Transactions take ids from a clock, lock tables,
-- read through snapshots, and leave their outcome in a commit log; a detector breaks deadlocks, and a
-- cleaner removes the versions that no snapshot can see. Every change of a page is a record of the
-- write-ahead log first, pages come from an allocator that the log can rebuild, and indexes keep
-- their keys as strings of bytes. The library models these parts, each as definitions that compute,
-- and proves what they promise each other.
--
-- Parts and files (paths from the repository's root):
-- - Common: names and lemmas that all modules share. Maps with integer keys are association lists
--   whose first entry of a key counts (`HasKeysOnce` says that no key has two); sets of ids are
--   lists; machine integers are numbers with the wrap-around written out.
-- - Storage/LsnClock: the allocator of log positions, crates/pg-storage/src/lsn_clock.rs; an
--   assertion that fails is a result without a value. Storage/FreelistMeta: `encode` and `decode` of
--   crates/pg-storage/src/freelist_meta.rs, for every checksum function. Storage/LittleEndian:
--   integers as lists of bytes.
-- - Storage/Wal: the records of the log, crates/pg-storage/src/wal/record.rs. RecordType has the
--   types and discriminants, Frame the record on disk (`encode`, `decode`, `record_size`), RoundTrip
--   and Refusals what is read back and what is refused. Codec is the interface to the serializer
--   bincode, whose encoding and decoding are parameters that read back what they write; Heap, Btree
--   and Hnsw are the payloads, each with its constructor and its `decode`, and Accepted joins them.
--   The checksum of crc32fast is any function into 32 bits. `StorageError` is in Storage/Error, its
--   messages left out; `align_up` and slices are in Storage/Types.
-- - Storage/PageAllocator: crates/pg-storage/src/page_allocator.rs. Each call takes as an argument
--   whether the data file can be grown and whether the log takes the record. Pages has the set of
--   pages in use and the invariant, Calls and Release the two operations, Replay the recovery.
-- - Storage/Superblock: crates/pg-storage/src/superblock.rs, the format of a copy (`encode`, `decode`
--   of both versions) and the file of two copies (`read`, `write`). The checksum is a parameter.
--   The file is a record of two lists of bytes; a crash is any bytes in the copy being written.
-- - Storage/Touched and Storage/Analysis: the analysis phase of recovery,
--   crates/pg-storage/src/analysis.rs, with `run_analysis` and the filter of recovered transactions
--   of crates/pg-storage/src/engine.rs. The reader of the log is the list of its records with the
--   way it stops; snapshot files are what reading them gives. Touched has the pages that a record
--   modifies, Active the table of active transactions, Dirty the table of dirty pages, Anchor the
--   choice of the redo point.
-- - Btree: crates/pg-am-btree/src/key.rs, the encoding of keys in Key, big-endian bytes and the
--   lexicographic order in Order.
-- - Txn/Victims: the registry of deadlock victims, `DeadlockVictims` of
--   crates/pg-txn/src/deadlock.rs.
-- - Txn/Lock: the table lock manager, crates/pg-txn/src/lock_manager.rs: `LockMode`, `LockEntry`
--   with `can_grant`, `grant`, `enqueue_if_absent`, `regrant_heads`, and `LockManager` with
--   `acquire`, `try_acquire`, `release_all`, `is_granted`. `acquire` loops around a condition
--   variable; one round of the loop is `acquire_round`. Txn/Lock/System is the relation of all
--   interleavings of rounds, calls and marks by the detector. Txn/Lock/Enqueue reads
--   the queue by its requests, Txn/Lock/Observe has `held_by` and `table_lock_states`.
--   `regrant_loop` has as fuel the length of the queue; each round of the loop pops the head, so that it never runs out.
-- - Txn/Clog: `TxnState` and the contract `ClogAccessor` of crates/pg-storage/src/clog.rs; the log
--   in memory, crates/pg-txn/src/clog_mem.rs, in Txn/Clog/Memory; the addresses and nibbles of the
--   log on disk, crates/pg-txn/src/clog_file.rs, in Txn/Clog/Address, and its segment files in
--   Txn/Clog/Segments: a file is the byte at each offset, with what an fsync has made durable beside
--   it. Txn/Clog/Buffer is the page cache over them, crates/pg-txn/src/clog_buffer.rs: Sweep has the
--   search for a victim, whose two revolutions are its fuel, Coherent the invariant and the load of a
--   page, Locate and Flush the other operations, Contract and Runs the log that the cache stands for.
-- - Txn/Visibility: `Snapshot` of crates/pg-txn/src/snapshot.rs, and both judgments of
--   crates/pg-txn/src/visibility.rs, `PgVisibilityOracle::is_visible` and the free function
--   `is_visible`. A commit log is a function from ids to states here.
-- - Txn/Manager: `TxnManager` of crates/pg-txn/src/manager.rs with the clock of
--   crates/pg-storage/src/txn_id.rs: `begin_txn`, `end_txn`, `snapshot`, the guard's drop,
--   `oldest_snapshot_xmin`, row waits. `end_txn` is two steps, the bit in the commit log and the
--   leaving of the active set, since others act in between. Txn/Manager/Schedule is the relation of
--   all interleavings; Txn/Manager/Commit has `commit_txn` and `abort_txn` over any two operations of
--   the trait `CommitWal`: what a flush makes durable is the log writer's part, which is not
--   modelled, and the theorems speak of the calls and their outcomes. The schedule's only bound is that the clock of 64
--   bits is not used up.
-- - Txn/Deadlock and Txn/Cycles: the detector of crates/pg-txn/src/deadlock.rs: `wait_for_edges`,
--   `mark_victims`, the pruning of marks, the depth-first search `find_cycles` and the round `tick`,
--   which reads the state at two moments. The search has as fuel, for each start, a turn for
--   each child of each node and one to leave it; Txn/Cycles/Work has the measure that every turn
--   decreases.
-- - Heap/LinePointer: crates/pg-am-heap/src/line_pointer.rs. Heap/Bytes: slices and little-endian
--   numbers. Heap/Page: crates/pg-am-heap/src/slotted_page.rs with the header fields of
--   crates/pg-storage/src/page.rs, on a page of the default size of 8192 bytes, given as the byte at
--   each offset. `tuple_loop` has as fuel the number of rounds that the source's loop allows.
-- - Heap/TupleHeader, Heap/Datum and Heap/Tuple: crates/pg-am-heap/src/tuple.rs, the header, the
--   values and the tuple with `encode_tuple_impl`, `decode_tuple` and `tuple_node_id`; Heap/Toast: the
--   pointers of crates/pg-am-heap/src/toast.rs. UUIDs and floating-point numbers are types of a
--   parameter with their bytes, a text is its bytes with a test of UTF-8. Bitmap and Bits have the
--   null bitmap and the bits of the header, Values the loop over the values, Total the encoder
--   followed by the decoder, Accepted what a tuple that is decoded holds.
--
-- Not modelled: the compaction of heap pages, the chunks of TOAST and the calls of the heap, the
-- writer, reader and segments of the log, the buffer pool, checkpoints and recovery but for its analysis and the
-- page allocator, the pages and splits of the B-tree, the vector index but for its log records,
-- the catalog, SQL and the wire protocol, which later parts may add; files, threads and timing,
-- which are outside of the models.

pub mod Common
pub mod Storage
pub mod Txn
pub mod Heap
pub mod Btree
