-- ===== src/Lib.antt =====
-- A model of flowdb, a storage engine for records of a key, a time, an expiry and a value, in the
-- manner of a log-structured merge tree.
--
-- A write gets a number, goes to the write-ahead log (src/wal.rs) and then to the active memtable
-- (src/memtable.rs). A full memtable is frozen, which sorts it, and flushed to a table file of
-- blocks (src/sstable.rs) with a Bloom filter over its keys (src/bloom.rs). The manifest
-- (src/manifest.rs) logs which table files there are and up to which number the log is flushed;
-- the log is then truncated. At a start the manifest and the log are read again. Reads go to the
-- memtables and, by the index of blocks (src/block_meta_index.rs), to the table files.
--
-- The files:
--   Base         helpers: lists and bytes over native numbers, `i64`, big-endian bytes, a reader
--                that takes bytes off the front of a list, the hash that the log and the filter
--                share, bits, sorting
--   Record       src/record.rs: Op, Record, InternalRecord and their constructors
--   Config       src/record.rs, src/error.rs: Config, its defaults, validate, the errors
--   Query        src/record.rs: KeyFilter, Query, ScanRange, to_query_params, and the tests of a key
--                and a time in filter_sst_block of src/engine.rs
--   Wal          src/wal.rs: encode_record, decode_record, encode_batch, the checksum;
--                Wal/Segments has the state (Segment, Wal) and open, write_encoded,
--                truncate_before, replay_from
--   MemTable     src/memtable.rs: MemTable with its index, its queries and its order
--   MemTables    src/memtable.rs: MemTables, freeze, pop_frozen, and the reads over all tables
--   Sst          src/sstable.rs: BlockHeader, encode_records, decode_records; Sst/Write has SstWriter
--                and SstStreamWriter, Sst/Read has SstReader
--   Scan         src/engine.rs: ScanIterator with next; Scan/Build has build and filter_sst_block;
--                Scan/Asked says what a scan is asked for, apart from how it is found
--   Bloom        src/bloom.rs: BloomFilter, insert, may_contain
--   Manifest     src/manifest.rs: the entries, apply_entry, open, append, snapshot, next_sst_id
--   BlockIndex   src/block_meta_index.rs: what a block overlaps, binary_search_block; BlockIndex/Maps
--                has BlockMetaIndex with its updates and queries
--   Gc           src/gc.rs: the expired files and their removal from the manifest
--   Compaction   src/compaction.rs: pick_compaction_candidates; Compaction/Merge has SstBlockIterator
--                and the merge in run
--   WriteWorker  src/write_worker.rs: process_batch_group and do_flush, over the states of the log,
--                the memtables, the manifest, the index and the table files
--
-- How the model stands to the code. A byte is a number below 256 and a `Vec<u8>` a list of them; a
-- `u64` or `usize` is a number, with `% 2 ^ w` where the code casts or wraps; an `i64` is an integer
-- of Base/Int. A method on `&mut self` is a function to the new state; an error or a panic is `none`
-- or an `err`. Files are lists of bytes, or for the manifest the list of the entries that parse. A
-- `HashMap` or a `BTreeMap` is a list of entries by key. In the log, the file that a `Segment` has
-- open is its `contents`.
--
-- Fuel: the two loops over a segment (`replay_loop`, `find_max_loop`) get the length of the segment,
-- which is enough because each round takes at least one byte, and the binary search gets one more
-- than the number of blocks, since each round narrows its range; the theorems on them say that a
-- result is returned. A loop that is not named here is a recursion on a list or on a count of the code.
--
-- The offsets of a table file are found with its size as fuel, since a block takes 48 bytes or more;
-- the loop of `next` over the heap gets one more than the records that are left and the entries of
-- the heap, since a round takes one or the other, and the theorems say that a scan returns.
--
-- The wait for room among the frozen tables gets two more than their number, since a flush takes one
-- table and freezing adds one at most once. The merge of a compaction gets one more round than the
-- unexpired records of its files, since each round takes one.
--
-- Parameters: the compression of lz4_flex, of which decompression undoes compression (`Lz4`); the
-- std `BinaryHeap`, whose `pop` takes a greatest entry (`MaxHeap`, Base/Heap has one such); what
-- reading a block gives, in `build`.
--
-- Not modelled: errors of the file system, fsync and the order in which writes reach the disk;
-- threads, since a method that holds its lock is one step; the JSON of the manifest, which serde
-- writes; a block index with buckets of no width, on which add_sst panics and which validate
-- rejects; the block cache, the queue of submissions, the files and the manifest entry of a
-- compaction, the point reads of the engine and its opening, and the document store in src/jsondb;
-- the counters, the command line tools, the derive macros and the bindings.
pub mod Base
pub mod Record
pub mod Config
pub mod Query
pub mod Wal
pub mod MemTable
pub mod MemTables
pub mod Sst
pub mod Scan
pub mod Bloom
pub mod Manifest
pub mod BlockIndex
pub mod Gc
pub mod Compaction
pub mod WriteWorker
