-- ===== src/WriteWorker.antt =====
-- src/write_worker.rs: the writes of a batch and the flush of a frozen table. The table files of the
-- directory are the list of their bytes by number, and renaming a finished file into place adds it.
-- The statistics and the syncing of files are not modelled, nor are errors of the file system.
pub mod Flush
pub mod Ends
mod Tests
use flowdb.Base.{
  ℕ, zero, suc, ◌+◌, max, Bool, true, false, not, if◌then◌else◌, length, map, filter, Option, none,
  some, List, [], ◌∷◌, ◌>>=◌,
}
use flowdb.Base.Bytes.{Bytes}
use flowdb.Base.Int.{ℤ, ltb_ℤ}
use flowdb.Record.{InternalRecord}
use flowdb.MemTable.{MemTable}
use flowdb.MemTables
use flowdb.MemTables.{MemTables, freeze, pop_frozen, frozen_backpressure, should_flush}
use flowdb.Bloom.{BloomFilter}
use flowdb.Manifest.{Manifest, SstInfo, flush, checkpoint, append, next_sst_id}
use flowdb.Wal.Segments.{Wal, write_encoded, truncate_before}
use flowdb.Sst.Blocks.{Lz4, times, expiries, min_or_zero, max_or_zero}
use flowdb.Sst.Write.{Written, write}
use flowdb.BlockIndex.Maps.{BlockMetaIndex, add_sst, set_bloom}

pub record WriteWorker : Type 0 where
  pub block_size : ℕ
  pub bloom_bits_per_key : ℕ
  pub wal : Wal
  pub memtables : MemTables
  pub manifest : Manifest
  pub index : BlockMetaIndex
  pub sst_files : List (ℕ × Bytes)

-- `retain(|r| r.expire_at > now_us)`
unfoldable pub unexpired : ℤ → List InternalRecord → List InternalRecord
unexpired now_us = filter (λ (r : InternalRecord). ltb_ℤ now_us r.expire_at)

-- `map(|r| r.seq).max().unwrap_or(0)`
unfoldable pub last_seq : List InternalRecord → ℕ
last_seq [] = 0
last_seq (r ∷ rs) = max r.seq (last_seq rs)

unfoldable pub sst_info : ℕ → List InternalRecord → Written → BloomFilter → SstInfo
sst_info sst_id records written bloom = record {
  id = sst_id;
  records = length records;
  bytes = written.total_bytes;
  min_ts = min_or_zero (times records);
  max_ts = max_or_zero (times records);
  min_expire = min_or_zero (expiries records);
  max_expire = max_or_zero (expiries records);
  bloom = some bloom;
}

-- What follows the write of the file.
unfoldable pub install : WriteWorker → ℕ → List InternalRecord → Written × BloomFilter → WriteWorker
install w sst_id records (written, bloom) =
    let seq = last_seq records in
    let entry = flush seq (sst_info sst_id records written bloom) written.block_infos in
    record w {
      sst_files = (sst_id, written.file) ∷ w.sst_files;
      manifest = append (append w.manifest entry) (checkpoint seq);
      index = set_bloom (add_sst w.index sst_id written.block_infos) sst_id bloom;
      wal = truncate_before w.wal seq;
    }

module _ (lz4 : Lz4) where
  -- The flush of the records of a table that is popped.
  unfoldable pub flush_records : WriteWorker → List InternalRecord → Option WriteWorker
  flush_records w [] = some w
  flush_records w (r ∷ rs) = write lz4 (r ∷ rs) w.block_size w.bloom_bits_per_key >>= λ done.
      some (install w (next_sst_id w.manifest) (r ∷ rs) done)

  -- What follows the pop.
  unfoldable pub flush_popped : ℤ → WriteWorker → Option MemTable × MemTables → Option WriteWorker
  flush_popped now_us w (none, memtables) = some (record w { memtables = memtables })
  flush_popped now_us w (some table, memtables) =
      flush_records (record w { memtables = memtables }) (unexpired now_us table.records)

  -- `none` is a panic.
  unfoldable pub do_flush : ℤ → WriteWorker → Option WriteWorker
  do_flush now_us w = flush_popped now_us w (pop_frozen (freeze w.memtables).1)

-- A batch that waits: its records, their encoding for the log and its greatest number.
pub record Submission : Type 0 where
  pub records : List InternalRecord
  pub wal_buf : Bytes
  pub batch_max_seq : ℕ

unfoldable pub insert_all : MemTables → List InternalRecord → MemTables
insert_all tables [] = tables
insert_all tables (r ∷ rs) = insert_all (MemTables.insert tables r) rs

unfoldable pub process_batch_inner : WriteWorker → Submission → WriteWorker
process_batch_inner w sub = record w {
  wal = write_encoded w.wal sub.wal_buf sub.batch_max_seq;
  memtables = insert_all w.memtables sub.records;
}

unfoldable pub process_all : WriteWorker → List Submission → WriteWorker
process_all w [] = w
process_all w (sub ∷ subs) = process_all (process_batch_inner w sub) subs

module _ (lz4 : Lz4) (now_us : ℤ) where
  -- `while frozen_backpressure { do_flush }`; `none` also where the fuel runs out.
  unfoldable pub relieve : ℕ → WriteWorker → Option WriteWorker
  relieve zero w = none
  relieve (suc fuel) w = elim (frozen_backpressure w.memtables) [
    | false ↦ some w
    | true ↦ elim (do_flush lz4 now_us w) [ none ↦ none | some w' ↦ relieve fuel w' ]
  ]

  unfoldable pub process_batch_group : WriteWorker → List Submission → Option WriteWorker
  process_batch_group w submissions = do
    w1 ← relieve (suc (suc (length w.memtables.frozen))) w
    let w2 = process_all w1 submissions
    if should_flush w2.memtables then do_flush lz4 now_us w2 else some w2
