-- ===== src/WriteWorker/Tests.antt =====
-- The theorems about the write worker at concrete inputs.
use flowdb.Base.{◌≡◌, ◌<◌, refl, arith, length, none, some, [], ◌∷◌}
use flowdb.Base.Int.{pos, negsuc, i64_max}
use flowdb.Record.{InternalRecord, put}
use flowdb.MemTable
use flowdb.MemTable.{MemTable}
use flowdb.MemTables
use flowdb.MemTables.{MemTables}
use flowdb.Manifest.{open_manifest}
use flowdb.Wal.Segments.{Wal}
use flowdb.Sst.Blocks.{Lz4}
use flowdb.BlockIndex.Maps.{new_index}
use flowdb.WriteWorker.{WriteWorker, Submission, process_batch_group}
use flowdb.WriteWorker.Ends.{process_batch_group_ends}

abbrev stored : Lz4
stored = record {
  compress = λ bs. bs;
  decompress = λ bs size. some bs;
  decompress_compress = λ bs. refl;
}

abbrev newest : InternalRecord
newest = record {
  seq = 7;
  op = put;
  key = 97 ∷ 98 ∷ [];
  ts = negsuc 4;
  expire_at = i64_max;
  value = 1 ∷ 2 ∷ 3 ∷ [];
  range_end = none;
}

abbrev older : MemTable
older = record { records = newest ∷ []; point_index = []; bytes = 40 }

abbrev tables : MemTables
tables = record {
  active = MemTable.new;
  frozen = older ∷ [];
  max_frozen = 1;
  memtable_size_limit = 100;
}

abbrev emptied : MemTables
emptied = record tables { frozen = [] }

abbrev log : Wal
log = record { segments = []; max_segment_bytes = 100; next_seq = 1; next_segment_id = 1 }

abbrev worker : WriteWorker
worker = record {
  block_size = 10;
  bloom_bits_per_key = 10;
  wal = log;
  memtables = tables;
  manifest = open_manifest [];
  index = new_index 3600 (omega arith);
  sst_files = [];
}

abbrev batch : Submission
batch = record { records = newest ∷ []; wal_buf = 1 ∷ 2 ∷ []; batch_max_seq = 7 }

process_batch_group_ends_example :
    (w' : WriteWorker) × (process_batch_group stored (pos 5) worker (batch ∷ batch ∷ []) ≡ some w')
    × (length w'.memtables.frozen < 1)
process_batch_group_ends_example =
    process_batch_group_ends stored (pos 5) worker (batch ∷ batch ∷ []) (omega arith)
