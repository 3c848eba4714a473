-- ===== src/Compaction/Tests.antt =====
-- The theorems about compactions at concrete inputs.
use flowdb.Record.{InternalRecord, put}
use flowdb.Sst.Blocks.{Lz4, block_bytes}
use flowdb.Sst.Read.{SstReader}
use flowdb.Base.{ℕ, ◌≡◌, refl, arith, length, none, some, List, [], ◌∷◌}
use flowdb.Base.Int.{pos}
use flowdb.Base.Sorts.{Sorted}
use flowdb.Manifest.{SstInfo, ManifestState, get}
use flowdb.Compaction.{bytes_le, sized_of, pick_compaction_candidates}
use flowdb.Compaction.Candidates.{
  Smallest, threshold_of, by_size, pick_compaction_candidates-Smallest,
}

abbrev info : ℕ → ℕ → SstInfo
info id bytes = record {
  id = id;
  records = 10;
  bytes = bytes;
  min_ts = pos 1;
  max_ts = pos 9;
  min_expire = pos 20;
  max_expire = pos 30;
  bloom = none;
}

abbrev state : ManifestState
state = record {
  last_flushed_seq = 9;
  sstables = (1, info 1 900) ∷ (2, info 2 100) ∷ (3, info 3 300) ∷ [];
  block_infos = [];
  active_sst_ids = 1 ∷ 2 ∷ 3 ∷ [];
}

all_there : length (by_size state (1 ∷ 2 ∷ 3 ∷ [])) ≡ 3
unfolding sized_of get
all_there = refl

pick_compaction_candidates-Smallest_example :
    Sorted bytes_le (by_size state (1 ∷ 2 ∷ 3 ∷ []))
    × Smallest
        (by_size state (1 ∷ 2 ∷ 3 ∷ []))
        (threshold_of (by_size state (1 ∷ 2 ∷ 3 ∷ [])))
        (pick_compaction_candidates state (1 ∷ 2 ∷ 3 ∷ []))
pick_compaction_candidates-Smallest_example =
    pick_compaction_candidates-Smallest state (1 ∷ 2 ∷ 3 ∷ []) (omega (arith, all_there))

abbrev stored : Lz4
stored = record {
  compress = λ bs. bs;
  decompress = λ bs size. some bs;
  decompress_compress = λ bs. refl;
}

abbrev live : InternalRecord
live = record {
  seq = 0;
  op = put;
  key = 97 ∷ [];
  ts = pos 4;
  expire_at = pos 9;
  value = [];
  range_end = none;
}

abbrev reader : SstReader
reader = record { sst_id = 1; mmap = block_bytes stored (live ∷ []); block_offsets = 0 ∷ [] }
