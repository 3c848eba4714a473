-- ===== src/WriteWorker/Flush.antt =====
-- What a flush leaves behind.
use flowdb.Base.{◌==◌, any, length, ℕ, ◌≤◌, ◌≡◌, true, max, map, All, none, some, List, ◌++◌}
use flowdb.Base.Bytes.{Bytes}
use flowdb.Config.{ok}
use flowdb.Record.{InternalRecord}
use flowdb.MemTable.{MemTable}
use flowdb.MemTables.{MemTables}
use flowdb.Bloom.{BloomFilter, may_contain}
use flowdb.Bloom.Members.{may_contain-from_keys_with_bits}
use flowdb.Manifest.{BlockInfo, SstInfo, contains, get}
use flowdb.Wal.Segments.{Wal, replay_from}
use flowdb.Sst.Records.{unnumbered}
use flowdb.Sst.Blocks.{Lz4}
use flowdb.Sst.Write.{chunks, unique_keys, nothing_written, write_blocks, write}
use flowdb.Sst.Write.Stream.{keys_of, All-unique_keys}
use flowdb.Sst.Write.Infos.{Ranges, Describes}
use flowdb.Sst.Read.{SstReader, open_reader}
use flowdb.Sst.Read.Whole.{flatten, read_file}
use flowdb.BlockIndex.{BlockMeta, from_block_info}
use flowdb.BlockIndex.Maps.{bloom_may_contain}
use flowdb.BlockIndex.Maps.Contents.{Holds}
use flowdb.WriteWorker.{WriteWorker}

-- What the manifest says of a file: how many records and bytes it has, and their ranges.
pub record DescribesFile (info : SstInfo) (file : Bytes) (rs : List InternalRecord) : Type 0 where
  pub records : info.records ≡ length rs
  pub bytes : info.bytes ≡ length file
  pub ranges : Ranges info.min_ts info.max_ts info.min_expire info.max_expire rs

-- The table file `sst_id` holds the records `rs` in blocks, and the rest of the state knows it.
pub record Flushed (lz4 : Lz4) (before : Wal) (w' : WriteWorker) (sst_id : ℕ)
    (rs : List InternalRecord) (metas : List BlockMeta) : Type 0 where
  pub file : Bytes
  pub reader : SstReader
  pub blocks : List (List InternalRecord)
  pub info : SstInfo
  pub infos : List BlockInfo
  pub there : get w'.sst_files sst_id ≡ some file
  pub opens : open_reader file sst_id ≡ ok reader
  pub reads : read_file lz4 reader ≡ ok (map (map unnumbered) blocks)
  pub whole : flatten blocks ≡ rs
  pub active : contains w'.manifest.state.active_sst_ids sst_id ≡ true
  pub known : get w'.manifest.state.sstables sst_id ≡ some info
  pub described : DescribesFile info file rs
  pub listed : get w'.manifest.state.block_infos sst_id ≡ some infos
  pub describes : Describes 0 infos blocks
  pub numbered : All (λ r. r.seq ≤ w'.manifest.state.last_flushed_seq) rs
  pub filtered : All (λ key. bloom_may_contain w'.index sst_id key ≡ some true) (keys_of rs)
  pub indexed : Holds w'.index (metas ++ map (from_block_info sst_id) infos)
  pub last : ℕ
  pub attained : any (λ (r : InternalRecord). r.seq == last) rs ≡ true
  pub greatest : All (λ r. r.seq ≤ last) rs
  pub logged : replay_from w'.wal last ≡ replay_from before last

pub write_of :
    (lz4 : Lz4) (rs : List InternalRecord) (block_size bits_per_key : ℕ)
    → (bloom : BloomFilter) × (write lz4 rs block_size bits_per_key
        ≡ some (write_blocks lz4 nothing_written (chunks (max block_size 1) rs), bloom))
      × All (λ key. may_contain bloom key ≡ some true) (keys_of rs)
unfolding write
write_of lz4 rs block_size bits_per_key =
    let (bf, built, all') = may_contain-from_keys_with_bits (unique_keys none rs) bits_per_key in
    (bf, rw built, All-unique_keys (λ key. may_contain bf key ≡ some true) none rs tt all')
