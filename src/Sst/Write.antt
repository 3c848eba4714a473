-- ===== src/Sst/Write.antt =====
-- src/sstable.rs: `SstWriter::write` and `SstStreamWriter`. A file is the bytes that are written to
-- it; flush and fsync are not modelled. A Bloom filter that panics gives `none`.
pub mod Chunks
pub mod Stream
pub mod Infos
use flowdb.Base.{
  ℕ, zero, suc, ◌+◌, ◌^◌, ◌%◌, max, Bool, true, false, leb, if◌then◌else◌, length, take, drop,
  Option, none, some, List, [], ◌∷◌, ◌++◌, ◌>>=◌,
}
use flowdb.Base.Bytes.{Bytes, eq_bytes}
use flowdb.Record.{InternalRecord}
use flowdb.Bloom
use flowdb.Bloom.{BloomFilter, from_keys_with_bits, with_bits_per_key}
use flowdb.Manifest.{BlockInfo}
use flowdb.Sst.{header_size, encode_records}
use flowdb.Sst.Blocks.{Lz4, block_bytes, block_info}

-- `records.chunks(size)` for a size that is not 0. The fuel is the number of records.
unfoldable pub chunks_loop : ℕ → ℕ → List InternalRecord → List (List InternalRecord)
chunks_loop fuel size [] = []
chunks_loop zero size (r ∷ rs) = []
chunks_loop (suc fuel) size (r ∷ rs) =
    take size (r ∷ rs) ∷ chunks_loop fuel size (drop size (r ∷ rs))

unfoldable pub chunks : ℕ → List InternalRecord → List (List InternalRecord)
chunks size rs = chunks_loop (length rs) size rs

-- The first loop of `write`: the key of each run of records with the same key.
unfoldable pub unique_keys : Option Bytes → List InternalRecord → List Bytes
unique_keys last [] = []
unique_keys none (r ∷ rs) = r.key ∷ unique_keys (some r.key) rs
unique_keys (some k) (r ∷ rs) =
    if eq_bytes k r.key then unique_keys (some k) rs else r.key ∷ unique_keys (some r.key) rs

-- What a writer has written.
pub record Written : Type 0 where
  pub file : Bytes
  pub total_bytes : ℕ
  pub block_infos : List BlockInfo

unfoldable pub nothing_written : Written
nothing_written = record { file = []; total_bytes = 0; block_infos = [] }

module _ (lz4 : Lz4) where
  -- A round of the loop of `write`, and the body of `flush_block`.
  unfoldable pub write_block : Written → List InternalRecord → Written
  write_block w chunk = record {
    file = w.file ++ block_bytes lz4 chunk;
    total_bytes = w.total_bytes + header_size + length (lz4.compress (encode_records chunk));
    block_infos = w.block_infos ++ (block_info (length w.block_infos) chunk ∷ []);
  }

  unfoldable pub write_blocks : Written → List (List InternalRecord) → Written
  write_blocks w [] = w
  write_blocks w (chunk ∷ cs) = write_blocks (write_block w chunk) cs

  unfoldable pub write : List InternalRecord → ℕ → ℕ → Option (Written × BloomFilter)
  write records block_size bloom_bits_per_key = do
    bloom ← from_keys_with_bits (unique_keys none records) bloom_bits_per_key
    some (write_blocks nothing_written (chunks (max block_size 1) records), bloom)

-- The fields of `SstStreamWriter`, the file and what it has written in `written`.
pub record SstStreamWriter : Type 0 where
  pub written : Written
  pub block_size : ℕ
  pub bloom : BloomFilter
  pub current_block : List InternalRecord

unfoldable pub new_stream : ℕ → ℕ → ℕ → SstStreamWriter
new_stream block_size estimated_keys bloom_bits_per_key = record {
  written = nothing_written;
  block_size = block_size;
  bloom = with_bits_per_key (max estimated_keys 1) bloom_bits_per_key;
  current_block = [];
}

module _ (lz4 : Lz4) where
  unfoldable pub flush_block : SstStreamWriter → SstStreamWriter
  flush_block s = elim s.current_block [
    | [] ↦ s
    | r ∷ rs ↦ record s { written = write_block lz4 s.written (r ∷ rs); current_block = [] }
  ]

  unfoldable pub write_record : SstStreamWriter → InternalRecord → Option SstStreamWriter
  write_record s rec = do
    bloom ← Bloom.insert s.bloom rec.key
    let s' = record s { bloom = bloom; current_block = s.current_block ++ (rec ∷ []) }
    some (if leb s.block_size (length s'.current_block) then flush_block s' else s')

  unfoldable pub write_records : SstStreamWriter → List InternalRecord → Option SstStreamWriter
  write_records s [] = some s
  write_records s (rec ∷ rs) = write_record s rec >>= λ s'. write_records s' rs

  unfoldable pub finish : SstStreamWriter → Written × BloomFilter
  finish s = let s' = flush_block s in (s'.written, s'.bloom)
