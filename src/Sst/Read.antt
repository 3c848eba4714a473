-- ===== src/Sst/Read.antt =====
-- src/sstable.rs: `SstReader`, over the bytes of a file.
pub mod Placed
pub mod Back
pub mod Whole
use flowdb.Base.{
  ℕ, zero, suc, ◌+◌, ltb, true, false, if◌then◌else◌, length, get_elem?, take, drop, Option, none,
  some, List, [], ◌∷◌, ◌%◌, ◌^◌,
}
use flowdb.Base.Bytes.{Bytes}
use flowdb.Config.{FlowError, corruption, block_not_found, other, Result, ok, err, ◌>>=◌}
use flowdb.Record.{InternalRecord}
use flowdb.Sst.{BlockHeader, header_size, from_bytes, decode_records}
use flowdb.Sst.Blocks.{Lz4}

pub record SstReader : Type 0 where
  pub sst_id : ℕ
  pub mmap : Bytes
  pub block_offsets : List ℕ

-- `&data[from..from + n]`
unfoldable pub slice : ℕ → ℕ → Bytes → Bytes
slice from n bytes = take n (drop from bytes)

-- The loop of `open`; the fuel is the size of the file, and is not used up.
unfoldable pub offsets_loop : ℕ → Bytes → ℕ → Result (List ℕ)
offsets_loop zero bytes pos = ok []
offsets_loop (suc fuel) bytes pos = elim (ltb (length bytes) (pos + header_size)) [
  | true ↦ ok []
  | false ↦ do
    header ← from_bytes (slice pos header_size bytes)
    rest ← offsets_loop fuel bytes (pos + header_size + header.compressed_len)
    ok (pos ∷ rest)
]

unfoldable pub open_reader : Bytes → ℕ → Result SstReader
open_reader bytes sst_id = do
  offsets ← offsets_loop (length bytes) bytes 0
  ok (record { sst_id = sst_id; mmap = bytes; block_offsets = offsets })

module _ (lz4 : Lz4) where
  unfoldable pub decompress_block : Bytes → BlockHeader → Result Bytes
  decompress_block bytes header = elim (lz4.decompress bytes header.data_len) [
    | none ↦ err (other "lz4 decompress")
    | some raw ↦ ok raw
  ]

  unfoldable pub read_at : Bytes → ℕ → Result (List InternalRecord)
  read_at bytes pos =
      if ltb (length bytes) (pos + header_size) then err (corruption "block out of bounds") else do
        header ← from_bytes (slice pos header_size bytes)
        let start = pos + header_size
        if ltb (length bytes) (start + header.compressed_len)
            then err (corruption "block compressed data truncated")
            else do
              raw ← decompress_block (slice start header.compressed_len bytes) header
              ok (decode_records raw header.num_records)

  -- `read_block_inner`, and `read_block` without a cache.
  unfoldable pub read_block_inner : SstReader → ℕ → Result (List InternalRecord)
  read_block_inner reader block_idx = elim (get_elem? reader.block_offsets block_idx) [
    | none ↦ err (block_not_found reader.sst_id block_idx)
    | some pos ↦ read_at reader.mmap pos
  ]

unfoldable pub block_count : SstReader → ℕ
block_count reader = length reader.block_offsets % 2 ^ 32
