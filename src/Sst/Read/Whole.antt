-- ===== src/Sst/Read/Whole.antt =====
-- A table file read from its first block to its last.
use flowdb.Base.{
  ℕ, zero, suc, ◌+◌, ◌≤◌, ◌<◌, ◌≡◌, refl, ap, arith, max, length, drop, take-append-drop,
  length-drop, map, flat_map, All, List, [], ◌∷◌,
}
use flowdb.Base.Bytes.{Bytes}
use flowdb.Config.{Result, ok, ◌>>=◌}
use flowdb.Record.{InternalRecord}
use flowdb.Sst.Records.{unnumbered}
use flowdb.Sst.Blocks.{Lz4}
use flowdb.Sst.Write.{chunks_loop, chunks, nothing_written, write_blocks}
use flowdb.Sst.Read.{SstReader, open_reader, read_at}
use flowdb.Sst.Read.Placed.{FitsChunk, packed}
use flowdb.Sst.Read.Back.{
  read_at-At, blocks_bytes, offsets_from, Tail, Tail-At, Tail-next, offsets_loop-Tail,
  file-nothing_written, open_reader_of, length-blocks_bytes,
}

abbrev pub flatten : List (List InternalRecord) → List InternalRecord
flatten = flat_map (λ (c : List InternalRecord). c)

flatten-chunks_loop :
    (fuel size : ℕ) (rs : List InternalRecord)
    → length rs ≤ fuel
    → 0 < size
    → flatten (chunks_loop fuel size rs) ≡ rs
unfolding chunks_loop
flatten-chunks_loop zero size [] h k = refl
flatten-chunks_loop (suc fuel) size [] h k = refl
flatten-chunks_loop zero size (r ∷ rs) h k = absurd (omega arith)
flatten-chunks_loop (suc fuel) size (r ∷ rs) h k =
    rw
      (flatten-chunks_loop fuel size (drop size (r ∷ rs)) (omega (arith, length-drop size (r ∷ rs)))
        k)
      (take-append-drop size (r ∷ rs))

pub flatten-chunks :
    (size : ℕ) (rs : List InternalRecord) → 0 < size → flatten (chunks size rs) ≡ rs
unfolding chunks
flatten-chunks size rs k = flatten-chunks_loop (length rs) size rs (omega arith) k

module _ (lz4 : Lz4) where
  -- The records of each block at these offsets, as `read_block_inner` reads each.
  unfoldable pub read_blocks : Bytes → List ℕ → Result (List (List InternalRecord))
  read_blocks bytes [] = ok []
  read_blocks bytes (at ∷ offsets) = do
    records ← read_at lz4 bytes at
    rest ← read_blocks bytes offsets
    ok (records ∷ rest)

  unfoldable pub read_file : SstReader → Result (List (List InternalRecord))
  read_file reader = read_blocks reader.mmap reader.block_offsets

  read_blocks-Tail :
      (cs : List (List InternalRecord)) (bytes : Bytes) (at : ℕ)
      → Tail lz4 bytes at cs
      → All (FitsChunk lz4) cs
      → read_blocks bytes (offsets_from lz4 at cs) ≡ ok (map (map unnumbered) cs)
  unfolding read_blocks offsets_from
  read_blocks-Tail [] bytes at t f = refl
  read_blocks-Tail (c ∷ cs) bytes at t f = rw (
    read_at-At lz4 bytes at c (blocks_bytes lz4 cs) f.0 (Tail-At lz4 bytes at c cs t),
    read_blocks-Tail cs bytes (at + 48 + length (packed lz4 c)) (Tail-next lz4 bytes at c cs t) f.1,
  )

  open_reader-Tail :
      (cs : List (List InternalRecord)) (sst_id : ℕ)
      → All (FitsChunk lz4) cs
      → (reader : SstReader) × (open_reader (write_blocks lz4 nothing_written cs).file sst_id
          ≡ ok reader)
        × (read_file reader ≡ ok (map (map unnumbered) cs))
  unfolding read_file
  open_reader-Tail cs sst_id f =
      let bytes = (write_blocks lz4 nothing_written cs).file in
      let file = file-nothing_written lz4 cs in
      let tail : Tail lz4 bytes 0 cs = record {
        tail = file;
        size = omega (arith, ap (length {A = ℕ}) file);
      } in
      let offsets =
        offsets_loop-Tail lz4 cs (length bytes) bytes 0 tail f
          (omega (arith, length-blocks_bytes lz4 cs, ap (length {A = ℕ}) file)) in
      let reader : SstReader = record {
        sst_id = sst_id;
        mmap = bytes;
        block_offsets = offsets_from lz4 0 cs;
      } in
      (
        reader,
        open_reader_of lz4 bytes sst_id (offsets_from lz4 0 cs) offsets,
        read_blocks-Tail cs bytes 0 tail f,
      )

  -- The file of a writer holds the chunks of its records.
  pub read_file-chunks :
      (rs : List InternalRecord) (block_size sst_id : ℕ)
      → All (FitsChunk lz4) (chunks (max block_size 1) rs)
      → (reader : SstReader) × (open_reader
            (write_blocks lz4 nothing_written (chunks (max block_size 1) rs)).file
            sst_id
          ≡ ok reader)
        × (read_file reader ≡ ok (map (map unnumbered) (chunks (max block_size 1) rs)))
  read_file-chunks rs block_size sst_id f = open_reader-Tail (chunks (max block_size 1) rs) sst_id f
