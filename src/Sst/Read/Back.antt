-- ===== src/Sst/Read/Back.antt =====
-- What a writer wrote is read back, block by block.
use flowdb.Base.{
  ℕ, zero, suc, ◌+◌, ◌≤◌, ◌≡◌, refl, sym, ap, ◌∙◌, arith, max, length, get_elem?, drop,
  length-append, map, All, none, some, List, [], ◌∷◌, ◌++◌, append-nil, append_assoc, true, false,
  ltb,
}
use mathlib.Core.Option.{none-ne-some, some-injective}
use flowdb.Base.Bytes.{Bytes}
use flowdb.Bloom.{BloomFilter}
use flowdb.Bloom.Members.{may_contain-from_keys_with_bits}
use flowdb.Config.{ok}
use flowdb.Record.{InternalRecord}
use flowdb.Sst.{BlockHeader, to_bytes, from_bytes, encode_records, decode_records}
use flowdb.Sst.Header.{length-to_bytes}
use flowdb.Sst.Records.{unnumbered, decode_records-encode_records}
use flowdb.Sst.Blocks.{Lz4, block_header, block_bytes}
use flowdb.Sst.Write.{
  chunks, unique_keys, Written, nothing_written, write_block, write_blocks, write,
}
use flowdb.Sst.Read.{
  SstReader, slice, offsets_loop, open_reader, decompress_block, read_at, read_block_inner,
}
use flowdb.Sst.Read.Placed.{
  FitsChunk, packed, At, header-At, drop-add, drop-front, take-front, length-block_bytes,
}

module _ (lz4 : Lz4) where
  read_at_of :
      (bytes : Bytes) (at : ℕ) (h : BlockHeader) (raw : Bytes)
      → ltb (length bytes) (at + 48) ≡ false
      → from_bytes (slice at 48 bytes) ≡ ok h
      → ltb (length bytes) (at + 48 + h.compressed_len) ≡ false
      → decompress_block lz4 (slice (at + 48) h.compressed_len bytes) h ≡ ok raw
      → read_at lz4 bytes at ≡ ok (decode_records raw h.num_records)
  unfolding read_at
  read_at_of bytes at h raw p q r s = rw (read_at, p, q, r, s)

  -- The lengths fit the header.
  header_fields :
      (c : List InternalRecord)
      → FitsChunk lz4 c
      → ((block_header lz4 c).compressed_len ≡ length (packed lz4 c))
        × ((block_header lz4 c).data_len ≡ length (encode_records c))
        × ((block_header lz4 c).num_records ≡ length c)
  unfolding block_header
  header_fields c f = (omega arith, omega arith, omega arith)

  body-At :
      (bytes : Bytes) (at : ℕ) (c : List InternalRecord) (rest : Bytes)
      → At lz4 bytes at c rest
      → slice (at + 48) (length (packed lz4 c)) bytes ≡ packed lz4 c
  unfolding slice
  body-At bytes at c rest h =
      rw
        (
          drop-add at 48 bytes,
          h.here,
          drop-front (to_bytes (block_header lz4 c)) (packed lz4 c ++ rest) 48
              (length-to_bytes (block_header lz4 c)),
        )
        (take-front (packed lz4 c) rest (length (packed lz4 c)) refl)

  unpacked :
      (c : List InternalRecord) (h : BlockHeader)
      → h.data_len ≡ length (encode_records c)
      → decompress_block lz4 (packed lz4 c) h ≡ ok (encode_records c)
  unfolding decompress_block
  unpacked c h e = rw (decompress_block, e, lz4.decompress_compress (encode_records c))

  pub read_at-At :
      (bytes : Bytes) (at : ℕ) (c : List InternalRecord) (rest : Bytes)
      → FitsChunk lz4 c
      → At lz4 bytes at c rest
      → read_at lz4 bytes at ≡ ok (map unnumbered c)
  read_at-At bytes at c rest f h =
      let (clen, dlen, count) = header_fields c f in
      let hd = block_header lz4 c in
      read_at_of bytes at hd (encode_records c) (ground (arith, h.long))
        (header-At lz4 bytes at c rest f h) (ground (arith, h.long, clen))
        (ap (λ (n : ℕ). decompress_block lz4 (slice (at + 48) n bytes) hd) clen
          ∙ ap (λ (b : Bytes). decompress_block lz4 b hd) (body-At bytes at c rest h)
          ∙ unpacked c hd dlen)
      ∙ rw count (
          ap ok (
            rw (sym (append-nil (encode_records c)))
              (decode_records-encode_records c [] f.records)))

  -- The blocks one after another, and where they begin.
  unfoldable pub blocks_bytes : List (List InternalRecord) → Bytes
  blocks_bytes [] = []
  blocks_bytes (c ∷ cs) = block_bytes lz4 c ++ blocks_bytes cs

  unfoldable pub offsets_from : ℕ → List (List InternalRecord) → List ℕ
  offsets_from at [] = []
  offsets_from at (c ∷ cs) = at ∷ offsets_from (at + 48 + length (packed lz4 c)) cs

  -- The blocks `cs` are what the file holds from `at` on.
  pub record Tail (bytes : Bytes) (at : ℕ) (cs : List (List InternalRecord)) : Type 0 where
    pub tail : drop at bytes ≡ blocks_bytes cs
    pub size : at + length (blocks_bytes cs) ≡ length bytes

  pub Tail-At :
      (bytes : Bytes) (at : ℕ) (c : List InternalRecord) (cs : List (List InternalRecord))
      → Tail bytes at (c ∷ cs)
      → At lz4 bytes at c (blocks_bytes cs)
  unfolding blocks_bytes block_bytes
  Tail-At bytes at c cs t = record {
    here = t.tail ∙ append_assoc (to_bytes (block_header lz4 c)) (packed lz4 c) (blocks_bytes cs);
    long = omega (
      arith,
      t.size,
      length-append (block_bytes lz4 c) (blocks_bytes cs),
      length-block_bytes lz4 c,
    );
  }

  pub Tail-next :
      (bytes : Bytes) (at : ℕ) (c : List InternalRecord) (cs : List (List InternalRecord))
      → Tail bytes at (c ∷ cs)
      → Tail bytes (at + 48 + length (packed lz4 c)) cs
  unfolding blocks_bytes
  Tail-next bytes at c cs t =
      let n : at + 48 + length (packed lz4 c) ≡ at + length (block_bytes lz4 c) =
        omega (arith, length-block_bytes lz4 c) in
      record {
        tail =
            rw (n, drop-add at (length (block_bytes lz4 c)) bytes, t.tail)
              (drop-front (block_bytes lz4 c) (blocks_bytes cs) _ refl);
        size = omega (arith, t.size, length-append (block_bytes lz4 c) (blocks_bytes cs));
      }

  pub offsets_loop-Tail :
      (cs : List (List InternalRecord)) (fuel : ℕ) (bytes : Bytes) (at : ℕ)
      → Tail bytes at cs
      → All (FitsChunk lz4) cs
      → length cs ≤ fuel
      → offsets_loop fuel bytes at ≡ ok (offsets_from at cs)
  unfolding offsets_loop offsets_from blocks_bytes
  offsets_loop-Tail [] zero bytes at t f h = refl
  offsets_loop-Tail [] (suc fuel) bytes at t f h = rw (offsets_loop, ends bytes at t)
    where
      ends : (bytes : Bytes) (at : ℕ) → Tail bytes at [] → ltb (length bytes) (at + 48) ≡ true
      ends bytes at t = ground (arith, t.size)
  offsets_loop-Tail (c ∷ cs) zero bytes at t f h = absurd (omega arith)
  offsets_loop-Tail (c ∷ cs) (suc fuel) bytes at t f h =
      let a = Tail-At bytes at c cs t in
      let head = header-At lz4 bytes at c (blocks_bytes cs) f.0 a in
      let more : ltb (length bytes) (at + 48) ≡ false = ground (arith, a.long) in
      let next = Tail-next bytes at c cs t in
      let (clen, dlen, count) = header_fields c f.0 in
      rw (
        offsets_loop,
        more,
        head,
        clen,
        offsets_loop-Tail cs fuel bytes (at + 48 + length (packed lz4 c)) next f.1 (omega arith),
      )

  -- The block `i` stands where the offset `i` says.
  offset-At :
      (cs : List (List InternalRecord)) (i : ℕ) (c : List InternalRecord) (bytes : Bytes) (at : ℕ)
      → Tail bytes at cs
      → All (FitsChunk lz4) cs
      → get_elem? cs i ≡ some c
      → (p : ℕ) × (rest : Bytes) × (get_elem? (offsets_from at cs) i ≡ some p)
        × At lz4 bytes p c rest
        × FitsChunk lz4 c
  unfolding offsets_from
  offset-At [] i c bytes at t f e = absurd (none-ne-some _ e)
  offset-At (d ∷ cs) zero c bytes at t f e =
      let same : d ≡ c = some-injective _ _ e in
      (at, blocks_bytes cs, refl, rw (sym same) (Tail-At bytes at d cs t), rw (sym same) f.0)
  offset-At (d ∷ cs) (suc i) c bytes at t f e =
      offset-At cs i c bytes (at + 48 + length (packed lz4 d)) (Tail-next bytes at d cs t) f.1 e

  file-write_blocks :
      (cs : List (List InternalRecord)) (w : Written)
      → (write_blocks lz4 w cs).file ≡ w.file ++ blocks_bytes cs
  unfolding write_blocks write_block blocks_bytes
  file-write_blocks [] w = sym (append-nil w.file)
  file-write_blocks (c ∷ cs) w =
      file-write_blocks cs (write_block lz4 w c)
      ∙ append_assoc w.file (block_bytes lz4 c) (blocks_bytes cs)

  pub file-nothing_written :
      (cs : List (List InternalRecord))
      → (write_blocks lz4 nothing_written cs).file ≡ blocks_bytes cs
  unfolding nothing_written
  file-nothing_written cs = file-write_blocks cs nothing_written

  pub open_reader_of :
      (bytes : Bytes) (sst_id : ℕ) (offsets : List ℕ)
      → offsets_loop (length bytes) bytes 0 ≡ ok offsets
      → open_reader bytes sst_id
        ≡ ok (record { sst_id = sst_id; mmap = bytes; block_offsets = offsets })
  unfolding open_reader
  open_reader_of bytes sst_id offsets e = rw e

  length-offsets_from :
      (cs : List (List InternalRecord)) (at : ℕ) → length (offsets_from at cs) ≡ length cs
  unfolding offsets_from
  length-offsets_from [] at = refl
  length-offsets_from (c ∷ cs) at =
      omega (arith, length-offsets_from cs (at + 48 + length (packed lz4 c)))

  pub length-blocks_bytes : (cs : List (List InternalRecord)) → length cs ≤ length (blocks_bytes cs)
  unfolding blocks_bytes
  length-blocks_bytes [] = omega arith
  length-blocks_bytes (c ∷ cs) = omega (
    arith,
    length-blocks_bytes cs,
    length-append (block_bytes lz4 c) (blocks_bytes cs),
    length-block_bytes lz4 c,
  )

  read_block_inner_of :
      (reader : SstReader) (i p : ℕ)
      → get_elem? reader.block_offsets i ≡ some p
      → read_block_inner lz4 reader i ≡ read_at lz4 reader.mmap p
  unfolding read_block_inner
  read_block_inner_of reader i p e = rw (read_block_inner, e)

-- A table file is read back. If every chunk of the records fits the format, with any compression
-- that decompression undoes, then the writer ends without a panic, opening its file succeeds and
-- finds as many blocks as there are chunks, and reading a block gives the records of its chunk, in
-- their order, without their numbers.
pub read_block_inner-write :
    (lz4 : Lz4) (rs : List InternalRecord) (block_size bits_per_key sst_id i : ℕ)
    (c : List InternalRecord)
    → All (FitsChunk lz4) (chunks (max block_size 1) rs)
    → get_elem? (chunks (max block_size 1) rs) i ≡ some c
    → (w : Written × BloomFilter) × (reader : SstReader) × (write lz4 rs block_size bits_per_key
        ≡ some w)
      × (open_reader w.0.file sst_id ≡ ok reader)
      × (length reader.block_offsets ≡ length (chunks (max block_size 1) rs))
      × (read_block_inner lz4 reader i ≡ ok (map unnumbered c))
unfolding write
read_block_inner-write lz4 rs block_size bits_per_key sst_id i c f e =
    let cs = chunks (max block_size 1) rs in
    let w = write_blocks lz4 nothing_written cs in
    let bytes = w.file in
    let (bf, built, known) = may_contain-from_keys_with_bits (unique_keys none rs) bits_per_key in
    let file : bytes ≡ blocks_bytes lz4 cs = file-nothing_written lz4 cs in
    let tail : Tail lz4 bytes 0 cs = record {
      tail = file;
      size = omega (arith, ap (length {A = ℕ}) file);
    } in
    let reader : SstReader = record {
      sst_id = sst_id;
      mmap = bytes;
      block_offsets = offsets_from lz4 0 cs;
    } in
    let (p, rest, off, at, fits) = offset-At lz4 cs i c bytes 0 tail f e in
    let offsets =
      offsets_loop-Tail lz4 cs (length bytes) bytes 0 tail f
        (omega (arith, length-blocks_bytes lz4 cs, ap (length {A = ℕ}) file)) in
    (
      (w, bf),
      reader,
      rw built,
      open_reader_of lz4 bytes sst_id (offsets_from lz4 0 cs) offsets,
      length-offsets_from lz4 cs 0,
      read_block_inner_of lz4 reader i p off ∙ read_at-At lz4 bytes p c rest fits at,
    )
