-- ===== src/Sst/Write/Stream.antt =====
-- The stream writer and the writer of a whole list write the same file.
use flowdb.Base.{
  ℕ, ◌+◌, ◌≤◌, ◌<◌, ◌≡◌, refl, sym, ◌∙◌, arith, max, true, leb, if◌then◌else◌, length,
  length-append, map, All, Option, none, some, List, [], ◌∷◌, ◌++◌, append-nil, append_assoc,
  Bool-cases, Option-cases, inl, inr,
}
use mathlib.Core.Option.{none-ne-some, some-injective}
use flowdb.Base.Bytes.{Bytes, eq_bytes, eq_bytes_iff}
use flowdb.Base.Sorts.{All-map}
use flowdb.Record.{InternalRecord}
use flowdb.Bloom
use flowdb.Bloom.{BloomFilter, insert_keys, may_contain, with_bits_per_key}
use flowdb.Bloom.Members.{
  insert_keys-Has, with_bits_per_key-pos, may_contain-Has, may_contain-from_keys_with_bits,
}
use flowdb.Sst.Blocks.{Lz4}
use flowdb.Sst.Write.{
  chunks, unique_keys, Written, nothing_written, write_block, write_blocks, write, SstStreamWriter,
  new_stream, flush_block, write_record, write_records, finish,
}
use flowdb.Sst.Write.Chunks.{chunks-append, chunks_short, chunks-nil}

abbrev pub keys_of : List InternalRecord → List Bytes
keys_of = map (λ (r : InternalRecord). r.key)

module _ (lz4 : Lz4) where
  flush_block_full :
      (s : SstStreamWriter) (c : List InternalRecord)
      → 0 < length c
      → flush_block lz4 (record s { current_block = c })
        ≡ record s { written = write_block lz4 s.written c; current_block = [] }
  unfolding flush_block
  flush_block_full s [] h = absurd (omega arith)
  flush_block_full s (r ∷ rs) h = refl

  -- What is buffered becomes a last block.
  finish_last :
      (s : SstStreamWriter) (c : List InternalRecord)
      → length c ≤ max s.block_size 1
      → (finish lz4 (record s { current_block = c })).0
        ≡ write_blocks lz4 s.written (chunks (max s.block_size 1) c)
  unfolding finish flush_block write_blocks
  finish_last s [] h = rw (chunks-nil (max s.block_size 1))
  finish_last s (r ∷ rs) h = rw (chunks_short (max s.block_size 1) r rs h)

  flush_block-bloom :
      (s : SstStreamWriter) (c : List InternalRecord)
      → (flush_block lz4 (record s { current_block = c })).bloom ≡ s.bloom
  unfolding flush_block
  flush_block-bloom s [] = refl
  flush_block-bloom s (r ∷ rs) = refl

  write_record_of :
      (s : SstStreamWriter) (rec : InternalRecord) (bf : BloomFilter)
      → Bloom.insert s.bloom rec.key ≡ some bf
      → write_record lz4 s rec
        ≡ some (
            if leb s.block_size (length (s.current_block ++ (rec ∷ [])))
            then flush_block lz4
                (record s { bloom = bf; current_block = s.current_block ++ (rec ∷ []) })
            else record s { bloom = bf; current_block = s.current_block ++ (rec ∷ []) })
  unfolding write_record
  write_record_of s rec bf e = rw e

  -- The record that fills the buffer makes the first block.
  block_first :
      (w : Written) (cs : List InternalRecord) (rec : InternalRecord) (rs : List InternalRecord)
      (size : ℕ)
      → size ≡ length (cs ++ (rec ∷ []))
      → write_blocks lz4 w (chunks size (cs ++ (rec ∷ rs)))
        ≡ write_blocks lz4 (write_block lz4 w (cs ++ (rec ∷ []))) (chunks size rs)
  unfolding write_blocks
  block_first w cs rec rs size h =
      let filled = length-append cs (rec ∷ []) in
      rw (sym (append_assoc cs (rec ∷ []) rs), h, chunks-append (cs ++ (rec ∷ [])) rs (omega arith))

  write_records_buffered :
      (rs : List InternalRecord) (s : SstStreamWriter) (bf : BloomFilter)
      → length s.current_block < max s.block_size 1
      → insert_keys s.bloom (keys_of rs) ≡ some bf
      → (s' : SstStreamWriter) × (write_records lz4 s rs ≡ some s')
        × (s'.bloom ≡ bf)
        × ((finish lz4 s').0
            ≡ write_blocks lz4 s.written (chunks (max s.block_size 1) (s.current_block ++ rs)))
  unfolding write_records insert_keys
  write_records_buffered [] s bf h e = (
    s,
    refl,
    some-injective _ _ e,
    rw (append-nil s.current_block) (finish_last s s.current_block (omega arith)),
  )
  write_records_buffered (rec ∷ rs) s bf h e = elim (Option-cases (Bloom.insert s.bloom rec.key)) [
    | inl q ↦ absurd (none-ne-some _ (rw q at e))
    | inr (mid, q) ↦
        let step = write_record_of s rec mid q in
        let c = s.current_block ++ (rec ∷ []) in
        let len : length c ≡ length s.current_block + 1 =
          omega (arith, length-append s.current_block (rec ∷ [])) in
        elim (Bool-cases (leb s.block_size (length c))) [
          | inl full ↦
              let size : max s.block_size 1 ≡ length c = ground arith in
              let next = record s {
                written = write_block lz4 s.written c;
                bloom = mid;
                current_block = [];
              } in
              let (s', run, bloom, file) =
                write_records_buffered rs next bf (omega arith) (rw q at e) in
              (
                s',
                rw (step, full, flush_block_full (record s { bloom = mid }) c (omega arith)) run,
                bloom,
                file ∙ sym (block_first s.written s.current_block rec rs (max s.block_size 1) size),
              )
          | inr more ↦
              let next = record s { bloom = mid; current_block = c } in
              let (s', run, bloom, file) =
                write_records_buffered rs next bf (ground arith) (rw q at e) in
              (
                s',
                rw (step, more) run,
                bloom,
                rw (sym (append_assoc s.current_block (rec ∷ []) rs)) file,
              )
        ]
  ]

abbrev pub Known : (Bytes → Type 0) → Option Bytes → Type 0
Known P none = Unit {0}
Known P (some k) = P k

-- What holds of the first key of each run of equal keys holds of all keys.
pub All-unique_keys :
    (P : Bytes → Type 0) (last : Option Bytes) (rs : List InternalRecord)
    → Known P last
    → All P (unique_keys last rs)
    → All P (keys_of rs)
unfolding unique_keys
All-unique_keys P last [] k h = tt
All-unique_keys P none (r ∷ rs) k h = (h.0, All-unique_keys P (some r.key) rs h.0 h.1)
All-unique_keys P (some j) (r ∷ rs) k h = elim (Bool-cases (eq_bytes j r.key)) [
  | inl e ↦
      let same : j ≡ r.key = (eq_bytes_iff j r.key).0 e in
      (rw (sym same) k, All-unique_keys P (some j) rs k (rw e at h))
  | inr e ↦
      let h' : All P (r.key ∷ unique_keys (some r.key) rs) = rw e at h in
      (h'.0, All-unique_keys P (some r.key) rs h'.0 h'.1)
]

finish-bloom : (lz4 : Lz4) (s : SstStreamWriter) → (finish lz4 s).1 ≡ s.bloom
unfolding finish
finish-bloom lz4 s = flush_block-bloom lz4 s s.current_block

-- For a list of records the stream writer and the writer of the whole list end without a panic and
-- write the same bytes and the same descriptions of blocks, whatever sizes their filters have; both
-- filters may contain the key of every record.
pub write_records-write :
    (lz4 : Lz4) (rs : List InternalRecord) (block_size bits_per_key estimated_keys : ℕ)
    → (s : SstStreamWriter) × (w : Written × BloomFilter) × (write_records lz4
          (new_stream block_size estimated_keys bits_per_key)
          rs
        ≡ some s)
      × (write lz4 rs block_size bits_per_key ≡ some w)
      × ((finish lz4 s).0 ≡ w.0)
      × All (λ key. may_contain (finish lz4 s).1 key ≡ some true) (keys_of rs)
      × All (λ key. may_contain w.1 key ≡ some true) (keys_of rs)
unfolding new_stream write
write_records-write lz4 rs block_size bits_per_key estimated_keys =
    let start = with_bits_per_key (max estimated_keys 1) bits_per_key in
    let (bf, e, kept, has) =
      insert_keys-Has start (keys_of rs)
        (with_bits_per_key-pos (max estimated_keys 1) bits_per_key) in
    let (s, run, bloom, file) =
      write_records_buffered lz4 rs (new_stream block_size estimated_keys bits_per_key) bf
        (omega arith) e in
    let (bf', built, all') = may_contain-from_keys_with_bits (unique_keys none rs) bits_per_key in
    (
      s,
      (write_blocks lz4 nothing_written (chunks (max block_size 1) rs), bf'),
      run,
      rw built,
      file,
      rw (finish-bloom lz4 s, bloom) (All-map (keys_of rs) (may_contain-Has bf) has),
      All-unique_keys (λ key. may_contain bf' key ≡ some true) none rs tt all',
    )
