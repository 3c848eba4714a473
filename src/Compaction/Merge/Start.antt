-- ===== src/Compaction/Merge/Start.antt =====
-- The merge from its start.
use flowdb.Base.{
  ℕ, suc, ◌+◌, ◌<◌, ◌≡◌, ◌≢◌, refl, sym, ap, ◌∙◌, arith, length, get_elem?, set, ltb, Bool-cases,
  ◌-◌, map, Option, none, some, List, [], ◌∷◌, inl, inr,
}
use mathlib.Core.Option.{none-ne-some}
use mathlib.Core.List.{Permᴰ}
use mathlib.Core.List.Permᴰ
use flowdb.Base.Heap.{MaxHeap}
use flowdb.Base.Int.{ℤ}
use flowdb.Record.{InternalRecord}
use flowdb.Scan.Ready.{get_elem?-set_other}
use flowdb.Sst.Blocks.{Lz4}
use flowdb.Sst.Read.{SstReader}
use flowdb.Sst.Write.{SstStreamWriter, new_stream, write_records}
use flowdb.Sst.Write.Stream.{write_records-write}
use flowdb.Compaction.Merge.{
  SstBlockIterator, new_iterator, next_record, heap_le, Merging, push_next, merge_files, fill_heap,
  start_merge,
}
use flowdb.Compaction.Merge.Stream.{next_record-Gives}
use flowdb.Compaction.Merge.Written.{written}
use flowdb.Compaction.Merge.Rounds.{streams, left, FedOn, Fed, push_next-Fed}
use flowdb.Compaction.Merge.Ends.{merge_within}
use flowdb.Compaction.Merge.Round.{length-Permᴰ}

below : (i j : ℕ) → j < suc i → i ≢ j → j < i
below i j h n = ground (arith, h, n)

iterators-push_next :
    (source : ℕ) (p : Option InternalRecord × SstBlockIterator) (m : Merging)
    → (push_next source p m).iterators ≡ set m.iterators source p.1
unfolding push_next
iterators-push_next source (none, it) m = refl
iterators-push_next source (some r, it) m = refl

next_there :
    (i : ℕ) (p : Option InternalRecord × SstBlockIterator) (m : Merging) (it : SstBlockIterator)
    (rest : List SstBlockIterator)
    → ((j : ℕ) → get_elem? m.iterators (i + j) ≡ get_elem? (it ∷ rest) j)
    → (j : ℕ) → get_elem? (push_next i p m).iterators (suc i + j) ≡ get_elem? rest j
next_there i p m it rest h j =
    ap (λ (xs : List SstBlockIterator). get_elem? xs (suc i + j)) (iterators-push_next i p m)
    ∙ get_elem?-set_other m.iterators i (suc i + j) p.1 (λ e. absurd (omega (arith, e)))
    ∙ ap (get_elem? m.iterators) (omega arith)
    ∙ h (suc j)

fill_heap-Fed :
    (lz4 : Lz4) (i : ℕ) (rest : List SstBlockIterator) (m : Merging)
    → FedOn lz4 (λ j. j < i) m.heap m.iterators
    → ((j : ℕ) → get_elem? m.iterators (i + j) ≡ get_elem? rest j)
    → Fed lz4 (fill_heap lz4 i rest m).heap (fill_heap lz4 i rest m).iterators
      × Permᴰ
          (left lz4 m.heap m.iterators)
          (left lz4 (fill_heap lz4 i rest m).heap (fill_heap lz4 i rest m).iterators)
unfolding fill_heap
fill_heap-Fed lz4 i [] m fed h = (
  record {
    known = fed.known;
    served = λ j x k u. elim (Bool-cases (ltb j i)) [
      | inl e ↦ fed.served j x k (ground (arith, e))
      | inr e ↦
          let at : i + (j - i) ≡ j = ground (arith, e) in
          absurd (none-ne-some x (sym (h (j - i)) ∙ ap (get_elem? m.iterators) at ∙ k))
    ];
  },
  Permᴰ.refl _,
)
fill_heap-Fed lz4 i (it ∷ rest) m fed h =
    let there : get_elem? m.iterators i ≡ some it =
      ap (get_elem? m.iterators) (omega arith) ∙ h 0 in
    let p = next_record lz4 it in
    let pushed =
      push_next-Fed lz4 (λ j. j < suc i) m i it p there fed.known
        (λ j x k u n. fed.served j x k (below i j u n)) (next_record-Gives lz4 it) in
    let filled =
      fill_heap-Fed lz4 (suc i) rest (push_next i p m) pushed.0 (next_there i p m it rest h) in
    (filled.0, Permᴰ.trans pushed.1 filled.1)

streams-append_nil : (lz4 : Lz4) (its : List SstBlockIterator) → left lz4 [] its ≡ streams lz4 its
unfolding left
streams-append_nil lz4 its = refl

-- The records of the files that the merge reads.
unfoldable pub merged_records : Lz4 → List SstReader → ℤ → List InternalRecord
merged_records lz4 readers now_us =
    streams lz4 (map (λ (r : SstReader). new_iterator r now_us) readers)

start-facts :
    (lz4 : Lz4) (readers : List SstReader) (now_us : ℤ) (block_size estimated bits : ℕ)
    → Fed lz4
        (start_merge lz4 readers now_us block_size estimated bits).heap
        (start_merge lz4 readers now_us block_size estimated bits).iterators
      × Permᴰ (merged_records lz4 readers now_us) (
          left lz4
            (start_merge lz4 readers now_us block_size estimated bits).heap
            (start_merge lz4 readers now_us block_size estimated bits).iterators)
unfolding start_merge merged_records left
start-facts lz4 readers now_us block_size estimated bits =
    let its = map (λ (r : SstReader). new_iterator r now_us) readers in
    fill_heap-Fed lz4 0 its
      (record {
        heap = [];
        iterators = its;
        last_dedup = none;
        writer = new_stream block_size estimated bits;
        records_written = 0;
      })
      (record { known = tt; served = λ i x k u. absurd (omega arith) })
      (λ j. ap (get_elem? its) (omega arith))

push_next_rest :
    (source : ℕ) (p : Option InternalRecord × SstBlockIterator) (m : Merging)
    → ((push_next source p m).last_dedup ≡ m.last_dedup)
      × ((push_next source p m).writer ≡ m.writer)
      × ((push_next source p m).records_written ≡ m.records_written)
unfolding push_next
push_next_rest source (none, it) m = (refl, refl, refl)
push_next_rest source (some r, it) m = (refl, refl, refl)

fill_heap_rest :
    (lz4 : Lz4) (i : ℕ) (rest : List SstBlockIterator) (m : Merging)
    → ((fill_heap lz4 i rest m).last_dedup ≡ m.last_dedup)
      × ((fill_heap lz4 i rest m).writer ≡ m.writer)
      × ((fill_heap lz4 i rest m).records_written ≡ m.records_written)
unfolding fill_heap
fill_heap_rest lz4 i [] m = (refl, refl, refl)
fill_heap_rest lz4 i (it ∷ rest) m =
    let (a, b, c) = push_next_rest i (next_record lz4 it) m in
    let (d, e, f) = fill_heap_rest lz4 (suc i) rest (push_next i (next_record lz4 it) m) in
    (d ∙ a, e ∙ b, f ∙ c)

-- The merge from its start: what it writes is what `written` keeps of some order of the records.
pub merge_from_start :
    (lz4 : Lz4) (max_heap : MaxHeap heap_le) (readers : List SstReader) (now_us : ℤ)
    (block_size estimated_records bloom_bits_per_key fuel : ℕ)
    → length (merged_records lz4 readers now_us) < fuel
    → (popped : List InternalRecord) × (m : Merging) × Permᴰ
        (merged_records lz4 readers now_us)
        popped
      × (merge_files lz4 max_heap fuel
            (start_merge lz4 readers now_us block_size estimated_records bloom_bits_per_key)
          ≡ some m)
      × (write_records lz4
            (new_stream block_size estimated_records bloom_bits_per_key)
            (written none popped)
          ≡ some m.writer)
      × (m.records_written ≡ length (written none popped))
unfolding start_merge
merge_from_start lz4 max_heap readers now_us block_size estimated_records bits fuel enough =
    let m0 = start_merge lz4 readers now_us block_size estimated_records bits in
    let its = map (λ (x : SstReader). new_iterator x now_us) readers in
    let facts = start-facts lz4 readers now_us block_size estimated_records bits in
    let run =
      merge_within lz4 max_heap fuel m0.heap m0.iterators m0.last_dedup m0.writer m0.records_written
        (omega (arith, length-Permᴰ facts.1, enough)) facts.0 in
    let same = fill_heap_rest lz4 0 its (record {
      heap = [];
      iterators = its;
      last_dedup = none;
      writer = new_stream block_size estimated_records bits;
      records_written = 0;
    }) in
    let ws = written none run.popped in
    let fresh : written m0.last_dedup run.popped ≡ ws = ap (λ l. written l run.popped) (same.0) in
    let (s, w, wrote, _, _, _, _) = write_records-write lz4 ws block_size bits estimated_records in
    let (m, ends, writer, count) = run.runs s (
      ap (write_records lz4 m0.writer) fresh
      ∙ ap (λ (v : SstStreamWriter). write_records lz4 v ws) (same.1)
      ∙ wrote) in
    (
      run.popped,
      m,
      Permᴰ.trans facts.1 run.perm,
      ends,
      wrote ∙ ap some (sym writer),
      omega (arith, count, same.2, ap (length {A = InternalRecord}) fresh),
    )
