-- ===== src/Compaction/Merge/Ends.antt =====
-- The loop of the merge, by induction on what is left.
use flowdb.Base.{
  ℕ, zero, suc, ◌+◌, ◌<◌, ◌≡◌, refl, sym, ap, ◌∙◌, arith, length, get_elem?, Option, none, some,
  List, [], ◌∷◌, Bool-cases, Option-cases, inl, inr, ◌>>=◌,
}
use mathlib.Core.Path.{subst}
use mathlib.Core.Option.{none-ne-some, some-injective}
use mathlib.Core.List.{Permᴰ}
use flowdb.Base.Bytes.{Bytes}
use flowdb.Base.Heap.{MaxHeap}
use flowdb.Base.Int.{ℤ}
use flowdb.Record.{InternalRecord}
use flowdb.Scan.{is_deletion, is_last}
use flowdb.Sst.Blocks.{Lz4}
use flowdb.Sst.Write.{SstStreamWriter, write_record, write_records}
use flowdb.Compaction.Merge.{
  SstBlockIterator, next_record, HeapEntry, heap_le, Merging, push_next, take_record, merge_files,
}
use flowdb.Compaction.Merge.Written.{written}
use flowdb.Compaction.Merge.Rounds.{left, Fed, Fed-nil}
use flowdb.Compaction.Merge.Round.{
  merging, length-Permᴰ, FedAfter, RoundOf, find_round, next_round, RoundOf-Fed,
}

push_next-merging :
    (source : ℕ) (p : Option InternalRecord × SstBlockIterator) (heap : List HeapEntry)
    (its : List SstBlockIterator) (last : Option (Bytes × ℤ)) (w : SstStreamWriter) (n : ℕ)
    → push_next source p (merging heap its last w n)
      ≡ merging
          (push_next source p (merging heap its last w n)).heap
          (push_next source p (merging heap its last w n)).iterators
          last
          w
          n
unfolding push_next
push_next-merging source (none, it) heap its last w n = refl
push_next-merging source (some r, it) heap its last w n = refl

module _ (lz4 : Lz4) (max_heap : MaxHeap heap_le) where
  -- The loop with `fuel` rounds ends, and the records that come off the heap are written.
  pub record Merges (fuel : ℕ) (heap : List HeapEntry) (its : List SstBlockIterator)
      (last : Option (Bytes × ℤ)) (w : SstStreamWriter) (n : ℕ) : Type 0 where
    pub popped : List InternalRecord
    pub perm : Permᴰ (left lz4 heap its) popped
    pub runs :
        (s : SstStreamWriter)
        → write_records lz4 w (written last popped) ≡ some s
        → (m : Merging) × (merge_files lz4 max_heap fuel (merging heap its last w n) ≡ some m)
          × (m.writer ≡ s)
          × (m.records_written ≡ n + length (written last popped))

  round_of :
      (fuel : ℕ) (m m1 : Merging) (e : HeapEntry) (rest : List HeapEntry) (it : SstBlockIterator)
      → max_heap.pop m.heap ≡ some (e, rest)
      → take_record lz4 (record m { heap = rest }) e.record_ ≡ some m1
      → get_elem? m1.iterators e.source ≡ some it
      → merge_files lz4 max_heap (suc fuel) m
        ≡ merge_files lz4 max_heap fuel (push_next e.source (next_record lz4 it) m1)
  unfolding merge_files
  round_of fuel m m1 e rest it p t h = rw (merge_files, p, t, h)

  -- A round that leaves the writer as it is.
  pass :
      (fuel : ℕ) (heap : List HeapEntry) (its : List SstBlockIterator)
      (last last' : Option (Bytes × ℤ)) (w : SstStreamWriter) (n : ℕ)
      (o : RoundOf lz4 max_heap heap its)
      → take_record lz4 (merging o.rest its last w n) o.entry.record_
        ≡ some (merging o.rest its last' w n)
      → ((popped : List InternalRecord)
          → written last (o.entry.record_ ∷ popped) ≡ written last' popped)
      → FedAfter lz4 o.rest its (next_round lz4 max_heap o last' w n)
      → Merges fuel
          (next_round lz4 max_heap o last' w n).heap
          (next_round lz4 max_heap o last' w n).iterators
          last'
          w
          n
      → Merges (suc fuel) heap its last w n
  pass fuel heap its last last' w n o takes skips fed ih = record {
    popped = o.entry.record_ ∷ ih.popped;
    perm = Permᴰ.trans o.perm (Permᴰ.cons refl (Permᴰ.trans fed.1 ih.perm));
    runs = λ s h.
        let (m, ends, writer, count) =
          ih.runs s (ap (write_records lz4 w) (sym (skips ih.popped)) ∙ h) in
        (
          m,
          round_of fuel (merging heap its last w n) (merging o.rest its last' w n) o.entry o.rest
                o.it o.pop takes o.there
              ∙ ap (merge_files lz4 max_heap fuel)
                  (push_next-merging o.entry.source (next_record lz4 o.it) o.rest its last' w n)
              ∙ ends,
          writer,
          rw (skips ih.popped) count,
        );
  }

  -- A round that writes the record, or finds that the filter panics.
  put_record :
      (fuel : ℕ) (heap : List HeapEntry) (its : List SstBlockIterator)
      (last last' : Option (Bytes × ℤ)) (w w1 : SstStreamWriter) (n : ℕ)
      (o : RoundOf lz4 max_heap heap its)
      → write_record lz4 w o.entry.record_ ≡ some w1
      → take_record lz4 (merging o.rest its last w n) o.entry.record_
        ≡ some (merging o.rest its last' w1 (suc n))
      → ((popped : List InternalRecord)
          → written last (o.entry.record_ ∷ popped) ≡ o.entry.record_ ∷ written last' popped)
      → FedAfter lz4 o.rest its (next_round lz4 max_heap o last' w1 (suc n))
      → Merges fuel
          (next_round lz4 max_heap o last' w1 (suc n)).heap
          (next_round lz4 max_heap o last' w1 (suc n)).iterators
          last'
          w1
          (suc n)
      → Merges (suc fuel) heap its last w n
  unfolding write_records
  put_record fuel heap its last last' w w1 n o q takes puts fed ih = record {
    popped = o.entry.record_ ∷ ih.popped;
    perm = Permᴰ.trans o.perm (Permᴰ.cons refl (Permᴰ.trans fed.1 ih.perm));
    runs = λ s h.
        let later : write_records lz4 w1 (written last' ih.popped) ≡ some s =
          ap
            (λ (x : Option SstStreamWriter).
              x >>= λ s'. write_records lz4 s' (written last' ih.popped))
            (sym q)
          ∙ ap (write_records lz4 w) (sym (puts ih.popped))
          ∙ h in
        let (m, ends, writer, count) = ih.runs s later in
        (
          m,
          round_of fuel (merging heap its last w n) (merging o.rest its last' w1 (suc n)) o.entry
                o.rest o.it o.pop takes o.there
              ∙ ap (merge_files lz4 max_heap fuel) (
                  push_next-merging o.entry.source (next_record lz4 o.it) o.rest its last' w1
                    (suc n))
              ∙ ends,
          writer,
          rw (puts ih.popped) (omega (arith, count)),
        );
  }

  -- A round whose record the filter panics on.
  panic :
      (fuel : ℕ) (heap : List HeapEntry) (its : List SstBlockIterator)
      (last last' : Option (Bytes × ℤ)) (w : SstStreamWriter) (n : ℕ)
      (o : RoundOf lz4 max_heap heap its)
      → write_record lz4 w o.entry.record_ ≡ none
      → ((popped : List InternalRecord)
          → written last (o.entry.record_ ∷ popped) ≡ o.entry.record_ ∷ written last' popped)
      → Merges fuel
          (next_round lz4 max_heap o last' w n).heap
          (next_round lz4 max_heap o last' w n).iterators
          last'
          w
          n
      → Merges (suc fuel) heap its last w n
  unfolding write_records
  panic fuel heap its last last' w n o q puts ih = record {
    popped = o.entry.record_ ∷ ih.popped;
    perm =
        Permᴰ.trans o.perm
          (Permᴰ.cons refl (Permᴰ.trans (RoundOf-Fed lz4 max_heap heap its o last' w n).1 ih.perm));
    runs = λ s h. absurd (
        none-ne-some s (
          ap
            (λ (x : Option SstStreamWriter).
              x >>= λ s'. write_records lz4 s' (written last' ih.popped))
            (sym q)
          ∙ ap (write_records lz4 w) (sym (puts ih.popped))
          ∙ h));
  }

  done_Merges :
      (fuel : ℕ) (heap : List HeapEntry) (its : List SstBlockIterator) (last : Option (Bytes × ℤ))
      (w : SstStreamWriter) (n : ℕ)
      → max_heap.pop heap ≡ none
      → Fed lz4 heap its
      → Merges (suc fuel) heap its last w n
  unfolding merge_files written write_records left
  done_Merges fuel heap its last w n e fed =
      let empty : heap ≡ [] = max_heap.pop_none heap e in
      let fed' : Fed lz4 [] its = subst (λ h. Fed lz4 h its) empty fed in
      record {
        popped = [];
        perm = rw (empty, Fed-nil lz4 its fed') Permᴰ.nil;
        runs = λ s h.
            (merging heap its last w n, rw (merge_files, e), some-injective _ _ h, omega arith);
      }

  pub merge_within :
      (fuel : ℕ) (heap : List HeapEntry) (its : List SstBlockIterator) (last : Option (Bytes × ℤ))
      (w : SstStreamWriter) (n : ℕ)
      → length (left lz4 heap its) < fuel
      → Fed lz4 heap its
      → Merges fuel heap its last w n
  unfolding take_record written
  merge_within zero heap its last w n h fed = absurd (omega arith)
  merge_within (suc fuel) heap its last w n h fed = elim (find_round lz4 max_heap heap its fed) [
    | inl e ↦ done_Merges fuel heap its last w n e fed
    | inr o ↦
        let r = o.entry.record_ in
        let slot : Option (Bytes × ℤ) = some (r.key, r.ts) in
        let ih : (last' : Option (Bytes × ℤ)) (w' : SstStreamWriter) (n' : ℕ)
            → Merges fuel (next_round lz4 max_heap o last' w' n').heap
                (next_round lz4 max_heap o last' w' n').iterators last' w' n' =
          λ last' w' n'.
            let next = RoundOf-Fed lz4 max_heap heap its o last' w' n' in
            merge_within fuel _ _ last' w' n'
              (omega (arith, length-Permᴰ o.perm, length-Permᴰ next.1)) next.0 in
        elim (Bool-cases (is_last last r.key r.ts)) [
          | inl l ↦
              pass fuel heap its last last w n o (rw (take_record, l)) (λ popped. rw (written, l))
                (RoundOf-Fed lz4 max_heap heap its o last w n) (ih last w n)
          | inr l ↦ elim (Bool-cases (is_deletion r)) [
            | inl d ↦
                pass fuel heap its last slot w n o (rw (take_record, l, d))
                  (λ popped. rw (written, l, d)) (RoundOf-Fed lz4 max_heap heap its o slot w n)
                  (ih slot w n)
            | inr d ↦ elim (Option-cases (write_record lz4 w r)) [
              | inl q ↦
                  panic fuel heap its last slot w n o q (λ popped. rw (written, l, d)) (ih slot w n)
              | inr (w1, q) ↦
                  put_record fuel heap its last slot w w1 n o q (rw (take_record, l, d, q))
                    (λ popped. rw (written, l, d))
                    (RoundOf-Fed lz4 max_heap heap its o slot w1 (suc n)) (ih slot w1 (suc n))
            ]
          ]
        ]
  ]
