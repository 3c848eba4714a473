-- ===== src/Compaction/Merge/Round.antt =====
-- One round of the merge: the entry that comes off the heap, and what the round pushes.
use flowdb.Base.{
  ℕ, suc, ◌≡◌, ◌≢◌, true, refl, sym, ap, ◌∙◌, arith, length, get_elem?, any, All, Option, none,
  some, List, ◌∷◌, Option-cases, ◌⊎◌, inl, inr,
}
use mathlib.Core.List.{Permᴰ}
use mathlib.Core.List.Permᴰ
use flowdb.Base.Bytes.{Bytes}
use flowdb.Base.Heap.{MaxHeap}
use flowdb.Base.Sorts.{any-Permᴰ}
use flowdb.Base.Int.{ℤ}
use flowdb.Record.{InternalRecord}
use flowdb.Scan.Ready.{All-Permᴰ}
use flowdb.Sst.Blocks.{Lz4}
use flowdb.Sst.Write.{SstStreamWriter}
use flowdb.Compaction.Merge.{SstBlockIterator, next_record, HeapEntry, heap_le, Merging, push_next}
use flowdb.Compaction.Merge.Stream.{next_record-Gives}
use flowdb.Compaction.Merge.Rounds.{
  streams, left, of_source, Fed, ServedBut, push_next-Fed, records_of-Permᴰ,
}

abbrev pub merging :
    List HeapEntry → List SstBlockIterator → Option (Bytes × ℤ) → SstStreamWriter → ℕ → Merging
merging heap its last w n = record {
  heap = heap;
  iterators = its;
  last_dedup = last;
  writer = w;
  records_written = n;
}

pub length-Permᴰ : {xs ys : List InternalRecord} → Permᴰ xs ys → length xs ≡ length ys
length-Permᴰ Permᴰ.nil = refl
length-Permᴰ (Permᴰ.cons e d) = ap suc (length-Permᴰ d)
length-Permᴰ (Permᴰ.swap e f) = refl
length-Permᴰ (Permᴰ.trans d e) = length-Permᴰ d ∙ length-Permᴰ e

-- What a round leaves keeps the invariant, with the records that were left.
abbrev pub FedAfter : Lz4 → List HeapEntry → List SstBlockIterator → Merging → Type 0
FedAfter lz4 rest its m =
    Fed lz4 m.heap m.iterators × Permᴰ (left lz4 rest its) (left lz4 m.heap m.iterators)

module _ (lz4 : Lz4) (max_heap : MaxHeap heap_le) where
  -- One round, whatever it does with the record.
  pub record RoundOf (heap : List HeapEntry) (its : List SstBlockIterator) : Type 0 where
    pub entry : HeapEntry
    pub rest : List HeapEntry
    pub it : SstBlockIterator
    pub pop : max_heap.pop heap ≡ some (entry, rest)
    pub there : get_elem? its entry.source ≡ some it
    pub known : All (λ e. (x : SstBlockIterator) × (get_elem? its e.source ≡ some x)) rest
    pub served : ServedBut lz4 (λ i. Unit {0}) entry.source rest its
    pub perm : Permᴰ (left lz4 heap its) (entry.record_ ∷ left lz4 rest its)

  pub find_round :
      (heap : List HeapEntry) (its : List SstBlockIterator)
      → Fed lz4 heap its
      → (max_heap.pop heap ≡ none) ⊎ RoundOf heap its
  unfolding left
  find_round heap its fed = elim (Option-cases (max_heap.pop heap)) [
    | inl e ↦ inl e
    | inr ((entry, rest), pop) ↦
        let laws = max_heap.pop_some heap entry rest pop in
        let known = All-Permᴰ _ laws.0 fed.known in
        inr (record {
          entry = entry;
          rest = rest;
          it = known.0.0;
          pop = pop;
          there = known.0.1;
          known = known.1;
          served = λ i x h k n. elim (fed.served i x h k) [
            | inl a ↦ inl (other i entry rest n (sym (any-Permᴰ (of_source i) laws.0) ∙ a))
            | inr e ↦ inr e
          ];
          perm = Permᴰ.append_right (streams lz4 its) (records_of-Permᴰ laws.0);
        })
  ]
    where
      other :
          (i : ℕ) (entry : HeapEntry) (rest : List HeapEntry)
          → entry.source ≢ i
          → any (of_source i) (entry ∷ rest) ≡ true
          → any (of_source i) rest ≡ true
      other i entry rest n h = ground (arith, n, h)

  -- The variables after a round that took the entry.
  abbrev pub next_round :
      {heap : List HeapEntry} {its : List SstBlockIterator}
      → RoundOf heap its
      → Option (Bytes × ℤ)
      → SstStreamWriter
      → ℕ
      → Merging
  next_round {its = its} o last w n =
      push_next o.entry.source (next_record lz4 o.it) (merging o.rest its last w n)

  -- What a round pushes, whatever the other variables are.
  pub RoundOf-Fed :
      (heap : List HeapEntry) (its : List SstBlockIterator) (o : RoundOf heap its)
      (last : Option (Bytes × ℤ)) (w : SstStreamWriter) (n : ℕ)
      → FedAfter lz4 o.rest its (next_round o last w n)
  RoundOf-Fed heap its o last w n =
      push_next-Fed lz4 (λ i. Unit {0}) (merging o.rest its last w n) o.entry.source o.it
        (next_record lz4 o.it) o.there o.known o.served (next_record-Gives lz4 o.it)
