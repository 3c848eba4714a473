-- ===== src/Scan/Merge.antt =====
-- `next` until the end, over the heap: every record once, in their order.
use flowdb.Base.{
  ℕ, zero, suc, ◌+◌, ◌≤◌, ◌<◌, ◌≡◌, true, if◌then◌else◌, refl, sym, ap, ◌∙◌, arith, length,
  get_elem?, set, Option, none, some, List, [], ◌∷◌, Bool-cases, Option-cases, inl, inr,
}
use mathlib.Core.Path.{subst}
use mathlib.Core.List.{Permᴰ}
use flowdb.Base.Bytes.{Bytes}
use flowdb.Base.Int.{ℤ}
use flowdb.Base.Sorts.{Sorted}
use flowdb.Record.{InternalRecord, Record, to_record}
use flowdb.Scan.{
  MergeEntry, MergeHeap, ScanIterator, entry_of, source_index, push_peek, advance_source,
  is_tombstoned, is_deletion, is_last, go_on, return_, merge_advanced, merge_entry, merge_round,
  merge_loop, remaining, next, collect_loop, collect,
}
use flowdb.Scan.Order.{scan_le}
use flowdb.Scan.Ready.{All-Permᴰ, Ready, pending, remaining-set, Ready-nil}
use flowdb.Scan.Advance.{Advanced, advance}
use flowdb.Scan.Visit.{visit}

-- The iterator after a round.
after : ScanIterator → ℕ → List InternalRecord → List MergeEntry → Option (Bytes × ℤ) → ScanIterator
after it source others rest last = record it {
  sources = set it.sources (source_index source) others;
  heap = push_peek source others rest;
  last_dedup = last;
}

advance_source_of :
    (it : ScanIterator) (r : InternalRecord) (others : List InternalRecord) (source : ℕ)
    (rest : List MergeEntry)
    → get_elem? it.sources (source_index source) ≡ some (r ∷ others)
    → advance_source (record it { heap = rest }) source
      ≡ (some r, after it source others rest it.last_dedup)
unfolding advance_source after
advance_source_of it r others source rest there = rw (advance_source, there)

merge_entry_of :
    (it : ScanIterator) (r : InternalRecord) (others : List InternalRecord) (source : ℕ)
    (rest : List MergeEntry)
    → get_elem? it.sources (source_index source) ≡ some (r ∷ others)
    → merge_entry (record it { heap = rest }) (entry_of source r) ≡ (
        if is_last it.last_dedup r.key r.ts
        then go_on (after it source others rest it.last_dedup)
        else if is_deletion r
        then go_on (after it source others rest (some (r.key, r.ts)))
        else if is_tombstoned it.tombstones r
        then go_on (after it source others rest (some (r.key, r.ts)))
        else return_ (some (to_record r)) (after it source others rest (some (r.key, r.ts))))
unfolding merge_entry merge_advanced entry_of after
merge_entry_of it r others source rest there =
    ap (merge_advanced (entry_of source r) it.last_dedup)
      (advance_source_of it r others source rest there)

-- `next` and the calls that follow it, at most `n` of them.
unfoldable pub resume : MergeHeap → ℕ → Option (Option Record × ScanIterator) → Option (List Record)
resume max_heap n none = none
resume max_heap n (some (none, it)) = some []
resume max_heap n (some (some r, it)) = elim (collect_loop max_heap n it) [
  | none ↦ none
  | some rs ↦ some (r ∷ rs)
]

module _ (max_heap : MergeHeap) where
  -- `merged` is what comes out of the heap.
  record Merged (it : ScanIterator) : Type 0 where
    merged : List InternalRecord
    perm : Permᴰ (pending it.sources) merged
    in_order : Sorted scan_le merged
    visited :
        (f n : ℕ)
        → remaining it.sources < f
        → remaining it.sources ≤ n
        → resume max_heap n (merge_loop max_heap f it)
          ≡ some (visit it.tombstones it.last_dedup merged)

  next_of :
      (it : ScanIterator)
      → it.fast_source ≡ none
      → next max_heap it ≡ merge_loop max_heap (suc (remaining it.sources + length it.heap)) it
  unfolding next
  next_of it h = rw h

  pub collect_loop-suc :
      (n : ℕ) (it : ScanIterator)
      → collect_loop max_heap (suc n) it ≡ resume max_heap n (next max_heap it)
  unfolding collect_loop resume
  collect_loop-suc n it = elim (Option-cases (next max_heap it)) [
    | inl e ↦ rw (collect_loop, e)
    | inr ((none, it'), e) ↦ rw (collect_loop, e)
    | inr ((some r, it'), e) ↦ rw (collect_loop, e)
  ]

  pub resume_of :
      (n : ℕ) (r : Record) (it : ScanIterator) (rs : List Record)
      → collect_loop max_heap n it ≡ some rs
      → resume max_heap n (some (some r, it)) ≡ some (r ∷ rs)
  unfolding resume
  resume_of n r it rs h = rw (resume, h)

  merge_loop-suc :
      (f : ℕ) (it : ScanIterator) (e : MergeEntry) (rest : List MergeEntry)
      → max_heap.pop it.heap ≡ some (e, rest)
      → merge_loop max_heap (suc f) it ≡ elim (merge_entry (record it { heap = rest }) e) [
        | go_on it' ↦ merge_loop max_heap f it'
        | return_ found it' ↦ some (found, it')
      ]
  unfolding merge_loop merge_round
  merge_loop-suc f it e rest h = rw (merge_loop, merge_round, h)

  -- The parts of `Merged` that do not depend on what the round does with the record.
  module _ (it : ScanIterator) (e : MergeEntry) (rest : List MergeEntry)
      (pop : max_heap.pop it.heap ≡ some (e, rest)) (adv : Advanced it.sources e rest) where
    abbrev onward : Option (Bytes × ℤ) → ScanIterator
    onward last = after it e.source adv.others rest last

    in_front :
        (last : Option (Bytes × ℤ)) (ih : Merged (onward last))
        → Sorted scan_le (adv.record_ ∷ ih.merged)
    unfolding after
    in_front last ih =
        (All-Permᴰ (λ s. scan_le adv.record_ s ≡ true) ih.perm adv.least_, ih.in_order)

    fewer :
        (last : Option (Bytes × ℤ)) → remaining it.sources ≡ suc (remaining (onward last).sources)
    unfolding after
    fewer last = remaining-set it.sources (source_index e.source) adv.record_ adv.others adv.there

    go_on_Merged :
        (last : Option (Bytes × ℤ))
        → merge_entry (record it { heap = rest }) e ≡ go_on (onward last)
        → (ih : Merged (onward last))
        → visit it.tombstones it.last_dedup (adv.record_ ∷ ih.merged)
          ≡ visit it.tombstones last ih.merged
        → Merged it
    unfolding after
    go_on_Merged last goes ih v = record {
      merged = adv.record_ ∷ ih.merged;
      perm = Permᴰ.trans adv.perm (Permᴰ.cons refl ih.perm);
      in_order = in_front last ih;
      visited = visited;
    }
      where
        visited :
            (f n : ℕ)
            → remaining it.sources < f
            → remaining it.sources ≤ n
            → resume max_heap n (merge_loop max_heap f it)
              ≡ some (visit it.tombstones it.last_dedup (adv.record_ ∷ ih.merged))
        visited zero n h k = absurd (omega arith)
        visited (suc f) n h k =
            ap (resume max_heap n) (merge_loop-suc f it e rest pop ∙ rw goes)
            ∙ ih.visited f n (omega (arith, fewer last)) (omega (arith, fewer last))
            ∙ ap some (sym v)

    return_Merged :
        (last : Option (Bytes × ℤ))
        → it.fast_source ≡ none
        → merge_entry (record it { heap = rest }) e
          ≡ return_ (some (to_record adv.record_)) (onward last)
        → (ih : Merged (onward last))
        → visit it.tombstones it.last_dedup (adv.record_ ∷ ih.merged)
          ≡ to_record adv.record_ ∷ visit it.tombstones last ih.merged
        → Merged it
    unfolding after
    return_Merged last slow returns ih v = record {
      merged = adv.record_ ∷ ih.merged;
      perm = Permᴰ.trans adv.perm (Permᴰ.cons refl ih.perm);
      in_order = in_front last ih;
      visited = visited;
    }
      where
        visited :
            (f n : ℕ)
            → remaining it.sources < f
            → remaining it.sources ≤ n
            → resume max_heap n (merge_loop max_heap f it)
              ≡ some (visit it.tombstones it.last_dedup (adv.record_ ∷ ih.merged))
        visited zero n h k = absurd (omega arith)
        visited (suc f) zero h k = absurd (omega (arith, fewer last))
        visited (suc f) (suc n) h k =
            let more : collect_loop max_heap (suc n) (onward last)
                ≡ some (visit it.tombstones last ih.merged) =
              collect_loop-suc n (onward last)
              ∙ ap (resume max_heap n) (next_of (onward last) slow)
              ∙ ih.visited _ n (omega arith) (omega (arith, fewer last)) in
            ap (resume max_heap (suc n)) (merge_loop-suc f it e rest pop ∙ rw returns)
            ∙ resume_of (suc n) (to_record adv.record_) (onward last) _ more
            ∙ ap some (sym v)

  -- What a round does with the record is what `visit` does with it.
  round_Merged :
      (it : ScanIterator) (e : MergeEntry) (rest : List MergeEntry)
      → max_heap.pop it.heap ≡ some (e, rest)
      → it.fast_source ≡ none
      → (adv : Advanced it.sources e rest)
      → ((last : Option (Bytes × ℤ)) → Merged (after it e.source adv.others rest last))
      → Merged it
  unfolding visit
  round_Merged it e rest pop slow adv ih =
      let r = adv.record_ in
      let slot : Option (Bytes × ℤ) = some (r.key, r.ts) in
      let does =
        ap (merge_entry (record it { heap = rest })) adv.made
        ∙ merge_entry_of it r adv.others e.source rest adv.there in
      elim (Bool-cases (is_last it.last_dedup r.key r.ts)) [
        | inl l ↦
            go_on_Merged it e rest pop adv it.last_dedup (does ∙ rw l) (ih it.last_dedup)
              (rw (visit, l))
        | inr l ↦ elim (Bool-cases (is_deletion r)) [
          | inl d ↦
              go_on_Merged it e rest pop adv slot (does ∙ rw (l, d)) (ih slot) (rw (visit, l, d))
          | inr d ↦ elim (Bool-cases (is_tombstoned it.tombstones r)) [
            | inl t ↦
                go_on_Merged it e rest pop adv slot (does ∙ rw (l, d, t)) (ih slot)
                  (rw (visit, l, d, t))
            | inr t ↦
                return_Merged it e rest pop adv slot slow (does ∙ rw (l, d, t)) (ih slot)
                  (rw (visit, l, d, t))
          ]
        ]
      ]

  round_none :
      (it : ScanIterator) → max_heap.pop it.heap ≡ none → merge_round max_heap it ≡ return_ none it
  unfolding merge_round
  round_none it h = rw (merge_round, h)

  used_up : (it : ScanIterator) → max_heap.pop it.heap ≡ none → Ready it.sources it.heap → Merged it
  unfolding merge_loop resume visit
  used_up it pop ready = record {
    merged = [];
    perm =
        let empty = max_heap.pop_none it.heap pop in
        rw (Ready-nil it.sources (subst (Ready it.sources) empty ready)) Permᴰ.nil;
    in_order = tt;
    visited = visited;
  }
    where
      visited :
          (f n : ℕ)
          → remaining it.sources < f
          → remaining it.sources ≤ n
          → resume max_heap n (merge_loop max_heap f it)
            ≡ some (visit it.tombstones it.last_dedup [])
      visited zero n h k = absurd (omega arith)
      visited (suc f) n h k = rw (merge_loop, round_none it pop)

  merge_within :
      (m : ℕ) (it : ScanIterator)
      → remaining it.sources < m
      → it.fast_source ≡ none
      → Ready it.sources it.heap
      → Merged it
  unfolding after
  merge_within zero it h slow ready = absurd (omega arith)
  merge_within (suc m) it h slow ready = elim (Option-cases (max_heap.pop it.heap)) [
    | inl pop ↦ used_up it pop ready
    | inr ((e, rest), pop) ↦
        let laws = max_heap.pop_some it.heap e rest pop in
        let adv = advance it.sources it.heap e rest ready laws.0 laws.1 in
        let less = fewer it e rest pop adv none in
        round_Merged it e rest pop slow adv (λ last.
          merge_within m (after it e.source adv.others rest last) (omega (arith, less)) slow
            adv.ready)
  ]

-- The heap gives all records in their order.
pub collect-visit :
    (max_heap : MergeHeap) (it : ScanIterator)
    → it.fast_source ≡ none
    → Ready it.sources it.heap
    → (merged : List InternalRecord) × Permᴰ (pending it.sources) merged
      × Sorted scan_le merged
      × (collect max_heap it ≡ some (visit it.tombstones it.last_dedup merged))
unfolding collect
collect-visit max_heap it slow ready =
    let m = merge_within max_heap (suc (remaining it.sources)) it (omega arith) slow ready in
    (
      m.merged,
      m.perm,
      m.in_order,
      collect_loop-suc max_heap (remaining it.sources) it
          ∙ ap (resume max_heap (remaining it.sources)) (next_of max_heap it slow)
          ∙ m.visited _ (remaining it.sources) (omega arith) (omega arith),
    )
