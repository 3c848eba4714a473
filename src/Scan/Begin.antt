-- ===== src/Scan/Begin.antt =====
-- The first entries of the heap, and a scan over given sources.
use flowdb.Base.{
  append-nil, ℕ, zero, suc, ◌+◌, ◌≤◌, ◌<◌, ◌≡◌, Bool, false, if◌then◌else◌, refl, ap, ◌∙◌, arith,
  length, get_elem?, All, none, some, List, [], ◌∷◌,
}
use mathlib.Core.List.{Permᴰ}
use mathlib.Core.List.Permᴰ
use flowdb.Base.Bytes.{Bytes}
use flowdb.Base.Sorts.{Sorted}
use flowdb.Record.{InternalRecord}
use flowdb.Scan.{MergeHeap, ScanIterator, usize_max, source_index, entry_of, push_peek, collect}
use flowdb.Scan.Order.{scan_le}
use flowdb.Scan.Advance.{count_source-push_peek}
use flowdb.Scan.Ready.{count_source, due, Points, Ready, pending}
use flowdb.Scan.Visit.{visit}
use flowdb.Scan.Merge.{collect-visit}
use flowdb.Scan.Fast.{collect-visit_fast}
use flowdb.Scan.Build.{source_id, first_entries, is_fast}

source_index-source_id : (mem : Bool) (i : ℕ) → i < usize_max → source_index (source_id mem i) ≡ i
unfolding source_index source_id
source_index-source_id mem i h = ground arith

count_below :
    (mem : Bool) (i k : ℕ) (sources : List (List InternalRecord))
    → i < k
    → k + length sources ≤ usize_max
    → count_source i (first_entries mem k sources) ≡ 0
unfolding first_entries count_source
count_below mem i k [] h b = refl
count_below mem i k (src ∷ sources) h b =
    let at = source_index-source_id mem k (omega arith) in
    let rest = count_below mem i (suc k) sources (omega arith) (omega arith) in
    count_source-push_peek i (source_id mem k) src (first_entries mem (suc k) sources)
    ∙ rw at (ground (arith, rest))

count_from :
    (mem : Bool) (j k : ℕ) (sources : List (List InternalRecord))
    → k + length sources ≤ usize_max
    → count_source (k + j) (first_entries mem k sources) ≡ due (get_elem? sources j)
unfolding first_entries count_source due
count_from mem j k [] b = refl
count_from mem zero k (src ∷ sources) b =
    let at = source_index-source_id mem k (omega arith) in
    let rest = count_below mem (k + 0) (suc k) sources (omega arith) (omega arith) in
    count_source-push_peek (k + 0) (source_id mem k) src (first_entries mem (suc k) sources)
    ∙ rw at (ground (arith, rest))
count_from mem (suc j) k (src ∷ sources) b =
    let at = source_index-source_id mem k (omega arith) in
    let rest = count_from mem j (suc k) sources (omega arith) in
    let same : k + suc j ≡ suc k + j = omega arith in
    count_source-push_peek (k + suc j) (source_id mem k) src (first_entries mem (suc k) sources)
    ∙ rw (at, same, rest) (ground arith)

next_there :
    (full : List (List InternalRecord)) (src : List InternalRecord)
    (sources : List (List InternalRecord)) (k : ℕ)
    → ((j : ℕ) → get_elem? full (k + j) ≡ get_elem? (src ∷ sources) j)
    → (j : ℕ) → get_elem? full (suc k + j) ≡ get_elem? sources j
next_there full src sources k h j = ap (get_elem? full) (omega arith) ∙ h (suc j)

Points-from :
    (mem : Bool) (full : List (List InternalRecord)) (k : ℕ) (sources : List (List InternalRecord))
    → k + length sources ≤ usize_max
    → ((j : ℕ) → get_elem? full (k + j) ≡ get_elem? sources j)
    → All (Points full) (first_entries mem k sources)
unfolding first_entries push_peek entry_of
Points-from mem full k [] b h = tt
Points-from mem full k ([] ∷ sources) b h =
    Points-from mem full (suc k) sources (omega arith) (next_there full [] sources k h)
Points-from mem full k ((r ∷ rs) ∷ sources) b h = (
  record {
    first = r;
    others = rs;
    there = ap (get_elem? full) (source_index-source_id mem k (omega arith) ∙ omega arith) ∙ h 0;
    made = refl;
  },
  Points-from mem full (suc k) sources (omega arith) (next_there full (r ∷ rs) sources k h),
)

first_entries-Ready :
    (mem : Bool) (sources : List (List InternalRecord))
    → length sources ≤ usize_max
    → All (Sorted scan_le) sources
    → Ready sources (first_entries mem 0 sources)
first_entries-Ready mem sources b s = record {
  points =
      Points-from mem sources 0 sources (omega arith) (λ j. ap (get_elem? sources) (omega arith));
  once = λ i.
      ap (λ (k : ℕ). count_source k (first_entries mem 0 sources)) (omega arith)
      ∙ count_from mem i 0 sources (omega arith);
  sorted = s;
}

-- What a scan over the sources gives, by the path that is chosen.
abbrev pub Visits :
    MergeHeap → List (List InternalRecord) → List (Bytes × Bytes) → ScanIterator → Type 0
Visits max_heap sources tombstones it =
    (merged : List InternalRecord) × Permᴰ (pending sources) merged
    × Sorted scan_le merged
    × (collect max_heap it ≡ some (visit tombstones none merged))

slow_Visits :
    (max_heap : MergeHeap) (mem : Bool) (sources : List (List InternalRecord))
    (tombstones : List (Bytes × Bytes))
    → length sources ≤ usize_max
    → All (Sorted scan_le) sources
    → Visits max_heap sources tombstones (record {
      sources = sources;
      heap = first_entries mem 0 sources;
      tombstones = tombstones;
      last_dedup = none;
      fast_source = none;
    })
slow_Visits max_heap mem sources tombstones b s =
    let it : ScanIterator = record {
      sources = sources;
      heap = first_entries mem 0 sources;
      tombstones = tombstones;
      last_dedup = none;
      fast_source = none;
    } in
    collect-visit max_heap it refl (first_entries-Ready mem sources b s)

-- The iterator that `assemble` makes of its sources.
unfoldable pub parts : Bool → List (List InternalRecord) → List (Bytes × Bytes) → ScanIterator
parts mem sources tombstones = record {
  sources = sources;
  heap = if is_fast sources tombstones then [] else first_entries mem 0 sources;
  tombstones = tombstones;
  last_dedup = none;
  fast_source = if is_fast sources tombstones then some 0 else none;
}

parts_slow :
    (max_heap : MergeHeap) (mem : Bool) (sources : List (List InternalRecord))
    (tombstones : List (Bytes × Bytes))
    → length sources ≤ usize_max
    → All (Sorted scan_le) sources
    → is_fast sources tombstones ≡ false
    → Visits max_heap sources tombstones (parts mem sources tombstones)
unfolding parts
parts_slow max_heap mem sources tombstones b s e =
    rw e (slow_Visits max_heap mem sources tombstones b s)

pub parts-Visits :
    (max_heap : MergeHeap) (mem : Bool) (sources : List (List InternalRecord))
    (tombstones : List (Bytes × Bytes))
    → length sources ≤ usize_max
    → All (Sorted scan_le) sources
    → Visits max_heap sources tombstones (parts mem sources tombstones)
unfolding parts is_fast pending
parts-Visits max_heap mem (src ∷ []) [] b s =
    (src, rw (append-nil src) (Permᴰ.refl src), s.0, collect-visit_fast max_heap [] src)
parts-Visits max_heap mem [] tombstones b s = parts_slow max_heap mem [] tombstones b s refl
parts-Visits max_heap mem (src ∷ []) (t ∷ tombstones) b s =
    parts_slow max_heap mem (src ∷ []) (t ∷ tombstones) b s (ground arith)
parts-Visits max_heap mem (src ∷ src' ∷ sources) tombstones b s =
    parts_slow max_heap mem (src ∷ src' ∷ sources) tombstones b s (ground arith)
