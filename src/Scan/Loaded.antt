-- ===== src/Scan/Loaded.antt =====
-- The iterator that `build` makes, run to its end.
use flowdb.Base.{
  suc, ◌≤◌, ◌≡◌, Bool, true, false, ltb, refl, sym, ◌∙◌, arith, length, All, all, any, sort_by,
  none, some, List, [], ◌∷◌, ◌++◌,
}
use mathlib.Core.List.{Permᴰ, Mem}
use mathlib.Core.List.Permᴰ
use flowdb.Base.Sorts.{any-Permᴰ, All-Mem, Sorted, sort_by-Sorted, sort_by-Permᴰ, All-map}
use flowdb.Base.Int.{ℤ}
use flowdb.Config.{Result}
use flowdb.Record.{InternalRecord, Record}
use flowdb.Query.{Query}
use flowdb.MemTables.{MemTables}
use flowdb.Scan.{MergeHeap, usize_max, is_tombstoned, is_last, collect}
use flowdb.Scan.Order.{scan_le, scan_le_total, scan_le_trans}
use flowdb.Scan.Ready.{All-Permᴰ, pending}
use flowdb.Scan.Visit.{visit}
use flowdb.Scan.Visit.{Shown, record_lt, is_newest}
use flowdb.Scan.Visited.{visit-Shown, visit-Sorted, visit-has_slot, covers, put_if_covers, has_slot}
use flowdb.Scan.Kept.{BlockInOrder, load-Sorted}
use flowdb.Scan.Sources.{pending-push_source}
use flowdb.Scan.Build.{push_source, assemble, load, see_record, mem_query, mem_tombstones, build}
use flowdb.Scan.Begin.{parts, parts-Visits}

-- The records that a scan merges: those of the memtables and those that it keeps of the blocks.
unfoldable pub scanned :
    Query → MemTables → List (Result (List InternalRecord)) → ℤ → List InternalRecord
scanned query tables blocks now_us =
    mem_query tables query.key_filter query.time_range now_us
    ++ pending (load (see_record query now_us) blocks).0

all-Permᴰ :
    (p : InternalRecord → Bool) {xs ys : List InternalRecord} → Permᴰ xs ys → all p xs ≡ all p ys
all-Permᴰ p Permᴰ.nil = refl
all-Permᴰ p (Permᴰ.cons e d) = rw (e, all-Permᴰ p d)
all-Permᴰ p (Permᴰ.swap e f) = rw (e, f) (ground arith)
all-Permᴰ p (Permᴰ.trans d e) = all-Permᴰ p d ∙ all-Permᴰ p e

pushed_Sorted :
    (src : List InternalRecord) (sources : List (List InternalRecord))
    → Sorted scan_le src
    → All (Sorted scan_le) sources
    → All (Sorted scan_le) (push_source src sources)
      × (length (push_source src sources) ≤ suc (length sources))
unfolding push_source
pushed_Sorted [] sources s a = (a, omega arith)
pushed_Sorted (r ∷ rs) sources s a = ((s, a), omega arith)

module _ (max_heap : MergeHeap) (query : Query) (tables : MemTables)
    (blocks : List (Result (List InternalRecord))) (now_us : ℤ) (in_order : All BlockInOrder blocks)
    (bound : suc (length blocks) ≤ usize_max) where
  run :
      (merged : List InternalRecord) × Permᴰ (scanned query tables blocks now_us) merged
      × Sorted scan_le merged
      × (collect max_heap (build query tables blocks now_us)
          ≡ some (visit (build query tables blocks now_us).tombstones none merged))
  unfolding build assemble scanned parts
  run =
      let mem = mem_query tables query.key_filter query.time_range now_us in
      let loaded = load-Sorted query now_us blocks in_order in
      let ssts = (load (see_record query now_us) blocks).0 in
      let sorted_mem : Sorted scan_le (sort_by scan_le mem) =
        sort_by-Sorted scan_le_total scan_le_trans mem in
      let tombstones = mem_tombstones mem ++ (load (see_record query now_us) blocks).1 in
      let sources = pushed_Sorted (sort_by scan_le mem) ssts sorted_mem loaded.0 in
      let (merged, perm, sorted, gives) =
        parts-Visits max_heap (ltb 0 (length (sort_by scan_le mem)))
          (push_source (sort_by scan_le mem) ssts) tombstones
          (omega (arith, sources.1, loaded.1, bound)) sources.0 in
      let order : Permᴰ (mem ++ pending ssts) (pending (push_source (sort_by scan_le mem) ssts)) =
        rw (pending-push_source (sort_by scan_le mem) ssts)
          (Permᴰ.append_right (pending ssts) (Permᴰ.symm (sort_by-Permᴰ scan_le mem))) in
      (merged, Permᴰ.trans order perm, sorted, gives)

  to_scanned :
      (merged : List InternalRecord)
      → Permᴰ (scanned query tables blocks now_us) merged
      → (o : Record)
      → Shown
          (λ r. Mem r (scanned query tables blocks now_us))
          (build query tables blocks now_us).tombstones
          none
          merged
          o
      → Shown
          (λ r. Mem r (scanned query tables blocks now_us))
          (build query tables blocks now_us).tombstones
          none
          (scanned query tables blocks now_us)
          o
  unfolding is_newest
  to_scanned merged perm o s = record {
    shown = s.shown;
    holds = s.holds;
    fresh = s.fresh;
    put = s.put;
    outside = s.outside;
    newest = all-Permᴰ _ perm ∙ s.newest;
    same = s.same;
  }

-- A scan ends, and shows only records that it merges. If the records of each block that is read are in the
-- order of a scan, then collecting the iterator that `build` makes gives records in strictly
-- ascending order of key and time; each is a put among the records of the memtables and blocks
-- that match the query, no record with its key and time has a higher sequence number there, and
-- its key is in no range tombstone of the scan.
pub collect-Shown :
    (max_heap : MergeHeap) (query : Query) (tables : MemTables)
    (blocks : List (Result (List InternalRecord))) (now_us : ℤ)
    → All BlockInOrder blocks
    → suc (length blocks) ≤ usize_max
    → (out : List Record) × (collect max_heap (build query tables blocks now_us) ≡ some out)
      × Sorted record_lt out
      × All
          (Shown
            (λ r. Mem r (scanned query tables blocks now_us))
            (build query tables blocks now_us).tombstones
            none
            (scanned query tables blocks now_us))
          out
collect-Shown max_heap query tables blocks now_us in_order bound =
    let all' = scanned query tables blocks now_us in
    let tombstones = (build query tables blocks now_us).tombstones in
    let (merged, perm, sorted, gives) = run max_heap query tables blocks now_us in_order bound in
    let among = All-Permᴰ (λ r. Mem r all') perm (All-Mem all' all' (λ r m. m)) in
    (
      visit tombstones none merged,
      gives,
      visit-Sorted tombstones merged none sorted,
      All-map (visit tombstones none merged)
          (to_scanned max_heap query tables blocks now_us in_order bound merged perm)
          (visit-Shown tombstones merged (λ r. Mem r all') none sorted tt among),
    )

-- A scan loses none of the records that it merges. If the records of each block that is read are in the order of a
-- scan, and among the records that the scan merges there is one of the key and time of `r` that is
-- not older than `r`, all of those are puts, and no range tombstone of the scan holds the key, then
-- collecting the iterator that `build` makes gives a record of that key and time.
pub collect-scanned-has_slot :
    (max_heap : MergeHeap) (query : Query) (tables : MemTables)
    (blocks : List (Result (List InternalRecord))) (now_us : ℤ) (r : InternalRecord)
    → All BlockInOrder blocks
    → suc (length blocks) ≤ usize_max
    → any (covers r) (scanned query tables blocks now_us) ≡ true
    → All (λ s. put_if_covers r s ≡ true) (scanned query tables blocks now_us)
    → is_tombstoned (build query tables blocks now_us).tombstones r ≡ false
    → (out : List Record) × (collect max_heap (build query tables blocks now_us) ≡ some out)
      × (any (has_slot r) out ≡ true)
unfolding is_last
collect-scanned-has_slot max_heap query tables blocks now_us r in_order bound c p t =
    let tombstones = (build query tables blocks now_us).tombstones in
    let (merged, perm, sorted, gives) = run max_heap query tables blocks now_us in_order bound in
    (
      visit tombstones none merged,
      gives,
      visit-has_slot tombstones merged none r sorted refl (sym (any-Permᴰ (covers r) perm) ∙ c)
          (All-Permᴰ (λ s. put_if_covers r s ≡ true) perm p) t,
    )
