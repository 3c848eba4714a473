-- ===== src/Scan/Answer.antt =====
-- What a scan gives, against what it is asked for.
use flowdb.Base.{
  suc, ◌≤◌, ◌≡◌, Bool, true, false, not, ◌||◌, refl, sym, ap, ◌∙◌, arith, length, All, any, none,
  some, List, ◌++◌,
}
use mathlib.Core.Path.{subst}
use mathlib.Core.List.{Mem}
use flowdb.Base.Int.{ℤ}
use flowdb.Base.Sorts.{Sorted, All-map}
use flowdb.Config.{Result}
use flowdb.Record.{InternalRecord, Record, Op, put, delete, delete_range, to_record}
use flowdb.Record.Kinds.{is_put}
use flowdb.Query.{Query}
use flowdb.MemTables.{MemTables}
use flowdb.Scan.{MergeHeap, usize_max, is_deletion, collect}
use flowdb.Scan.Ready.{pending}
use flowdb.Scan.Build.{build, load, see_record}
use flowdb.Scan.Visit.{Shown, record_lt, is_newest}
use flowdb.Scan.Visited.{covers, put_if_covers, has_slot}
use flowdb.Scan.Kept.{BlockInOrder}
use flowdb.Scan.Asked.{asked_records, memory_records, is_erased, Low, mem_query-memory_records}
use flowdb.Scan.Sources.{load-block_records, tombstones-is_erased}
use flowdb.Scan.Loaded.{scanned, collect-Shown, collect-scanned-has_slot}

pub is_deletion-is_put : (r : InternalRecord) → is_deletion r ≡ not (is_put r.op)
unfolding is_deletion is_put
is_deletion-is_put r = of_op r.op
  where
    of_op :
        (op : Op) → elim op [ put ↦ false | delete ↦ true | delete_range ↦ true ] ≡ not (is_put op)
    of_op put = refl
    of_op delete = refl
    of_op delete_range = refl

-- A record that a scan may give: it is made from a put that is asked for, that no deletion of a
-- range holds, and than which no record of its key and time has a higher number.
pub record IsAnswer (query : Query) (tables : MemTables)
    (blocks : List (Result (List InternalRecord))) (now_us : ℤ) (o : Record) : Type 0 where
  pub source : InternalRecord
  pub among : Mem source (asked_records query tables blocks now_us)
  pub a_put : is_put source.op ≡ true
  pub not_erased : is_erased query tables blocks now_us source ≡ false
  pub newest : is_newest (asked_records query tables blocks now_us) source ≡ true
  pub key : o.key ≡ source.key
  pub ts : o.ts ≡ source.ts
  pub expire_at : o.expire_at ≡ source.expire_at
  pub value : o.value ≡ source.value

-- Not an older record or one of another key or time, or else a put.
unfoldable pub puts_over : InternalRecord → InternalRecord → Bool
puts_over r s = not (covers r s) || is_put s.op

module _ (query : Query) (tables : MemTables) (blocks : List (Result (List InternalRecord)))
    (now_us : ℤ) (low : Low query.key_filter query.time_range tables) where
  scanned-asked_records :
      scanned query tables blocks now_us ≡ asked_records query tables blocks now_us
  unfolding scanned asked_records
  scanned-asked_records =
      ap (λ xs. xs ++ pending (load (see_record query now_us) blocks).0)
        (mem_query-memory_records query.key_filter query.time_range tables now_us low)
      ∙ ap (λ ys. memory_records query tables now_us ++ ys)
          (load-block_records query.key_filter query.time_range now_us blocks)

  Shown-IsAnswer :
      (o : Record)
      → Shown
          (λ r. Mem r (scanned query tables blocks now_us))
          (build query tables blocks now_us).tombstones
          none
          (scanned query tables blocks now_us)
          o
      → IsAnswer query tables blocks now_us o
  unfolding to_record
  Shown-IsAnswer o s = record {
    source = s.shown;
    among = subst (Mem s.shown) scanned-asked_records s.holds;
    a_put = ground (arith, s.put, is_deletion-is_put s.shown);
    not_erased =
        sym
          (tombstones-is_erased query.key_filter query.time_range now_us tables blocks s.shown low)
        ∙ s.outside;
    newest = subst (λ rs. is_newest rs s.shown ≡ true) scanned-asked_records s.newest;
    key = ap (λ (x : Record). x.key) s.same;
    ts = ap (λ (x : Record). x.ts) s.same;
    expire_at = ap (λ (x : Record). x.expire_at) s.same;
    value = ap (λ (x : Record). x.value) s.same;
  }

-- A scan ends, and gives only what it is asked for. If the records of each block that is read are in
-- the order of a scan, and the memtables have no key above `~` where the scan is of all keys and
-- times, then collecting the iterator that `build` makes gives records in strictly ascending order
-- of key and time. Each is made from an unexpired put whose key and time the query asks for, in the
-- memtables or in a block; no record of its key and time that is asked for has a higher number, where
-- the records of blocks count as number 0; and its key is in the range of no deletion that is in the
-- memtables and asked for, by its first key and its time, or in a block and unexpired.
pub collect-build :
    (max_heap : MergeHeap) (query : Query) (tables : MemTables)
    (blocks : List (Result (List InternalRecord))) (now_us : ℤ)
    → Low query.key_filter query.time_range tables
    → All BlockInOrder blocks
    → suc (length blocks) ≤ usize_max
    → (out : List Record) × (collect max_heap (build query tables blocks now_us) ≡ some out)
      × Sorted record_lt out
      × All (IsAnswer query tables blocks now_us) out
collect-build max_heap query tables blocks now_us low in_order bound =
    let (out, ends, sorted, shown) =
      collect-Shown max_heap query tables blocks now_us in_order bound in
    (out, ends, sorted, All-map out (Shown-IsAnswer query tables blocks now_us low) shown)

-- A scan loses nothing that it is asked for. If the records of each block that is read are in the
-- order of a scan, and the memtables have no key above `~` where the scan is of all keys and times;
-- if among the records that are asked for there is one of the key and time of `r` that is not older
-- than `r`, and all of those are puts; and if no deletion of a range holds the key, then collecting
-- the iterator that `build` makes gives a record of that key and time.
pub collect-build-has_slot :
    (max_heap : MergeHeap) (query : Query) (tables : MemTables)
    (blocks : List (Result (List InternalRecord))) (now_us : ℤ) (r : InternalRecord)
    → Low query.key_filter query.time_range tables
    → All BlockInOrder blocks
    → suc (length blocks) ≤ usize_max
    → any (covers r) (asked_records query tables blocks now_us) ≡ true
    → All (λ s. puts_over r s ≡ true) (asked_records query tables blocks now_us)
    → is_erased query tables blocks now_us r ≡ false
    → (out : List Record) × (collect max_heap (build query tables blocks now_us) ≡ some out)
      × (any (has_slot r) out ≡ true)
unfolding puts_over put_if_covers
collect-build-has_slot max_heap query tables blocks now_us r low in_order bound c p t =
    let same = scanned-asked_records query tables blocks now_us low in
    collect-scanned-has_slot max_heap query tables blocks now_us r in_order bound
      (ap (any (covers r)) same ∙ c)
      (subst (All (λ s. put_if_covers r s ≡ true)) (sym same) (
        All-map (asked_records query tables blocks now_us)
          (λ s h. ground (arith, h, is_deletion-is_put s)) p))
      (tombstones-is_erased query.key_filter query.time_range now_us tables blocks r low ∙ t)
