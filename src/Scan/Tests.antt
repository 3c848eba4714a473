-- ===== src/Scan/Tests.antt =====
-- The theorems about scans at concrete inputs.
use flowdb.Base.{
  suc, ◌≡◌, ◌≤◌, refl, arith, length, All, any, false, true, none, some, List, [], ◌∷◌, Option,
}
use flowdb.Base.Int.{ℤ, pos, i64_max}
use flowdb.Base.Sorts.{Sorted}
use flowdb.Config.{Result, ok, err, other}
use flowdb.Record.{InternalRecord, Record, Op, put, delete}
use flowdb.Query.{Query, query_prefix}
use flowdb.MemTables.{MemTables}
use flowdb.Scan.{collect}
use flowdb.Scan.Build.{build}
use flowdb.Scan.Visit.{record_lt}
use flowdb.Scan.Visited.{has_slot}
use flowdb.Scan.Answer.{IsAnswer, collect-build, collect-build-has_slot}
use flowdb.Scan.Heap.{entry_heap}

-- A key of one byte under the prefix `k`.
abbrev entry : Op → ℤ → InternalRecord
entry op ts = record {
  seq = 3;
  op = op;
  key = 107 ∷ 49 ∷ [];
  ts = ts;
  expire_at = i64_max;
  value = 5 ∷ [];
  range_end = none;
}

abbrev tables : MemTables
tables = record {
  active = record { records = entry put (pos 2) ∷ []; point_index = []; bytes = 0 };
  frozen = [];
  max_frozen = 2;
  memtable_size_limit = 100;
}

abbrev blocks : List (Result (List InternalRecord))
blocks =
    ok (entry put (pos 1) ∷ entry put (pos 2) ∷ [])
    ∷ err (other "block out of bounds")
    ∷ ok (entry delete (pos 1) ∷ [])
    ∷ []

abbrev under_k : Query
under_k = query_prefix (107 ∷ [])

collect-build_example :
    (out : List Record) × (collect entry_heap (build under_k tables blocks (pos 0)) ≡ some out)
    × Sorted record_lt out
    × All (IsAnswer under_k tables blocks (pos 0)) out
unfolding flowdb.Scan.Order.scan_le flowdb.Base.Bytes.eq_bytes query_prefix
collect-build_example =
    collect-build entry_heap under_k tables blocks (pos 0) tt
      (((refl, tt), (tt, tt)), (tt, ((tt, tt), tt))) (omega arith)

collect-build-has_slot_example :
    (out : List Record) × (collect entry_heap (build under_k tables blocks (pos 0)) ≡ some out)
    × (any (has_slot (entry put (pos 2))) out ≡ true)
unfolding flowdb.Scan.Order.scan_le flowdb.Base.Bytes.eq_bytes query_prefix
    flowdb.Scan.Asked.asked_records flowdb.Base.Bytes.starts_with flowdb.Scan.Visited.covers
    flowdb.Scan.Order.same_slot flowdb.Scan.Answer.puts_over flowdb.Record.Kinds.is_put
    flowdb.Scan.Asked.is_erased
collect-build-has_slot_example =
    collect-build-has_slot entry_heap under_k tables blocks (pos 0) (entry put (pos 2)) tt
      (((refl, tt), (tt, tt)), (tt, ((tt, tt), tt))) (omega arith) refl
      (refl, (refl, (refl, (refl, tt)))) refl
