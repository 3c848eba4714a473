-- ===== src/MemTable/Tests.antt =====
-- The theorems about a table at concrete inputs.
use flowdb.Base.{◌≡◌, filter, none, [], ◌∷◌, arith}
use flowdb.Base.Sorts.{IsGreatest}
use flowdb.Base.Int.{pos, i64_max}
use flowdb.Record.{InternalRecord, put}
use flowdb.MemTable.{MemTable, new, insert, get, sort, is_at, seq_at_most}
use flowdb.MemTable.Index.{Active, created, inserted, get-IsGreatest, bytes-Active, total_size}

abbrev older : InternalRecord
older = record {
  seq = 3;
  op = put;
  key = 97 ∷ [];
  ts = pos 5;
  expire_at = i64_max;
  value = 1 ∷ [];
  range_end = none;
}

abbrev newer : InternalRecord
newer = record older { seq = 4; value = 2 ∷ [] }

table : MemTable
table = insert (insert new older) newer

table-Active : Active table
unfolding table new insert
table-Active = inserted newer (inserted older created tt) (omega arith, tt)

get-IsGreatest_example :
    IsGreatest seq_at_most
      (get table (97 ∷ []) (pos 5))
      (filter (is_at (97 ∷ []) (pos 5)) table.records)
    × IsGreatest seq_at_most
        (get (sort table) (97 ∷ []) (pos 5))
        (filter (is_at (97 ∷ []) (pos 5)) (sort table).records)
get-IsGreatest_example = get-IsGreatest table (97 ∷ []) (pos 5) table-Active

bytes-Active_example : table.bytes ≡ total_size table.records
bytes-Active_example = bytes-Active table table-Active
