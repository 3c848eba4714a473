-- ===== src/MemTables/Tests.antt =====
-- The theorems about the tables at concrete inputs.
use flowdb.Base.{◌≡◌, refl, filter, none, some, [], ◌∷◌, ◌++◌}
use mathlib.Core.List.{Perm}
use flowdb.Base.Sorts.{IsGreatest, Sorted}
use flowdb.Base.Int.{pos, i64_max}
use flowdb.Record.{InternalRecord, put}
use flowdb.MemTable
use flowdb.MemTable.{is_empty, sort, MemTable, record_le}
use flowdb.MemTables.{
  MemTables, new, insert, freeze, pop_frozen, get_latest, query_prefix, query_key_range,
  query_time_range, query_prefix_time_range, query_key_time_range,
}
use flowdb.MemTables.Freeze.{FrozenSorted, newly_frozen, queries-freeze, pop_frozen-freeze}
use flowdb.MemTables.Read.{contents, is_put_of, not_later, get_latest-contents}

abbrev stored : InternalRecord
stored = record {
  seq = 3;
  op = put;
  key = 98 ∷ [];
  ts = pos 5;
  expire_at = i64_max;
  value = 1 ∷ [];
  range_end = none;
}

tables : MemTables
tables = insert (insert (new 4 64) stored) (record stored { seq = 4; key = 97 ∷ [] })

queries-freeze_example :
    Perm (query_prefix (97 ∷ []) (pos 9) (freeze tables).1) (query_prefix (97 ∷ []) (pos 9) tables)
    × Perm
        (query_key_range (97 ∷ []) (98 ∷ []) (pos 9) (freeze tables).1)
        (query_key_range (97 ∷ []) (98 ∷ []) (pos 9) tables)
    × Perm
        (query_time_range (pos 1) (pos 6) (pos 9) (freeze tables).1)
        (query_time_range (pos 1) (pos 6) (pos 9) tables)
    × Perm
        (query_prefix_time_range (97 ∷ []) (pos 1) (pos 6) (pos 9) (freeze tables).1)
        (query_prefix_time_range (97 ∷ []) (pos 1) (pos 6) (pos 9) tables)
    × Perm
        (query_key_time_range (97 ∷ []) (98 ∷ []) (pos 1) (pos 6) (pos 9) (freeze tables).1)
        (query_key_time_range (97 ∷ []) (98 ∷ []) (pos 1) (pos 6) (pos 9) tables)
queries-freeze_example = queries-freeze tables (97 ∷ []) (98 ∷ []) (pos 1) (pos 6) (pos 9)

tables-FrozenSorted : FrozenSorted tables
unfolding tables new insert
tables-FrozenSorted = tt

oldest : (pop_frozen (freeze tables).1).0 ≡ some (sort tables.active)
unfolding tables new insert MemTable.new MemTable.insert freeze pop_frozen is_empty
oldest = refl

pop_frozen-freeze_example :
    FrozenSorted (freeze tables).1
    × Sorted record_le (sort tables.active).records
    × (sort tables.active ∷ (pop_frozen (freeze tables).1).1.frozen
        ≡ tables.frozen ++ newly_frozen tables)
pop_frozen-freeze_example = pop_frozen-freeze tables (sort tables.active) tables-FrozenSorted oldest

get_latest-contents_example :
    IsGreatest not_later
      (get_latest tables (97 ∷ []) (pos 9))
      (filter (is_put_of (97 ∷ []) (pos 9)) (contents tables))
get_latest-contents_example = get_latest-contents tables (97 ∷ []) (pos 9)
