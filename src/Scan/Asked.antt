-- ===== src/Scan/Asked.antt =====
-- What a scan is asked for, said without the sources and the heap.
use flowdb.Base.{
  Bool, true, false, not, ◌&&◌, ◌||◌, if◌then◌else◌, ◌≡◌, refl, sym, ap, ◌∙◌, arith, any, All,
  filter, filter-append, flat_map, map, Option, none, some, List, [], ◌∷◌, ◌++◌,
}
use flowdb.Base.Bytes.{Bytes, lt_bytes, le_bytes, starts_with, lt_bytes_not_le}
use flowdb.Base.Int.{ℤ, ltb_ℤ, leb_ℤ}
use flowdb.Base.Sorts.{filter_ext, filter_on}
use flowdb.Config.{Result, ok, err}
use flowdb.Record.{InternalRecord, Op, put, delete, delete_range}
use flowdb.Query.{KeyFilter, prefix, range, all_keys, Query}
use flowdb.MemTable
use flowdb.MemTable.{MemTable, visible, in_key_range, in_time_range}
use flowdb.MemTables
use flowdb.MemTables.{MemTables, extend_all}
use flowdb.MemTables.Read.{contents}
use flowdb.Scan.Build.{mem_query}

-- The key is one that the filter asks for; so is the time.
unfoldable pub asks_key : KeyFilter → Bytes → Bool
asks_key (prefix p) k = starts_with k p
asks_key (range start end) k = not (lt_bytes k start) && not (lt_bytes end k)
asks_key all_keys k = true

unfoldable pub asks_time : Option (ℤ × ℤ) → ℤ → Bool
asks_time none ts = true
asks_time (some (start, end)) ts = leb_ℤ start ts && leb_ℤ ts end

-- Every key and every time.
unfoldable pub asks_all : KeyFilter → Option (ℤ × ℤ) → Bool
asks_all all_keys none = true
asks_all (prefix []) none = true
asks_all (prefix (x ∷ p)) none = false
asks_all (range start end) none = false
asks_all kf (some t) = false

unfoldable pub asks : Query → InternalRecord → Bool
unfolding asks_key asks_time
asks query r = asks_key query.key_filter r.key && asks_time query.time_range r.ts

-- The records of the memtables that are asked for and did not expire before `now_us`.
unfoldable pub memory_records : Query → MemTables → ℤ → List InternalRecord
unfolding asks
memory_records query tables now_us =
    filter (λ r. asks query r && not (ltb_ℤ r.expire_at now_us)) (contents tables)

-- The records of the blocks that can be read and that have not expired at `now_us`.
unfoldable pub lasting_records : List (Result (List InternalRecord)) → ℤ → List InternalRecord
lasting_records [] now_us = []
lasting_records (err e ∷ blocks) now_us = lasting_records blocks now_us
lasting_records (ok rs ∷ blocks) now_us =
    filter (λ (r : InternalRecord). ltb_ℤ now_us r.expire_at) rs ++ lasting_records blocks now_us

-- A deletion in a block counts unless the scan is of everything, which leaves deletions out.
unfoldable pub counts : Bool → Op → Bool
counts everything put = true
counts everything delete = not everything
counts everything delete_range = false

-- The number of a record is not in the file of a block.
unfoldable pub bare : Bool → InternalRecord → InternalRecord
bare everything r = if everything then r else record r { seq = 0 }

-- Those of them that are asked for.
unfoldable pub block_records : Query → List (Result (List InternalRecord)) → ℤ → List InternalRecord
unfolding asks asks_all counts bare lasting_records
block_records query blocks now_us =
    let everything = asks_all query.key_filter query.time_range in
    map (bare everything) (
      filter (λ (r : InternalRecord). asks query r && counts everything r.op)
        (lasting_records blocks now_us))

-- All records that a scan is to merge.
unfoldable pub asked_records :
    Query → MemTables → List (Result (List InternalRecord)) → ℤ → List InternalRecord
unfolding memory_records block_records
asked_records query tables blocks now_us =
    memory_records query tables now_us ++ block_records query blocks now_us

-- A deletion of a range that holds the key of `r`.
unfoldable pub spans : Op → Bytes → Option Bytes → Bytes → Bool
spans put start end k = false
spans delete start end k = false
spans delete_range start none k = false
spans delete_range start (some end) k = not (lt_bytes k start) && lt_bytes k end

unfoldable pub erases : InternalRecord → InternalRecord → Bool
unfolding spans
erases r d = spans d.op d.key d.range_end r.key

-- Such a deletion is among the records of the memtables that are asked for, or among the records of
-- the blocks that have not expired.
unfoldable pub is_erased :
    Query → MemTables → List (Result (List InternalRecord)) → ℤ → InternalRecord → Bool
unfolding memory_records lasting_records erases
is_erased query tables blocks now_us r =
    any (erases r) (memory_records query tables now_us)
    || any (erases r) (lasting_records blocks now_us)

-- A scan of all keys and times asks the memtables for the keys up to `~` only.
abbrev pub Low : KeyFilter → Option (ℤ × ℤ) → MemTables → Type 0
Low all_keys none tables =
    All (λ (r : InternalRecord). le_bytes r.key (126 ∷ []) ≡ true) (contents tables)
Low all_keys (some t) tables = Unit
Low (prefix p) t tables = Unit
Low (range start end) t tables = Unit

extend_all-filter :
    (p : InternalRecord → Bool) (tables : MemTables)
    → extend_all (λ (t : MemTable). filter p t.records) tables ≡ filter p (contents tables)
unfolding extend_all
extend_all-filter p tables =
    ap (λ xs. filter p tables.active.records ++ xs) (each tables.frozen)
    ∙ sym (filter-append p tables.active.records (flat_map (λ t. t.records) tables.frozen))
  where
    each :
        (ts : List MemTable)
        → flat_map (λ (t : MemTable). filter p t.records) ts
          ≡ filter p (flat_map (λ (t : MemTable). t.records) ts)
    each [] = refl
    each (t ∷ ts) =
        ap (λ xs. filter p t.records ++ xs) (each ts)
        ∙ sym (filter-append p t.records (flat_map (λ (t : MemTable). t.records) ts))

in_range :
    (start end k : Bytes)
    → (le_bytes start k && le_bytes k end) ≡ (not (lt_bytes k start) && not (lt_bytes end k))
in_range start end k = ground (arith, lt_bytes_not_le k start, lt_bytes_not_le end k)

le_bytes_nil : (k : Bytes) → le_bytes [] k ≡ true
unfolding le_bytes
le_bytes_nil [] = refl
le_bytes_nil (x ∷ k) = refl

-- The memtables give what they are asked for.
pub mem_query-memory_records :
    (kf : KeyFilter) (times : Option (ℤ × ℤ)) (tables : MemTables) (now_us : ℤ)
    → Low kf times tables
    → mem_query tables kf times now_us
      ≡ memory_records (record { key_filter = kf; time_range = times }) tables now_us
unfolding mem_query memory_records asks asks_key asks_time visible in_key_range in_time_range
    MemTables.query_prefix MemTables.query_key_range MemTables.query_time_range
    MemTables.query_prefix_time_range MemTables.query_key_time_range MemTable.query_prefix
    MemTable.query_key_range MemTable.query_time_range MemTable.query_prefix_time_range
    MemTable.query_key_time_range
mem_query-memory_records (prefix p) none tables now_us low =
    extend_all-filter _ tables ∙ filter_ext (λ r. ground arith) (contents tables)
mem_query-memory_records (range start end) none tables now_us low =
    extend_all-filter _ tables
    ∙ filter_ext (λ r. ground (arith, in_range start end r.key)) (contents tables)
mem_query-memory_records all_keys none tables now_us low =
    extend_all-filter _ tables
    ∙ filter_on (λ (r : InternalRecord). le_bytes r.key (126 ∷ []) ≡ true)
        (λ r h. ground (arith, h, le_bytes_nil r.key)) (contents tables) low
mem_query-memory_records (prefix p) (some (s, e)) tables now_us low =
    extend_all-filter _ tables ∙ filter_ext (λ r. ground arith) (contents tables)
mem_query-memory_records (range start end) (some (s, e)) tables now_us low =
    extend_all-filter _ tables
    ∙ filter_ext (λ r. ground (arith, in_range start end r.key)) (contents tables)
mem_query-memory_records all_keys (some (s, e)) tables now_us low =
    extend_all-filter _ tables ∙ filter_ext (λ r. ground arith) (contents tables)
