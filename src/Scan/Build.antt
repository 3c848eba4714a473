-- ===== src/Scan/Build.antt =====
-- src/engine.rs: `ScanIterator::build`. The candidate blocks and what reading one gives are
-- parameters: a block that cannot be read is passed over.
use flowdb.Base.{
  ℕ, suc, ◌==◌, Bool, true, false, ◌&&◌, ltb, if◌then◌else◌, length, map, sort_by, Option, none,
  some, List, [], ◌∷◌, ◌++◌,
}
use flowdb.Base.Bytes.{Bytes}
use flowdb.Base.Int.{ℤ, leb_ℤ}
use flowdb.Config.{Result, ok, err}
use flowdb.Record.{put, delete, delete_range, InternalRecord, eq_op}
use flowdb.Query.{KeyFilter, prefix, range, all_keys, Query, key_matches, time_matches}
use flowdb.MemTables.{
  MemTables, query_prefix, query_key_range, query_time_range, query_prefix_time_range,
  query_key_time_range,
}
use flowdb.Scan.{MergeEntry, ScanIterator, usize_max, push_peek}
use flowdb.Scan.Order.{scan_le}

-- What becomes of a record of a block.
pub data Seen : Type 0 where
  skip : Seen
  tombstone : Bytes → Bytes → Seen
  keep : InternalRecord → Seen

-- A record in the loop of a full scan.
unfoldable pub full_record : ℤ → InternalRecord → Seen
full_record now_us rec = if leb_ℤ rec.expire_at now_us then skip else elim rec.op [
  | delete_range ↦ elim rec.range_end [ none ↦ skip | some end ↦ tombstone rec.key end ]
  | delete ↦ skip
  | put ↦ keep rec
]

-- A record in the loop of `filter_sst_block`.
unfoldable pub filter_record : KeyFilter → Option (ℤ × ℤ) → Bool → ℤ → InternalRecord → Seen
filter_record key_filter time_range is_full_scan' now_us rec =
    if leb_ℤ rec.expire_at now_us
    then skip
    else if eq_op rec.op delete_range
    then elim rec.range_end [ none ↦ skip | some end ↦ tombstone rec.key end ]
    else if is_full_scan'
    then if eq_op rec.op delete
      then skip
      else keep (record rec { seq = 0; op = put; range_end = none })
    else if key_matches key_filter rec.key && time_matches time_range rec.ts
    then keep (record rec { seq = 0 })
    else skip

unfoldable pub kept : List Seen → List InternalRecord
kept [] = []
kept (keep rec ∷ seen) = rec ∷ kept seen
kept (skip ∷ seen) = kept seen
kept (tombstone s e ∷ seen) = kept seen

unfoldable pub erased : List Seen → List (Bytes × Bytes)
erased [] = []
erased (keep rec ∷ seen) = erased seen
erased (skip ∷ seen) = erased seen
erased (tombstone s e ∷ seen) = (s, e) ∷ erased seen

-- `if !filtered.is_empty() { sst_sources.push(..) }`
unfoldable pub push_source :
    List InternalRecord → List (List InternalRecord) → List (List InternalRecord)
push_source [] sources = sources
push_source (r ∷ rs) sources = (r ∷ rs) ∷ sources

-- The sources of the blocks, and their tombstones.
unfoldable pub load :
    (InternalRecord → Seen)
    → List (Result (List InternalRecord))
    → List (List InternalRecord) × List (Bytes × Bytes)
load see [] = ([], [])
load see (err e ∷ blocks) = load see blocks
load see (ok records ∷ blocks) =
    let (sources, tombstones) = load see blocks in
    (push_source (kept (map see records)) sources, erased (map see records) ++ tombstones)

unfoldable pub is_full_scan : Query → Bool
is_full_scan query = elim query.time_range [
  | some _ ↦ false
  | none ↦ elim query.key_filter [
    | all_keys ↦ true
    | prefix p ↦ elim p [ [] ↦ true | _ ∷ _ ↦ false ]
    | range s e ↦ false
  ]
]

-- `(KeyFilter::All, None)` asks for the keys up to `~`.
unfoldable pub mem_query : MemTables → KeyFilter → Option (ℤ × ℤ) → ℤ → List InternalRecord
mem_query tables (prefix key) none now_us = query_prefix key now_us tables
mem_query tables (range start end) none now_us = query_key_range start end now_us tables
mem_query tables all_keys (some (s, e)) now_us = query_time_range s e now_us tables
mem_query tables (prefix key) (some (s, e)) now_us = query_prefix_time_range key s e now_us tables
mem_query tables (range start end) (some (s, e)) now_us =
    query_key_time_range start end s e now_us tables
mem_query tables all_keys none now_us = query_key_range [] (126 ∷ []) now_us tables

unfoldable pub mem_tombstones : List InternalRecord → List (Bytes × Bytes)
mem_tombstones [] = []
mem_tombstones (r ∷ rs) =
    if eq_op r.op delete_range
    then elim r.range_end [ none ↦ mem_tombstones rs | some end ↦ (r.key, end) ∷ mem_tombstones rs ]
    else mem_tombstones rs

unfoldable pub source_id : Bool → ℕ → ℕ
source_id memtable_present i = if memtable_present && i == 0 then usize_max else i

-- The first entries of the heap, for the sources from the `i`th on.
unfoldable pub first_entries : Bool → ℕ → List (List InternalRecord) → List MergeEntry
first_entries memtable_present i [] = []
first_entries memtable_present i (src ∷ sources) =
    push_peek (source_id memtable_present i) src (first_entries memtable_present (suc i) sources)

unfoldable pub is_fast : List (List InternalRecord) → List (Bytes × Bytes) → Bool
is_fast sources tombstones = length sources == 1 && length tombstones == 0

-- Steps 6 to 8 of `build`.
unfoldable pub assemble :
    List InternalRecord → List (List InternalRecord) → List (Bytes × Bytes) → ScanIterator
assemble mem_results sst_sources tombstones =
    let mem_sorted = sort_by scan_le mem_results in
    let sources = push_source mem_sorted sst_sources in
    let fast = is_fast sources tombstones in
    record {
      sources = sources;
      heap = if fast then [] else first_entries (ltb 0 (length mem_sorted)) 0 sources;
      tombstones = tombstones;
      last_dedup = none;
      fast_source = if fast then some 0 else none;
    }

-- How `build` looks at the records of a block.
unfoldable pub see_record : Query → ℤ → InternalRecord → Seen
see_record query now_us =
    if is_full_scan query
    then full_record now_us
    else filter_record query.key_filter query.time_range false now_us

unfoldable pub build : Query → MemTables → List (Result (List InternalRecord)) → ℤ → ScanIterator
build query tables blocks now_us =
    let mem_results = mem_query tables query.key_filter query.time_range now_us in
    let (sst_sources, sst_tombstones) = load (see_record query now_us) blocks in
    assemble mem_results sst_sources (mem_tombstones mem_results ++ sst_tombstones)
