-- ===== src/MemTables.antt =====
-- src/memtable.rs: `MemTables`, the active table and the frozen ones that wait for the flush. A
-- lock is held for the whole of each method or part of it; a method is one step on the state.
pub mod Freeze
pub mod Read
mod Tests
use flowdb.Base.{
  ℕ, Bool, true, false, ◌&&◌, ltb, leb, if◌then◌else◌, length, flat_map, Option, none, some, List,
  [], ◌∷◌, ◌++◌,
}
use flowdb.Base.Bytes.{Bytes}
use flowdb.Base.Int.{ℤ, leb_ℤ, ltb_ℤ, eqb_ℤ}
use flowdb.Record.{InternalRecord}
use flowdb.MemTable
use flowdb.MemTable.{MemTable, is_empty, sort}

pub record MemTables : Type 0 where
  pub active : MemTable
  pub frozen : List MemTable
  pub max_frozen : ℕ
  pub memtable_size_limit : ℕ

unfoldable pub new : ℕ → ℕ → MemTables
new max_frozen memtable_size_limit = record {
  active = MemTable.new;
  frozen = [];
  max_frozen = max_frozen;
  memtable_size_limit = memtable_size_limit;
}

unfoldable pub insert : MemTables → InternalRecord → MemTables
insert ts rec = record ts { active = MemTable.insert ts.active rec }

unfoldable pub should_flush : MemTables → Bool
should_flush ts = leb ts.memtable_size_limit ts.active.bytes

-- `frozen_is_full` and `frozen_backpressure`.
unfoldable pub frozen_backpressure : MemTables → Bool
frozen_backpressure ts = leb ts.max_frozen (length ts.frozen)

unfoldable pub freeze : MemTables → Bool × MemTables
freeze ts =
    if is_empty ts.active
    then (false, ts)
    else (true, record ts { active = MemTable.new; frozen = ts.frozen ++ (sort ts.active ∷ []) })

unfoldable pub pop_frozen : MemTables → Option MemTable × MemTables
pop_frozen ts = elim ts.frozen [
  | [] ↦ (none, ts)
  | t ∷ rest ↦ (some t, record ts { frozen = rest })
]

unfoldable pub active_stats : MemTables → ℕ × ℕ
active_stats ts = (length ts.active.records, ts.active.bytes)

-- What the five queries share: the results of the active table, then of each frozen one.
unfoldable pub extend_all : (MemTable → List InternalRecord) → MemTables → List InternalRecord
extend_all query ts = query ts.active ++ flat_map query ts.frozen

unfoldable pub query_prefix : Bytes → ℤ → MemTables → List InternalRecord
unfolding extend_all
query_prefix key now_us = extend_all (MemTable.query_prefix key now_us)

unfoldable pub query_key_range : Bytes → Bytes → ℤ → MemTables → List InternalRecord
unfolding extend_all
query_key_range start_key end_key now_us =
    extend_all (MemTable.query_key_range start_key end_key now_us)

unfoldable pub query_time_range : ℤ → ℤ → ℤ → MemTables → List InternalRecord
unfolding extend_all
query_time_range ts_start ts_end now_us =
    extend_all (MemTable.query_time_range ts_start ts_end now_us)

unfoldable pub query_prefix_time_range : Bytes → ℤ → ℤ → ℤ → MemTables → List InternalRecord
unfolding extend_all
query_prefix_time_range key ts_start ts_end now_us =
    extend_all (MemTable.query_prefix_time_range key ts_start ts_end now_us)

unfoldable pub query_key_time_range : Bytes → Bytes → ℤ → ℤ → ℤ → MemTables → List InternalRecord
unfolding extend_all
query_key_time_range start_key end_key ts_start ts_end now_us =
    extend_all (MemTable.query_key_time_range start_key end_key ts_start ts_end now_us)

-- One table of `get`, `rest` where it has no record that is visible.
unfoldable pub get_or : Option InternalRecord → ℤ → Option InternalRecord → Option InternalRecord
get_or none now_us rest = rest
get_or (some r) now_us rest = if leb_ℤ now_us r.expire_at then some r else rest

unfoldable pub get_frozen : List MemTable → Bytes → ℤ → ℤ → Option InternalRecord
unfolding get_or
get_frozen [] key ts now_us = none
get_frozen (t ∷ rest) key ts now_us =
    get_or (MemTable.get t key ts) now_us (get_frozen rest key ts now_us)

unfoldable pub get : MemTables → Bytes → ℤ → ℤ → Option InternalRecord
unfolding get_or get_frozen
get tables key ts now_us =
    get_or (MemTable.get tables.active key ts) now_us (get_frozen tables.frozen key ts now_us)

-- One round of the loop of `get_latest`.
unfoldable pub better : Option InternalRecord → Option InternalRecord → Option InternalRecord
better best none = best
better none (some r) = some r
better (some b) (some r) =
    if ltb_ℤ b.ts r.ts
    then some r
    else if eqb_ℤ r.ts b.ts && ltb b.seq r.seq
    then some r
    else some b

unfoldable pub latest_of : Option InternalRecord → List MemTable → Bytes → ℤ → Option InternalRecord
unfolding better
latest_of best [] key now_us = best
latest_of best (t ∷ rest) key now_us =
    latest_of (better best (MemTable.get_latest t key now_us)) rest key now_us

unfoldable pub get_latest : MemTables → Bytes → ℤ → Option InternalRecord
unfolding latest_of
get_latest ts key now_us = latest_of (MemTable.get_latest ts.active key now_us) ts.frozen key now_us
