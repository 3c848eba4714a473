-- ===== src/MemTable.antt =====
-- src/memtable.rs: `MemTable`, the table of the newest records with its index by key and time.
-- The `HashMap` of the index is a list of entries whose first entry for a key counts, so `insert`
-- puts the new entry in front.
pub mod Order
pub mod Index
pub mod Latest
mod Tests
use flowdb.Base.{
  ℕ, ◌+◌, Bool, true, false, not, ◌&&◌, ltb, leb, if◌then◌else◌, length, get_elem?, filter, find,
  max_by, sort_by, Option, none, some, List, [], ◌∷◌, ◌++◌,
}
use flowdb.Base.Bytes.{Bytes, eq_bytes, le_bytes, starts_with}
use flowdb.Base.Int.{ℤ, leb_ℤ, ltb_ℤ, eqb_ℤ}
use flowdb.Record.{InternalRecord, Op, put, delete, delete_range, estimated_size, eq_op}

pub record MemTable : Type 0 where
  pub records : List InternalRecord
  pub point_index : List ((Bytes × ℤ) × ℕ)
  pub bytes : ℕ

unfoldable pub new : MemTable
new = record { records = []; point_index = []; bytes = 0 }

unfoldable pub insert : MemTable → InternalRecord → MemTable
insert t rec = record {
  bytes = t.bytes + estimated_size rec;
  point_index = ((rec.key, rec.ts), length t.records) ∷ t.point_index;
  records = t.records ++ (rec ∷ []);
}

-- The key of an entry of the index is `(key, ts)`.
unfoldable pub is_entry : Bytes → ℤ → (Bytes × ℤ) × ℕ → Bool
is_entry key ts e = eq_bytes e.0.0 key && eqb_ℤ e.0.1 ts

unfoldable pub is_at : Bytes → ℤ → InternalRecord → Bool
is_at key ts r = eq_bytes r.key key && eqb_ℤ r.ts ts

unfoldable pub seq_at_most : InternalRecord → InternalRecord → Bool
seq_at_most a b = leb a.seq b.seq

-- `&self.records[idx]` panics out of bounds, which is `none` here.
unfoldable pub get : MemTable → Bytes → ℤ → Option InternalRecord
unfolding is_entry is_at seq_at_most
get t key ts = elim (find (is_entry key ts) t.point_index) [
  | some (_, idx) ↦ get_elem? t.records idx
  | none ↦ max_by seq_at_most (filter (is_at key ts) t.records)
]

-- The filter of `get_latest`.
unfoldable pub is_live : Bytes → ℤ → InternalRecord → Bool
is_live key now_us r =
    eq_bytes r.key key
    && (leb_ℤ now_us r.expire_at && (not (eq_op r.op delete) && not (eq_op r.op delete_range)))

-- `(r.ts, r.seq)` compared as a pair.
unfoldable pub latest_at_most : InternalRecord → InternalRecord → Bool
latest_at_most a b = if eqb_ℤ a.ts b.ts then leb a.seq b.seq else leb_ℤ a.ts b.ts

unfoldable pub get_latest : MemTable → Bytes → ℤ → Option InternalRecord
unfolding is_live latest_at_most
get_latest t key now_us = max_by latest_at_most (filter (is_live key now_us) t.records)

unfoldable pub in_key_range : Bytes → Bytes → InternalRecord → Bool
in_key_range start_key end_key r = le_bytes start_key r.key && le_bytes r.key end_key

unfoldable pub in_time_range : ℤ → ℤ → InternalRecord → Bool
in_time_range ts_start ts_end r = leb_ℤ ts_start r.ts && leb_ℤ r.ts ts_end

unfoldable pub visible : ℤ → InternalRecord → Bool
visible now_us r = leb_ℤ now_us r.expire_at

unfoldable pub query_prefix : Bytes → ℤ → MemTable → List InternalRecord
unfolding visible
query_prefix key now_us t = filter (λ r. starts_with r.key key && visible now_us r) t.records

unfoldable pub query_key_range : Bytes → Bytes → ℤ → MemTable → List InternalRecord
unfolding visible in_key_range
query_key_range start_key end_key now_us t =
    filter (λ r. in_key_range start_key end_key r && visible now_us r) t.records

unfoldable pub query_time_range : ℤ → ℤ → ℤ → MemTable → List InternalRecord
unfolding visible in_time_range
query_time_range ts_start ts_end now_us t =
    filter (λ r. in_time_range ts_start ts_end r && visible now_us r) t.records

unfoldable pub query_prefix_time_range : Bytes → ℤ → ℤ → ℤ → MemTable → List InternalRecord
unfolding visible in_time_range
query_prefix_time_range key ts_start ts_end now_us t =
    filter (λ r. starts_with r.key key && (in_time_range ts_start ts_end r && visible now_us r))
      t.records

unfoldable pub query_key_time_range : Bytes → Bytes → ℤ → ℤ → ℤ → MemTable → List InternalRecord
unfolding visible in_key_range in_time_range
query_key_time_range start_key end_key ts_start ts_end now_us t =
    filter
      (λ r.
        in_key_range start_key end_key r && (in_time_range ts_start ts_end r && visible now_us r))
      t.records

unfoldable pub is_empty : MemTable → Bool
is_empty t = elim t.records [ [] ↦ true | _ ∷ _ ↦ false ]

-- By key, then by time, then the highest number first.
unfoldable pub record_le : InternalRecord → InternalRecord → Bool
record_le a b =
    if eq_bytes a.key b.key
    then if eqb_ℤ a.ts b.ts then leb b.seq a.seq else leb_ℤ a.ts b.ts
    else le_bytes a.key b.key

unfoldable pub sort : MemTable → MemTable
sort t = record t { records = sort_by record_le t.records; point_index = [] }
