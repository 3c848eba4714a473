-- ===== src/MemTables/Freeze.antt =====
-- `freeze` and `pop_frozen`: the tables change hands, the records stay.
use flowdb.Base.{
  true, false, ap, ◌∙◌, ◌++◌, ◌≡◌, refl, sym, ◌&&◌, filter, flat_map, All, All-append, some, List,
  [], ◌∷◌, append-nil, Bool, sort_by, Bool-cases, inl, inr,
}
use mathlib.Core.Option.{none-ne-some, some-injective}
use mathlib.Core.List.{Perm}
use mathlib.Core.List.Perm
use mathlib.Core.List.Permᴰ
use flowdb.Base.Bytes.{Bytes, starts_with}
use flowdb.Base.Int.{ℤ}
use flowdb.Base.Sorts.{Sorted, sort_by-Perm, sort_by-Sorted, filter-Perm, flat_map-append}
use flowdb.Record.{InternalRecord}
use flowdb.MemTable.{MemTable, sort, is_empty, record_le, visible, in_key_range, in_time_range}
use flowdb.MemTable
use flowdb.MemTable.Order.{record_le_total, record_le_trans}
use flowdb.MemTables.{
  MemTables, freeze, pop_frozen, extend_all, query_prefix, query_key_range, query_time_range,
  query_prefix_time_range, query_key_time_range,
}

-- Each query is a filter on the records of the tables.
extend_filter : (InternalRecord → Bool) → MemTables → List InternalRecord
extend_filter p = extend_all (λ t. filter p t.records)

freeze-extend_filter :
    (p : InternalRecord → Bool) (ts : MemTables)
    → Perm (extend_filter p (freeze ts).1) (extend_filter p ts)
unfolding extend_filter extend_all freeze MemTable.new sort
freeze-extend_filter p ts = elim (Bool-cases (is_empty ts.active)) [
  | inl e ↦ rw e (Perm.refl _)
  | inr e ↦
      rw (e, flat_map-append (λ (t : MemTable). filter p t.records) ts.frozen (sort ts.active ∷ []))
        (rw (append-nil (filter p (sort_by record_le ts.active.records))) (
          Perm.trans
            ∣ Permᴰ.append_comm (flat_map (λ (t : MemTable). filter p t.records) ts.frozen)
              (filter p (sort_by record_le ts.active.records)) ∣₁
            (Perm.append_right (flat_map (λ (t : MemTable). filter p t.records) ts.frozen)
              (filter-Perm p (sort_by-Perm record_le ts.active.records)))))
]

-- Freezing the active table, which sorts it, changes the results of none of the five queries but
-- for their order.
pub queries-freeze :
    (ts : MemTables) (start end : Bytes) (from to now_us : ℤ)
    → Perm (query_prefix start now_us (freeze ts).1) (query_prefix start now_us ts)
      × Perm (query_key_range start end now_us (freeze ts).1) (query_key_range start end now_us ts)
      × Perm (query_time_range from to now_us (freeze ts).1) (query_time_range from to now_us ts)
      × Perm
          (query_prefix_time_range start from to now_us (freeze ts).1)
          (query_prefix_time_range start from to now_us ts)
      × Perm
          (query_key_time_range start end from to now_us (freeze ts).1)
          (query_key_time_range start end from to now_us ts)
unfolding extend_filter query_prefix query_key_range query_time_range query_prefix_time_range
    query_key_time_range MemTable.query_prefix MemTable.query_key_range MemTable.query_time_range
    MemTable.query_prefix_time_range MemTable.query_key_time_range
queries-freeze ts start end from to now_us = (
  freeze-extend_filter (λ r. starts_with r.key start && visible now_us r) ts,
  freeze-extend_filter (λ r. in_key_range start end r && visible now_us r) ts,
  freeze-extend_filter (λ r. in_time_range from to r && visible now_us r) ts,
  freeze-extend_filter
      (λ r. starts_with r.key start && (in_time_range from to r && visible now_us r)) ts,
  freeze-extend_filter
      (λ r. in_key_range start end r && (in_time_range from to r && visible now_us r)) ts,
)

-- The tables that wait are sorted.
abbrev pub FrozenSorted : MemTables → Type 0
FrozenSorted ts = All (λ t. Sorted record_le t.records) ts.frozen

freeze-FrozenSorted : (ts : MemTables) → FrozenSorted ts → FrozenSorted (freeze ts).1
unfolding freeze
freeze-FrozenSorted ts h = elim (Bool-cases (is_empty ts.active)) [
  | inl e ↦ rw e h
  | inr e ↦ rw e (
      All-append _ ts.frozen (sort ts.active ∷ []) h
        (unfold sort in sort_by-Sorted record_le_total record_le_trans ts.active.records, tt))
]

pop_frozen-Sorted :
    (ts : MemTables) (frozen : List MemTable) (t : MemTable)
    → All (λ u. Sorted record_le u.records) frozen
    → (pop_frozen (record ts { frozen = frozen })).0 ≡ some t
    → Sorted record_le t.records
      × (t ∷ (pop_frozen (record ts { frozen = frozen })).1.frozen ≡ frozen)
unfolding pop_frozen
pop_frozen-Sorted ts [] t h e = absurd (none-ne-some _ e)
pop_frozen-Sorted ts (u ∷ us) t h e =
    let same : u ≡ t = some-injective _ _ e in rw (sym same) (h.0, refl)

-- No table where there are no records, else the sorted one.
unfoldable frozen_of : List InternalRecord → MemTable → List MemTable
frozen_of [] t = []
frozen_of (r ∷ rs) t = sort t ∷ []

-- What freezing the active table adds to those that wait.
unfoldable pub newly_frozen : MemTables → List MemTable
unfolding frozen_of
newly_frozen ts = frozen_of ts.active.records ts.active

freeze-frozen : (ts : MemTables) → (freeze ts).1.frozen ≡ ts.frozen ++ newly_frozen ts
unfolding freeze newly_frozen frozen_of is_empty
freeze-frozen ts = split ts.active.records refl
  where
    split :
        (rs : List InternalRecord)
        → ts.active.records ≡ rs
        → (freeze ts).1.frozen ≡ ts.frozen ++ newly_frozen ts
    split [] e =
        let empty : is_empty ts.active ≡ true = rw e refl in
        rw empty (sym (append-nil ts.frozen))
        ∙ ap (λ xs. ts.frozen ++ frozen_of xs ts.active) (sym e)
    split (r ∷ rs) e =
        let full : is_empty ts.active ≡ false = rw e refl in
        rw full (ap (λ xs. ts.frozen ++ frozen_of xs ts.active) (sym e))

-- Freezing keeps the frozen tables sorted, and tables are taken first in, first out: the table that
-- is taken for the flush, which is sorted by key, time and falling number, and those that are left
-- are the tables that waited before, in their order, and behind them the newly frozen one.
pub pop_frozen-freeze :
    (ts : MemTables) (t : MemTable)
    → FrozenSorted ts
    → (pop_frozen (freeze ts).1).0 ≡ some t
    → FrozenSorted (freeze ts).1
      × Sorted record_le t.records
      × (t ∷ (pop_frozen (freeze ts).1).1.frozen ≡ ts.frozen ++ newly_frozen ts)
pop_frozen-freeze ts t h e =
    let kept = freeze-FrozenSorted ts h in
    let (sorted, rest) = pop_frozen-Sorted (freeze ts).1 (freeze ts).1.frozen t kept e in
    (kept, sorted, rest ∙ freeze-frozen ts)
