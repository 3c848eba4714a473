-- ===== src/Scan.antt =====
-- src/engine.rs: `ScanIterator`, the lazy merge of the memtables and the table files' blocks. A
-- peekable source is the list of the records that it still holds. The std `BinaryHeap` is a list
-- and the `pop` of a `MaxHeap`, whose laws are what std documents: which one of several greatest
-- entries it takes is left open.
pub mod Build
pub mod Order
pub mod Visit
pub mod Visited
pub mod Merge
pub mod Fast
pub mod Ready
pub mod Advance
pub mod Kept
pub mod Asked
pub mod Seen
pub mod Sources
pub mod Begin
pub mod Loaded
pub mod Answer
pub mod Heap
mod Tests
use flowdb.Base.{
  ℕ, zero, suc, ◌+◌, ◌-◌, ◌^◌, ◌==◌, ◌≡◌, Bool, true, false, ◌&&◌, leb, if◌then◌else◌, length,
  get_elem?, set, any, All, Option, none, some, List, [], ◌∷◌, ◌++◌,
}
use mathlib.Core.List.{Permᴰ}
use flowdb.Base.Heap.{MaxHeap}
use flowdb.Base.Bytes.{Bytes, eq_bytes, lt_bytes, le_bytes}
use flowdb.Base.Int.{ℤ, ltb_ℤ, eqb_ℤ}
use flowdb.Record.{Op, put, delete, delete_range, InternalRecord, Record, to_record}

pub record MergeEntry : Type 0 where
  pub key : Bytes
  pub ts : ℤ
  pub seq : ℕ
  pub source : ℕ

-- `a.cmp(b)` is not `Greater`.
unfoldable pub entry_le : MergeEntry → MergeEntry → Bool
entry_le a b =
    if eq_bytes b.key a.key
    then if eqb_ℤ b.ts a.ts then leb a.seq b.seq else ltb_ℤ b.ts a.ts
    else lt_bytes b.key a.key

-- `BinaryHeap<MergeEntry>`
abbrev pub MergeHeap : Type 0
MergeHeap = MaxHeap entry_le

pub record ScanIterator : Type 0 where
  pub sources : List (List InternalRecord)
  pub heap : List MergeEntry
  pub tombstones : List (Bytes × Bytes)
  pub last_dedup : Option (Bytes × ℤ)
  pub fast_source : Option ℕ

-- `usize::MAX`
abbrev pub usize_max : ℕ
usize_max = 2 ^ 64 - 1

unfoldable pub source_index : ℕ → ℕ
source_index source = if source == usize_max then 0 else source

unfoldable pub entry_of : ℕ → InternalRecord → MergeEntry
entry_of source r = record { key = r.key; ts = r.ts; seq = r.seq; source = source }

-- `if let Some(next) = src.peek() { heap.push(..) }`
unfoldable pub push_peek : ℕ → List InternalRecord → List MergeEntry → List MergeEntry
push_peek source [] heap = heap
push_peek source (r ∷ rs) heap = entry_of source r ∷ heap

unfoldable pub advance_source : ScanIterator → ℕ → Option InternalRecord × ScanIterator
advance_source it source = elim (get_elem? it.sources (source_index source)) [
  | none ↦ (none, it)
  | some src ↦ elim src [
    | [] ↦ (none, it)
    | r ∷ rest ↦ (
      some r,
      record it {
        sources = set it.sources (source_index source) rest;
        heap = push_peek source rest it.heap;
      },
    )
  ]
]

unfoldable pub is_tombstoned : List (Bytes × Bytes) → InternalRecord → Bool
is_tombstoned tombstones r =
    any (λ (t : Bytes × Bytes). le_bytes t.0 r.key && lt_bytes r.key t.1) tombstones

unfoldable pub is_deletion : InternalRecord → Bool
is_deletion r = elim r.op [ put ↦ false | delete ↦ true | delete_range ↦ true ]

-- `last_dedup` is the key and the time given.
unfoldable pub is_last : Option (Bytes × ℤ) → Bytes → ℤ → Bool
is_last none key ts = false
is_last (some (k, t)) key ts = eq_bytes k key && eqb_ℤ t ts

-- The loop of the fast path over its source: what it gives, the rest of the source, `last_dedup`.
unfoldable pub fast_loop :
    Option (Bytes × ℤ)
    → List InternalRecord
    → Option Record × (List InternalRecord × Option (Bytes × ℤ))
fast_loop last [] = (none, ([], last))
fast_loop last (r ∷ rest) =
    if is_deletion r
    then fast_loop (some (r.key, r.ts)) rest
    else if is_last last r.key r.ts
    then fast_loop last rest
    else (some (to_record r), (rest, some (r.key, r.ts)))

unfoldable pub fast_next : ScanIterator → ℕ → Option Record × ScanIterator
fast_next it idx = elim (get_elem? it.sources idx) [
  | none ↦ (none, it)
  | some src ↦
      let (found, (rest, last)) = fast_loop it.last_dedup src in
      (found, record it { sources = set it.sources idx rest; last_dedup = last })
]

-- How a round of the loop over the heap ends: the loop goes on, or `next` returns.
pub data Round : Type 0 where
  go_on : ScanIterator → Round
  return_ : Option Record → ScanIterator → Round

-- A round after `entry` is popped and its source advanced.
unfoldable pub merge_advanced :
    MergeEntry → Option (Bytes × ℤ) → Option InternalRecord × ScanIterator → Round
merge_advanced entry last (got, it) =
    if is_last last entry.key entry.ts then go_on it else elim got [
      | none ↦ go_on it
      | some r ↦
          let it' = record it { last_dedup = some (entry.key, entry.ts) } in
          if is_deletion r
          then go_on it'
          else if is_tombstoned it.tombstones r
          then go_on it'
          else return_ (some (to_record r)) it'
    ]

unfoldable pub merge_entry : ScanIterator → MergeEntry → Round
merge_entry it entry = merge_advanced entry it.last_dedup (advance_source it entry.source)

module _ (max_heap : MergeHeap) where
  unfoldable pub merge_round : ScanIterator → Round
  merge_round it = elim (max_heap.pop it.heap) [
    | none ↦ return_ none it
    | some (entry, rest) ↦ merge_entry (record it { heap = rest }) entry
  ]

  -- The loop; `none` where the fuel runs out.
  unfoldable pub merge_loop : ℕ → ScanIterator → Option (Option Record × ScanIterator)
  merge_loop zero it = none
  merge_loop (suc fuel) it = elim (merge_round it) [
    | go_on it' ↦ merge_loop fuel it'
    | return_ found it' ↦ some (found, it')
  ]

-- The records that the sources still hold.
unfoldable pub remaining : List (List InternalRecord) → ℕ
remaining [] = 0
remaining (src ∷ sources) = length src + remaining sources

module _ (max_heap : MergeHeap) where
  unfoldable pub next : ScanIterator → Option (Option Record × ScanIterator)
  next it = elim it.fast_source [
    | some idx ↦ some (fast_next it idx)
    | none ↦ merge_loop max_heap (suc (remaining it.sources + length it.heap)) it
  ]

  -- `next` until it gives none.
  unfoldable pub collect_loop : ℕ → ScanIterator → Option (List Record)
  collect_loop zero it = none
  collect_loop (suc fuel) it = elim (next it) [
    | none ↦ none
    | some (none, it') ↦ some []
    | some (some r, it') ↦ elim (collect_loop fuel it') [ none ↦ none | some rs ↦ some (r ∷ rs) ]
  ]

  unfoldable pub collect : ScanIterator → Option (List Record)
  collect it = collect_loop (suc (remaining it.sources)) it
