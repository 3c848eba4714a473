-- ===== src/Compaction/Merge.antt =====
-- src/compaction.rs: `SstBlockIterator`, and the merge of the candidates in `run`. The std
-- `BinaryHeap` is a parameter, as in the scan.
pub mod Stream
pub mod Written
pub mod Rounds
pub mod Round
pub mod Ends
pub mod Start
pub mod Files
use flowdb.Base.{
  ℕ, zero, suc, ◌+◌, ◌-◌, ◌==◌, Bool, true, false, leb, if◌then◌else◌, length, get_elem?, set, map,
  filter, sort_by, Option, none, some, List, [], ◌∷◌, ◌>>=◌,
}
use flowdb.Base.Bytes.{Bytes, eq_bytes, lt_bytes}
use flowdb.Base.Heap.{MaxHeap}
use flowdb.Base.Int.{ℤ, leb_ℤ, ltb_ℤ, eqb_ℤ}
use flowdb.Config.{Result, ok, err}
use flowdb.Record.{InternalRecord}
use flowdb.Scan.{is_deletion, is_last}
use flowdb.Sst.Blocks.{Lz4}
use flowdb.Sst.Write.{SstStreamWriter, new_stream, write_record}
use flowdb.Sst.Read.{SstReader, read_block_inner, block_count}

-- `block_records` are those from `record_pos` on.
pub record SstBlockIterator : Type 0 where
  pub reader : SstReader
  pub current_block : ℕ
  pub block_records : List InternalRecord
  pub now_us : ℤ

unfoldable pub new_iterator : SstReader → ℤ → SstBlockIterator
new_iterator reader now_us = record {
  reader = reader;
  current_block = 0;
  block_records = [];
  now_us = now_us;
}

unfoldable pub falling_le : InternalRecord → InternalRecord → Bool
falling_le a b = if eq_bytes b.key a.key then leb_ℤ b.ts a.ts else lt_bytes b.key a.key

-- The records of a block that have not expired, without their numbers, in falling order.
unfoldable pub live_records : ℤ → List InternalRecord → List InternalRecord
live_records now_us records = sort_by falling_le (
    map (λ (r : InternalRecord). record r { seq = 0 })
      (filter (λ (r : InternalRecord). ltb_ℤ now_us r.expire_at) records))

module _ (lz4 : Lz4) where
  -- The loop of `next_record`; the fuel is the number of blocks that are left, each of which is
  -- read once.
  unfoldable pub next_loop : ℕ → SstBlockIterator → Option InternalRecord × SstBlockIterator
  next_loop zero it = elim it.block_records [
    | r ∷ rs ↦ (some r, record it { block_records = rs })
    | [] ↦ (none, it)
  ]
  next_loop (suc fuel) it = elim it.block_records [
    | r ∷ rs ↦ (some r, record it { block_records = rs })
    | [] ↦ elim (read_block_inner lz4 it.reader it.current_block) [
      | ok records ↦ next_loop fuel (record it {
        block_records = live_records it.now_us records;
        current_block = suc it.current_block;
      })
      | err e ↦ next_loop fuel (record it { current_block = suc it.current_block })
    ]
  ]

  unfoldable pub next_record : SstBlockIterator → Option InternalRecord × SstBlockIterator
  next_record it = next_loop (block_count it.reader - it.current_block) it

pub record HeapEntry : Type 0 where
  pub record_ : InternalRecord
  pub source : ℕ

-- `a.cmp(b)` is not `Greater`.
unfoldable pub heap_le : HeapEntry → HeapEntry → Bool
heap_le a b =
    if eq_bytes a.record_.key b.record_.key
    then if eqb_ℤ a.record_.ts b.record_.ts
      then leb b.record_.seq a.record_.seq
      else ltb_ℤ a.record_.ts b.record_.ts
    else lt_bytes a.record_.key b.record_.key

-- The variables of the merge in `run`.
pub record Merging : Type 0 where
  pub heap : List HeapEntry
  pub iterators : List SstBlockIterator
  pub last_dedup : Option (Bytes × ℤ)
  pub writer : SstStreamWriter
  pub records_written : ℕ

-- `if let Some(rec) = iterators[source].next_record() { heap.push(..) }`
unfoldable pub push_next : ℕ → Option InternalRecord × SstBlockIterator → Merging → Merging
push_next source (none, it) m = record m { iterators = set m.iterators source it }
push_next source (some r, it) m = record m {
  iterators = set m.iterators source it;
  heap = record { record_ = r; source = source } ∷ m.heap;
}

-- The first part of a round: the record is written, or not. `none` is a panic.
unfoldable pub take_record : Lz4 → Merging → InternalRecord → Option Merging
take_record lz4 m r =
    if is_last m.last_dedup r.key r.ts
    then some m
    else if is_deletion r
    then some (record m { last_dedup = some (r.key, r.ts) })
    else write_record lz4 m.writer r >>= λ writer. some (record m {
      writer = writer;
      records_written = suc m.records_written;
      last_dedup = some (r.key, r.ts);
    })

module _ (lz4 : Lz4) (max_heap : MaxHeap heap_le) where
  -- The loop over the heap; `none` also where the fuel runs out.
  unfoldable pub merge_files : ℕ → Merging → Option Merging
  merge_files zero m = none
  merge_files (suc fuel) m = elim (max_heap.pop m.heap) [
    | none ↦ some m
    | some (entry, rest) ↦ elim (take_record lz4 (record m { heap = rest }) entry.record_) [
      | none ↦ none
      | some m' ↦ elim (get_elem? m'.iterators entry.source) [
        | none ↦ none
        | some it ↦ merge_files fuel (push_next entry.source (next_record lz4 it) m')
      ]
    ]
  ]

-- The loop that fills the heap; the iterators are visited from the `i`th on.
unfoldable pub fill_heap : Lz4 → ℕ → List SstBlockIterator → Merging → Merging
fill_heap lz4 i [] m = m
fill_heap lz4 i (it ∷ its) m = fill_heap lz4 (suc i) its (push_next i (next_record lz4 it) m)

-- The start of the merge, over the readers of the files that have blocks.
unfoldable pub start_merge : Lz4 → List SstReader → ℤ → ℕ → ℕ → ℕ → Merging
start_merge lz4 readers now_us block_size estimated_records bloom_bits_per_key =
    let iterators = map (λ (r : SstReader). new_iterator r now_us) readers in
    fill_heap lz4 0 iterators (record {
      heap = [];
      iterators = iterators;
      last_dedup = none;
      writer = new_stream block_size estimated_records bloom_bits_per_key;
      records_written = 0;
    })
