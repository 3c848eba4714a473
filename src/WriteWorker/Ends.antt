-- ===== src/WriteWorker/Ends.antt =====
-- The writes of a group of batches end, and the frozen tables stay below their bound.
use flowdb.Base.{
  ℕ, zero, suc, ◌+◌, ◌-◌, ◌≤◌, ◌<◌, ◌≡◌, true, refl, ap, ◌∙◌, arith, max, if◌then◌else◌, length,
  length-append, Option, none, some, List, [], ◌∷◌, Bool-cases, ◌⊎◌, inl, inr,
}
use flowdb.Base.Int.{ℤ}
use flowdb.Record.{InternalRecord}
use flowdb.MemTable.{MemTable, is_empty}
use flowdb.MemTable
use flowdb.MemTables
use flowdb.MemTables.{MemTables, freeze, pop_frozen, frozen_backpressure, should_flush}
use flowdb.Manifest.{next_sst_id}
use flowdb.Sst.Blocks.{Lz4}
use flowdb.Sst.Write.{chunks, nothing_written, write_blocks}
use flowdb.WriteWorker.{
  WriteWorker, Submission, unexpired, install, flush_records, flush_popped, do_flush, insert_all,
  process_batch_inner, process_all, relieve, process_batch_group,
}
use flowdb.WriteWorker.Flush.{write_of}

-- How many tables wait, the active one counted if it has records.
waiting : MemTables → ℕ
waiting ts = length ts.frozen + (if is_empty ts.active then 0 else 1)

waiting_bound : (ts : MemTables) → waiting ts ≤ suc (length ts.frozen)
unfolding waiting
waiting_bound ts = ground arith

record Frozen (ts f : MemTables) : Type 0 where
  bound : f.max_frozen ≡ ts.max_frozen
  count : length f.frozen ≡ waiting ts
  idle : is_empty f.active ≡ true

freeze-Frozen : (ts : MemTables) → Frozen ts (freeze ts).1
unfolding freeze waiting MemTable.new is_empty
freeze-Frozen ts = elim (Bool-cases (is_empty ts.active)) [
  | inl e ↦ rw (freeze, e) (record { bound = refl; count = ground (arith, e); idle = e })
  | inr e ↦
      rw (freeze, e)
        (record {
          bound = refl;
          count = ground (arith, e, length-append ts.frozen (MemTable.sort ts.active ∷ []));
          idle = refl;
        })
]

record Popped (ts p : MemTables) : Type 0 where
  bound : p.max_frozen ≡ ts.max_frozen
  count : length p.frozen ≡ waiting ts - 1
  rest : waiting p ≡ waiting ts - 1

frozen_cases :
    (ts : List MemTable) → (ts ≡ []) ⊎ ((t : MemTable) × (rest : List MemTable) × (ts ≡ t ∷ rest))
frozen_cases [] = inl refl
frozen_cases (t ∷ rest) = inr (t, rest, refl)

pop_frozen_facts :
    (f : MemTables)
    → ((pop_frozen f).1.active ≡ f.active)
      × ((pop_frozen f).1.max_frozen ≡ f.max_frozen)
      × (length (pop_frozen f).1.frozen ≡ length f.frozen - 1)
unfolding pop_frozen
pop_frozen_facts f = elim (frozen_cases f.frozen) [
  | inl e ↦ rw (pop_frozen, e) (refl, refl, omega (arith, ap (length {A = MemTable}) e))
  | inr (t, rest, e) ↦ rw (pop_frozen, e) (refl, refl, omega (arith, ap (length {A = MemTable}) e))
]

pop_frozen-Popped : (ts f : MemTables) → Frozen ts f → Popped ts (pop_frozen f).1
unfolding waiting
pop_frozen-Popped ts f z =
    let (same, bound, count) = pop_frozen_facts f in
    let idle : is_empty (pop_frozen f).1.active ≡ true = ap is_empty same ∙ z.idle in
    record {
      bound = bound ∙ z.bound;
      count = omega (arith, count, z.count);
      rest = ground (arith, idle, count, z.count);
    }

-- A flush ends, and takes one table.
do_flush-Popped :
    (lz4 : Lz4) (now_us : ℤ) (w : WriteWorker)
    → (w' : WriteWorker) × (do_flush lz4 now_us w ≡ some w') × Popped w.memtables w'.memtables
unfolding do_flush flush_popped flush_records install
do_flush-Popped lz4 now_us w =
    let f = (freeze w.memtables).1 in
    let p = pop_frozen-Popped w.memtables f (freeze-Frozen w.memtables) in
    let (w', e, same) = flush_popped_ends (pop_frozen f).0 (pop_frozen f).1 in (w', e, rw same p)
  where
    flush_records_ends :
        (w1 : WriteWorker) (rs : List InternalRecord)
        → (w' : WriteWorker) × (flush_records lz4 w1 rs ≡ some w') × (w'.memtables ≡ w1.memtables)
    flush_records_ends w1 [] = (w1, refl, refl)
    flush_records_ends w1 (r ∷ rs) =
        let (bloom, wrote, keys) = write_of lz4 (r ∷ rs) w1.block_size w1.bloom_bits_per_key in
        let written = write_blocks lz4 nothing_written (chunks (max w1.block_size 1) (r ∷ rs)) in
        (install w1 (next_sst_id w1.manifest) (r ∷ rs) (written, bloom), rw wrote, refl)

    flush_popped_ends :
        (table : Option MemTable) (memtables : MemTables)
        → (w' : WriteWorker) × (flush_popped lz4 now_us w (table, memtables) ≡ some w')
          × (w'.memtables ≡ memtables)
    flush_popped_ends none memtables = (record w { memtables = memtables }, refl, refl)
    flush_popped_ends (some table) memtables =
        flush_records_ends (record w { memtables = memtables }) (unexpired now_us table.records)

insert_all_facts :
    (rs : List InternalRecord) (ts : MemTables)
    → ((insert_all ts rs).max_frozen ≡ ts.max_frozen) × ((insert_all ts rs).frozen ≡ ts.frozen)
unfolding insert_all MemTables.insert
insert_all_facts [] ts = (refl, refl)
insert_all_facts (r ∷ rs) ts = insert_all_facts rs (MemTables.insert ts r)

process_all_facts :
    (subs : List Submission) (w : WriteWorker)
    → ((process_all w subs).memtables.max_frozen ≡ w.memtables.max_frozen)
      × ((process_all w subs).memtables.frozen ≡ w.memtables.frozen)
unfolding process_all process_batch_inner
process_all_facts [] w = (refl, refl)
process_all_facts (sub ∷ subs) w =
    let here = insert_all_facts sub.records w.memtables in
    let rest = process_all_facts subs (process_batch_inner w sub) in
    (rest.0 ∙ here.0, rest.1 ∙ here.1)

module _ (lz4 : Lz4) (now_us : ℤ) where
  relieve_ends :
      (fuel : ℕ) (w : WriteWorker)
      → 0 < w.memtables.max_frozen
      → waiting w.memtables < fuel
      → (w' : WriteWorker) × (relieve lz4 now_us fuel w ≡ some w')
        × (w'.memtables.max_frozen ≡ w.memtables.max_frozen)
        × (length w'.memtables.frozen < w'.memtables.max_frozen)
  unfolding relieve frozen_backpressure waiting
  relieve_ends zero w b h = absurd (omega arith)
  relieve_ends (suc fuel) w b h = elim (Bool-cases (frozen_backpressure w.memtables)) [
    | inr e ↦ (w, rw (relieve, e), refl, ground (arith, e))
    | inl e ↦
        let (w1, flushed, p) = do_flush-Popped lz4 now_us w in
        let many : w.memtables.max_frozen ≤ length w.memtables.frozen = ground (arith, e) in
        let (w', ends, same, below) =
          relieve_ends fuel w1 (omega (arith, p.bound)) (omega (arith, p.rest, many)) in
        (w', rw (relieve, e, flushed) ends, same ∙ p.bound, below)
  ]

-- The writes of a group end. If the bound on the frozen tables is not 0, then processing a group of
-- batches ends without a panic, the flushes before and after the writes included, and leaves fewer
-- frozen tables than the bound.
pub process_batch_group_ends :
    (lz4 : Lz4) (now_us : ℤ) (w : WriteWorker) (submissions : List Submission)
    → 0 < w.memtables.max_frozen
    → (w' : WriteWorker) × (process_batch_group lz4 now_us w submissions ≡ some w')
      × (length w'.memtables.frozen < w.memtables.max_frozen)
unfolding process_batch_group
process_batch_group_ends lz4 now_us w submissions b =
    let (w1, relieved, same, below) =
      relieve_ends lz4 now_us (suc (suc (length w.memtables.frozen))) w b
        (omega (arith, waiting_bound w.memtables)) in
    let w2 = process_all w1 submissions in
    let facts = process_all_facts submissions w1 in
    let frozen = ap (length {A = MemTable}) facts.1 in
    elim (Bool-cases (should_flush w2.memtables)) [
      | inr e ↦ (w2, rw (relieved, e), omega (arith, frozen, below, same))
      | inl e ↦
          let (w', flushed, p) = do_flush-Popped lz4 now_us w2 in
          (
            w',
            rw (relieved, e) flushed,
            omega (arith, p.count, waiting_bound w2.memtables, frozen, below, same),
          )
    ]
