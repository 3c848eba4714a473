-- ===== src/Compaction/Merge/Stream.antt =====
-- What an iterator over a table file has still to give.
use flowdb.Base.{
  ℕ, zero, suc, ◌-◌, ◌≡◌, refl, sym, arith, Option, none, some, List, [], ◌∷◌, ◌++◌, ◌⊎◌, inl, inr,
}
use mathlib.Core.Path.{subst}
use flowdb.Base.Int.{ℤ}
use flowdb.Config.{FlowError, Result, ok, err}
use flowdb.Record.{InternalRecord}
use flowdb.Sst.Blocks.{Lz4}
use flowdb.Sst.Read.{SstReader, read_block_inner, block_count}
use flowdb.Compaction.Merge.{SstBlockIterator, live_records, next_loop, next_record}

Result-cases :
    {A : Type 0} (x : Result A) → ((a : A) × (x ≡ ok a)) ⊎ ((e : FlowError) × (x ≡ err e))
Result-cases (ok a) = inl (a, refl)
Result-cases (err e) = inr (e, refl)

module _ (lz4 : Lz4) where
  -- The records of a block; none where it cannot be read.
  unfoldable pub block_content : SstReader → ℤ → ℕ → List InternalRecord
  block_content reader now_us idx = elim (read_block_inner lz4 reader idx) [
    | ok records ↦ live_records now_us records
    | err e ↦ []
  ]

  unfoldable pub blocks_from : SstReader → ℤ → ℕ → ℕ → List InternalRecord
  blocks_from reader now_us zero idx = []
  blocks_from reader now_us (suc n) idx =
      block_content reader now_us idx ++ blocks_from reader now_us n (suc idx)

  unfoldable pub stream : SstBlockIterator → List InternalRecord
  stream it =
      it.block_records
      ++ blocks_from it.reader it.now_us (block_count it.reader - it.current_block) it.current_block

  -- The first record is given, or there is none.
  abbrev pub Gives : List InternalRecord → Option InternalRecord × SstBlockIterator → Type 0
  Gives rs (none, it') = (rs ≡ []) × (stream it' ≡ [])
  Gives rs (some r, it') = rs ≡ r ∷ stream it'

  iterator : SstReader → ℤ → ℕ → List InternalRecord → SstBlockIterator
  iterator reader now_us current pending = record {
    reader = reader;
    current_block = current;
    block_records = pending;
    now_us = now_us;
  }

  content_ok :
      (reader : SstReader) (now_us : ℤ) (current : ℕ) (records : List InternalRecord)
      → read_block_inner lz4 reader current ≡ ok records
      → block_content reader now_us current ≡ live_records now_us records
  unfolding block_content
  content_ok reader now_us current records q = rw (block_content, q)

  content_err :
      (reader : SstReader) (now_us : ℤ) (current : ℕ) (e : FlowError)
      → read_block_inner lz4 reader current ≡ err e
      → block_content reader now_us current ≡ []
  unfolding block_content
  content_err reader now_us current e q = rw (block_content, q)

  loop_ok :
      (n : ℕ) (reader : SstReader) (now_us : ℤ) (current : ℕ) (records : List InternalRecord)
      → read_block_inner lz4 reader current ≡ ok records
      → next_loop lz4 (suc n) (iterator reader now_us current [])
        ≡ next_loop lz4 n (iterator reader now_us (suc current) (live_records now_us records))
  unfolding next_loop iterator
  loop_ok n reader now_us current records q = rw (next_loop, q)

  loop_err :
      (n : ℕ) (reader : SstReader) (now_us : ℤ) (current : ℕ) (e : FlowError)
      → read_block_inner lz4 reader current ≡ err e
      → next_loop lz4 (suc n) (iterator reader now_us current [])
        ≡ next_loop lz4 n (iterator reader now_us (suc current) [])
  unfolding next_loop iterator
  loop_err n reader now_us current e q = rw (next_loop, q)

  next_loop-Gives :
      (n : ℕ) (reader : SstReader) (now_us : ℤ) (current : ℕ) (pending : List InternalRecord)
      → block_count reader - current ≡ n
      → Gives
          (pending ++ blocks_from reader now_us n current)
          (next_loop lz4 n (iterator reader now_us current pending))
  unfolding next_loop stream blocks_from iterator
  next_loop-Gives zero reader now_us current (r ∷ rs) e = rw e
  next_loop-Gives (suc n) reader now_us current (r ∷ rs) e = rw e
  next_loop-Gives zero reader now_us current [] e = (refl, rw e)
  next_loop-Gives (suc n) reader now_us current [] e =
      let after : List InternalRecord = blocks_from reader now_us n (suc current) in
      elim (Result-cases (read_block_inner lz4 reader current)) [
        | inl (records, q) ↦
            subst (λ p. Gives (block_content reader now_us current ++ after) p)
              (sym (loop_ok n reader now_us current records q))
              (subst
                (λ (c : List InternalRecord). Gives (c ++ after) (
                  next_loop lz4 n
                    (iterator reader now_us (suc current) (live_records now_us records))))
                (sym (content_ok reader now_us current records q))
                (next_loop-Gives n reader now_us (suc current) (live_records now_us records)
                  (omega arith)))
        | inr (f, q) ↦
            subst (λ p. Gives (block_content reader now_us current ++ after) p)
              (sym (loop_err n reader now_us current f q))
              (subst
                (λ (c : List InternalRecord).
                  Gives (c ++ after) (next_loop lz4 n (iterator reader now_us (suc current) [])))
                (sym (content_err reader now_us current f q))
                (next_loop-Gives n reader now_us (suc current) [] (omega arith)))
      ]

  -- The next record of an iterator is the first of those that it has still to give.
  pub next_record-Gives : (it : SstBlockIterator) → Gives (stream it) (next_record lz4 it)
  unfolding next_record stream iterator
  next_record-Gives it =
      next_loop-Gives (block_count it.reader - it.current_block) it.reader it.now_us
        it.current_block it.block_records refl
