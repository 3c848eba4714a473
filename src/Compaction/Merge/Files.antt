-- ===== src/Compaction/Merge/Files.antt =====
-- What the merge makes of the records of its files, said without the iterators and the heap.
use flowdb.Base.{
  ℕ, zero, suc, ◌%◌, ◌^◌, Bool, not, ◌&&◌, if◌then◌else◌, length, List, [], ◌∷◌, ◌++◌,
}
use mathlib.Core.List.{Permᴰ}
use mathlib.Core.List.Permᴰ
use flowdb.Base.Int.{ℤ, leb_ℤ}
use flowdb.Config.{Result, ok, err}
use flowdb.Record.{InternalRecord}
use flowdb.Record.Kinds.{is_put}
use flowdb.Scan.Order.{same_slot}
use flowdb.Sst.Blocks.{Lz4}
use flowdb.Sst.Read.{SstReader, read_block_inner}

-- The records that have not expired, without their numbers.
unfoldable pub lasting : ℤ → List InternalRecord → List InternalRecord
lasting now_us [] = []
lasting now_us (r ∷ rs) =
    let rest = lasting now_us rs in
    if leb_ℤ r.expire_at now_us then rest else record r { seq = 0 } ∷ rest

unfoldable pub lasting_result : ℤ → Result (List InternalRecord) → List InternalRecord
unfolding lasting
lasting_result now_us (ok rs) = lasting now_us rs
lasting_result now_us (err e) = []

-- Those of `n` blocks of a file from the place `i` on; a block that cannot be read has none.
unfoldable pub lasting_blocks : Lz4 → SstReader → ℤ → ℕ → ℕ → List InternalRecord
unfolding lasting_result
lasting_blocks lz4 reader now_us zero i = []
lasting_blocks lz4 reader now_us (suc n) i =
    lasting_result now_us (read_block_inner lz4 reader i)
    ++ lasting_blocks lz4 reader now_us n (suc i)

-- Those of all blocks of all files; the count of the blocks is a `u32`.
unfoldable pub lasting_files : Lz4 → List SstReader → ℤ → List InternalRecord
unfolding lasting_blocks
lasting_files lz4 [] now_us = []
lasting_files lz4 (reader ∷ readers) now_us =
    lasting_blocks lz4 reader now_us (length reader.block_offsets % 2 ^ 32) 0
    ++ lasting_files lz4 readers now_us

-- A deletion of the key and time of `r`.
unfoldable pub deletes_slot : InternalRecord → InternalRecord → Bool
deletes_slot r s = same_slot r s && not (is_put s.op)
