-- ===== src/Gc.antt =====
-- src/gc.rs: the removal of the table files whose records have all expired, as far as the manifest
-- goes. The removal from the index and the cache, and of the file itself, are not modelled.
pub mod Live
mod Tests
use flowdb.Base.{ℕ, ◌+◌, ◌%◌, ◌^◌, if◌then◌else◌, List, [], ◌∷◌}
use flowdb.Base.Int.{ℤ, ltb_ℤ}
use flowdb.Manifest.{Map, SstInfo, gc_delete_sst, Manifest, append}

-- The first loop of `run`: `to_delete`.
unfoldable pub to_delete : Map SstInfo → ℤ → List ℕ
to_delete [] now_us = []
to_delete ((sst_id, info) ∷ m) now_us =
    let rest = to_delete m now_us in if ltb_ℤ info.max_expire now_us then sst_id ∷ rest else rest

-- And `purged`, the number of records in those files.
unfoldable pub purged : Map SstInfo → ℤ → ℕ
purged [] now_us = 0
purged ((sst_id, info) ∷ m) now_us =
    let rest = purged m now_us in
    if ltb_ℤ info.max_expire now_us then (info.records + rest) % 2 ^ 64 else rest

-- The second loop.
unfoldable pub delete_all : Manifest → List ℕ → Manifest
delete_all mf [] = mf
delete_all mf (sst_id ∷ ids) = delete_all (append mf (gc_delete_sst sst_id)) ids

unfoldable pub run : Manifest → ℤ → ℕ × Manifest
run mf now_us =
    (purged mf.state.sstables now_us, delete_all mf (to_delete mf.state.sstables now_us))
