-- ===== src/BlockIndex/Tests.antt =====
-- The theorems about the block index at concrete inputs.
use flowdb.Base.{ℕ, none, false, arith, ◌≡◌, refl, true, Option, some, List, [], ◌∷◌}
use flowdb.Base.Bytes.{Bytes, le_bytes, starts_with}
use flowdb.Base.Int.{pos}
use flowdb.Manifest.{BlockInfo}
use flowdb.BlockIndex.Maps.Contents.{Update, add, remove}
use flowdb.BlockIndex.{
  BlockMeta, binary_search_block, overlaps_key_range, overlaps_key_prefix, overlaps_time,
  is_expired,
}
use flowdb.Record.{InternalRecord, put}
use flowdb.BlockIndex.Overlaps.{Bounds, overlaps-Bounds, overlaps_key_prefix-Bounds}
use flowdb.BlockIndex.Search.{Ordered, Found, binary_search_block-Found}

abbrev block : ℕ → Bytes → Bytes → BlockMeta
block idx min_key max_key = record {
  sst_id = 1;
  block_idx = idx;
  min_key = min_key;
  max_key = max_key;
  min_ts = pos 1;
  max_ts = pos 9;
  max_expire = pos 20;
}

abbrev blocks : List BlockMeta
blocks =
    block 0 (97 ∷ []) (99 ∷ [])
    ∷ block 1 (99 ∷ []) (99 ∷ 5 ∷ [])
    ∷ block 2 (101 ∷ []) (110 ∷ [])
    ∷ []

blocks-Ordered : Ordered blocks
unfolding le_bytes
blocks-Ordered = (refl, (refl, (refl, tt)), (refl, (refl, tt), (refl, tt, tt)))

binary_search_block-Found_example :
    (r : Option BlockMeta) × (binary_search_block blocks (103 ∷ []) ≡ some r)
    × Found blocks (103 ∷ []) r
binary_search_block-Found_example = binary_search_block-Found blocks (103 ∷ []) blocks-Ordered

abbrev stored : InternalRecord
stored = record {
  seq = 3;
  op = put;
  key = 98 ∷ 1 ∷ [];
  ts = pos 5;
  expire_at = pos 20;
  value = 1 ∷ [];
  range_end = none;
}

stored-Bounds : Bounds (block 0 (97 ∷ []) (99 ∷ [])) stored
unfolding le_bytes
stored-Bounds = record {
  min_key = refl;
  max_key = refl;
  min_ts = omega arith;
  max_ts = omega arith;
  max_expire = omega arith;
}

after-start : le_bytes (98 ∷ []) (98 ∷ 1 ∷ []) ≡ true
unfolding le_bytes
after-start = refl

before-end : le_bytes (98 ∷ 1 ∷ []) (99 ∷ []) ≡ true
unfolding le_bytes
before-end = refl

starts-b : starts_with (98 ∷ 1 ∷ []) (98 ∷ []) ≡ true
unfolding starts_with
starts-b = refl

overlaps-Bounds_example :
    (overlaps_key_range (block 0 (97 ∷ []) (99 ∷ [])) (98 ∷ []) (99 ∷ []) ≡ true)
    × (overlaps_time (block 0 (97 ∷ []) (99 ∷ [])) (pos 4) (pos 6) ≡ true)
    × (is_expired (block 0 (97 ∷ []) (99 ∷ [])) (pos 20) ≡ false)
overlaps-Bounds_example =
    overlaps-Bounds (block 0 (97 ∷ []) (99 ∷ [])) stored (98 ∷ []) (99 ∷ []) (pos 4) (pos 6)
      (pos 20) stored-Bounds after-start before-end (omega arith) (omega arith) (omega arith)

overlaps_key_prefix-Bounds_example :
    overlaps_key_prefix (block 0 (97 ∷ []) (99 ∷ [])) (98 ∷ []) ≡ true
overlaps_key_prefix-Bounds_example =
    overlaps_key_prefix-Bounds (block 0 (97 ∷ []) (99 ∷ [])) stored (98 ∷ []) (omega arith, tt)
      (omega arith, (omega arith, tt)) refl stored-Bounds starts-b

-- A file of one block with the keys from `c` to `d`.
abbrev one_block : BlockInfo
one_block = record {
  block_idx = 0;
  min_key = 99 ∷ [];
  max_key = 100 ∷ [];
  min_ts = pos 1;
  max_ts = pos 9;
  min_expire = pos 50;
  max_expire = pos 50;
}

abbrev updates : List Update
updates = add 1 (one_block ∷ []) ∷ add 2 (one_block ∷ one_block ∷ []) ∷ remove 1 ∷ []
