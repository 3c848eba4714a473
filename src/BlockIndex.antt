-- ===== src/BlockIndex.antt =====
-- src/block_meta_index.rs: the index of the blocks of the table files: what a block overlaps, and
-- the search of the block of a key.
pub mod Search
pub mod Overlaps
pub mod Maps
mod Tests
use flowdb.Base.{
  ℕ, zero, suc, ◌+◌, ◌-◌, ◌/◌, Bool, true, false, not, ◌&&◌, ltb, ◌==◌, if◌then◌else◌, length,
  get_elem?, filter, find, map, flat_map, Option, none, some, List, [], ◌∷◌, ◌++◌,
}
use flowdb.Base.Bytes.{Bytes, lt_bytes, le_bytes}
use flowdb.Base.Int.{ℤ, leb_ℤ, ltb_ℤ}
use flowdb.Manifest.{BlockInfo}
use flowdb.Query.{bump}

pub record BlockMeta : Type 0 where
  pub sst_id : ℕ
  pub block_idx : ℕ
  pub min_key : Bytes
  pub max_key : Bytes
  pub min_ts : ℤ
  pub max_ts : ℤ
  pub max_expire : ℤ

unfoldable pub from_block_info : ℕ → BlockInfo → BlockMeta
from_block_info sst_id bi = record {
  sst_id = sst_id;
  block_idx = bi.block_idx;
  min_key = bi.min_key;
  max_key = bi.max_key;
  min_ts = bi.min_ts;
  max_ts = bi.max_ts;
  max_expire = bi.max_expire;
}

-- The end of the keys with a prefix; a fixed key where no byte can be incremented.
unfoldable pub increment_prefix : Bytes → Bytes
increment_prefix s = elim (bump s) [ some end ↦ end | none ↦ 0xEF ∷ 0xBF ∷ 0xBF ∷ [] ]

unfoldable pub overlaps_key_prefix : BlockMeta → Bytes → Bool
overlaps_key_prefix b prefix =
    lt_bytes b.min_key (increment_prefix prefix) && le_bytes prefix b.max_key

unfoldable pub overlaps_key_range : BlockMeta → Bytes → Bytes → Bool
overlaps_key_range b start end = le_bytes b.min_key end && le_bytes start b.max_key

unfoldable pub overlaps_time : BlockMeta → ℤ → ℤ → Bool
overlaps_time b ts_start ts_end = leb_ℤ b.min_ts ts_end && leb_ℤ ts_start b.max_ts

unfoldable pub is_expired : BlockMeta → ℤ → Bool
is_expired b now_us = ltb_ℤ b.max_expire now_us

-- What follows the loop of `binary_search_block`.
unfoldable pub check_at : List BlockMeta → Bytes → ℕ → Option BlockMeta
check_at blocks key lo = elim (get_elem? blocks lo) [
  | none ↦ none
  | some b ↦ if le_bytes b.min_key key && le_bytes key b.max_key then some b else none
]

-- `none` where the fuel runs out or an index is out of bounds, which panics.
unfoldable pub search_loop : ℕ → List BlockMeta → Bytes → ℕ → ℕ → Option (Option BlockMeta)
search_loop zero blocks key lo hi = none
search_loop (suc fuel) blocks key lo hi = elim (ltb lo hi) [
  | false ↦ some (check_at blocks key lo)
  | true ↦ elim (get_elem? blocks (lo + (hi - lo) / 2)) [
    | none ↦ none
    | some b ↦ elim (lt_bytes b.max_key key) [
      | true ↦ search_loop fuel blocks key (lo + (hi - lo) / 2 + 1) hi
      | false ↦ elim (lt_bytes key b.min_key) [
        | true ↦ search_loop fuel blocks key lo (lo + (hi - lo) / 2)
        | false ↦ some (some b)
      ]
    ]
  ]
]

unfoldable pub binary_search_block : List BlockMeta → Bytes → Option (Option BlockMeta)
binary_search_block blocks key = search_loop (suc (length blocks)) blocks key 0 (length blocks)
