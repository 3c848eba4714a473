-- ===== src/BlockIndex/Maps.antt =====
-- src/block_meta_index.rs: `BlockMetaIndex`. A `BTreeMap` is the list of its entries in the order
-- of their keys, a `HashMap` a list of entries of which the first for a key counts. The width of a
-- bucket is positive by its type: `add_sst` panics where it is 0, which `validate` rejects, as it
-- does a width whose microseconds exceed an `i64`.
pub mod Contents
pub mod Answers
use flowdb.Base.{
  ℕ, zero, suc, ◌+◌, ◌*◌, ◌<◌, arith, ◌/◌, ◌==◌, Bool, true, false, not, ◌&&◌, ltb, if◌then◌else◌,
  length, any, filter, find, map, flat_map, Option, none, some, List, [], ◌∷◌, ◌++◌, ◌>>=◌,
}
use flowdb.Base.Bytes.{Bytes, lt_bytes}
use flowdb.Base.Int.{ℤ, pos, negsuc, ltb_ℤ, leb_ℤ}
use flowdb.Bloom.{BloomFilter, may_contain}
use flowdb.Manifest.{BlockInfo}
use flowdb.Query.{KeyFilter, prefix, range, all_keys}
use flowdb.Record.{Record}
use flowdb.BlockIndex.{
  BlockMeta, from_block_info, increment_prefix, overlaps_key_prefix, overlaps_key_range,
  overlaps_time, is_expired, binary_search_block,
}

pub record Width : Type 0 where
  pub micros : ℕ
  pub positive : 0 < micros

pub record BlockMetaIndex : Type 0 where
  pub by_key : List (Bytes × List BlockMeta)
  pub by_time : List (ℤ × List BlockMeta)
  pub time_bucket_us : Width
  pub blooms : List (ℕ × BloomFilter)
  pub sst_blocks : List (ℕ × List BlockMeta)

unfoldable pub new_index : (time_bucket_secs : ℕ) → 0 < time_bucket_secs → BlockMetaIndex
new_index time_bucket_secs positive = record {
  by_key = [];
  by_time = [];
  time_bucket_us = record {
    micros = time_bucket_secs * 1000000;
    positive = omega (arith, positive);
  };
  blooms = [];
  sst_blocks = [];
}

-- `map.entry(key).or_default().push(v)`
unfoldable pub entry_push {ℓ κ} :
    {K : Type ℓ} {V : Type κ} → (K → K → Bool) → K → V → List (K × List V) → List (K × List V)
entry_push lt key v [] = (key, v ∷ []) ∷ []
entry_push lt key v ((k, vs) ∷ entries) =
    if lt key k
    then (key, v ∷ []) ∷ (k, vs) ∷ entries
    else if lt k key
    then (k, vs) ∷ entry_push lt key v entries
    else (k, vs ++ (v ∷ [])) ∷ entries

-- `BTreeMap::insert` for the blocks of a file.
unfoldable pub insert_blocks :
    ℕ → List BlockMeta → List (ℕ × List BlockMeta) → List (ℕ × List BlockMeta)
insert_blocks id metas [] = (id, metas) ∷ []
insert_blocks id metas ((k, vs) ∷ entries) =
    if ltb id k
    then (id, metas) ∷ (k, vs) ∷ entries
    else if ltb k id
    then (k, vs) ∷ insert_blocks id metas entries
    else (id, metas) ∷ entries

-- The division of an `i64` by the width, which rounds towards 0.
unfoldable pub div_i64 : ℤ → Width → ℤ
div_i64 (pos a) b = pos (a / b.micros)
div_i64 (negsuc a) b = elim (suc a / b.micros) [ zero ↦ pos 0 | suc q ↦ negsuc q ]

-- A round of the loop of `add_sst`.
unfoldable pub add_block : ℕ → BlockMetaIndex → BlockInfo → BlockMetaIndex
add_block sst_id idx bi =
    let meta = from_block_info sst_id bi in
    record idx {
      by_key = entry_push lt_bytes meta.min_key meta idx.by_key;
      by_time = entry_push ltb_ℤ (div_i64 meta.min_ts idx.time_bucket_us) meta idx.by_time;
    }

unfoldable pub add_blocks : ℕ → BlockMetaIndex → List BlockInfo → BlockMetaIndex
add_blocks sst_id idx [] = idx
add_blocks sst_id idx (bi ∷ blocks) = add_blocks sst_id (add_block sst_id idx bi) blocks

unfoldable pub add_sst : BlockMetaIndex → ℕ → List BlockInfo → BlockMetaIndex
add_sst idx sst_id blocks =
    let idx' = add_blocks sst_id idx blocks in
    record idx' {
      sst_blocks = insert_blocks sst_id (map (from_block_info sst_id) blocks) idx'.sst_blocks;
    }

unfoldable pub remove_bloom : BlockMetaIndex → ℕ → BlockMetaIndex
remove_bloom idx sst_id = record idx {
  blooms = filter (λ (e : ℕ × BloomFilter). not (e.0 == sst_id)) idx.blooms;
}

unfoldable pub set_bloom : BlockMetaIndex → ℕ → BloomFilter → BlockMetaIndex
set_bloom idx sst_id bloom = record idx {
  blooms = (sst_id, bloom) ∷ filter (λ (e : ℕ × BloomFilter). not (e.0 == sst_id)) idx.blooms;
}

unfoldable pub not_of : ℕ → BlockMeta → Bool
not_of sst_id m = not (m.sst_id == sst_id)

-- `retain` in each entry, and then of the entries that are not empty.
unfoldable pub retain_metas {ℓ} :
    {K : Type ℓ} → ℕ → List (K × List BlockMeta) → List (K × List BlockMeta)
retain_metas sst_id [] = []
retain_metas sst_id ((k, metas) ∷ entries) = elim (filter (not_of sst_id) metas) [
  | [] ↦ retain_metas sst_id entries
  | m ∷ ms ↦ (k, m ∷ ms) ∷ retain_metas sst_id entries
]

unfoldable pub remove_sst : BlockMetaIndex → ℕ → BlockMetaIndex
remove_sst idx sst_id = record idx {
  by_key = retain_metas sst_id idx.by_key;
  by_time = retain_metas sst_id idx.by_time;
  blooms = filter (λ (e : ℕ × BloomFilter). not (e.0 == sst_id)) idx.blooms;
  sst_blocks = filter (λ (e : ℕ × List BlockMeta). not (e.0 == sst_id)) idx.sst_blocks;
}

-- `none` where the filter panics.
unfoldable pub bloom_may_contain : BlockMetaIndex → ℕ → Bytes → Option Bool
bloom_may_contain idx sst_id key = elim (find (λ (e : ℕ × BloomFilter). e.0 == sst_id) idx.blooms) [
  | some (_, bloom) ↦ may_contain bloom key
  | none ↦ some true
]

-- The loop of `query_point_inline`; the outer `none` is a panic.
unfoldable pub point_loop :
    BlockMetaIndex
    → List (ℕ × List BlockMeta)
    → Bytes
    → ℤ
    → (BlockMeta → Option Record)
    → Option (Option Record)
point_loop idx [] key now_us f = some none
point_loop idx ((sst_id, blocks) ∷ rest) key now_us f = elim (bloom_may_contain idx sst_id key) [
  | none ↦ none
  | some false ↦ point_loop idx rest key now_us f
  | some true ↦ elim (binary_search_block blocks key) [
    | none ↦ none
    | some none ↦ point_loop idx rest key now_us f
    | some (some meta) ↦ elim (is_expired meta now_us) [
      | true ↦ point_loop idx rest key now_us f
      | false ↦ elim (f meta) [
        | none ↦ point_loop idx rest key now_us f
        | some rec ↦ some (some rec)
      ]
    ]
  ]
]

unfoldable pub query_point_inline :
    BlockMetaIndex → Bytes → ℤ → (BlockMeta → Option Record) → Option (Option Record)
query_point_inline idx key now_us f = point_loop idx idx.sst_blocks key now_us f

unfoldable pub single_sst_point : BlockMetaIndex → Bytes → ℤ → Option (Option (ℕ × ℕ))
single_sst_point idx key now_us = elim idx.sst_blocks [
  | [] ↦ some none
  | (_, blocks) ∷ rest ↦ elim rest [
    | _ ∷ _ ↦ some none
    | [] ↦ do
      found ← binary_search_block blocks key
      some (elim found [
        | none ↦ none
        | some meta ↦ if is_expired meta now_us then none else some (meta.sst_id, meta.block_idx)
      ])
  ]
]

-- `by_key.range(..end)`, and the blocks of its entries.
unfoldable pub metas_before : Bytes → List (Bytes × List BlockMeta) → List BlockMeta
metas_before end entries =
    flat_map (λ (e : Bytes × List BlockMeta). e.1)
      (filter (λ (e : Bytes × List BlockMeta). lt_bytes e.0 end) entries)

unfoldable pub collect_by_key : BlockMetaIndex → KeyFilter → ℤ → List BlockMeta
collect_by_key idx (prefix key) now_us =
    filter (λ (m : BlockMeta). not (is_expired m now_us) && overlaps_key_prefix m key)
      (metas_before (increment_prefix key) idx.by_key)
collect_by_key idx (range start end) now_us =
    filter (λ (m : BlockMeta). not (is_expired m now_us) && overlaps_key_range m start end)
      (metas_before (increment_prefix end) idx.by_key)
collect_by_key idx all_keys now_us =
    filter (λ (m : BlockMeta). not (is_expired m now_us))
      (flat_map (λ (e : Bytes × List BlockMeta). e.1) idx.by_key)

unfoldable pub in_buckets : ℤ → ℤ → ℤ × List BlockMeta → Bool
in_buckets bucket_start bucket_end e = leb_ℤ bucket_start e.0 && leb_ℤ e.0 bucket_end

-- The set as a list. `range` panics where its start is above its end, which is `none`.
unfoldable pub collect_time_set : BlockMetaIndex → ℤ → ℤ → ℤ → Option (List (ℕ × ℕ))
collect_time_set idx ts_start ts_end now_us =
    let bucket_start = div_i64 ts_start idx.time_bucket_us in
    let bucket_end = div_i64 ts_end idx.time_bucket_us in
    if ltb_ℤ bucket_end bucket_start
    then none
    else some (
        map (λ (m : BlockMeta). (m.sst_id, m.block_idx))
          (filter (λ (m : BlockMeta). not (is_expired m now_us) && overlaps_time m ts_start ts_end)
            (flat_map (λ (e : ℤ × List BlockMeta). e.1)
              (filter (in_buckets bucket_start bucket_end) idx.by_time))))

unfoldable pub same_block : BlockMeta → ℕ × ℕ → Bool
same_block m e = (e.0 == m.sst_id) && (e.1 == m.block_idx)

unfoldable pub query : BlockMetaIndex → KeyFilter → Option (ℤ × ℤ) → ℤ → Option (List BlockMeta)
query idx key_filter none now_us = some (collect_by_key idx key_filter now_us)
query idx key_filter (some (ts_start, ts_end)) now_us = do
  time_set ← collect_time_set idx ts_start ts_end now_us
  some (
      filter (λ (m : BlockMeta). any (same_block m) time_set)
        (collect_by_key idx key_filter now_us))

unfoldable pub total_entries : BlockMetaIndex → ℕ
total_entries idx = length (flat_map (λ (e : Bytes × List BlockMeta). e.1) idx.by_key)

unfoldable pub bucket_count : BlockMetaIndex → ℕ
bucket_count idx = length idx.by_time
