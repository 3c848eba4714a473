-- ===== src/BlockIndex/Maps/Contents.antt =====
-- The blocks that the index holds by key, after every update.
use flowdb.Base.{
  ℕ, ◌<◌, ◌≡◌, false, refl, sym, ap, ◌∙◌, arith, All, All-append, filter, filter-append, map,
  flat_map, List, [], ◌∷◌, ◌++◌, append-nil, append_assoc, Bool-cases, inl, inr,
}
use mathlib.Core.List.{Permᴰ}
use mathlib.Core.List.Permᴰ
use flowdb.Base.Bytes.{Bytes, lt_bytes, lt_bytes_not_le, le_bytes_antisymm}
use flowdb.Base.Sorts.{All-filter, filter-Permᴰ}
use flowdb.Bloom.{BloomFilter}
use flowdb.Manifest.{BlockInfo}
use flowdb.BlockIndex.{BlockMeta, from_block_info}
use flowdb.BlockIndex.Maps.{
  BlockMetaIndex, new_index, entry_push, add_block, add_blocks, add_sst, set_bloom, remove_bloom,
  not_of, retain_metas, remove_sst,
}

abbrev pub metas_of : List (Bytes × List BlockMeta) → List BlockMeta
metas_of = flat_map (λ (e : Bytes × List BlockMeta). e.1)

-- Each block stands under its least key.
abbrev pub UnderKey : Bytes × List BlockMeta → Type 0
UnderKey e = All (λ (m : BlockMeta). m.min_key ≡ e.0) e.1

-- Two keys of which neither is less are equal.
neither_less : (a b : Bytes) → lt_bytes a b ≡ false → lt_bytes b a ≡ false → a ≡ b
neither_less a b h k =
    le_bytes_antisymm a b (ground (arith, lt_bytes_not_le b a))
      (ground (arith, lt_bytes_not_le a b))

entry_push-Permᴰ :
    (key : Bytes) (m : BlockMeta) (entries : List (Bytes × List BlockMeta))
    → Permᴰ (metas_of (entry_push lt_bytes key m entries)) (m ∷ metas_of entries)
unfolding entry_push
entry_push-Permᴰ key m [] = Permᴰ.refl (m ∷ [])
entry_push-Permᴰ key m ((k, vs) ∷ entries) = elim (Bool-cases (lt_bytes key k)) [
  | inl e ↦ rw e (Permᴰ.refl (m ∷ (vs ++ metas_of entries)))
  | inr e ↦ elim (Bool-cases (lt_bytes k key)) [
    | inl f ↦
        rw (e, f)
          (Permᴰ.trans (Permᴰ.append_left vs (entry_push-Permᴰ key m entries))
            (Permᴰ.middle m vs (metas_of entries)))
    | inr f ↦
        rw (e, f, append_assoc vs (m ∷ []) (metas_of entries))
          (Permᴰ.middle m vs (metas_of entries))
  ]
]

entry_push-UnderKey :
    (key : Bytes) (m : BlockMeta) (entries : List (Bytes × List BlockMeta))
    → m.min_key ≡ key
    → All UnderKey entries
    → All UnderKey (entry_push lt_bytes key m entries)
unfolding entry_push
entry_push-UnderKey key m [] h a = ((h, tt), tt)
entry_push-UnderKey key m ((k, vs) ∷ entries) h a = elim (Bool-cases (lt_bytes key k)) [
  | inl e ↦ rw e ((h, tt), a)
  | inr e ↦ elim (Bool-cases (lt_bytes k key)) [
    | inl f ↦ rw (e, f) (a.0, entry_push-UnderKey key m entries h a.1)
    | inr f ↦
        rw (e, f)
          (
            All-append (λ (x : BlockMeta). x.min_key ≡ k) vs (m ∷ []) a.0
                (h ∙ neither_less key k e f, tt),
            a.1,
          )
  ]
]

retain_metas-filter :
    (sst_id : ℕ) (entries : List (Bytes × List BlockMeta))
    → metas_of (retain_metas sst_id entries) ≡ filter (not_of sst_id) (metas_of entries)
unfolding retain_metas
retain_metas-filter sst_id [] = refl
retain_metas-filter sst_id ((k, vs) ∷ entries) =
    kept (filter (not_of sst_id) vs) refl (retain_metas-filter sst_id entries)
  where
    kept :
        (ms : List BlockMeta)
        → filter (not_of sst_id) vs ≡ ms
        → metas_of (retain_metas sst_id entries) ≡ filter (not_of sst_id) (metas_of entries)
        → metas_of (retain_metas sst_id ((k, vs) ∷ entries))
          ≡ filter (not_of sst_id) (vs ++ metas_of entries)
    kept [] e ih = rw (retain_metas, e, filter-append (not_of sst_id) vs (metas_of entries), e) ih
    kept (m ∷ ms) e ih =
        rw (retain_metas, e, filter-append (not_of sst_id) vs (metas_of entries), e)
          (ap (λ xs. m ∷ (ms ++ xs)) ih)

retain_metas-UnderKey :
    (sst_id : ℕ) (entries : List (Bytes × List BlockMeta))
    → All UnderKey entries
    → All UnderKey (retain_metas sst_id entries)
unfolding retain_metas
retain_metas-UnderKey sst_id [] a = tt
retain_metas-UnderKey sst_id ((k, vs) ∷ entries) a =
    kept (filter (not_of sst_id) vs) refl
      (All-filter (λ (x : BlockMeta). x.min_key ≡ k) (not_of sst_id) vs a.0)
      (retain_metas-UnderKey sst_id entries a.1)
  where
    kept :
        (ms : List BlockMeta)
        → filter (not_of sst_id) vs ≡ ms
        → All (λ (x : BlockMeta). x.min_key ≡ k) (filter (not_of sst_id) vs)
        → All UnderKey (retain_metas sst_id entries)
        → All UnderKey (retain_metas sst_id ((k, vs) ∷ entries))
    kept [] e h ih = rw (retain_metas, e) ih
    kept (m ∷ ms) e h ih = rw (retain_metas, e) (rw e at h, ih)

-- What the index is asked to do.
pub data Update : Type 0 where
  add : ℕ → List BlockInfo → Update
  remove : ℕ → Update
  set_bloom_of : ℕ → BloomFilter → Update
  remove_bloom_of : ℕ → Update

unfoldable pub update : BlockMetaIndex → Update → BlockMetaIndex
update idx (add sst_id blocks) = add_sst idx sst_id blocks
update idx (remove sst_id) = remove_sst idx sst_id
update idx (set_bloom_of sst_id bloom) = set_bloom idx sst_id bloom
update idx (remove_bloom_of sst_id) = remove_bloom idx sst_id

unfoldable pub update_all : BlockMetaIndex → List Update → BlockMetaIndex
update_all idx [] = idx
update_all idx (u ∷ us) = update_all (update idx u) us

-- The blocks that are there after the updates, in an order that nothing is said of.
unfoldable pub blocks_after : List BlockMeta → List Update → List BlockMeta
blocks_after metas [] = metas
blocks_after metas (add sst_id blocks ∷ us) =
    blocks_after (metas ++ map (from_block_info sst_id) blocks) us
blocks_after metas (remove sst_id ∷ us) = blocks_after (filter (not_of sst_id) metas) us
blocks_after metas (set_bloom_of sst_id bloom ∷ us) = blocks_after metas us
blocks_after metas (remove_bloom_of sst_id ∷ us) = blocks_after metas us

-- The index holds these blocks.
pub record Holds (idx : BlockMetaIndex) (metas : List BlockMeta) : Type 0 where
  pub same : Permᴰ (metas_of idx.by_key) metas
  pub under : All UnderKey idx.by_key

add_blocks-Holds :
    (sst_id : ℕ) (blocks : List BlockInfo) (idx : BlockMetaIndex) (metas : List BlockMeta)
    → Holds idx metas
    → Holds (add_blocks sst_id idx blocks) (metas ++ map (from_block_info sst_id) blocks)
unfolding add_blocks add_block
add_blocks-Holds sst_id [] idx metas h = rw (append-nil metas) h
add_blocks-Holds sst_id (bi ∷ blocks) idx metas h =
    let m = from_block_info sst_id bi in
    rw (sym (append_assoc metas (m ∷ []) (map (from_block_info sst_id) blocks))) (
      add_blocks-Holds sst_id blocks (add_block sst_id idx bi) (metas ++ (m ∷ [])) (record {
        same = Permᴰ.trans (entry_push-Permᴰ m.min_key m idx.by_key) (
            Permᴰ.trans (Permᴰ.cons refl h.same) (
              Permᴰ.trans (rw (append-nil metas) (Permᴰ.refl (m ∷ metas)))
                (Permᴰ.symm (Permᴰ.middle m metas []))));
        under = entry_push-UnderKey m.min_key m idx.by_key refl h.under;
      }))

update-Holds :
    (u : Update) (idx : BlockMetaIndex) (metas : List BlockMeta)
    → Holds idx metas
    → Holds (update idx u) (blocks_after metas (u ∷ []))
unfolding update blocks_after add_sst remove_sst set_bloom remove_bloom
update-Holds (add sst_id blocks) idx metas h =
    let a = add_blocks-Holds sst_id blocks idx metas h in record { same = a.same; under = a.under }
update-Holds (remove sst_id) idx metas h = record {
  same = rw (retain_metas-filter sst_id idx.by_key) (filter-Permᴰ (not_of sst_id) h.same);
  under = retain_metas-UnderKey sst_id idx.by_key h.under;
}
update-Holds (set_bloom_of sst_id bloom) idx metas h = record { same = h.same; under = h.under }
update-Holds (remove_bloom_of sst_id) idx metas h = record { same = h.same; under = h.under }

blocks_after-cons :
    (u : Update) (us : List Update) (metas : List BlockMeta)
    → blocks_after metas (u ∷ us) ≡ blocks_after (blocks_after metas (u ∷ [])) us
unfolding blocks_after
blocks_after-cons (add sst_id blocks) us metas = refl
blocks_after-cons (remove sst_id) us metas = refl
blocks_after-cons (set_bloom_of sst_id bloom) us metas = refl
blocks_after-cons (remove_bloom_of sst_id) us metas = refl

pub update_all-Holds :
    (us : List Update) (idx : BlockMetaIndex) (metas : List BlockMeta)
    → Holds idx metas
    → Holds (update_all idx us) (blocks_after metas us)
unfolding update_all blocks_after
update_all-Holds [] idx metas h = h
update_all-Holds (u ∷ us) idx metas h =
    rw (blocks_after-cons u us metas) (
      update_all-Holds us (update idx u) (blocks_after metas (u ∷ [])) (update-Holds u idx metas h))

pub new_index-Holds : (secs : ℕ) (positive : 0 < secs) → Holds (new_index secs positive) []
unfolding new_index
new_index-Holds secs positive = record { same = Permᴰ.nil; under = tt }

pub add_sst-Holds :
    (sst_id : ℕ) (blocks : List BlockInfo) (bloom : BloomFilter) (idx : BlockMetaIndex)
    (metas : List BlockMeta)
    → Holds idx metas
    → Holds
        (set_bloom (add_sst idx sst_id blocks) sst_id bloom)
        (metas ++ map (from_block_info sst_id) blocks)
unfolding set_bloom add_sst
add_sst-Holds sst_id blocks bloom idx metas h =
    let a = add_blocks-Holds sst_id blocks idx metas h in record { same = a.same; under = a.under }
