-- ===== src/Sst/Write/Infos.antt =====
-- What the writer says of the blocks of its file.
use flowdb.Base.{
  ℕ, zero, suc, ◌%◌, ◌^◌, ◌<◌, ◌≡◌, Bool, true, refl, sym, ap, ◌∙◌, arith, length, take, drop, any,
  map, All, List, [], ◌∷◌, ◌++◌, append-nil, append_assoc, length-append,
}
use flowdb.Base.Bytes.{le_bytes, le_bytes_refl, eq_bytes, eq_bytes_refl}
use flowdb.Base.Int.{ℤ, eqb_ℤ, ◌≤ℤ◌, min_ℤ, max_ℤ}
use flowdb.Base.Sorts.{Sorted, take-Sorted, drop-Sorted}
use flowdb.Manifest.{BlockInfo}
use flowdb.Record.{InternalRecord}
use flowdb.Sst.Blocks.{
  Lz4, min_from, min_or_zero, max_from, max_or_zero, times, expiries, first_key, last_key,
  block_info,
}
use flowdb.Sst.Write.{chunks_loop, chunks, Written, nothing_written, write_block, write_blocks}
use flowdb.Sst.Read.Placed.{length-block_bytes}

-- The least number of a list, and the greatest one.
pub record IsLeast (m : ℤ) (xs : List ℤ) : Type 0 where
  pub among : any (eqb_ℤ m) xs ≡ true
  pub below : All (λ x. m ≤ℤ x) xs

pub record IsMost (m : ℤ) (xs : List ℤ) : Type 0 where
  pub among : any (eqb_ℤ m) xs ≡ true
  pub above : All (λ x. x ≤ℤ m) xs

min_from-IsLeast : (a : ℤ) (bs : List ℤ) → IsLeast (min_from a bs) (a ∷ bs)
unfolding min_from
min_from-IsLeast a [] = record { among = ground arith; below = (omega arith, tt) }
min_from-IsLeast a (b ∷ bs) =
    let ih = min_from-IsLeast (min_ℤ a b) bs in
    record {
      among = ground (arith, ih.among);
      below = (ground (arith, ih.below.0), (ground (arith, ih.below.0), ih.below.1));
    }

max_from-IsMost : (a : ℤ) (bs : List ℤ) → IsMost (max_from a bs) (a ∷ bs)
unfolding max_from
max_from-IsMost a [] = record { among = ground arith; above = (omega arith, tt) }
max_from-IsMost a (b ∷ bs) =
    let ih = max_from-IsMost (max_ℤ a b) bs in
    record {
      among = ground (arith, ih.among);
      above = (ground (arith, ih.above.0), (ground (arith, ih.above.0), ih.above.1));
    }

-- The ranges of the times and expiries of records.
pub record Ranges (min_ts max_ts min_expire max_expire : ℤ) (rs : List InternalRecord)
    : Type 0 where
  pub least_ts : IsLeast min_ts (map (λ (r : InternalRecord). r.ts) rs)
  pub most_ts : IsMost max_ts (map (λ (r : InternalRecord). r.ts) rs)
  pub least_expire : IsLeast min_expire (map (λ (r : InternalRecord). r.expire_at) rs)
  pub most_expire : IsMost max_expire (map (λ (r : InternalRecord). r.expire_at) rs)

pub times-Ranges :
    (r : InternalRecord) (rs : List InternalRecord)
    → Ranges
        (min_or_zero (times (r ∷ rs)))
        (max_or_zero (times (r ∷ rs)))
        (min_or_zero (expiries (r ∷ rs)))
        (max_or_zero (expiries (r ∷ rs)))
        (r ∷ rs)
unfolding min_or_zero max_or_zero times expiries
times-Ranges r rs = record {
  least_ts = min_from-IsLeast r.ts (map (λ (s : InternalRecord). s.ts) rs);
  most_ts = max_from-IsMost r.ts (map (λ (s : InternalRecord). s.ts) rs);
  least_expire = min_from-IsLeast r.expire_at (map (λ (s : InternalRecord). s.expire_at) rs);
  most_expire = max_from-IsMost r.expire_at (map (λ (s : InternalRecord). s.expire_at) rs);
}

unfoldable pub key_le : InternalRecord → InternalRecord → Bool
key_le a b = le_bytes a.key b.key

-- The entry of the block `idx` says its place, its least and greatest key, and its ranges.
pub record DescribesBlock (idx : ℕ) (info : BlockInfo) (rs : List InternalRecord) : Type 0 where
  pub place : info.block_idx ≡ idx % 2 ^ 32
  pub min_key : any (λ (r : InternalRecord). eq_bytes info.min_key r.key) rs ≡ true
  pub above_min : All (λ (r : InternalRecord). le_bytes info.min_key r.key ≡ true) rs
  pub max_key : any (λ (r : InternalRecord). eq_bytes info.max_key r.key) rs ≡ true
  pub below_max : All (λ (r : InternalRecord). le_bytes r.key info.max_key ≡ true) rs
  pub ranges : Ranges info.min_ts info.max_ts info.min_expire info.max_expire rs

-- The entries of the blocks from the place `idx` on, one for each.
abbrev pub Describes : ℕ → List BlockInfo → List (List InternalRecord) → Type 0
Describes idx [] [] = Unit
Describes idx [] (c ∷ cs) = ⊥
Describes idx (info ∷ infos) [] = ⊥
Describes idx (info ∷ infos) (c ∷ cs) = DescribesBlock idx info c × Describes (suc idx) infos cs

last_key-among :
    (r : InternalRecord) (rs : List InternalRecord)
    → any (λ (s : InternalRecord). eq_bytes (last_key (r ∷ rs)) s.key) (r ∷ rs) ≡ true
unfolding last_key
last_key-among r [] = ground (arith, eq_bytes_refl r.key)
last_key-among r (s ∷ rs) = ground (arith, last_key-among s rs)

last_key-above :
    (r : InternalRecord) (rs : List InternalRecord)
    → Sorted key_le (r ∷ rs)
    → All (λ (s : InternalRecord). le_bytes s.key (last_key (r ∷ rs)) ≡ true) (r ∷ rs)
unfolding last_key key_le
last_key-above r [] h = (le_bytes_refl r.key, tt)
last_key-above r (s ∷ rs) h = let above = last_key-above s rs h.1 in (below_last r s rs h.0, above)
  where
    below_last :
        (r s : InternalRecord) (rs : List InternalRecord)
        → All (λ (x : InternalRecord). le_bytes r.key x.key ≡ true) (s ∷ rs)
        → le_bytes r.key (last_key (s ∷ rs)) ≡ true
    below_last r s [] a = a.0
    below_last r s (x ∷ xs) a = below_last r x xs a.1

block_info-DescribesBlock :
    (idx : ℕ) (r : InternalRecord) (rs : List InternalRecord)
    → Sorted key_le (r ∷ rs)
    → DescribesBlock idx (block_info idx (r ∷ rs)) (r ∷ rs)
unfolding block_info first_key key_le
block_info-DescribesBlock idx r rs h = record {
  place = refl;
  min_key = ground (arith, eq_bytes_refl r.key);
  above_min = (le_bytes_refl r.key, h.0);
  max_key = last_key-among r rs;
  below_max = last_key-above r rs h;
  ranges = times-Ranges r rs;
}

infos_from : ℕ → List (List InternalRecord) → List BlockInfo
infos_from idx [] = []
infos_from idx (c ∷ cs) = block_info idx c ∷ infos_from (suc idx) cs

infos_from-Describes :
    (fuel size idx : ℕ) (rs : List InternalRecord)
    → 0 < size
    → Sorted key_le rs
    → Describes idx (infos_from idx (chunks_loop fuel size rs)) (chunks_loop fuel size rs)
unfolding chunks_loop infos_from
infos_from-Describes fuel size idx [] p h = tt
infos_from-Describes zero size idx (r ∷ rs) p h = tt
infos_from-Describes (suc fuel) zero idx (r ∷ rs) p h = absurd (omega arith)
infos_from-Describes (suc fuel) (suc n) idx (r ∷ rs) p h = (
  block_info-DescribesBlock idx r (take n rs) (take-Sorted key_le (suc n) (r ∷ rs) h),
  infos_from-Describes fuel (suc n) (suc idx) (drop n rs) p (drop-Sorted key_le (suc n) (r ∷ rs) h),
)

module _ (lz4 : Lz4) where
  write_blocks-infos_from :
      (cs : List (List InternalRecord)) (w : Written)
      → (write_blocks lz4 w cs).block_infos ≡ w.block_infos ++ infos_from (length w.block_infos) cs
  unfolding write_blocks write_block infos_from
  write_blocks-infos_from [] w = sym (append-nil w.block_infos)
  write_blocks-infos_from (c ∷ cs) w =
      let info = block_info (length w.block_infos) c in
      let n : length (w.block_infos ++ (info ∷ [])) ≡ suc (length w.block_infos) =
        omega (arith, length-append w.block_infos (info ∷ [])) in
      write_blocks-infos_from cs (write_block lz4 w c)
      ∙ ap (λ (k : ℕ). (w.block_infos ++ (info ∷ [])) ++ infos_from k cs) n
      ∙ append_assoc w.block_infos (info ∷ []) (infos_from (suc (length w.block_infos)) cs)

  -- The entries of a writer describe its blocks.
  pub write_blocks-Describes :
      (size : ℕ) (rs : List InternalRecord)
      → 0 < size
      → Sorted key_le rs
      → Describes 0 (write_blocks lz4 nothing_written (chunks size rs)).block_infos (chunks size rs)
  unfolding chunks nothing_written
  write_blocks-Describes size rs p h =
      rw (write_blocks-infos_from (chunks size rs) nothing_written)
        (infos_from-Describes (length rs) size 0 rs p h)

  write_blocks-bytes :
      (cs : List (List InternalRecord)) (w : Written)
      → w.total_bytes ≡ length w.file
      → (write_blocks lz4 w cs).total_bytes ≡ length (write_blocks lz4 w cs).file
  unfolding write_blocks write_block
  write_blocks-bytes [] w h = h
  write_blocks-bytes (c ∷ cs) w h =
      write_blocks-bytes cs (write_block lz4 w c)
        (omega (arith, h, length-block_bytes lz4 c, length-append w.file _))

  -- The size that a writer counts is that of its file.
  pub total_bytes-file :
      (cs : List (List InternalRecord))
      → (write_blocks lz4 nothing_written cs).total_bytes
        ≡ length (write_blocks lz4 nothing_written cs).file
  unfolding nothing_written
  total_bytes-file cs = write_blocks-bytes cs nothing_written refl
