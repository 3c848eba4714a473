-- ===== src/Sst/Blocks.antt =====
-- src/sstable.rs: one block of a table file, as both writers build it. The compression is that of
-- the library lz4_flex, a parameter.
use flowdb.Base.{ℕ, ◌%◌, ◌^◌, length, map, Option, some, List, [], ◌∷◌, ◌++◌, ◌≡◌}
use flowdb.Base.Bytes.{Bytes}
use flowdb.Base.Int.{ℤ, pos, min_ℤ, max_ℤ}
use flowdb.Record.{InternalRecord}
use flowdb.Manifest.{BlockInfo}
use flowdb.Sst.{BlockHeader, to_bytes, encode_records}

-- `decompress data size` is told the length of the result, and gives none for an error.
pub record Lz4 : Type 0 where
  pub compress : Bytes → Bytes
  pub decompress : Bytes → ℕ → Option Bytes
  pub decompress_compress : (bs : Bytes) → decompress (compress bs) (length bs) ≡ some bs

-- `iter().min().unwrap_or(0)`
unfoldable pub min_from : ℤ → List ℤ → ℤ
min_from a [] = a
min_from a (b ∷ bs) = min_from (min_ℤ a b) bs

unfoldable pub min_or_zero : List ℤ → ℤ
min_or_zero [] = pos 0
min_or_zero (a ∷ as') = min_from a as'

unfoldable pub max_from : ℤ → List ℤ → ℤ
max_from a [] = a
max_from a (b ∷ bs) = max_from (max_ℤ a b) bs

unfoldable pub max_or_zero : List ℤ → ℤ
max_or_zero [] = pos 0
max_or_zero (a ∷ as') = max_from a as'

unfoldable pub times : List InternalRecord → List ℤ
times = map (λ (r : InternalRecord). r.ts)

unfoldable pub expiries : List InternalRecord → List ℤ
expiries = map (λ (r : InternalRecord). r.expire_at)

-- `chunk.first()` and `chunk.last()`, with the empty key for none.
unfoldable pub first_key : List InternalRecord → Bytes
first_key [] = []
first_key (r ∷ rs) = r.key

unfoldable pub last_key : List InternalRecord → Bytes
last_key [] = []
last_key (r ∷ []) = r.key
last_key (r ∷ s ∷ rs) = last_key (s ∷ rs)

module _ (lz4 : Lz4) where
  unfoldable pub block_header : List InternalRecord → BlockHeader
  block_header chunk =
      let raw = encode_records chunk in
      record {
        num_records = length chunk % 2 ^ 32;
        min_ts = min_or_zero (times chunk);
        max_ts = max_or_zero (times chunk);
        min_expire = min_or_zero (expiries chunk);
        max_expire = max_or_zero (expiries chunk);
        data_len = length raw % 2 ^ 32;
        compressed_len = length (lz4.compress raw) % 2 ^ 32;
      }

  -- What is written for a block.
  unfoldable pub block_bytes : List InternalRecord → Bytes
  block_bytes chunk = to_bytes (block_header chunk) ++ lz4.compress (encode_records chunk)

unfoldable pub block_info : ℕ → List InternalRecord → BlockInfo
block_info idx chunk = record {
  block_idx = idx % 2 ^ 32;
  min_key = first_key chunk;
  max_key = last_key chunk;
  min_ts = min_or_zero (times chunk);
  max_ts = max_or_zero (times chunk);
  min_expire = min_or_zero (expiries chunk);
  max_expire = max_or_zero (expiries chunk);
}
