-- ===== src/Sst.antt =====
-- src/sstable.rs: the header of a block and the records in it.
pub mod Header
pub mod Records
pub mod Blocks
pub mod Write
pub mod Read
mod Tests
use flowdb.Base.{
  ℕ, zero, suc, Bool, false, ◌+◌, ◌-◌, ◌%◌, ◌^◌, ◌==◌, ltb, if◌then◌else◌, length, take, drop,
  Option, none, some, List, [], ◌∷◌, ◌++◌,
}
use flowdb.Base.Bytes.{Bytes}
use flowdb.Base.Int.{ℤ, to_u64, of_u64}
use flowdb.Base.Parse.{Reader, ◌>>=◌, pure, u8, read_uint}
use flowdb.Base.Words.{be_bytes, from_be, split?}
use flowdb.Config.{FlowError, corruption, invalid_magic, Result, ok, err}
use flowdb.Record.{InternalRecord, to_u8, from_u8}

abbrev pub block_magic_lz4 : ℕ
block_magic_lz4 = 0x54534E42

abbrev pub header_size : ℕ
header_size = 48

pub record BlockHeader : Type 0 where
  pub num_records : ℕ
  pub min_ts : ℤ
  pub max_ts : ℤ
  pub min_expire : ℤ
  pub max_expire : ℤ
  pub data_len : ℕ
  pub compressed_len : ℕ

unfoldable pub to_bytes : BlockHeader → Bytes
to_bytes h =
    be_bytes 4 block_magic_lz4
    ++ (be_bytes 4 h.num_records
        ++ (be_bytes 8 (to_u64 h.min_ts)
            ++ (be_bytes 8 (to_u64 h.max_ts)
                ++ (be_bytes 8 (to_u64 h.min_expire)
                    ++ (be_bytes 8 (to_u64 h.max_expire)
                        ++ (be_bytes 4 h.data_len ++ (be_bytes 4 h.compressed_len ++ [])))))))

-- The fields behind the magic number.
unfoldable pub read_header : Reader BlockHeader
read_header = do
  num_records ← read_uint 4
  min_ts ← read_uint 8
  max_ts ← read_uint 8
  min_expire ← read_uint 8
  max_expire ← read_uint 8
  data_len ← read_uint 4
  compressed_len ← read_uint 4
  pure (record {
    num_records = num_records;
    min_ts = of_u64 min_ts;
    max_ts = of_u64 max_ts;
    min_expire = of_u64 min_expire;
    max_expire = of_u64 max_expire;
    data_len = data_len;
    compressed_len = compressed_len;
  })

unfoldable pub too_short : Result BlockHeader
too_short = err (corruption "block header too short")

-- With 48 bytes at hand the fields can be read, so the last case is not met.
unfoldable pub from_bytes : Bytes → Result BlockHeader
from_bytes bs =
    if ltb (length bs) header_size
    then too_short
    else let magic = from_be (take 4 bs) in
      if magic == block_magic_lz4
      then elim (read_header (drop 4 bs)) [ none ↦ too_short | some (h, _) ↦ ok h ]
      else err (invalid_magic block_magic_lz4 magic)

unfoldable pub encode_block_end : Option Bytes → Bytes
encode_block_end none = be_bytes 2 0
encode_block_end (some re) = be_bytes 2 (length re % 2 ^ 16) ++ re

-- One round of `encode_records`.
unfoldable pub encode_block_record : InternalRecord → Bytes
encode_block_record r =
    be_bytes 2 (length r.key % 2 ^ 16)
    ++ (r.key
        ++ (be_bytes 8 (to_u64 r.ts)
            ++ (be_bytes 8 (to_u64 r.expire_at)
                ++ ((to_u8 r.op ∷ [])
                    ++ (encode_block_end r.range_end
                        ++ (be_bytes 4 (length r.value % 2 ^ 32) ++ (r.value ++ [])))))))

unfoldable pub encode_records : List InternalRecord → Bytes
encode_records [] = []
encode_records (r ∷ rs) = encode_block_record r ++ encode_records rs

unfoldable pub read_block_end : Reader (Option Bytes)
read_block_end = do
  len ← read_uint 2
  if ltb 0 len then (do re ← split? len; pure (some re)) else pure none

-- One round of `decode_records`. The number of the record is not stored.
unfoldable pub read_block_record : Reader InternalRecord
read_block_record = do
  key_len ← read_uint 2
  key ← split? key_len
  ts ← read_uint 8
  expire_at ← read_uint 8
  op ← u8
  range_end ← read_block_end
  val_len ← read_uint 4
  value ← split? val_len
  pure (record {
    seq = 0;
    op = from_u8 op;
    key = key;
    ts = of_u64 ts;
    expire_at = of_u64 expire_at;
    value = value;
    range_end = range_end;
  })

-- Up to `count` records; a record that is cut ends the loop.
unfoldable pub decode_records : Bytes → ℕ → List InternalRecord
decode_records bs zero = []
decode_records bs (suc count) = elim (read_block_record bs) [
  | none ↦ []
  | some (r, rest) ↦ r ∷ decode_records rest count
]
