-- ===== src/Wal.antt =====
-- src/wal.rs: the record format of the write-ahead log. The code walks a buffer by a position; here
-- a reader of `Base.Parse` takes what stands behind that position.
pub mod Codec
pub mod Torn
pub mod Segments
pub mod Replay
pub mod Skip
pub mod Log
pub mod Oversize
pub mod Operations
pub mod Truncate
pub mod Recovery
mod Tests
use flowdb.Base.{
  ℕ, Bool, false, ◌+◌, ◌-◌, ◌%◌, ◌^◌, ltb, if◌then◌else◌, length, take, Option, none, some, List,
  [], ◌∷◌, ◌++◌,
}
use flowdb.Base.Bytes.{Bytes, eq_bytes}
use flowdb.Base.Hash.{fx_hash}
use flowdb.Base.Int.{to_u64, of_u64}
use flowdb.Base.Parse.{Reader, ◌>>=◌, pure, u8, read_uint}
use flowdb.Base.Words.{be_bytes, split?}
use flowdb.Record.{InternalRecord, to_u8, from_u8, estimated_size}

abbrev pub checksum_len : ℕ
checksum_len = 4

unfoldable pub compute_checksum : Bytes → Bytes
compute_checksum bytes = be_bytes checksum_len (fx_hash bytes 0 % 2 ^ 32)

unfoldable pub verify_checksum : Bytes → Bytes → Bool
verify_checksum record_bytes file_tail =
    if ltb (length file_tail) checksum_len
    then false
    else eq_bytes (compute_checksum record_bytes) (take checksum_len file_tail)

-- The length and the bytes of `range_end`; no range end is written as an empty one.
unfoldable pub encode_range_end : Option Bytes → Bytes
encode_range_end none = be_bytes 4 0
encode_range_end (some re) = be_bytes 4 (length re % 2 ^ 32) ++ re

-- What `encode_record` writes before the checksum.
unfoldable pub record_body : InternalRecord → Bytes
record_body r =
    be_bytes 8 r.seq
    ++ ((to_u8 r.op ∷ [])
        ++ (be_bytes 2 (length r.key % 2 ^ 16)
            ++ (r.key
                ++ (be_bytes 8 (to_u64 r.ts)
                    ++ (be_bytes 8 (to_u64 r.expire_at)
                        ++ (encode_range_end r.range_end
                            ++ (be_bytes 4 (length r.value % 2 ^ 32) ++ (r.value ++ []))))))))

unfoldable pub encode_record : InternalRecord → Bytes → Bytes
encode_record r buf = buf ++ (record_body r ++ compute_checksum (record_body r))

-- `encode_batch`: the buffer and the memory estimate.
unfoldable pub encode_batch_loop : List InternalRecord → Bytes → ℕ → Bytes × ℕ
encode_batch_loop [] buf mem = (buf, mem)
encode_batch_loop (r ∷ rs) buf mem =
    encode_batch_loop rs (encode_record r buf) (mem + estimated_size r)

unfoldable pub encode_batch : List InternalRecord → Bytes × ℕ
encode_batch rs = encode_batch_loop rs [] 0

-- `rec.range_end.as_ref().map_or(0, |re| re.len())`
abbrev pub range_end_len : Option Bytes → ℕ
range_end_len none = 0
range_end_len (some re) = length re

unfoldable pub encoded_size : InternalRecord → ℕ
encoded_size r =
    8
    + 1
    + 2
    + length r.key
    + 8
    + 8
    + 4
    + range_end_len r.range_end
    + 4
    + length r.value
    + checksum_len

-- The length of the range end and, if it is not 0, its bytes.
unfoldable pub read_range_end : Reader (Option Bytes)
read_range_end = do
  len ← read_uint 4
  if ltb 0 len then (do re ← split? len; pure (some re)) else pure none

-- `decode_record` up to the checksum.
unfoldable pub read_body : Reader InternalRecord
read_body = do
  seq ← read_uint 8
  op ← u8
  key_len ← read_uint 2
  key ← split? key_len
  ts ← read_uint 8
  expire_at ← read_uint 8
  range_end ← read_range_end
  val_len ← read_uint 4
  value ← split? val_len
  pure (record {
    seq = seq;
    op = from_u8 op;
    key = key;
    ts = of_u64 ts;
    expire_at = of_u64 expire_at;
    value = value;
    range_end = range_end;
  })

-- The test of the checksum, over the whole buffer and what stands behind the body.
unfoldable pub check_tail : Bytes → InternalRecord → Bytes → Option (InternalRecord × ℕ)
check_tail bytes r tail =
    let n = length bytes - length tail in
    if verify_checksum (take n bytes) tail then some (r, n + checksum_len) else none

-- The record at the front of the buffer and the bytes that it takes; `none` where the buffer is cut
-- or the checksum does not fit.
unfoldable pub decode_record : Bytes → Option (InternalRecord × ℕ)
decode_record bytes = elim (read_body bytes) [
  | none ↦ none
  | some (r, tail) ↦ check_tail bytes r tail
]
