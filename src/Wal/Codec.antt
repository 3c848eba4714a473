-- ===== src/Wal/Codec.antt =====
-- The format of one log record: reading back, cut buffers, sizes.
use flowdb.Base.{
  ℕ, ◌+◌, ◌-◌, ◌%◌, ◌^◌, ◌<◌, ◌≡◌, refl, ap, ◌∙◌, arith, length, take, length-append,
  take-length_append, Option, none, some, [], ◌++◌, append_assoc, true, lt→ltb,
}
use flowdb.Base.Bytes.{Bytes, eq_bytes_iff}
use flowdb.Base.Int.{IsI64, to_u64, of_u64-to_u64, to_u64-lt}
use flowdb.Base.Parse.{Reads, Reads-bind, Reads-pure, Reads-then, Reads-u8, Reads-uint, Reads-split}
use flowdb.Base.Words.{be_bytes, length-be_bytes}
use flowdb.Record.Codes.{from_u8-to_u8}
use flowdb.Record.{InternalRecord, to_u8}
use flowdb.Wal.{
  compute_checksum, verify_checksum, encode_range_end, record_body, encode_record, encoded_size,
  range_end_len, read_range_end, read_body, check_tail, decode_record,
}

-- The ranges of the fields of the format. An empty range end is not told from an absent one.
abbrev pub FitsEnd : Option Bytes → Type 0
FitsEnd none = Unit {0}
FitsEnd (some re) = (0 < length re) × (length re < 2 ^ 32)

pub record IsEncodable (r : InternalRecord) : Type 0 where
  pub seq : r.seq < 2 ^ 64
  pub key : length r.key < 2 ^ 16
  pub ts : IsI64 r.ts
  pub expire_at : IsI64 r.expire_at
  pub range_end : FitsEnd r.range_end
  pub value : length r.value < 2 ^ 32

Reads-range_end : (o : Option Bytes) → FitsEnd o → Reads read_range_end (encode_range_end o) o
unfolding read_range_end encode_range_end
Reads-range_end none h = Reads-then _ (Reads-uint 4 0 (omega arith)) (Reads-pure none)
Reads-range_end (some re) h = Reads-bind _ (Reads-uint 4 (length re % 2 ^ 32) (omega arith)) (
    rw (lt→ltb 0 (length re % 2 ^ 32) (omega arith))
      (Reads-then _ (Reads-split _ re (omega arith)) (Reads-pure (some re))))

-- The body of a record that fits the format is read back, and what follows is left.
pub read_body-record_body : (r : InternalRecord) → IsEncodable r → Reads read_body (record_body r) r
unfolding read_body record_body
read_body-record_body r h = Reads-bind _ (Reads-uint 8 r.seq (omega arith)) (
    Reads-bind _ (Reads-u8 (to_u8 r.op)) (
      Reads-bind _ (Reads-uint 2 _ (omega arith)) (
        Reads-bind _ (Reads-split _ r.key (omega arith)) (
          Reads-bind _ (Reads-uint 8 (to_u64 r.ts) (omega (arith, to_u64-lt r.ts))) (
            Reads-bind _ (Reads-uint 8 (to_u64 r.expire_at) (omega (arith, to_u64-lt r.expire_at)))
              (Reads-bind _ (Reads-range_end r.range_end h.range_end) (
                Reads-bind _ (Reads-uint 4 _ (omega arith)) (
                  Reads-bind _ (Reads-split _ r.value (omega arith)) (record {
                    reads = λ rest. ground (
                      arith,
                      from_u8-to_u8 r.op,
                      of_u64-to_u64 r.ts h.ts,
                      of_u64-to_u64 r.expire_at h.expire_at,
                    );
                  })))))))))

pub length-compute_checksum : (bs : Bytes) → length (compute_checksum bs) ≡ 4
unfolding compute_checksum
length-compute_checksum bs = length-be_bytes 4 _

verify_checksum-compute_checksum :
    (bs rest : Bytes) → verify_checksum bs (compute_checksum bs ++ rest) ≡ true
unfolding verify_checksum
verify_checksum-compute_checksum bs rest = ground (
  arith,
  length-compute_checksum bs,
  length-append (compute_checksum bs) rest,
  take-length_append (compute_checksum bs) rest,
  ap (λ (n : ℕ). take n (compute_checksum bs ++ rest)) (length-compute_checksum bs),
  eq_bytes_iff (compute_checksum bs) (compute_checksum bs),
)

-- `encode_record` without the buffer that it appends to.
abbrev pub encoding : InternalRecord → Bytes
encoding r = record_body r ++ compute_checksum (record_body r)

pub encode_record-encoding :
    (r : InternalRecord) (buf : Bytes) → encode_record r buf ≡ buf ++ encoding r
unfolding encode_record
encode_record-encoding r buf = refl

check_tail-checksum :
    (body rest : Bytes) (r : InternalRecord)
    → check_tail (body ++ (compute_checksum body ++ rest)) r (compute_checksum body ++ rest)
      ≡ some (r, length body + 4)
unfolding check_tail
check_tail-checksum body rest r = ground (
  arith,
  length-append body (compute_checksum body ++ rest),
  take-length_append body (compute_checksum body ++ rest),
  verify_checksum-compute_checksum body rest,
  ap (λ (n : ℕ). take n (body ++ (compute_checksum body ++ rest)))
      (consumed body (compute_checksum body ++ rest)),
)
  where
    consumed : (xs ys : Bytes) → length (xs ++ ys) - length ys ≡ length xs
    consumed xs ys = omega (arith, length-append xs ys)

pub decode_record_step :
    (bs : Bytes) (r : InternalRecord) (tail : Bytes)
    → read_body bs ≡ some (r, tail)
    → decode_record bs ≡ check_tail bs r tail
unfolding decode_record
decode_record_step bs r tail e = rw (e, decode_record)

pub length-encoding : (r : InternalRecord) → length (encoding r) ≡ length (record_body r) + 4
length-encoding r = omega (
  arith,
  length-append (record_body r) (compute_checksum (record_body r)),
  length-compute_checksum (record_body r),
)

pub decode_record-encoding :
    (r : InternalRecord) (rest : Bytes)
    → IsEncodable r
    → decode_record (encoding r ++ rest) ≡ some (r, length (encoding r))
decode_record-encoding r rest h =
    let body = record_body r in
    let tail = compute_checksum body ++ rest in
    rw (append_assoc body (compute_checksum body) rest, length-encoding r)
      (decode_record_step (body ++ tail) r tail ((read_body-record_body r h).reads tail)
        ∙ check_tail-checksum body rest r)

-- A record that fits the format is read back from its encoding, whatever follows, and the count of
-- bytes taken is the length of the encoding.
pub decode_record-encode_record :
    (r : InternalRecord) (rest : Bytes)
    → IsEncodable r
    → decode_record (encode_record r [] ++ rest) ≡ some (r, length (encode_record r []))
decode_record-encode_record r rest h =
    rw (encode_record-encoding r []) (decode_record-encoding r rest h)

length-encode_range_end : (o : Option Bytes) → length (encode_range_end o) ≡ 4 + range_end_len o
unfolding encode_range_end
length-encode_range_end none = length-be_bytes 4 0
length-encode_range_end (some re) = omega (
  arith,
  length-append (be_bytes 4 (length re % 2 ^ 32)) re,
  length-be_bytes 4 (length re % 2 ^ 32),
)

pub length-record_body : (r : InternalRecord) → length (record_body r) + 4 ≡ encoded_size r
unfolding record_body encoded_size
length-record_body r = simp (length-append, length-be_bytes, length-encode_range_end) (omega arith)

-- `encode_record` appends exactly `encoded_size` bytes, for every record.
pub length-encode_record :
    (r : InternalRecord) (buf : Bytes) → length (encode_record r buf) ≡ length buf + encoded_size r
length-encode_record r buf =
    rw (encode_record-encoding r buf)
      (omega (arith, length-append buf (encoding r), length-encoding r, length-record_body r))
