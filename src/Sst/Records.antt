-- ===== src/Sst/Records.antt =====
-- The records of a block are read back, without their numbers.
use flowdb.Base.{
  ℕ, suc, ◌%◌, ◌^◌, ◌<◌, ◌≡◌, refl, ap, ◌∙◌, arith, lt→ltb, length, All, Option, none, some, List,
  [], ◌∷◌, ◌++◌, append_assoc, map,
}
use flowdb.Base.Bytes.{Bytes}
use flowdb.Base.Int.{IsI64, of_u64-to_u64, to_u64-lt}
use flowdb.Base.Parse.{Reads, Reads-bind, Reads-then, Reads-pure, Reads-u8, Reads-uint, Reads-split}
use flowdb.Record.{InternalRecord, to_u8}
use flowdb.Record.Codes.{from_u8-to_u8}
use flowdb.Sst.{
  encode_block_end, encode_block_record, encode_records, read_block_end, read_block_record,
  decode_records,
}

abbrev FitsBlockEnd : Option Bytes → Type 0
FitsBlockEnd none = Unit {0}
FitsBlockEnd (some re) = (0 < length re) × (length re < 2 ^ 16)

pub record FitsBlock (r : InternalRecord) : Type 0 where
  pub key : length r.key < 2 ^ 16
  pub ts : IsI64 r.ts
  pub expire_at : IsI64 r.expire_at
  pub range_end : FitsBlockEnd r.range_end
  pub value : length r.value < 2 ^ 32

-- The record as a block stores it.
abbrev pub unnumbered : InternalRecord → InternalRecord
unnumbered r = record r { seq = 0 }

Reads-block_end : (o : Option Bytes) → FitsBlockEnd o → Reads read_block_end (encode_block_end o) o
unfolding read_block_end encode_block_end
Reads-block_end none h = Reads-then _ (Reads-uint 2 0 (omega arith)) (Reads-pure none)
Reads-block_end (some re) h = Reads-bind _ (Reads-uint 2 (length re % 2 ^ 16) (omega arith)) (
    rw (lt→ltb 0 (length re % 2 ^ 16) (omega arith))
      (Reads-then _ (Reads-split _ re (omega arith)) (Reads-pure (some re))))

pub Reads-block_record :
    (r : InternalRecord)
    → FitsBlock r
    → Reads read_block_record (encode_block_record r) (unnumbered r)
unfolding read_block_record encode_block_record
Reads-block_record r h = Reads-bind _ (Reads-uint 2 _ (omega arith)) (
    Reads-bind _ (Reads-split _ r.key (omega arith)) (
      Reads-bind _ (Reads-uint 8 _ (omega (arith, to_u64-lt r.ts))) (
        Reads-bind _ (Reads-uint 8 _ (omega (arith, to_u64-lt r.expire_at))) (
          Reads-bind _ (Reads-u8 (to_u8 r.op)) (
            Reads-bind _ (Reads-block_end r.range_end h.range_end) (
              Reads-bind _ (Reads-uint 4 _ (omega arith)) (
                Reads-bind _ (Reads-split _ r.value (omega arith)) (record {
                  reads = λ rest. ground (
                    arith,
                    from_u8-to_u8 r.op,
                    of_u64-to_u64 r.ts h.ts,
                    of_u64-to_u64 r.expire_at h.expire_at,
                  );
                }))))))))

decode_records_step :
    (bs rest : Bytes) (r : InternalRecord) (count : ℕ)
    → read_block_record bs ≡ some (r, rest)
    → decode_records bs (suc count) ≡ r ∷ decode_records rest count
unfolding decode_records
decode_records_step bs rest r count e = rw (e, decode_records)

-- Records that fit the format come back from a block in their order, with their numbers set to 0,
-- whatever follows them.
pub decode_records-encode_records :
    (rs : List InternalRecord) (rest : Bytes)
    → All FitsBlock rs
    → decode_records (encode_records rs ++ rest) (length rs) ≡ map unnumbered rs
unfolding encode_records
decode_records-encode_records [] rest h = unfold decode_records in refl
decode_records-encode_records (r ∷ rs) rest h =
    rw (append_assoc (encode_block_record r) (encode_records rs) rest) (
      decode_records_step _ (encode_records rs ++ rest) (unnumbered r) (length rs)
        ((Reads-block_record r h.0).reads (encode_records rs ++ rest))
      ∙ ap (◌∷◌ (unnumbered r)) (decode_records-encode_records rs rest h.1))
