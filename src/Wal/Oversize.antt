-- ===== src/Wal/Oversize.antt =====
-- Keys that are too long for the two bytes of the key's length.
use flowdb.Base.{
  ℕ, ◌%◌, ◌^◌, ◌≤◌, ◌<◌, ◌≡◌, ◌≢◌, sym, ap, ◌∙◌, arith, length, some, [], ◌∷◌, ◌++◌, append_assoc,
  Option-cases, inl, inr,
}
use flowdb.Base.Bytes.{Bytes}
use flowdb.Base.Parse.{
  Reader, ◌>>=◌, pure, read_uint, Reads-u8, Reads-uint, Results, Results-bind, Results-bind_of,
  Results-split, Results-pure, Reads-run,
}
use flowdb.Base.Int.{to_u64, of_u64}
use flowdb.Base.Words.{be_bytes, split?}
use flowdb.Record.{InternalRecord, to_u8, from_u8}
use flowdb.Wal.{
  read_body, read_range_end, record_body, encode_range_end, encode_record, decode_record,
  check_tail, compute_checksum,
}
use flowdb.Wal.Codec.{encode_record-encoding}

-- `read_body` behind the key's length.
after_key_len : ℕ → ℕ → ℕ → Reader InternalRecord
after_key_len seq op key_len = do
  key ← split? key_len
  ts ← read_uint 8
  expire_at ← read_uint 8
  range_end ← read_range_end
  val_len ← read_uint 4
  value ← split? val_len
  pure (record {
    seq = seq;
    op = from_u8 op;
    key = key;
    ts = of_u64 ts;
    expire_at = of_u64 expire_at;
    value = value;
    range_end = range_end;
  })

Results-after_key_len :
    (seq op key_len : ℕ) → Results (λ r. length r.key ≡ key_len) (after_key_len seq op key_len)
unfolding after_key_len
Results-after_key_len seq op key_len =
    let P = λ (r : InternalRecord). length r.key ≡ key_len in
    Results-bind_of P (λ key. length key ≡ key_len) _ _ (Results-split key_len)
      (λ key e. Results-bind P _ _ (λ ts. Results-bind P _ _ (λ expire_at.
        Results-bind P _ _ (λ range_end.
          Results-bind P _ _ (λ val_len. Results-bind P _ _ (λ value. Results-pure P _ e))))))

read_body-after_key_len :
    (seq op key_len : ℕ) (rest : Bytes)
    → seq < 2 ^ 64
    → key_len < 2 ^ 16
    → read_body (be_bytes 8 seq ++ ((op ∷ []) ++ (be_bytes 2 key_len ++ rest)))
      ≡ after_key_len seq op key_len rest
unfolding read_body after_key_len
read_body-after_key_len seq op key_len rest hs hk =
    Reads-run _ _ (Reads-uint 8 seq (omega arith))
    ∙ Reads-run _ _ (Reads-u8 op)
    ∙ Reads-run _ _ (Reads-uint 2 key_len (omega arith))

record_body_split :
    (r : InternalRecord) (xs : Bytes)
    → (ys : Bytes) × (record_body r ++ xs
        ≡ be_bytes 8 r.seq ++ ((to_u8 r.op ∷ []) ++ (be_bytes 2 (length r.key % 2 ^ 16) ++ ys)))
unfolding record_body
record_body_split r xs = (
  r.key
      ++ (be_bytes 8 (to_u64 r.ts)
          ++ (be_bytes 8 (to_u64 r.expire_at)
              ++ (encode_range_end r.range_end
                  ++ (be_bytes 4 (length r.value % 2 ^ 32) ++ (r.value ++ xs))))),
  simp append_assoc,
)

short_key :
    (r r' : InternalRecord) (xs tail : Bytes)
    → r.seq < 2 ^ 64
    → read_body (record_body r ++ xs) ≡ some (r', tail)
    → length r'.key ≡ length r.key % 2 ^ 16
short_key r r' xs tail hs e =
    let (ys, split) = record_body_split r xs in
    let run =
      read_body-after_key_len r.seq (to_u8 r.op) (length r.key % 2 ^ 16) ys hs (omega arith) in
    (Results-after_key_len r.seq (to_u8 r.op) (length r.key % 2 ^ 16)).results ys r' tail
      (sym run ∙ ap read_body (sym split) ∙ e)

check_tail_record :
    (bs tail : Bytes) (r r' : InternalRecord) (n : ℕ) → check_tail bs r tail ≡ some (r', n) → r ≡ r'
unfolding check_tail
check_tail_record bs tail r r' n e = ground arith

decode_record_short :
    (r : InternalRecord) (xs : Bytes) (n : ℕ)
    → r.seq < 2 ^ 64
    → 2 ^ 16 ≤ length r.key
    → decode_record (record_body r ++ xs) ≢ some (r, n)
unfolding decode_record
decode_record_short r xs n hs hk e = elim (Option-cases (read_body (record_body r ++ xs))) [
  | inl q ↦ cc (rw (q, decode_record) at e)
  | inr ((r', tail), q) ↦
      let same : r' ≡ r =
        check_tail_record (record_body r ++ xs) tail r' r n (rw (q, decode_record) at e) in
      let short : length r'.key ≡ length r.key % 2 ^ 16 = short_key r r' xs tail hs q in
      omega (arith, ap (λ (x : InternalRecord). length x.key) same)
]

-- A record with a key of 2 ^ 16 bytes or more is not recovered: whatever follows its encoding, what
-- decodes at its place, if anything, is another record.
pub decode_record_oversize :
    (r : InternalRecord) (rest : Bytes) (n : ℕ)
    → r.seq < 2 ^ 64
    → 2 ^ 16 ≤ length r.key
    → decode_record (encode_record r [] ++ rest) ≢ some (r, n)
decode_record_oversize r rest n hs hk =
    rw
      (
        encode_record-encoding r [],
        append_assoc (record_body r) (compute_checksum (record_body r)) rest,
      )
      (decode_record_short r (compute_checksum (record_body r) ++ rest) n hs hk)
