-- ===== src/Wal/Torn.antt =====
-- A log that ends inside a record: what a crash in the middle of a write leaves behind.
use flowdb.Base.{
  ℕ, ◌-◌, ◌≤◌, ◌≡◌, ap, arith, ltb, if◌then◌else◌, length, take, length-append, take-append_of_le,
  none, some, [], ◌∷◌, ◌++◌, append-nil, Option-cases, inl, inr, Bool-cases,
}
use flowdb.Base.Bytes.{Bytes}
use flowdb.Base.Parse.{
  ◌>>=◌, pure, Extends, Extends-bind, Extends-pure, Extends-u8, Extends-split, Extends-uint,
}
use flowdb.Base.Words.{split?}
use flowdb.Record.{InternalRecord}
use flowdb.Wal.{
  read_range_end, read_body, check_tail, decode_record, encode_record, verify_checksum,
}
use flowdb.Wal.Codec.{IsEncodable, decode_record-encode_record}

Extends-read_end :
    (len : ℕ) → Extends (if ltb 0 len then (do re ← split? len; pure (some re)) else pure none)
Extends-read_end len = elim (Bool-cases (ltb 0 len)) [
  | inl t ↦ rw t (Extends-bind (Extends-split len) (λ re. Extends-pure (some re)))
  | inr f ↦ rw f (Extends-pure none)
]

Extends-range_end : Extends read_range_end
unfolding read_range_end
Extends-range_end = Extends-bind (Extends-uint 4) Extends-read_end

Extends-read_body : Extends read_body
unfolding read_body
Extends-read_body = Extends-bind (Extends-uint 8) (λ seq. Extends-bind Extends-u8 (λ op.
    Extends-bind (Extends-uint 2) (λ key_len. Extends-bind (Extends-split key_len) (λ key.
      Extends-bind (Extends-uint 8) (λ ts. Extends-bind (Extends-uint 8) (λ expire_at.
        Extends-bind Extends-range_end (λ range_end.
          Extends-bind (Extends-uint 4)
            (λ val_len. Extends-bind (Extends-split val_len) (λ value. Extends-pure _)))))))))

check_tail_extends :
    (bs tail more : Bytes) (r r' : InternalRecord) (n : ℕ)
    → length tail ≤ length bs
    → check_tail bs r tail ≡ some (r', n)
    → (check_tail (bs ++ more) r (tail ++ more) ≡ some (r', n)) × (n ≤ length bs)
unfolding check_tail verify_checksum
check_tail_extends bs tail more r r' n l h = ground (
  arith,
  same,
  ap (λ (k : ℕ). take k (bs ++ more)) same,
  take-append_of_le (length bs - length tail) bs more (omega arith),
  take-append_of_le 4 tail more,
  length-append tail more,
)
  where
    same : length (bs ++ more) - length (tail ++ more) ≡ length bs - length tail
    same = omega (arith, length-append bs more, length-append tail more)

-- A record that decodes does so from any longer buffer too, and lies within the buffer.
pub decode_record_extends :
    (bs more : Bytes) (r : InternalRecord) (n : ℕ)
    → decode_record bs ≡ some (r, n)
    → (decode_record (bs ++ more) ≡ some (r, n)) × (n ≤ length bs)
unfolding decode_record
decode_record_extends bs more r n h = elim (Option-cases (read_body bs)) [
  | inl e ↦ cc (rw (e, decode_record) at h)
  | inr ((r', tail), e) ↦
      let (e', l) = Extends-read_body.extends bs r' tail more e in
      let (g, m) = check_tail_extends bs tail more r' r n l (rw (e, decode_record) at h) in
      (rw (e', decode_record) g, m)
]

-- Every proper prefix of the encoding of a record that fits the format is rejected: it is never
-- read as a record, neither that one nor another.
pub decode_record_torn :
    (r : InternalRecord) (front back : Bytes) (x : ℕ)
    → IsEncodable r
    → encode_record r [] ≡ front ++ (x ∷ back)
    → decode_record front ≡ none
decode_record_torn r front back x h e = elim (Option-cases (decode_record front)) [
  | inl q ↦ q
  | inr ((r', n), q) ↦
      let (whole, m) = decode_record_extends front (x ∷ back) r' n q in
      absurd (omega (arith, taken r' n whole, length-append front (x ∷ back)))
]
  where
    taken :
        (r' : InternalRecord) (n : ℕ)
        → decode_record (front ++ (x ∷ back)) ≡ some (r', n)
        → n ≡ length (front ++ (x ∷ back))
    taken r' n w = ground (arith, rw (append-nil, e) at (decode_record-encode_record r [] h))
