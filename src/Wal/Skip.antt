-- ===== src/Wal/Skip.antt =====
-- `find_max_seq_in_segment` on a segment of whole records with a torn end.
use flowdb.Base.{
  ℕ, zero, suc, ◌+◌, ◌%◌, ◌^◌, ◌≤◌, ◌<◌, ◌≡◌, refl, sym, ap, ◌∙◌, arith, ltb, max, length, drop,
  take, length-append, length-drop, drop-length_append, take-length_append, All, Option, none, some,
  List, [], ◌∷◌, ◌++◌, append_assoc, Option-cases, Bool-cases, inl, inr,
}
use flowdb.Base.Bytes.{Bytes}
use flowdb.Base.Parse.{
  Reads, Reads-bind, Reads-then, Reads-pure, Reads-uint, Reads-split, Results, Results-bind,
  Results-pure,
}
use flowdb.Base.Words.{be_bytes, from_be, length-be_bytes, from_be-be_bytes}
use flowdb.Base.Int.{to_u64}
use flowdb.Record.{InternalRecord, to_u8}
use flowdb.Wal.{encode_range_end, record_body, compute_checksum, range_end_len, encoded_size}
use flowdb.Wal.Codec.{
  IsEncodable, FitsEnd, encoding, length-compute_checksum, length-record_body, length-encoding,
}
use flowdb.Wal.Replay.{encodings}
use flowdb.Wal.Segments.{advance, skip_end, skip_fields, skip_record, find_max_loop}

Reads-advance : (n : ℕ) (xs : Bytes) → length xs ≡ n → Reads (advance n) xs tt
unfolding advance
Reads-advance n xs e = record {
  reads = λ rest. rw (← e) (ap (λ (bs : Bytes). some (tt, bs)) (drop-length_append xs rest));
}

Reads-skip_end :
    (o : Option Bytes) → FitsEnd o → Reads skip_end (encode_range_end o) (range_end_len o)
unfolding skip_end encode_range_end
Reads-skip_end none h =
    Reads-then _ (Reads-uint 4 0 (omega arith))
      (Reads-then _ (Reads-advance 0 [] refl) (Reads-pure 0))
Reads-skip_end (some re) h =
    let same : length re % 2 ^ 32 ≡ length re = omega arith in
    rw same (
      Reads-bind _ (Reads-uint 4 (length re) (omega arith))
        (Reads-then _ (Reads-advance (length re) re refl) (Reads-pure (length re))))

-- The encoding with every field on its own, and the two times together.
record_body_spread :
    (r : InternalRecord) (xs : Bytes)
    → record_body r ++ xs
      ≡ be_bytes 8 r.seq
        ++ ((to_u8 r.op ∷ [])
            ++ (be_bytes 2 (length r.key % 2 ^ 16)
                ++ (r.key
                    ++ ((be_bytes 8 (to_u64 r.ts) ++ be_bytes 8 (to_u64 r.expire_at))
                        ++ (encode_range_end r.range_end
                            ++ (be_bytes 4 (length r.value % 2 ^ 32) ++ (r.value ++ xs)))))))
unfolding record_body
record_body_spread r xs = simp append_assoc

length-times :
    (r : InternalRecord) → length (be_bytes 8 (to_u64 r.ts) ++ be_bytes 8 (to_u64 r.expire_at)) ≡ 16
length-times r = simp (length-append, length-be_bytes)

skipped : InternalRecord → ℕ
skipped r =
    8
    + 1
    + (2 + length r.key % 2 ^ 16)
    + 16
    + (4 + range_end_len r.range_end)
    + (4 + length r.value % 2 ^ 32)
    + 4

Reads-skip_fields :
    (r : InternalRecord) → IsEncodable r → Reads skip_fields (encoding r) (skipped r)
unfolding skip_fields skipped
Reads-skip_fields r h = rw (record_body_spread r (compute_checksum (record_body r))) (
    Reads-bind _ (Reads-advance 8 _ (length-be_bytes 8 r.seq)) (
      Reads-bind _ (Reads-advance 1 (to_u8 r.op ∷ []) refl) (
        Reads-bind _ (Reads-uint 2 _ (omega arith)) (
          Reads-bind _ (Reads-advance _ r.key (omega arith)) (
            Reads-bind _ (Reads-split 16 _ (omega (arith, length-times r))) (
              Reads-bind _ (Reads-skip_end r.range_end h.range_end) (
                Reads-bind _ (Reads-uint 4 _ (omega arith)) (
                  Reads-bind _ (Reads-advance _ r.value (omega arith)) (
                    Reads-then _ (Reads-advance 4 _ (length-compute_checksum (record_body r)))
                      (Reads-pure _))))))))))

skipped-encoding : (r : InternalRecord) → IsEncodable r → skipped r ≡ length (encoding r)
unfolding skipped encoded_size
skipped-encoding r h = omega (arith, length-encoding r, length-record_body r)

skip_record_of :
    (bs rest : Bytes) (n : ℕ) → skip_fields bs ≡ some (n, rest) → skip_record bs ≡ some n
unfolding skip_record
skip_record_of bs rest n e = rw (e, skip_record)

-- On a record that fits the format `skip_record` returns the length of its encoding.
pub skip_record-encoding :
    (r : InternalRecord) (rest : Bytes)
    → IsEncodable r
    → skip_record (encoding r ++ rest) ≡ some (length (encoding r))
skip_record-encoding r rest h =
    rw (← skipped-encoding r h)
      (skip_record_of (encoding r ++ rest) rest (skipped r) ((Reads-skip_fields r h).reads rest))

Results-skip_fields : Results (λ n. 0 < n) skip_fields
unfolding skip_fields
Results-skip_fields =
    let P = λ (n : ℕ). 0 < n in
    Results-bind P _ _ (λ a. Results-bind P _ _ (λ b. Results-bind P _ _ (λ key_len.
      Results-bind P _ _ (λ c. Results-bind P _ _ (λ d. Results-bind P _ _ (λ e.
        Results-bind P _ _ (λ val_len.
          Results-bind P _ _ (λ f. Results-bind P _ _ (λ g. Results-pure P _ (omega arith))))))))))

skip_record_pos : (bs : Bytes) (n : ℕ) → skip_record bs ≡ some n → 0 < n
unfolding skip_record
skip_record_pos bs n e = elim (Option-cases (skip_fields bs)) [
  | inl q ↦ cc (rw (q, skip_record) at e)
  | inr ((m, rest), q) ↦
      let same : m ≡ n = ground (arith, rw (q, skip_record) at e) in
      rw (← same) (Results-skip_fields.results bs m rest q)
]

encoded_size-ge : (r : InternalRecord) → 39 ≤ encoded_size r
unfolding encoded_size
encoded_size-ge r = omega arith

length-encodings-lt :
    (r : InternalRecord) (rs : List InternalRecord) (torn : Bytes)
    → length (encodings rs ++ torn) < length (encodings (r ∷ rs) ++ torn)
length-encodings-lt r rs torn = omega (
  arith,
  length-append (encoding r ++ encodings rs) torn,
  length-append (encoding r) (encodings rs),
  length-append (encodings rs) torn,
  length-encoding r,
)

-- With fuel for every byte the loop ends, and the maximum only grows.
pub find_max_loop_total :
    (fuel m : ℕ) (bs : Bytes)
    → length bs ≤ fuel
    → (k : ℕ) × (find_max_loop fuel m bs ≡ some k) × (m ≤ k)
unfolding find_max_loop
find_max_loop_total fuel m [] l = (m, refl, omega arith)
find_max_loop_total zero m (b ∷ bs) l = absurd (omega arith)
find_max_loop_total (suc fuel) m (b ∷ bs) l = elim (Bool-cases (ltb (length (b ∷ bs)) 8)) [
  | inl t ↦ (m, rw (t, find_max_loop), omega arith)
  | inr f ↦ elim (Option-cases (skip_record (b ∷ bs))) [
    | inl q ↦ (m, rw (f, find_max_loop, q), omega arith)
    | inr (n, q) ↦
        let m' = max m (from_be (take 8 (b ∷ bs))) in
        let less : length (drop n (b ∷ bs)) ≤ fuel =
          omega (arith, length-drop n (b ∷ bs), skip_record_pos (b ∷ bs) n q) in
        let (k, e, g) = find_max_loop_total fuel m' (drop n (b ∷ bs)) less in
        (k, ground (arith, f, q, e), omega arith)
  ]
]

find_max_loop_next :
    (fuel m n : ℕ) (bs : Bytes)
    → 8 ≤ length bs
    → skip_record bs ≡ some n
    → find_max_loop (suc fuel) m bs ≡ find_max_loop fuel (max m (from_be (take 8 bs))) (drop n bs)
unfolding find_max_loop
find_max_loop_next fuel m n [] l e = absurd (omega arith)
find_max_loop_next fuel m n (b ∷ bs) l e = ground arith

take-be_bytes : (v : ℕ) (xs : Bytes) → take 8 (be_bytes 8 v ++ xs) ≡ be_bytes 8 v
take-be_bytes v xs =
    ap (λ (n : ℕ). take n (be_bytes 8 v ++ xs)) (sym (length-be_bytes 8 v))
    ∙ take-length_append (be_bytes 8 v) xs

take_seq : (r : InternalRecord) (rest : Bytes) → take 8 (encoding r ++ rest) ≡ be_bytes 8 r.seq
take_seq r rest =
    rw
      (
        append_assoc (record_body r) (compute_checksum (record_body r)) rest,
        record_body_spread r (compute_checksum (record_body r) ++ rest),
      )
      (take-be_bytes r.seq _)

find_max_loop_step :
    (fuel m : ℕ) (r : InternalRecord) (rest : Bytes)
    → IsEncodable r
    → find_max_loop (suc fuel) m (encoding r ++ rest) ≡ find_max_loop fuel (max m r.seq) rest
find_max_loop_step fuel m r rest h =
    let long : 8 ≤ length (encoding r ++ rest) = omega (
      arith,
      length-append (encoding r) rest,
      length-encoding r,
      length-record_body r,
      encoded_size-ge r,
    ) in
    find_max_loop_next fuel m (length (encoding r)) (encoding r ++ rest) long
      (skip_record-encoding r rest h)
    ∙ rw (
      take_seq r rest,
      from_be-be_bytes 8 r.seq (omega arith),
      drop-length_append (encoding r) rest,
    )

-- The maximum covers every whole record of the segment, whatever stands behind them.
pub find_max_loop-encodings :
    (rs : List InternalRecord) (torn : Bytes) (fuel m : ℕ)
    → All IsEncodable rs
    → length (encodings rs ++ torn) ≤ fuel
    → (k : ℕ) × (find_max_loop fuel m (encodings rs ++ torn) ≡ some k)
      × (m ≤ k)
      × All (λ r. r.seq ≤ k) rs
find_max_loop-encodings [] torn fuel m h l =
    let (k, e, g) = find_max_loop_total fuel m torn l in (k, e, g, tt)
find_max_loop-encodings (r ∷ rs) torn zero m h l =
    absurd (omega (arith, length-encodings-lt r rs torn))
find_max_loop-encodings (r ∷ rs) torn (suc fuel) m h l =
    let rest = encodings rs ++ torn in
    let less : length rest ≤ fuel = omega (arith, length-encodings-lt r rs torn) in
    let (k, e, g, a) = find_max_loop-encodings rs torn fuel (max m r.seq) h.1 less in
    (
      k,
      ap (find_max_loop (suc fuel) m) (append_assoc (encoding r) (encodings rs) torn)
          ∙ find_max_loop_step fuel m r rest h.0
          ∙ e,
      omega arith,
      (omega arith, a),
    )
