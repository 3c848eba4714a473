-- ===== src/Wal/Replay.antt =====
-- Replaying one segment: the records of the segment in order, up to a torn end.
use flowdb.Base.{
  ℕ, zero, suc, ◌+◌, ◌≤◌, ◌≡◌, refl, sym, ◌∙◌, arith, ltb, if◌then◌else◌, length, drop,
  length-append, drop-length_append, filter, All, none, some, List, [], ◌∷◌, ◌++◌, append-nil,
  append_assoc, Bool,
}
use flowdb.Base.Bytes.{Bytes}
use flowdb.Base.Parse.{◌>>=◌, read_uint}
use flowdb.Base.Words.{split?}
use flowdb.Record.{InternalRecord, estimated_size}
use flowdb.Wal.{decode_record, encode_record, encode_batch_loop, encode_batch, read_body}
use flowdb.Wal.Codec.{
  IsEncodable, encoding, encode_record-encoding, decode_record-encoding, length-encoding,
}
use flowdb.Wal.Segments.{replay_loop}

abbrev pub encodings : List InternalRecord → Bytes
encodings [] = []
encodings (r ∷ rs) = encoding r ++ encodings rs

pub encode_batch_loop-encodings :
    (rs : List InternalRecord) (buf : Bytes) (mem : ℕ)
    → (encode_batch_loop rs buf mem).0 ≡ buf ++ encodings rs
unfolding encode_batch_loop
encode_batch_loop-encodings [] buf mem = sym (append-nil buf)
encode_batch_loop-encodings (r ∷ rs) buf mem =
    encode_batch_loop-encodings rs (encode_record r buf) (mem + estimated_size r)
    ∙ rw (encode_record-encoding r buf, append_assoc buf (encoding r) (encodings rs))

pub encode_batch-encodings : (rs : List InternalRecord) → (encode_batch rs).0 ≡ encodings rs
unfolding encode_batch
encode_batch-encodings rs = encode_batch_loop-encodings rs [] 0

unfoldable pub newer : ℕ → InternalRecord → Bool
newer after_seq r = ltb after_seq r.seq

pub decode_record_nil : decode_record [] ≡ none
unfolding decode_record read_body ◌>>=◌ read_uint split?
decode_record_nil = refl

replay_loop_step :
    (fuel after_seq : ℕ) (bs : Bytes) (r : InternalRecord) (n : ℕ) (rs : List InternalRecord)
    → decode_record bs ≡ some (r, n)
    → replay_loop fuel after_seq (drop n bs) ≡ some rs
    → replay_loop (suc fuel) after_seq bs ≡ some (if newer after_seq r then r ∷ rs else rs)
unfolding replay_loop newer
replay_loop_step fuel after_seq [] r n rs e h = cc decode_record_nil
replay_loop_step fuel after_seq (b ∷ bs) r n rs e h = ground arith

replay_loop_torn :
    (fuel after_seq : ℕ) (bs : Bytes)
    → decode_record bs ≡ none
    → length bs ≤ fuel
    → replay_loop fuel after_seq bs ≡ some []
unfolding replay_loop
replay_loop_torn fuel after_seq [] e l = refl
replay_loop_torn zero after_seq (b ∷ bs) e l = absurd (omega arith)
replay_loop_torn (suc fuel) after_seq (b ∷ bs) e l = ground arith

pub replay_loop-encodings :
    (rs : List InternalRecord) (torn : Bytes) (fuel after_seq : ℕ)
    → All IsEncodable rs
    → decode_record torn ≡ none
    → length (encodings rs ++ torn) ≤ fuel
    → replay_loop fuel after_seq (encodings rs ++ torn) ≡ some (filter (newer after_seq) rs)
replay_loop-encodings [] torn fuel after_seq h t l = replay_loop_torn fuel after_seq torn t l
replay_loop-encodings (r ∷ rs) torn zero after_seq h t l = absurd (
    omega (
      arith,
      length-append (encoding r ++ encodings rs) torn,
      length-append (encoding r) (encodings rs),
      length-encoding r,
    ))
replay_loop-encodings (r ∷ rs) torn (suc fuel) after_seq h t l =
    let rest = encodings rs ++ torn in
    let shorter : length rest ≤ fuel = omega (
      arith,
      length-append (encoding r ++ encodings rs) torn,
      length-append (encoding r) (encodings rs),
      length-append (encodings rs) torn,
      length-encoding r,
    ) in
    rw (append_assoc (encoding r) (encodings rs) torn) (
      replay_loop_step fuel after_seq (encoding r ++ rest) r (length (encoding r))
        (filter (newer after_seq) rs) (decode_record-encoding r rest h.0)
        (rw (drop-length_append (encoding r) rest)
          (replay_loop-encodings rs torn fuel after_seq h.1 t shorter)))
