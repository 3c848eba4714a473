-- ===== src/Wal/Tests.antt =====
-- The theorems about the log at concrete inputs, and runs of the format.
use flowdb.Base.{
  ℕ, ◌+◌, ◌<◌, ◌≡◌, ◌≢◌, refl, arith, length, filter, All, replicate, none, some, List, [], ◌∷◌,
  ◌++◌, sort_by,
}
use flowdb.Base.Bytes.{Bytes}
use flowdb.Base.Int.{pos, negsuc, i64_max}
use flowdb.Base.Words.{be_bytes, from_be, split?}
use flowdb.Base.Parse.{◌>>=◌, read_uint, u8}
use flowdb.Base.Hash.{fx_hash}
use flowdb.Base.Bytes.{eq_bytes}
use flowdb.Record.{InternalRecord, put, delete_range, to_u8, from_u8}
use flowdb.Wal.{
  encode_record, record_body, compute_checksum, encode_range_end, decode_record, read_body,
  read_range_end, check_tail, verify_checksum, encoded_size, encode_batch,
}
use flowdb.Wal.Codec.{IsEncodable, decode_record-encode_record, length-encode_record}
use flowdb.Wal.Torn.{decode_record_torn}
use flowdb.Wal.Oversize.{decode_record_oversize}
use flowdb.Wal.Replay.{encodings, newer, decode_record_nil}
use flowdb.Wal.Log.{Part, Stores, IsWhole, records_of, replay_from-Stores}
use flowdb.Wal.Operations.{write_encoded-IsWhole}
use flowdb.Wal.Truncate.{truncate_before-IsWhole, replay_from-truncate_before}
use flowdb.Wal.Recovery.{open_wal-replay_from}
use flowdb.Wal.Segments.{
  Segment, Wal, replay_from, seq_le, write_encoded, truncate_before, open_wal,
}

codec : Unit {0}
unfolding be_bytes from_be split? ◌>>=◌ read_uint u8 fx_hash eq_bytes to_u8 from_u8 encode_record
    record_body compute_checksum encode_range_end decode_record read_body read_range_end check_tail
    verify_checksum
codec = tt

abbrev first : InternalRecord
first = record {
  seq = 7;
  op = put;
  key = 97 ∷ 98 ∷ [];
  ts = negsuc 4;
  expire_at = i64_max;
  value = 1 ∷ 2 ∷ 3 ∷ [];
  range_end = none;
}

abbrev second : InternalRecord
second = record {
  seq = 9;
  op = delete_range;
  key = 97 ∷ [];
  ts = pos 0;
  expire_at = i64_max;
  value = [];
  range_end = some (99 ∷ []);
}

run_round_trip : decode_record (encode_record second (encode_record first [])) ≡ some (first, 44)
unfolding codec
run_round_trip = refl

first-IsEncodable : IsEncodable first
first-IsEncodable = omega arith

second-IsEncodable : IsEncodable second
second-IsEncodable = omega arith

decode_record-encode_record_example :
    decode_record (encode_record first [] ++ (1 ∷ []))
    ≡ some (first, length (encode_record first []))
decode_record-encode_record_example = decode_record-encode_record first (1 ∷ []) first-IsEncodable

length-encode_record_example : length (encode_record first (5 ∷ [])) ≡ 1 + encoded_size first
length-encode_record_example = length-encode_record first (5 ∷ [])

-- The first two bytes of the encoding.
decode_record_torn_example : decode_record (0 ∷ 0 ∷ []) ≡ none
unfolding codec
decode_record_torn_example = decode_record_torn first (0 ∷ 0 ∷ []) _ 0 first-IsEncodable refl

abbrev long : InternalRecord
long = record first { key = replicate 65536 7 }

decode_record_oversize_example : decode_record (encode_record long [] ++ []) ≢ some (long, 5)
decode_record_oversize_example = decode_record_oversize long [] 5 (omega arith) (omega arith)

abbrev segment : Segment
segment = record {
  id = 3;
  contents = encodings (first ∷ []) ++ [];
  written_bytes = 44;
  max_seq = 7;
}

abbrev wal : Wal
wal = record { segments = segment ∷ []; max_segment_bytes = 60; next_seq = 8; next_segment_id = 4 }

abbrev parts : List Part
parts = record { records = first ∷ []; torn = [] } ∷ []

wal-Stores : Stores wal.segments parts
wal-Stores = (
  record {
    contents = refl;
    no_record = decode_record_nil;
    fits = (first-IsEncodable, tt);
    bounded = omega arith;
  },
  tt,
)

wal-IsWhole : IsWhole wal parts
wal-IsWhole = record { stores = wal-Stores; whole = (refl, tt); fresh = omega arith }

replay_from-Stores_example :
    replay_from wal 2 ≡ some (sort_by seq_le (filter (newer 2) (first ∷ [])))
replay_from-Stores_example = replay_from-Stores wal parts 2 wal-Stores

write_encoded-IsWhole_example :
    (qs : List Part) × IsWhole (write_encoded wal (encode_batch (second ∷ [])).0 9) qs
    × (records_of qs ≡ first ∷ second ∷ [])
write_encoded-IsWhole_example =
    write_encoded-IsWhole wal parts (second ∷ []) 9 wal-IsWhole (second-IsEncodable, tt)
      (omega arith)

truncate_before-IsWhole_example :
    (qs : List Part) × IsWhole (truncate_before wal 7) qs
    × (filter (newer 7) (records_of qs) ≡ filter (newer 7) (first ∷ []))
truncate_before-IsWhole_example = truncate_before-IsWhole wal parts 7 wal-IsWhole

replay_from-truncate_before_example : replay_from (truncate_before wal 7) 7 ≡ replay_from wal 7
replay_from-truncate_before_example = replay_from-truncate_before wal parts 7 wal-IsWhole

abbrev torn_parts : List Part
torn_parts = record { records = first ∷ []; torn = 0 ∷ 0 ∷ [] } ∷ []

abbrev files : List (ℕ × Bytes)
files = (3, encodings (first ∷ []) ++ (0 ∷ 0 ∷ [])) ∷ []

open_wal-replay_from_example :
    (replay_from (open_wal files 64) 0 ≡ some (sort_by seq_le (filter (newer 0) (first ∷ []))))
    × All (λ r. r.seq < (open_wal files 64).next_seq) (first ∷ [])
unfolding codec
open_wal-replay_from_example =
    open_wal-replay_from files torn_parts 64 0
      (record { contents = refl; no_record = refl; fits = (first-IsEncodable, tt) }, tt)
