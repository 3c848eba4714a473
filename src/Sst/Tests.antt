-- ===== src/Sst/Tests.antt =====
-- The theorems about blocks at concrete inputs.
use flowdb.Base.{◌≡◌, refl, arith, max, length, map, All, true, Option, none, some, [], ◌∷◌, ◌++◌}
use flowdb.Base.Int.{pos, negsuc, i64_max}
use flowdb.Config.{ok}
use flowdb.Record.{InternalRecord, put, delete_range}
use flowdb.Sst.{BlockHeader, to_bytes, from_bytes, encode_records, decode_records}
use flowdb.Sst.Header.{from_bytes-to_bytes}
use flowdb.Bloom.{BloomFilter, may_contain}
use flowdb.Sst.Blocks.{Lz4}
use flowdb.Sst.Write.{chunks, Written, write}
use flowdb.Sst.Write.{SstStreamWriter, new_stream, write_records, finish}
use flowdb.Sst.Write.Stream.{keys_of, write_records-write}
use flowdb.Sst.Read.{SstReader, open_reader, read_block_inner}
use flowdb.Sst.Read.Back.{read_block_inner-write}
use flowdb.Sst.Records.{FitsBlock, unnumbered, decode_records-encode_records}

abbrev header : BlockHeader
header = record {
  num_records = 2;
  min_ts = negsuc 4;
  max_ts = pos 0;
  min_expire = pos 7;
  max_expire = i64_max;
  data_len = 81;
  compressed_len = 60;
}

from_bytes-to_bytes_example : from_bytes (to_bytes header ++ (1 ∷ 2 ∷ [])) ≡ ok header
from_bytes-to_bytes_example = from_bytes-to_bytes header (1 ∷ 2 ∷ []) (record {
  num_records = omega arith;
  min_ts = (omega arith, omega arith);
  max_ts = (omega arith, omega arith);
  min_expire = (omega arith, omega arith);
  max_expire = (omega arith, omega arith);
  data_len = omega arith;
  compressed_len = omega arith;
})

abbrev written : InternalRecord
written = record {
  seq = 7;
  op = put;
  key = 97 ∷ 98 ∷ [];
  ts = negsuc 4;
  expire_at = i64_max;
  value = 1 ∷ 2 ∷ 3 ∷ [];
  range_end = none;
}

abbrev erased : InternalRecord
erased = record written { seq = 9; op = delete_range; value = []; range_end = some (99 ∷ []) }

written-FitsBlock : FitsBlock written
written-FitsBlock = record {
  key = omega arith;
  ts = (omega arith, omega arith);
  expire_at = (omega arith, omega arith);
  range_end = tt;
  value = omega arith;
}

erased-FitsBlock : FitsBlock erased
erased-FitsBlock = record {
  key = omega arith;
  ts = (omega arith, omega arith);
  expire_at = (omega arith, omega arith);
  range_end = (omega arith, omega arith);
  value = omega arith;
}

decode_records-encode_records_example :
    decode_records (encode_records (written ∷ erased ∷ []) ++ (5 ∷ [])) 2
    ≡ map unnumbered (written ∷ erased ∷ [])
decode_records-encode_records_example =
    decode_records-encode_records (written ∷ erased ∷ []) (5 ∷ [])
      (written-FitsBlock, (erased-FitsBlock, tt))

-- A compression that keeps the bytes.
abbrev stored : Lz4
stored = record {
  compress = λ bs. bs;
  decompress = λ bs size. some bs;
  decompress_compress = λ bs. refl;
}

read_block_inner-write_example :
    (w : Written × BloomFilter) × (reader : SstReader) × (write stored (written ∷ erased ∷ []) 1 10
      ≡ some w)
    × (open_reader w.0.file 4 ≡ ok reader)
    × (length reader.block_offsets ≡ length (chunks (max 1 1) (written ∷ erased ∷ [])))
    × (read_block_inner stored reader 1 ≡ ok (map unnumbered (erased ∷ [])))
unfolding chunks flowdb.Sst.Write.chunks_loop encode_records flowdb.Sst.encode_block_record
    flowdb.Base.Words.be_bytes flowdb.Sst.encode_block_end
read_block_inner-write_example =
    read_block_inner-write stored (written ∷ erased ∷ []) 1 10 4 1 (erased ∷ [])
      (
        record {
          records = (written-FitsBlock, tt);
          count = omega arith;
          raw = omega arith;
          compressed = omega arith;
        },
        (
          record {
            records = (erased-FitsBlock, tt);
            count = omega arith;
            raw = omega arith;
            compressed = omega arith;
          },
          tt,
        ),
      )
      refl

write_records-write_example :
    (s : SstStreamWriter) × (w : Written × BloomFilter) × (write_records stored
        (new_stream 1 2 10)
        (written ∷ erased ∷ [])
      ≡ some s)
    × (write stored (written ∷ erased ∷ []) 1 10 ≡ some w)
    × ((finish stored s).0 ≡ w.0)
    × All (λ key. may_contain (finish stored s).1 key ≡ some true) (keys_of (written ∷ erased ∷ []))
    × All (λ key. may_contain w.1 key ≡ some true) (keys_of (written ∷ erased ∷ []))
write_records-write_example = write_records-write stored (written ∷ erased ∷ []) 1 10 2
