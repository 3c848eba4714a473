-- ===== src/Sst/Header.antt =====
-- The header of a block is read back.
use flowdb.Base.{
  ℕ, ◌^◌, ◌≤◌, ◌<◌, ◌≡◌, refl, sym, ◌∙◌, arith, length, take, drop, length-append,
  take-length_append, drop-length_append, some, [], ◌++◌, append_assoc,
}
use flowdb.Base.Bytes.{Bytes}
use flowdb.Base.Int.{IsI64, to_u64, of_u64-to_u64, to_u64-lt}
use flowdb.Base.Parse.{Reads, Reads-bind, Reads-uint}
use flowdb.Base.Words.{be_bytes, from_be, length-be_bytes, from_be-be_bytes}
use flowdb.Config.{ok}
use flowdb.Sst.{BlockHeader, to_bytes, read_header, from_bytes, block_magic_lz4}

pub record FitsHeader (h : BlockHeader) : Type 0 where
  pub num_records : h.num_records < 2 ^ 32
  pub min_ts : IsI64 h.min_ts
  pub max_ts : IsI64 h.max_ts
  pub min_expire : IsI64 h.min_expire
  pub max_expire : IsI64 h.max_expire
  pub data_len : h.data_len < 2 ^ 32
  pub compressed_len : h.compressed_len < 2 ^ 32

-- What `to_bytes` writes behind the magic number.
abbrev fields : BlockHeader → Bytes
fields h =
    be_bytes 4 h.num_records
    ++ (be_bytes 8 (to_u64 h.min_ts)
        ++ (be_bytes 8 (to_u64 h.max_ts)
            ++ (be_bytes 8 (to_u64 h.min_expire)
                ++ (be_bytes 8 (to_u64 h.max_expire)
                    ++ (be_bytes 4 h.data_len ++ (be_bytes 4 h.compressed_len ++ []))))))

Reads-header : (h : BlockHeader) → FitsHeader h → Reads read_header (fields h) h
unfolding read_header
Reads-header h f = Reads-bind _ (Reads-uint 4 h.num_records (omega arith)) (
    Reads-bind _ (Reads-uint 8 _ (omega (arith, to_u64-lt h.min_ts))) (
      Reads-bind _ (Reads-uint 8 _ (omega (arith, to_u64-lt h.max_ts))) (
        Reads-bind _ (Reads-uint 8 _ (omega (arith, to_u64-lt h.min_expire))) (
          Reads-bind _ (Reads-uint 8 _ (omega (arith, to_u64-lt h.max_expire))) (
            Reads-bind _ (Reads-uint 4 h.data_len (omega arith)) (
              Reads-bind _ (Reads-uint 4 h.compressed_len (omega arith)) (record {
                reads = λ rest. ground (
                  arith,
                  of_u64-to_u64 h.min_ts f.min_ts,
                  of_u64-to_u64 h.max_ts f.max_ts,
                  of_u64-to_u64 h.min_expire f.min_expire,
                  of_u64-to_u64 h.max_expire f.max_expire,
                );
              })))))))

pub length-to_bytes : (h : BlockHeader) → length (to_bytes h) ≡ 48
unfolding to_bytes
length-to_bytes h = simp (length-append, length-be_bytes)

from_bytes_of :
    (bs xs : Bytes) (h : BlockHeader)
    → 48 ≤ length bs
    → from_be (take 4 bs) ≡ block_magic_lz4
    → read_header (drop 4 bs) ≡ some (h, xs)
    → from_bytes bs ≡ ok h
unfolding from_bytes
from_bytes_of bs xs h l m e = ground arith

-- A header whose counts fit 32 bits and whose times fit 64 bits is read back from its bytes,
-- whatever follows.
pub from_bytes-to_bytes :
    (h : BlockHeader) (rest : Bytes) → FitsHeader h → from_bytes (to_bytes h ++ rest) ≡ ok h
unfolding to_bytes
from_bytes-to_bytes h rest f = from_bytes_of (to_bytes h ++ rest) rest h long magic body
  where
    front :
        (n : ℕ)
        → n ≡ 4
        → (xs : Bytes) → (take n (be_bytes 4 block_magic_lz4 ++ xs) ≡ be_bytes 4 block_magic_lz4)
    front n e xs =
        rw (e ∙ sym (length-be_bytes 4 block_magic_lz4))
          (take-length_append (be_bytes 4 block_magic_lz4) xs)

    back : (n : ℕ) → n ≡ 4 → (xs : Bytes) → (drop n (be_bytes 4 block_magic_lz4 ++ xs) ≡ xs)
    back n e xs =
        rw (e ∙ sym (length-be_bytes 4 block_magic_lz4))
          (drop-length_append (be_bytes 4 block_magic_lz4) xs)

    long : 48 ≤ length (to_bytes h ++ rest)
    long = omega (arith, length-append (to_bytes h) rest, length-to_bytes h)

    whole : to_bytes h ++ rest ≡ be_bytes 4 block_magic_lz4 ++ (fields h ++ rest)
    whole = append_assoc (be_bytes 4 block_magic_lz4) (fields h) rest

    magic : from_be (take 4 (to_bytes h ++ rest)) ≡ block_magic_lz4
    magic =
        rw (whole, front 4 refl (fields h ++ rest))
          (from_be-be_bytes 4 block_magic_lz4 (omega arith))

    body : read_header (drop 4 (to_bytes h ++ rest)) ≡ some (h, rest)
    body = rw (whole, back 4 refl (fields h ++ rest)) ((Reads-header h f).reads rest)
