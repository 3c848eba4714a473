-- ===== src/Sst/Read/Placed.antt =====
-- A block at its place in a file: its header is read back.
use flowdb.Base.{
  ℕ, zero, suc, ◌+◌, ◌^◌, ◌<◌, ◌≡◌, refl, sym, ap, arith, length, take, drop, length-append,
  take-length_append, drop-length_append, All, List, [], ◌∷◌, ◌++◌, append-nil,
}
use flowdb.Base.Bytes.{Bytes}
use flowdb.Base.Int.{ℤ, IsI64, min_ℤ, max_ℤ}
use flowdb.Config.{ok}
use flowdb.Record.{InternalRecord}
use flowdb.Sst.{to_bytes, from_bytes, encode_records}
use flowdb.Sst.Header.{FitsHeader, length-to_bytes, from_bytes-to_bytes}
use flowdb.Sst.Records.{FitsBlock}
use flowdb.Sst.Blocks.{
  Lz4, min_from, min_or_zero, max_from, max_or_zero, times, expiries, block_header, block_bytes,
}
use flowdb.Sst.Read.{slice}

min_from-IsI64 : (a : ℤ) (bs : List ℤ) → IsI64 a → All IsI64 bs → IsI64 (min_from a bs)
unfolding min_from
min_from-IsI64 a [] h k = h
min_from-IsI64 a (b ∷ bs) h k = min_from-IsI64 (min_ℤ a b) bs (ground arith) k.1

max_from-IsI64 : (a : ℤ) (bs : List ℤ) → IsI64 a → All IsI64 bs → IsI64 (max_from a bs)
unfolding max_from
max_from-IsI64 a [] h k = h
max_from-IsI64 a (b ∷ bs) h k = max_from-IsI64 (max_ℤ a b) bs (ground arith) k.1

min_or_zero-IsI64 : (as' : List ℤ) → All IsI64 as' → IsI64 (min_or_zero as')
unfolding min_or_zero
min_or_zero-IsI64 [] h = (omega arith, omega arith)
min_or_zero-IsI64 (a ∷ as') h = min_from-IsI64 a as' h.0 h.1

max_or_zero-IsI64 : (as' : List ℤ) → All IsI64 as' → IsI64 (max_or_zero as')
unfolding max_or_zero
max_or_zero-IsI64 [] h = (omega arith, omega arith)
max_or_zero-IsI64 (a ∷ as') h = max_from-IsI64 a as' h.0 h.1

times-IsI64 : (c : List InternalRecord) → All FitsBlock c → All IsI64 (times c)
unfolding times
times-IsI64 [] h = tt
times-IsI64 (r ∷ c) h = (h.0.ts, times-IsI64 c h.1)

expiries-IsI64 : (c : List InternalRecord) → All FitsBlock c → All IsI64 (expiries c)
unfolding expiries
expiries-IsI64 [] h = tt
expiries-IsI64 (r ∷ c) h = (h.0.expire_at, expiries-IsI64 c h.1)

pub drop-add : (n m : ℕ) (bs : Bytes) → drop (n + m) bs ≡ drop m (drop n bs)
drop-add zero m bs = ap (λ (k : ℕ). drop k bs) (omega arith)
drop-add (suc n) m [] = let e : suc n + m ≡ suc (n + m) = omega arith in rw e (sym (drop-nil m))
  where
    drop-nil : (k : ℕ) → drop {A = ℕ} k [] ≡ []
    drop-nil zero = refl
    drop-nil (suc k) = refl
drop-add (suc n) m (b ∷ bs) =
    let e : suc n + m ≡ suc (n + m) = omega arith in rw e (drop-add n m bs)

pub take-front : (xs ys : Bytes) (n : ℕ) → length xs ≡ n → take n (xs ++ ys) ≡ xs
take-front xs ys n h = rw (sym h) (take-length_append xs ys)

pub drop-front : (xs ys : Bytes) (n : ℕ) → length xs ≡ n → drop n (xs ++ ys) ≡ ys
drop-front xs ys n h = rw (sym h) (drop-length_append xs ys)

module _ (lz4 : Lz4) where
  -- The records of the block fit the format, and its lengths fit the header.
  pub record FitsChunk (c : List InternalRecord) : Type 0 where
    pub records : All FitsBlock c
    pub count : length c < 2 ^ 32
    pub raw : length (encode_records c) < 2 ^ 32
    pub compressed : length (lz4.compress (encode_records c)) < 2 ^ 32

  abbrev pub packed : List InternalRecord → Bytes
  packed c = lz4.compress (encode_records c)

  block_header-FitsHeader :
      (c : List InternalRecord) → FitsChunk c → FitsHeader (block_header lz4 c)
  unfolding block_header
  block_header-FitsHeader c f = record {
    num_records = omega arith;
    min_ts = min_or_zero-IsI64 (times c) (times-IsI64 c f.records);
    max_ts = max_or_zero-IsI64 (times c) (times-IsI64 c f.records);
    min_expire = min_or_zero-IsI64 (expiries c) (expiries-IsI64 c f.records);
    max_expire = max_or_zero-IsI64 (expiries c) (expiries-IsI64 c f.records);
    data_len = omega arith;
    compressed_len = omega arith;
  }

  pub length-block_bytes :
      (c : List InternalRecord) → length (block_bytes lz4 c) ≡ 48 + length (packed c)
  unfolding block_bytes
  length-block_bytes c = omega (
    arith,
    length-append (to_bytes (block_header lz4 c)) (lz4.compress (encode_records c)),
    length-to_bytes (block_header lz4 c),
  )

  -- A block that stands at `pos` of a file.
  pub record At (bytes : Bytes) (at : ℕ) (c : List InternalRecord) (rest : Bytes) : Type 0 where
    pub here : drop at bytes ≡ to_bytes (block_header lz4 c) ++ (packed c ++ rest)
    pub long : at + (48 + length (packed c)) + length rest ≡ length bytes

  pub header-At :
      (bytes : Bytes) (at : ℕ) (c : List InternalRecord) (rest : Bytes)
      → FitsChunk c
      → At bytes at c rest
      → from_bytes (slice at 48 bytes) ≡ ok (block_header lz4 c)
  unfolding slice
  header-At bytes at c rest f h =
      let h' = block_header lz4 c in
      rw
        (
          h.here,
          take-front (to_bytes h') (packed c ++ rest) 48 (length-to_bytes h'),
          sym (append-nil (to_bytes h')),
        )
        (from_bytes-to_bytes h' [] (block_header-FitsHeader c f))
