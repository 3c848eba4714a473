-- ===== src/Bloom/Members.antt =====
-- No false negatives.
use mathlib.Core.Option.{none-ne-some, some-injective}
use flowdb.Base.{
  ◌≢◌, ◌⊎◌, inl, inr, false, ◌==◌, Option-cases, Bool-cases, ℕ, zero, suc, ◌+◌, ◌*◌, ◌/◌, ◌%◌, ◌^◌,
  ◌<◌, ◌≡◌, refl, sym, ◌∙◌, arith, true, length, replicate, All, some, List, [], ◌∷◌, max,
}
use mathlib.Core.Bool.{false≢true}
use flowdb.Base.Sorts.{All-map}
use flowdb.Base.Bytes.{Bytes}
use flowdb.Bloom.{
  BloomFilter, current_hash_version, with_bits_per_key, div_ceil, bit_pos, hash_pair, test_bit,
  insert_loop, insert, insert_keys, from_keys_with_bits, contain_loop, may_contain,
}
use flowdb.Bloom.Words.{HasBit, set_bit-HasBit}

-- The bits of the rounds from `i` on are set.
abbrev pub HasRounds : List ℕ → ℕ × ℕ → ℕ → ℕ → Type 0
HasRounds bits hs i zero = Unit {0}
HasRounds bits hs i (suc n) =
    ((pos : ℕ) × (bit_pos hs i (length bits * 64) ≡ some pos) × HasBit bits pos)
    × HasRounds bits hs (suc i) n

-- More bits set.
record Grows (bits bits' : List ℕ) : Type 0 where
  same : length bits' ≡ length bits
  kept : (q : ℕ) → HasBit bits q → HasBit bits' q

HasRounds-Grows :
    (bits bits' : List ℕ) (hs : ℕ × ℕ) (i n : ℕ)
    → Grows bits bits'
    → HasRounds bits hs i n
    → HasRounds bits' hs i n
HasRounds-Grows bits bits' hs i zero g h = tt
HasRounds-Grows bits bits' hs i (suc n) g ((pos, e, b), h) =
    ((pos, rw g.same e, g.kept pos b), HasRounds-Grows bits bits' hs (suc i) n g h)

bit_pos-lt : (hs : ℕ × ℕ) (i n : ℕ) → 0 < n → (pos : ℕ) × (bit_pos hs i n ≡ some pos) × (pos < n)
unfolding bit_pos
bit_pos-lt (h1, h2) i zero h = absurd (omega arith)
bit_pos-lt (h1, h2) i (suc n) h = (_, refl, omega arith)

contain_loop-HasRounds :
    (bits : List ℕ) (hs : ℕ × ℕ) (i n : ℕ)
    → HasRounds bits hs i n
    → contain_loop bits hs i n ≡ some true
unfolding contain_loop
contain_loop-HasRounds bits hs i zero h = refl
contain_loop-HasRounds bits hs i (suc n) ((pos, e, b), h) =
    rw (e, b) (contain_loop-HasRounds bits hs (suc i) n h)

HasRounds-contain_loop :
    (bits : List ℕ) (hs : ℕ × ℕ) (i n : ℕ)
    → contain_loop bits hs i n ≡ some true
    → HasRounds bits hs i n
unfolding contain_loop
HasRounds-contain_loop bits hs i zero h = tt
HasRounds-contain_loop bits hs i (suc n) h = elim (Option-cases (bit_pos hs i (length bits * 64))) [
  | inl e ↦ absurd (none-ne-some _ (rw e at h))
  | inr (pos, e) ↦ elim (Option-cases (test_bit bits pos)) [
    | inl t ↦ absurd (none-ne-some _ (rw (e, t) at h))
    | inr (true, t) ↦ ((pos, e, t), HasRounds-contain_loop bits hs (suc i) n (rw (e, t) at h))
    | inr (false, t) ↦ absurd (false≢true (some-injective _ _ (rw (e, t) at h)))
  ]
]

insert_loop-HasRounds :
    (bits : List ℕ) (hs : ℕ × ℕ) (i n : ℕ)
    → 0 < length bits
    → (bits' : List ℕ) × (insert_loop bits hs i n ≡ some bits')
      × Grows bits bits'
      × HasRounds bits' hs i n
unfolding insert_loop
insert_loop-HasRounds bits hs i zero h = (bits, refl, record { same = refl; kept = λ q k. k }, tt)
insert_loop-HasRounds bits hs i (suc n) h =
    let (pos, e, lt) = bit_pos-lt hs i (length bits * 64) (omega arith) in
    let (mid, e', same, has, kept) = set_bit-HasBit bits pos lt in
    let (bits', e'', g, rounds) = insert_loop-HasRounds mid hs (suc i) n (omega arith) in
    (
      bits',
      rw (e, e') e'',
      record { same = g.same ∙ same; kept = λ q k. g.kept q (kept q k) },
      ((pos, rw (g.same, same) e, g.kept pos has), rounds),
    )

abbrev pub Has : BloomFilter → Bytes → Type 0
Has bf key = HasRounds bf.bits (hash_pair key) 0 bf.num_hashes

pub may_contain-Has : (bf : BloomFilter) (key : Bytes) → Has bf key → may_contain bf key ≡ some true
unfolding may_contain
may_contain-Has bf key h =
    ground (arith, contain_loop-HasRounds bf.bits (hash_pair key) 0 bf.num_hashes h)

may_contain_stale :
    (bf : BloomFilter) (key : Bytes)
    → bf.hash_version ≢ current_hash_version
    → may_contain bf key ≡ some true
unfolding may_contain
may_contain_stale bf key h = ground arith

Has-may_contain :
    (bf : BloomFilter) (key : Bytes)
    → may_contain bf key ≡ some true
    → (bf.hash_version ≢ current_hash_version) ⊎ Has bf key
unfolding may_contain
Has-may_contain bf key h = elim (Bool-cases (bf.hash_version == current_hash_version)) [
  | inl e ↦ inr (HasRounds-contain_loop bf.bits (hash_pair key) 0 bf.num_hashes (rw e at h))
  | inr e ↦ inl (λ same. ground arith)
]

insert_of :
    (bf : BloomFilter) (key : Bytes) (bits : List ℕ)
    → insert_loop bf.bits (hash_pair key) 0 bf.num_hashes ≡ some bits
    → insert bf key ≡ some (record bf { bits = bits })
unfolding insert
insert_of bf key bits e = rw (insert, e)

insert-Has :
    (bf : BloomFilter) (key : Bytes)
    → 0 < length bf.bits
    → (bf' : BloomFilter) × (insert bf key ≡ some bf')
      × Grows bf.bits bf'.bits
      × (bf'.num_hashes ≡ bf.num_hashes)
      × (bf'.hash_version ≡ bf.hash_version)
      × Has bf' key
insert-Has bf key h =
    let (bits', e, g, rounds) = insert_loop-HasRounds bf.bits (hash_pair key) 0 bf.num_hashes h in
    (record bf { bits = bits' }, insert_of bf key bits' e, g, refl, refl, rounds)

pub insert_keys-Has :
    (bf : BloomFilter) (keys : List Bytes)
    → 0 < length bf.bits
    → (bf' : BloomFilter) × (insert_keys bf keys ≡ some bf')
      × ((key : Bytes) → Has bf key → Has bf' key)
      × All (Has bf') keys
unfolding insert_keys
insert_keys-Has bf [] h = (bf, refl, (λ key k. k), tt)
insert_keys-Has bf (key ∷ keys) h =
    let (mid, e, g, n, v, has) = insert-Has bf key h in
    let (bf', e', kept, rest) = insert_keys-Has mid keys (omega (arith, g.same)) in
    (
      bf',
      rw e e',
      (λ k old.
          kept k (rw n (HasRounds-Grows bf.bits mid.bits (hash_pair k) 0 bf.num_hashes g old))),
      (kept key has, rest),
    )

length-replicate : (n v : ℕ) → length (replicate n v) ≡ n
length-replicate zero v = refl
length-replicate (suc n) v = omega (arith, length-replicate n v)

pub with_bits_per_key-pos :
    (n bits_per_key : ℕ) → 0 < length (with_bits_per_key n bits_per_key).bits
unfolding with_bits_per_key div_ceil
with_bits_per_key-pos n bits_per_key =
    omega (arith, length-replicate ((max (n * bits_per_key % 2 ^ 64) 64 + 63) / 64) 0)

may_contain-Grows :
    (bf bf' : BloomFilter) (k : Bytes)
    → Grows bf.bits bf'.bits
    → bf'.num_hashes ≡ bf.num_hashes
    → bf'.hash_version ≡ bf.hash_version
    → (bf.hash_version ≢ current_hash_version) ⊎ Has bf k
    → may_contain bf' k ≡ some true
may_contain-Grows bf bf' k g n v (inl stale) = may_contain_stale bf' k (λ e. stale (sym v ∙ e))
may_contain-Grows bf bf' k g n v (inr old) =
    may_contain-Has bf' k
      (rw n (HasRounds-Grows bf.bits bf'.bits (hash_pair k) 0 bf.num_hashes g old))

-- Building a filter from keys ends without a panic, whatever the number of bits for a key, and the
-- filter then answers that it may contain each of the keys.
pub may_contain-from_keys_with_bits :
    (keys : List Bytes) (bits_per_key : ℕ)
    → (bf : BloomFilter) × (from_keys_with_bits keys bits_per_key ≡ some bf)
      × All (λ key. may_contain bf key ≡ some true) keys
unfolding from_keys_with_bits
may_contain-from_keys_with_bits keys bits_per_key =
    let start = with_bits_per_key (length keys) bits_per_key in
    let (bf, e, kept, has) =
      insert_keys-Has start keys (with_bits_per_key-pos (length keys) bits_per_key) in
    (bf, e, All-map keys (may_contain-Has bf) has)

-- Inserting a key into a filter that has bits ends without a panic, the filter then may contain the
-- key, and every key that it may have contained before it may contain still.
pub may_contain-insert :
    (bf : BloomFilter) (key k : Bytes)
    → 0 < length bf.bits
    → may_contain bf k ≡ some true
    → (bf' : BloomFilter) × (insert bf key ≡ some bf')
      × (may_contain bf' key ≡ some true)
      × (may_contain bf' k ≡ some true)
may_contain-insert bf key k h old =
    let (bf', e, g, n, v, has) = insert-Has bf key h in
    (
      bf',
      e,
      may_contain-Has bf' key has,
      may_contain-Grows bf bf' k g n v (Has-may_contain bf k old),
    )
