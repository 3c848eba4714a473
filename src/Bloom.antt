-- ===== src/Bloom.antt =====
-- src/bloom.rs: the Bloom filter of a table file. `none` stands for a panic: `% num_bits` with no
-- bits, or an index out of bounds.
pub mod Words
pub mod Members
mod Tests
use flowdb.Base.{
  ℕ, zero, suc, ◌+◌, ◌-◌, ◌*◌, ◌/◌, ◌%◌, ◌^◌, min, max, Bool, true, false, not, ◌==◌, if◌then◌else◌,
  length, get_elem?, set, replicate, Option, none, some, List, [], ◌∷◌, ◌>>=◌,
}
use Prim.Native.Nat.{bit_and, bit_or, bit_xor}
use flowdb.Base.Bytes.{Bytes}
use flowdb.Base.Hash.{fx_hash}

abbrev pub current_hash_version : ℕ
current_hash_version = 2

pub record BloomFilter : Type 0 where
  pub bits : List ℕ
  pub num_hashes : ℕ
  pub hash_version : ℕ

-- `a.div_ceil(b)`
unfoldable pub div_ceil : ℕ → ℕ → ℕ
div_ceil a b = (a + (b - 1)) / b

-- `usize` has 64 bits; `*` wraps, as in a release build.
unfoldable pub with_bits_per_key : ℕ → ℕ → BloomFilter
unfolding div_ceil
with_bits_per_key expected_keys bits_per_key =
    let num_hashes = min (div_ceil (min (bits_per_key * 69) (2 ^ 64 - 1)) 100) 30 % 2 ^ 8 in
    let num_bits = max (expected_keys * bits_per_key % 2 ^ 64) 64 in
    record {
      bits = replicate (div_ceil num_bits 64) 0;
      num_hashes = max num_hashes 2;
      hash_version = current_hash_version;
    }

abbrev pub seed_a : ℕ
seed_a = 0x5365_7244_424c_4f4f

abbrev pub seed_b : ℕ
seed_b = 0x5744_425f_464c_4f57

unfoldable pub hash_pair : Bytes → ℕ × ℕ
hash_pair bytes =
    (fx_hash bytes (bit_xor seed_a seed_b), fx_hash bytes (bit_xor (2 ^ 64 - 1 - seed_a) seed_b))

-- `hash % num_bits` of the round `i`.
unfoldable pub bit_pos : ℕ × ℕ → ℕ → ℕ → Option ℕ
bit_pos (h1, h2) i zero = none
bit_pos (h1, h2) i (suc n) = some ((h1 + i * h2 % 2 ^ 64) % 2 ^ 64 % suc n)

-- `self.bits[pos / 64] |= 1 << (pos % 64)`
unfoldable pub set_bit : List ℕ → ℕ → Option (List ℕ)
set_bit bits pos = elim (get_elem? bits (pos / 64)) [
  | none ↦ none
  | some w ↦ some (set bits (pos / 64) (bit_or w (2 ^ (pos % 64))))
]

-- `self.bits[pos / 64] & (1 << (pos % 64)) != 0`
unfoldable pub test_bit : List ℕ → ℕ → Option Bool
test_bit bits pos = elim (get_elem? bits (pos / 64)) [
  | none ↦ none
  | some w ↦ some (not (bit_and w (2 ^ (pos % 64)) == 0))
]

-- The loop of `insert` from the round `i`, with so many rounds to go.
unfoldable pub insert_loop : List ℕ → ℕ × ℕ → ℕ → ℕ → Option (List ℕ)
insert_loop bits hs i zero = some bits
insert_loop bits hs i (suc n) = bit_pos hs i (length bits * 64) >>= λ pos.
    set_bit bits pos >>= λ bits'. insert_loop bits' hs (suc i) n

unfoldable pub insert : BloomFilter → Bytes → Option BloomFilter
insert bf key = elim (insert_loop bf.bits (hash_pair key) 0 bf.num_hashes) [
  | none ↦ none
  | some bits ↦ some (record bf { bits = bits })
]

unfoldable pub insert_keys : BloomFilter → List Bytes → Option BloomFilter
insert_keys bf [] = some bf
insert_keys bf (key ∷ keys) = insert bf key >>= λ bf'. insert_keys bf' keys

unfoldable pub from_keys_with_bits : List Bytes → ℕ → Option BloomFilter
from_keys_with_bits keys bits_per_key =
    insert_keys (with_bits_per_key (length keys) bits_per_key) keys

-- The loop of `may_contain`, which returns at the first bit that is not set.
unfoldable pub contain_loop : List ℕ → ℕ × ℕ → ℕ → ℕ → Option Bool
contain_loop bits hs i zero = some true
contain_loop bits hs i (suc n) = bit_pos hs i (length bits * 64) >>= λ pos.
    test_bit bits pos >>= λ found. elim found [
      | true ↦ contain_loop bits hs (suc i) n
      | false ↦ some false
    ]

unfoldable pub may_contain : BloomFilter → Bytes → Option Bool
may_contain bf key =
    if bf.hash_version == current_hash_version
    then contain_loop bf.bits (hash_pair key) 0 bf.num_hashes
    else some true

unfoldable pub mark_current : BloomFilter → BloomFilter
mark_current bf = record bf { hash_version = current_hash_version }
