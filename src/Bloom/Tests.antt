-- ===== src/Bloom/Tests.antt =====
-- The theorems about the filter at concrete inputs.
use flowdb.Base.{refl, ◌-◌, ◌^◌, ◌≡◌, true, All, some, List, [], ◌∷◌, arith}
use flowdb.Base.Bytes.{Bytes}
use flowdb.Bloom.{
  BloomFilter, insert, from_keys_with_bits, may_contain, contain_loop, hash_pair, bit_pos, test_bit,
}
use flowdb.Base.Hash.{fx_hash}
use flowdb.Bloom.Members.{may_contain-from_keys_with_bits, may_contain-insert}

abbrev keys : List Bytes
keys = (97 ∷ 98 ∷ []) ∷ (99 ∷ []) ∷ []

may_contain-from_keys_with_bits_example :
    (bf : BloomFilter) × (from_keys_with_bits keys 10 ≡ some bf)
    × All (λ key. may_contain bf key ≡ some true) keys
may_contain-from_keys_with_bits_example = may_contain-from_keys_with_bits keys 10

-- Every bit is set.
abbrev full : BloomFilter
full = record { bits = (2 ^ 64 - 1) ∷ []; num_hashes = 2; hash_version = 2 }

full-may_contain : may_contain full (98 ∷ []) ≡ some true
unfolding may_contain contain_loop hash_pair bit_pos test_bit fx_hash
full-may_contain = refl

may_contain-insert_example :
    (bf' : BloomFilter) × (insert full (97 ∷ []) ≡ some bf')
    × (may_contain bf' (97 ∷ []) ≡ some true)
    × (may_contain bf' (98 ∷ []) ≡ some true)
may_contain-insert_example =
    may_contain-insert full (97 ∷ []) (98 ∷ []) (omega arith) full-may_contain
