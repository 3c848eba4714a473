-- ===== src/BlockIndex/Overlaps.antt =====
-- A block that holds a record that a query wants is not passed over.
use flowdb.Base.{◌≡◌, arith, any, ltb, true, false, some}
use flowdb.Base.Bytes.{
  Bytes, lt_bytes, le_bytes, starts_with, le_bytes_trans, lt_bytes_not_le, IsBytes,
}
use flowdb.Base.Int.{ℤ, ◌≤ℤ◌}
use flowdb.Query.{bump, increment_prefix_bytes}
use flowdb.Query.Prefix.{bump_below, starts_with-increment_prefix_bytes}
use flowdb.Record.{InternalRecord}
use flowdb.BlockIndex.{
  BlockMeta, increment_prefix, overlaps_key_prefix, overlaps_key_range, overlaps_time, is_expired,
}

-- The bounds that the writer of a block keeps for its records.
pub record Bounds (b : BlockMeta) (r : InternalRecord) : Type 0 where
  pub min_key : le_bytes b.min_key r.key ≡ true
  pub max_key : le_bytes r.key b.max_key ≡ true
  pub min_ts : b.min_ts ≤ℤ r.ts
  pub max_ts : r.ts ≤ℤ b.max_ts
  pub max_expire : r.expire_at ≤ℤ b.max_expire

-- The block of a record passes the tests of the index in every query that the record answers: by a
-- range of keys that holds its key, by a range of times that holds its time, and by expiry.
pub overlaps-Bounds :
    (b : BlockMeta) (r : InternalRecord) (start end : Bytes) (ts_start ts_end now_us : ℤ)
    → Bounds b r
    → le_bytes start r.key ≡ true
    → le_bytes r.key end ≡ true
    → ts_start ≤ℤ r.ts
    → r.ts ≤ℤ ts_end
    → now_us ≤ℤ r.expire_at
    → (overlaps_key_range b start end ≡ true)
      × (overlaps_time b ts_start ts_end ≡ true)
      × (is_expired b now_us ≡ false)
unfolding overlaps_key_range overlaps_time is_expired
overlaps-Bounds b r start end ts_start ts_end now_us h ks ke ts te x = (
  ground (
    arith,
    le_bytes_trans b.min_key r.key end h.min_key ke,
    le_bytes_trans start r.key b.max_key ks h.max_key,
  ),
  ground (arith, h.min_ts, h.max_ts),
  ground (arith, h.max_expire),
)

pub lt_of_le_of_lt :
    (a b c : Bytes) → le_bytes a b ≡ true → lt_bytes b c ≡ true → lt_bytes a c ≡ true
lt_of_le_of_lt a b c h k =
    ground (arith, lt_bytes_not_le b c, lt_bytes_not_le a c, le_bytes_trans c a b)

increment_prefix_same :
    (p e : Bytes) → bump p ≡ some e → increment_prefix p ≡ increment_prefix_bytes p
unfolding increment_prefix increment_prefix_bytes
increment_prefix_same p e h = rw (increment_prefix, increment_prefix_bytes, h)

-- For a prefix with a byte below 255, the block of a record whose key starts with the prefix passes
-- the test of the prefix.
pub overlaps_key_prefix-Bounds :
    (b : BlockMeta) (r : InternalRecord) (prefix : Bytes)
    → IsBytes prefix
    → IsBytes r.key
    → any (λ x. ltb x 255) prefix ≡ true
    → Bounds b r
    → starts_with r.key prefix ≡ true
    → overlaps_key_prefix b prefix ≡ true
unfolding overlaps_key_prefix
overlaps_key_prefix-Bounds b r prefix hp hk below h s =
    let (e, q) = bump_below prefix below in
    let inside = starts_with-increment_prefix_bytes prefix r.key hp hk below in
    ground (
      arith,
      increment_prefix_same prefix e q,
      lt_of_le_of_lt b.min_key r.key (increment_prefix_bytes prefix) h.min_key,
      le_bytes_trans prefix r.key b.max_key,
      h.max_key,
    )
