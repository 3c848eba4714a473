-- ===== src/Config/Validate.antt =====
-- What `Config::validate` accepts.
use flowdb.Base.{ℕ, refl, ◌*◌, ◌<◌, ◌^◌, ◌≡◌, ◌↔◌, arith, Option, none, some}
use flowdb.Config.{Config, ok, validate}

-- The accepted ranges: no zero size, and no time span that overflows an `i64` of microseconds.
abbrev TtlFits : Option ℕ → Type 0
TtlFits none = Unit {0}
TtlFits (some ttl) = (0 < ttl) × (ttl * 1_000_000 < 2 ^ 63)

pub record IsValid (c : Config) : Type 0 where
  pub memtable : 0 < c.memtable_size_mb
  pub frozen : 0 < c.max_frozen_memtables
  pub block : 0 < c.block_size
  pub bucket : 0 < c.time_bucket_secs
  pub bucket_fits : c.time_bucket_secs * 1_000_000 < 2 ^ 63
  pub bloom : 0 < c.bloom_bits_per_key
  pub segment : 0 < c.wal_segment_size_mb
  pub threshold : 0 < c.compaction_threshold
  pub capacity : 0 < c.block_cache_capacity_mb
  pub ttl : TtlFits c.default_ttl_secs

validate-IsValid :
    (c : Config) (o : Option ℕ) → c.default_ttl_secs ≡ o → validate c ≡ ok tt → IsValid c
unfolding validate
validate-IsValid c none e h = ground arith
validate-IsValid c (some ttl) e h = ground arith

IsValid-validate :
    (c : Config) (o : Option ℕ) → c.default_ttl_secs ≡ o → IsValid c → validate c ≡ ok tt
unfolding validate
IsValid-validate c none e v = ground arith
IsValid-validate c (some ttl) e v = ground arith

-- `validate` accepts exactly the configurations in which the memtable size, the frozen limit, the
-- block size, the time bucket, the bloom bits, the segment size, the compaction threshold and the
-- cache capacity are positive, the time bucket in microseconds fits an `i64`, and so does a default
-- TTL, if set, which is positive too.
pub validate_iff : (c : Config) → (validate c ≡ ok tt) ↔ IsValid c
validate_iff c =
    (validate-IsValid c c.default_ttl_secs refl, IsValid-validate c c.default_ttl_secs refl)
