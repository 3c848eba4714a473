-- ===== src/Config.antt =====
-- src/error.rs: the errors that the modelled code returns. src/record.rs: `Config` and `validate`.
-- The data directory is not part of the model.
mod Validate
mod Tests
use Prim.Native.String.{String}
use flowdb.Base.{ℕ, ◌-◌, ◌/◌, ◌^◌, ◌==◌, ltb, if◌then◌else◌, Bool, true, Option, none, some}
use flowdb.Base.Bytes.{Bytes}

pub data FlowError : Type 0 where
  corruption : String → FlowError
  config : String → FlowError
  block_not_found : ℕ → ℕ → FlowError
  invalid_magic : ℕ → ℕ → FlowError
  json_db : String → FlowError
  other : String → FlowError

pub data Result {ℓ} (A : Type ℓ) : Type ℓ where
  ok : A → Result A
  err : FlowError → Result A

-- `?` on a `Result`.
infixl 5 ◌>>=◌
abbrev pub ◌>>=◌ {ℓ κ} : {A : Type ℓ} {B : Type κ} → Result A → (A → Result B) → Result B
ok a >>= f = f a
err e >>= f = err e

pub data SyncMode : Type 0 where
  always : SyncMode
  interval_ms : ℕ → SyncMode

pub record Config : Type 0 where
  pub default_ttl_secs : Option ℕ
  pub gc_interval_secs : ℕ
  pub memtable_size_mb : ℕ
  pub max_frozen_memtables : ℕ
  pub block_size : ℕ
  pub flush_interval_ms : ℕ
  pub time_bucket_secs : ℕ
  pub index_memory_budget_mb : ℕ
  pub block_cache_capacity_mb : ℕ
  pub bloom_bits_per_key : ℕ
  pub wal_segment_size_mb : ℕ
  pub compaction_threshold : ℕ
  pub create_if_missing : Bool
  pub wal_sync_mode : SyncMode
  pub auto_background : Bool

abbrev pub default : Config
default = record {
  default_ttl_secs = none;
  gc_interval_secs = 3600;
  memtable_size_mb = 64;
  max_frozen_memtables = 2;
  block_size = 8192;
  flush_interval_ms = 1000;
  time_bucket_secs = 3600;
  index_memory_budget_mb = 256;
  block_cache_capacity_mb = 128;
  bloom_bits_per_key = 10;
  wal_segment_size_mb = 64;
  compaction_threshold = 2;
  create_if_missing = true;
  wal_sync_mode = always;
  auto_background = true;
}

-- `i64::MAX as u64 / 1_000_000`
abbrev pub max_secs : ℕ
max_secs = (2 ^ 63 - 1) / 1_000_000

-- `if guard { return Err(Config(message)) }`, then the rest.
abbrev reject_if : Bool → String → Result (Unit {0}) → Result (Unit {0})
reject_if bad message rest = if bad then err (config message) else rest

-- `ttl` is the test of an `if let Some(ttl) = self.default_ttl_secs && ...`.
abbrev on_ttl : Option ℕ → (ℕ → Bool) → Bool
on_ttl none p = Bool.false
on_ttl (some ttl) p = p ttl

unfoldable pub validate : Config → Result (Unit {0})
validate c =
    reject_if (c.memtable_size_mb == 0) "memtable_size_mb must be >= 1 (0 causes a flush storm)" (
      reject_if (c.max_frozen_memtables == 0)
        "max_frozen_memtables must be >= 1 (0 means unbounded growth)"
        (reject_if (c.block_size == 0) "block_size must be >= 1" (
          reject_if (c.time_bucket_secs == 0)
            "time_bucket_secs must be >= 1 (0 causes division-by-zero panic)"
            (reject_if (c.bloom_bits_per_key == 0)
              "bloom_bits_per_key must be >= 1 (0 produces a useless filter)"
              (reject_if (c.wal_segment_size_mb == 0)
                "wal_segment_size_mb must be >= 1 (0 causes segment rollover on every write)"
                (reject_if (c.compaction_threshold == 0)
                  "compaction_threshold must be >= 1 (0 disables compaction entirely)"
                  (reject_if (c.block_cache_capacity_mb == 0) "block_cache_capacity_mb must be >= 1"
                    (reject_if (on_ttl c.default_ttl_secs (λ ttl. ttl == 0))
                      "default_ttl_secs must be > 0 if set (0 = instant expiry)"
                      (reject_if (on_ttl c.default_ttl_secs (λ ttl. ltb max_secs ttl))
                        "default_ttl_secs is too large (would overflow i64 when converted to microseconds)"
                        (reject_if (ltb max_secs c.time_bucket_secs)
                          "time_bucket_secs is too large (product with 1_000_000 would overflow i64)"
                          (ok tt)))))))))))
