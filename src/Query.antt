-- ===== src/Query.antt =====
-- src/record.rs: `KeyFilter`, `Query`, `ScanRange` and the successor of a prefix. Strings are the
-- bytes of their UTF-8 form. `key_matches` is the key test of `filter_sst_block` in src/engine.rs.
pub mod Prefix
mod Ranges
mod Tests
use flowdb.Base.{
  ℕ, suc, ◌+◌, Bool, true, false, ◌&&◌, ltb, if◌then◌else◌, Option, none, some, List, [], ◌∷◌, ◌++◌,
}
use flowdb.Base.Bytes.{Bytes, le_bytes, lt_bytes, eq_bytes, starts_with}
use flowdb.Base.Int.{ℤ, leb_ℤ, ltb_ℤ}

pub data KeyFilter : Type 0 where
  prefix : Bytes → KeyFilter
  range : Bytes → Bytes → KeyFilter
  all_keys : KeyFilter

pub record Query : Type 0 where
  pub key_filter : KeyFilter
  pub time_range : Option (ℤ × ℤ)

unfoldable pub query_prefix : Bytes → Query
query_prefix key = record { key_filter = prefix key; time_range = none }

unfoldable pub query_key_range : Bytes → Bytes → Query
query_key_range start end = record { key_filter = range start end; time_range = none }

unfoldable pub query_time_range : ℤ → ℤ → Query
query_time_range start end = record { key_filter = all_keys; time_range = some (start, end) }

unfoldable pub query_prefix_time_range : Bytes → ℤ → ℤ → Query
query_prefix_time_range key start end = record {
  key_filter = prefix key;
  time_range = some (start, end);
}

unfoldable pub query_key_time_range : Bytes → Bytes → ℤ → ℤ → Query
query_key_time_range start_key end_key start end = record {
  key_filter = range start_key end_key;
  time_range = some (start, end);
}

pub data Bound {ℓ} (A : Type ℓ) : Type ℓ where
  included : A → Bound A
  excluded : A → Bound A
  unbounded : Bound A

pub record ScanRange : Type 0 where
  pub key_start : Bound Bytes
  pub key_end : Bound Bytes
  pub ts_start : Bound ℤ
  pub ts_end : Bound ℤ

-- The loop of `increment_prefix_bytes`: bytes of 255 are popped off the end, and the last byte that
-- is below 255 is incremented; `none` where every byte is popped.
unfoldable pub bump : Bytes → Option Bytes
bump [] = none
bump (x ∷ xs) = elim (bump xs) [
  | some ys ↦ some (x ∷ ys)
  | none ↦ if ltb x 255 then some ((x + 1) ∷ []) else none
]

unfoldable pub increment_prefix_bytes : Bytes → Bytes
unfolding bump
increment_prefix_bytes key = elim (bump key) [ some end ↦ end | none ↦ key ++ (0 ∷ []) ]

unfoldable pub is_prefix_range : Bytes → Bytes → Bool
unfolding increment_prefix_bytes eq_bytes
is_prefix_range start end = eq_bytes end (increment_prefix_bytes start)

unfoldable pub scan_prefix : Bytes → ScanRange
unfolding increment_prefix_bytes
scan_prefix p = record {
  key_start = included p;
  key_end = excluded (increment_prefix_bytes p);
  ts_start = unbounded;
  ts_end = unbounded;
}

unfoldable pub scan_time_range : ℤ → ℤ → ScanRange
scan_time_range start end = record {
  key_start = unbounded;
  key_end = unbounded;
  ts_start = included start;
  ts_end = included end;
}

unfoldable pub scan_prefix_time_range : Bytes → ℤ → ℤ → ScanRange
unfolding increment_prefix_bytes
scan_prefix_time_range p ts_start ts_end = record {
  key_start = included p;
  key_end = excluded (increment_prefix_bytes p);
  ts_start = included ts_start;
  ts_end = included ts_end;
}

unfoldable pub scan_key_range : Bytes → Bytes → ScanRange
scan_key_range start end = record {
  key_start = included start;
  key_end = included end;
  ts_start = unbounded;
  ts_end = unbounded;
}

unfoldable pub scan_key_time_range : Bytes → Bytes → ℤ → ℤ → ScanRange
scan_key_time_range start end ts_start ts_end = record {
  key_start = included start;
  key_end = included end;
  ts_start = included ts_start;
  ts_end = included ts_end;
}

unfoldable pub scan_all : ScanRange
scan_all = record {
  key_start = unbounded;
  key_end = unbounded;
  ts_start = unbounded;
  ts_end = unbounded;
}

-- The first match of `to_query_params`.
unfoldable pub key_params : Bound Bytes → Bound Bytes → KeyFilter
unfolding is_prefix_range
key_params (included s) (excluded e) = if is_prefix_range s e then prefix s else range s e
key_params (included s) (included e) = range s e
key_params _ _ = all_keys

-- The second match.
unfoldable pub time_params : Bound ℤ → Bound ℤ → Option (ℤ × ℤ)
time_params (included s) (included e) = some (s, e)
time_params _ _ = none

unfoldable pub to_query_params : ScanRange → KeyFilter × Option (ℤ × ℤ)
unfolding key_params time_params
to_query_params r = (key_params r.key_start r.key_end, time_params r.ts_start r.ts_end)

unfoldable pub key_matches : KeyFilter → Bytes → Bool
unfolding starts_with le_bytes
key_matches (prefix p) k = starts_with k p
key_matches (range s e) k = le_bytes s k && le_bytes k e
key_matches all_keys k = true

unfoldable pub time_matches : Option (ℤ × ℤ) → ℤ → Bool
time_matches none ts = true
time_matches (some (s, e)) ts = if ltb_ℤ ts s then false else if ltb_ℤ e ts then false else true
