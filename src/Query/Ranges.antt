-- ===== src/Query/Ranges.antt =====
-- What `ScanRange::to_query_params` keeps of a range.
use flowdb.Base.{◌≡◌, refl, arith, Bool, true, false, none, Bool-cases, inl, inr}
use flowdb.Base.Bytes.{
  Bytes, IsBytes, le_bytes, lt_bytes, eq_bytes_iff, le_of_lt_bytes, le_bytes_refl,
}
use flowdb.Base.Int.{ℤ, leb_ℤ, ltb_ℤ}
use flowdb.Query.{
  Bound, included, excluded, unbounded, ScanRange, prefix, key_params, time_params, to_query_params,
  key_matches, time_matches, is_prefix_range, increment_prefix_bytes, scan_prefix,
}
use flowdb.Query.Prefix.{increment_prefix_bytes_sound}

-- The bounds as the standard library's `RangeBounds` reads them.
abbrev from_start : Bound Bytes → Bytes → Bool
from_start (included s) k = le_bytes s k
from_start (excluded s) k = lt_bytes s k
from_start unbounded k = true

abbrev to_end : Bound Bytes → Bytes → Bool
to_end (included e) k = le_bytes k e
to_end (excluded e) k = lt_bytes k e
to_end unbounded k = true

abbrev from_ts : Bound ℤ → ℤ → Bool
from_ts (included s) t = leb_ℤ s t
from_ts (excluded s) t = ltb_ℤ s t
from_ts unbounded t = true

abbrev to_ts : Bound ℤ → ℤ → Bool
to_ts (included e) t = leb_ℤ t e
to_ts (excluded e) t = ltb_ℤ t e
to_ts unbounded t = true

-- The bytes of a bound are bytes.
abbrev IsByteBound : Bound Bytes → Type 0
IsByteBound (included s) = IsBytes s
IsByteBound (excluded s) = IsBytes s
IsByteBound unbounded = Unit {0}

key_params_excluded :
    (s e k : Bytes)
    → IsBytes s
    → IsBytes k
    → le_bytes s k ≡ true
    → lt_bytes k e ≡ true
    → key_matches (key_params (included s) (excluded e)) k ≡ true
unfolding key_params key_matches
key_params_excluded s e k hs hk p q = elim (Bool-cases (is_prefix_range s e)) [
  | inl t ↦
      let same : e ≡ increment_prefix_bytes s =
        (eq_bytes_iff e (increment_prefix_bytes s)).0 (unfold is_prefix_range in t) in
      rw (t, key_params) (increment_prefix_bytes_sound s k hs hk p (rw same at q))
  | inr f ↦ rw (f, key_params) (ground (arith, le_of_lt_bytes k e))
]

key_params_covers :
    (lo hi : Bound Bytes) (k : Bytes)
    → IsByteBound lo
    → IsBytes k
    → from_start lo k ≡ true
    → to_end hi k ≡ true
    → key_matches (key_params lo hi) k ≡ true
unfolding key_params key_matches
key_params_covers (included s) (excluded e) k hs hk p q = key_params_excluded s e k hs hk p q
key_params_covers (included s) (included e) k hs hk p q = ground arith
key_params_covers (included s) unbounded k hs hk p q = refl
key_params_covers (excluded s) hi k hs hk p q = refl
key_params_covers unbounded hi k hs hk p q = refl

time_params_covers :
    (lo hi : Bound ℤ) (t : ℤ)
    → from_ts lo t ≡ true
    → to_ts hi t ≡ true
    → time_matches (time_params lo hi) t ≡ true
unfolding time_params time_matches
time_params_covers (included s) (included e) t p q = ground arith
time_params_covers (included s) (excluded e) t p q = refl
time_params_covers (included s) unbounded t p q = refl
time_params_covers (excluded s) hi t p q = refl
time_params_covers unbounded hi t p q = refl

-- No record of a range is lost: if a key of bytes and a time lie within the bounds of a scan range,
-- whose lower key bound is made of bytes, then the key filter and the time range that
-- `to_query_params` derives accept them.
pub to_query_params_covers :
    (r : ScanRange) (k : Bytes) (t : ℤ)
    → IsByteBound r.key_start
    → IsBytes k
    → from_start r.key_start k ≡ true
    → to_end r.key_end k ≡ true
    → from_ts r.ts_start t ≡ true
    → to_ts r.ts_end t ≡ true
    → (key_matches (to_query_params r).0 k ≡ true) × (time_matches (to_query_params r).1 t ≡ true)
unfolding to_query_params
to_query_params_covers r k t hb hk p q u v = (
  key_params_covers r.key_start r.key_end k hb hk p q,
  time_params_covers r.ts_start r.ts_end t u v,
)

-- A prefix range becomes the prefix filter again, at every prefix.
to_query_params-scan_prefix : (p : Bytes) → to_query_params (scan_prefix p) ≡ (prefix p, none)
unfolding to_query_params scan_prefix
to_query_params-scan_prefix p =
    rw ((eq_bytes_iff (increment_prefix_bytes p) (increment_prefix_bytes p)).1 refl, key_params)

-- The end of a half-open key range that is no prefix range is not left out: the filter is closed,
-- and it accepts the excluded end itself.
pub to_query_params_excluded_end :
    (s e : Bytes) (lo hi : Bound ℤ)
    → is_prefix_range s e ≡ false
    → le_bytes s e ≡ true
    → key_matches
        (to_query_params
          (record { key_start = included s; key_end = excluded e; ts_start = lo; ts_end = hi })).0
        e
      ≡ true
unfolding to_query_params key_params key_matches
to_query_params_excluded_end s e lo hi np h = rw np (ground (arith, le_bytes_refl e))
