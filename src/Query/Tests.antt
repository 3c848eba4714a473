-- ===== src/Query/Tests.antt =====
-- The theorems about prefixes and ranges at concrete inputs.
use flowdb.Base.{◌≡◌, refl, arith, true, ◌&&◌, [], ◌∷◌}
use flowdb.Base.Bytes.{le_bytes, lt_bytes, starts_with}
use flowdb.Base.Int.{pos}
use flowdb.Query.{
  increment_prefix_bytes, included, excluded, unbounded, to_query_params, scan_key_time_range,
  key_matches, time_matches, is_prefix_range,
}
use flowdb.Query.Prefix.{starts_with-increment_prefix_bytes}
use flowdb.Query.Ranges.{to_query_params_covers, to_query_params_excluded_end}

increment_carry : increment_prefix_bytes (97 ∷ 255 ∷ []) ≡ 98 ∷ []
unfolding increment_prefix_bytes
increment_carry = refl

starts_with-increment_prefix_bytes_example : starts_with (97 ∷ 255 ∷ 3 ∷ []) (97 ∷ 255 ∷ []) ≡ (
    le_bytes (97 ∷ 255 ∷ []) (97 ∷ 255 ∷ 3 ∷ [])
    && lt_bytes (97 ∷ 255 ∷ 3 ∷ []) (increment_prefix_bytes (97 ∷ 255 ∷ [])))
starts_with-increment_prefix_bytes_example =
    starts_with-increment_prefix_bytes (97 ∷ 255 ∷ []) (97 ∷ 255 ∷ 3 ∷ []) (omega arith)
      (omega arith) refl

to_query_params_covers_example :
    (key_matches
        (to_query_params (scan_key_time_range (97 ∷ []) (99 ∷ []) (pos 5) (pos 9))).0
        (98 ∷ [])
      ≡ true)
    × (time_matches
          (to_query_params (scan_key_time_range (97 ∷ []) (99 ∷ []) (pos 5) (pos 9))).1
          (pos 7)
        ≡ true)
unfolding scan_key_time_range le_bytes
to_query_params_covers_example =
    to_query_params_covers (scan_key_time_range (97 ∷ []) (99 ∷ []) (pos 5) (pos 9)) (98 ∷ [])
      (pos 7) (omega arith) (omega arith) refl refl refl refl

to_query_params_excluded_end_example :
    key_matches
      (to_query_params (record {
        key_start = included (97 ∷ []);
        key_end = excluded (99 ∷ []);
        ts_start = unbounded;
        ts_end = unbounded;
      })).0
      (99 ∷ [])
    ≡ true
unfolding is_prefix_range le_bytes
to_query_params_excluded_end_example =
    to_query_params_excluded_end (97 ∷ []) (99 ∷ []) unbounded unbounded refl refl
