-- ===== src/BlockIndex/Maps/Answers.antt =====
-- What a query finds in the index.
use flowdb.Base.{◌||◌, any, ltb, ◌≡◌, Bool, true, not, ◌&&◌, List}
use flowdb.Base.Bytes.{Bytes, IsBytes, lt_bytes, le_bytes, starts_with}
use flowdb.Base.Int.{ℤ, leb_ℤ}
use flowdb.Query.{KeyFilter, prefix, range, all_keys}
use flowdb.BlockIndex.{
  BlockMeta, increment_prefix, overlaps_key_prefix, overlaps_key_range, is_expired,
}

-- The test of the loops of the code.
unfoldable accepts : KeyFilter → ℤ → BlockMeta → Bool
accepts (prefix key) now_us m = not (is_expired m now_us) && overlaps_key_prefix m key
accepts (range start end) now_us m = not (is_expired m now_us) && overlaps_key_range m start end
accepts all_keys now_us m = not (is_expired m now_us)

-- Some key of the filter lies from the least key of the block to its greatest. A prefix is the
-- least key that starts with it.
unfoldable pub spans_key : KeyFilter → BlockMeta → Bool
spans_key (prefix key) m =
    (le_bytes m.min_key key || starts_with m.min_key key) && le_bytes key m.max_key
spans_key (range start end) m = not (lt_bytes end m.min_key) && not (lt_bytes m.max_key start)
spans_key all_keys m = true

-- A block that holds a key of the filter in its bounds, and a record that may not have expired.
unfoldable pub answers : KeyFilter → ℤ → BlockMeta → Bool
unfolding spans_key
answers kf now_us m = leb_ℤ now_us m.max_expire && spans_key kf m

-- Where the code can tell the end of the keys: a prefix has a byte below 255, and the end of a range
-- is below what it is incremented to, so that the sentinel is not too small.
abbrev pub Reaches : KeyFilter → Type 0
Reaches (prefix key) = IsBytes key × (any (λ b. ltb b 255) key ≡ true)
Reaches (range start end) = lt_bytes end (increment_prefix end) ≡ true
Reaches all_keys = Unit

abbrev CodeReaches : KeyFilter → Type 0
CodeReaches (prefix key) = Unit
CodeReaches (range start end) = lt_bytes end (increment_prefix end) ≡ true
CodeReaches all_keys = Unit
