-- ===== src/Scan/Seen.antt =====
-- What becomes of one record of a block, by its operation.
use flowdb.Base.{
  Bool, true, false, ◌&&◌, ◌||◌, if◌then◌else◌, ◌≡◌, refl, sym, arith, Bool-cases, Option, none,
  some, List, [], ◌∷◌, inl, inr, ℕ,
}
use flowdb.Base.Bytes.{Bytes, starts_with, lt_bytes_not_le}
use flowdb.Base.Int.{ℤ, ltb_ℤ}
use flowdb.Record.{InternalRecord, Op, put, delete, delete_range, eq_op, to_u8}
use flowdb.Query.{KeyFilter, prefix, range, all_keys, key_matches, time_matches}
use flowdb.Scan.{is_tombstoned}
use flowdb.Scan.Build.{
  Seen, skip, tombstone, keep, full_record, filter_record, kept, erased, is_full_scan, see_record,
}
use flowdb.Scan.Asked.{asks_key, asks_time, asks_all, asks, counts, bare, spans}

is_full_scan-asks_all :
    (kf : KeyFilter) (times : Option (ℤ × ℤ))
    → is_full_scan (record { key_filter = kf; time_range = times }) ≡ asks_all kf times
unfolding is_full_scan asks_all
is_full_scan-asks_all all_keys none = refl
is_full_scan-asks_all (prefix []) none = refl
is_full_scan-asks_all (prefix (x ∷ p)) none = refl
is_full_scan-asks_all (range start end) none = refl
is_full_scan-asks_all all_keys (some t) = refl
is_full_scan-asks_all (prefix p) (some t) = refl
is_full_scan-asks_all (range start end) (some t) = refl

asks_all-asks :
    (kf : KeyFilter) (times : Option (ℤ × ℤ)) (r : InternalRecord)
    → asks_all kf times ≡ true
    → asks (record { key_filter = kf; time_range = times }) r ≡ true
unfolding asks_all asks asks_key asks_time starts_with
asks_all-asks all_keys none r h = refl
asks_all-asks (prefix []) none r h = refl
asks_all-asks (prefix (x ∷ p)) none r h = cc
asks_all-asks (range start end) none r h = cc
asks_all-asks kf (some t) r h = cc

asks-matches :
    (kf : KeyFilter) (times : Option (ℤ × ℤ)) (r : InternalRecord)
    → (key_matches kf r.key && time_matches times r.ts)
      ≡ asks (record { key_filter = kf; time_range = times }) r
unfolding key_matches time_matches asks asks_key asks_time
asks-matches (prefix p) none r = ground arith
asks-matches (range start end) none r =
    ground (arith, lt_bytes_not_le r.key start, lt_bytes_not_le end r.key)
asks-matches all_keys none r = ground arith
asks-matches (prefix p) (some (s, e)) r = ground arith
asks-matches (range start end) (some (s, e)) r =
    ground (arith, lt_bytes_not_le r.key start, lt_bytes_not_le end r.key)
asks-matches all_keys (some (s, e)) r = ground arith

-- What becomes of a record, by its operation.
unfoldable pub see_by : Bool → Bool → Bool → InternalRecord → Op → Option Bytes → Seen
see_by full lasts wanted r put end =
    if lasts then if wanted then keep (bare full r) else skip else skip
see_by full lasts wanted r delete end =
    if lasts then if full then skip else if wanted then keep (bare full r) else skip else skip
see_by full lasts wanted r delete_range none = skip
see_by full lasts wanted r delete_range (some end) = if lasts then tombstone r.key end else skip

abbrev pub entry : ℕ → Bytes → ℤ → ℤ → Bytes → Op → Option Bytes → InternalRecord
entry seq key ts expire_at value op range_end = record {
  seq = seq;
  op = op;
  key = key;
  ts = ts;
  expire_at = expire_at;
  value = value;
  range_end = range_end;
}

full_record-see_by :
    (now_us : ℤ) (seq : ℕ) (key : Bytes) (ts expire_at : ℤ) (value : Bytes) (op : Op)
    (end : Option Bytes)
    → full_record now_us (entry seq key ts expire_at value op end)
      ≡ see_by true (ltb_ℤ now_us expire_at) true (entry seq key ts expire_at value op end) op end
unfolding full_record see_by bare
full_record-see_by now_us seq key ts expire_at value put e = ground arith
full_record-see_by now_us seq key ts expire_at value delete e = ground arith
full_record-see_by now_us seq key ts expire_at value delete_range none = ground arith
full_record-see_by now_us seq key ts expire_at value delete_range (some e) = ground arith

filter_record-see_by :
    (kf : KeyFilter) (times : Option (ℤ × ℤ)) (now_us : ℤ) (seq : ℕ) (key : Bytes)
    (ts expire_at : ℤ) (value : Bytes) (op : Op) (end : Option Bytes)
    → filter_record kf times false now_us (entry seq key ts expire_at value op end)
      ≡ see_by false
          (ltb_ℤ now_us expire_at)
          (key_matches kf key && time_matches times ts)
          (entry seq key ts expire_at value op end)
          op
          end
unfolding filter_record see_by bare eq_op to_u8
filter_record-see_by kf times now_us seq key ts expire_at value put e = ground arith
filter_record-see_by kf times now_us seq key ts expire_at value delete e = ground arith
filter_record-see_by kf times now_us seq key ts expire_at value delete_range none = ground arith
filter_record-see_by kf times now_us seq key ts expire_at value delete_range (some e) = ground arith

pub see_record-see_by :
    (kf : KeyFilter) (times : Option (ℤ × ℤ)) (now_us : ℤ) (r : InternalRecord)
    → see_record (record { key_filter = kf; time_range = times }) now_us r
      ≡ see_by
          (asks_all kf times)
          (ltb_ℤ now_us r.expire_at)
          (asks (record { key_filter = kf; time_range = times }) r)
          r
          r.op
          r.range_end
unfolding see_record
see_record-see_by kf times now_us r = elim (Bool-cases (asks_all kf times)) [
  | inl e ↦
      rw (is_full_scan-asks_all kf times, e, asks_all-asks kf times r e)
        (full_record-see_by now_us r.seq r.key r.ts r.expire_at r.value r.op r.range_end)
  | inr e ↦
      rw (is_full_scan-asks_all kf times, e, sym (asks-matches kf times r))
        (filter_record-see_by kf times now_us r.seq r.key r.ts r.expire_at r.value r.op r.range_end)
]

-- What is kept of one record, and whether it deletes the key of `x`.
pub kept_by :
    (full lasts wanted : Bool) (r : InternalRecord) (op : Op) (end : Option Bytes)
    (seen : List Seen)
    → kept (see_by full lasts wanted r op end ∷ seen)
      ≡ (if lasts && (wanted && counts full op) then bare full r ∷ kept seen else kept seen)
unfolding kept see_by counts
kept_by full false wanted r put end seen = refl
kept_by full true false r put end seen = refl
kept_by full true true r put end seen = refl
kept_by full false wanted r delete end seen = refl
kept_by false true false r delete end seen = refl
kept_by false true true r delete end seen = refl
kept_by true true false r delete end seen = refl
kept_by true true true r delete end seen = refl
kept_by full false wanted r delete_range none seen = refl
kept_by full true false r delete_range none seen = refl
kept_by full true true r delete_range none seen = refl
kept_by full false wanted r delete_range (some e) seen = refl
kept_by full true false r delete_range (some e) seen = refl
kept_by full true true r delete_range (some e) seen = refl

pub erased_by :
    (full lasts wanted : Bool) (r : InternalRecord) (op : Op) (end : Option Bytes)
    (seen : List Seen) (x : InternalRecord)
    → is_tombstoned (erased (see_by full lasts wanted r op end ∷ seen)) x
      ≡ (lasts && spans op r.key end x.key || is_tombstoned (erased seen) x)
unfolding erased see_by spans is_tombstoned
erased_by full false wanted r put end seen x = refl
erased_by full true false r put end seen x = refl
erased_by full true true r put end seen x = refl
erased_by full false wanted r delete end seen x = refl
erased_by false true false r delete end seen x = refl
erased_by false true true r delete end seen x = refl
erased_by true true false r delete end seen x = refl
erased_by true true true r delete end seen x = refl
erased_by full false wanted r delete_range none seen x = refl
erased_by full true wanted r delete_range none seen x = refl
erased_by full false wanted r delete_range (some e) seen x = refl
erased_by full true wanted r delete_range (some e) seen x =
    ground (arith, lt_bytes_not_le x.key r.key)
