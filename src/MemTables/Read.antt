-- ===== src/MemTables/Read.antt =====
-- `get_latest` over all the tables.
use flowdb.Base.{
  refl, Bool, not, ◌&&◌, ◌||◌, leb, ◌≡◌, ◌⊎◌, sym, true, arith, filter, filter-append, flat_map,
  All-append, Option, none, some, List, [], ◌∷◌, ◌++◌, append-nil, append_assoc, inl, inr,
}
use mathlib.Core.List.{mem-append_left, mem-append_right}
use flowdb.Base.Bytes.{Bytes, eq_bytes, eq_bytes_iff}
use flowdb.Base.Int.{ℤ, ltb_ℤ, eqb_ℤ}
use flowdb.Base.Sorts.{IsGreatest, All-map, filter_ext}
use flowdb.Record.{InternalRecord, Op, put, delete, delete_range, eq_op, to_u8}
use flowdb.Record.Kinds.{is_put}
use flowdb.MemTable
use flowdb.MemTable.{MemTable, is_live, latest_at_most}
use flowdb.MemTable.Latest.{get_latest-IsGreatest, latest_at_most_trans}
use flowdb.MemTables.{MemTables, better, latest_of, get_latest}

better_cases :
    (b r : InternalRecord)
    → ((better (some b) (some r) ≡ some r) × (latest_at_most b r ≡ true))
      ⊎ ((better (some b) (some r) ≡ some b) × (latest_at_most r b ≡ true))
unfolding better latest_at_most
better_cases b r = ground arith

better-IsGreatest :
    (best found : Option InternalRecord) (xs ys : List InternalRecord)
    → IsGreatest latest_at_most best xs
    → IsGreatest latest_at_most found ys
    → IsGreatest latest_at_most (better best found) (xs ++ ys)
better-IsGreatest none none xs ys h k = unfold better in rw (h, k)
better-IsGreatest (some b) none xs ys h k = unfold better in rw (k, append-nil xs) h
better-IsGreatest none (some r) xs ys h k = unfold better in rw h k
better-IsGreatest (some b) (some r) xs ys h k = elim (better_cases b r) [
  | inl (e, le) ↦ rw e (
    mem-append_right xs k.0,
    All-append _ xs ys (All-map xs (λ x q. latest_at_most_trans x b r q le) h.1) k.1,
  )
  | inr (e, le) ↦ rw e (
    mem-append_left ys h.0,
    All-append _ xs ys h.1 (All-map ys (λ y q. latest_at_most_trans y r b q le) k.1),
  )
]

-- All records, in the order that the queries visit them in.
abbrev pub contents : MemTables → List InternalRecord
contents ts = ts.active.records ++ flat_map (λ t. t.records) ts.frozen

latest_of-IsGreatest :
    (best : Option InternalRecord) (ts : List MemTable) (key : Bytes) (now_us : ℤ)
    (xs : List InternalRecord)
    → IsGreatest latest_at_most best (filter (is_live key now_us) xs)
    → IsGreatest latest_at_most
        (latest_of best ts key now_us)
        (filter (is_live key now_us) (xs ++ flat_map (λ t. t.records) ts))
unfolding latest_of
latest_of-IsGreatest best [] key now_us xs h = rw (append-nil xs) h
latest_of-IsGreatest best (t ∷ ts) key now_us xs h =
    rw (sym (append_assoc xs t.records (flat_map (λ t. t.records) ts))) (
      latest_of-IsGreatest (better best (MemTable.get_latest t key now_us)) ts key now_us
        (xs ++ t.records)
        (rw (filter-append (is_live key now_us) xs t.records)
          (better-IsGreatest best _ _ _ h (get_latest-IsGreatest t key now_us))))

-- A put of the key that has not expired before `now_us`.
unfoldable pub is_put_of : Bytes → ℤ → InternalRecord → Bool
is_put_of key now_us r = is_put r.op && (eq_bytes key r.key && not (ltb_ℤ r.expire_at now_us))

-- Of a lower time, or of the same time and no higher number.
unfoldable pub not_later : InternalRecord → InternalRecord → Bool
not_later a b = ltb_ℤ a.ts b.ts || eqb_ℤ a.ts b.ts && leb a.seq b.seq

is_live-put : (op : Op) → (not (eq_op op delete) && not (eq_op op delete_range)) ≡ is_put op
unfolding is_put eq_op to_u8
is_live-put put = refl
is_live-put delete = refl
is_live-put delete_range = refl

is_live-is_put_of :
    (key : Bytes) (now_us : ℤ) (r : InternalRecord) → is_live key now_us r ≡ is_put_of key now_us r
unfolding is_live is_put_of
is_live-is_put_of key now_us r =
    ground (arith, is_live-put r.op, eq_bytes_iff key r.key, eq_bytes_iff r.key key)

latest_at_most-not_later : (a b : InternalRecord) → latest_at_most a b ≡ true → not_later a b ≡ true
unfolding latest_at_most not_later
latest_at_most-not_later a b h = ground (arith, h)

-- `get_latest` finds a put of the key that has not expired and of which no other such put in any
-- table has a later time, or the same time and a higher number; it finds none only where no table
-- has one. Deletions are passed over: they hide no put.
pub get_latest-contents :
    (ts : MemTables) (key : Bytes) (now_us : ℤ)
    → IsGreatest not_later (get_latest ts key now_us) (filter (is_put_of key now_us) (contents ts))
unfolding get_latest
get_latest-contents ts key now_us =
    rw (sym (filter_ext (is_live-is_put_of key now_us) (contents ts))) (
      as_not_later _ _ (
        latest_of-IsGreatest _ ts.frozen key now_us ts.active.records
          (get_latest-IsGreatest ts.active key now_us)))
  where
    as_not_later :
        (found : Option InternalRecord) (rs : List InternalRecord)
        → IsGreatest latest_at_most found rs
        → IsGreatest not_later found rs
    as_not_later none rs h = h
    as_not_later (some r) rs h = (h.0, All-map rs (λ a. latest_at_most-not_later a r) h.1)
