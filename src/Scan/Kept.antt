-- ===== src/Scan/Kept.antt =====
-- What `build` keeps of a block in order is in order.
use flowdb.Base.{
  suc, ◌≤◌, ◌≡◌, true, false, ◌&&◌, refl, arith, length, All, map, Option, none, some, List, [],
  ◌∷◌, Bool-cases, Option-cases, inl, inr,
}
use flowdb.Base.Int.{ℤ, leb_ℤ}
use flowdb.Base.Sorts.{Sorted}
use flowdb.Config.{Result, ok, err}
use flowdb.Record.{InternalRecord, Op, put, delete, delete_range, eq_op}
use flowdb.Query.{KeyFilter, Query, key_matches, time_matches}
use flowdb.Scan.Order.{scan_le}
use flowdb.Scan.Build.{
  Seen, skip, keep, tombstone, kept, push_source, load, is_full_scan, filter_record, full_record,
  see_record,
}

-- What holds of the record that is kept, if one is.
abbrev IfKept : (InternalRecord → Type 0) → Seen → Type 0
IfKept P skip = Unit
IfKept P (tombstone s e) = Unit
IfKept P (keep r) = P r

forget_seq : InternalRecord → InternalRecord
forget_seq r = record r { seq = 0 }

filter_record-IfKept :
    (kf : KeyFilter) (tr : Option (ℤ × ℤ)) (now : ℤ) (r : InternalRecord)
    → IfKept (λ r'. r' ≡ forget_seq r) (filter_record kf tr false now r)
unfolding filter_record forget_seq
filter_record-IfKept kf tr now r = elim (Bool-cases (leb_ℤ r.expire_at now)) [
  | inl e ↦ rw e tt
  | inr e ↦ elim (Bool-cases (eq_op r.op delete_range)) [
    | inl d ↦ elim (Option-cases r.range_end) [
      | inl n ↦ rw (e, d, n) tt
      | inr (end, n) ↦ rw (e, d, n) tt
    ]
    | inr d ↦ elim (Bool-cases (key_matches kf r.key && time_matches tr r.ts)) [
      | inl m ↦ rw (e, d, m) refl
      | inr m ↦ rw (e, d, m) tt
    ]
  ]
]

full_record-IfKept : (now : ℤ) (r : InternalRecord) → IfKept (λ r'. r' ≡ r) (full_record now r)
unfolding full_record
full_record-IfKept now r = elim (Bool-cases (leb_ℤ r.expire_at now)) [
  | inl e ↦ rw e tt
  | inr e ↦ rw e (by_op r.op)
]
  where
    by_op :
        (op : Op)
        → IfKept
            (λ r'. r' ≡ r)
            (elim op [
              | delete_range ↦ elim r.range_end [ none ↦ skip | some end ↦ tombstone r.key end ]
              | delete ↦ skip
              | put ↦ keep r
            ])
    by_op put = refl
    by_op delete = tt
    by_op delete_range = elim (Option-cases r.range_end) [
      | inl n ↦ rw n tt
      | inr (end, n) ↦ rw n tt
    ]

-- A way to look at records that keeps them as `change` makes them, which keeps their order.
record InOrder (see : InternalRecord → Seen) : Type 0 where
  change : InternalRecord → InternalRecord
  keeps : (r : InternalRecord) → IfKept (λ r'. r' ≡ change r) (see r)
  mono : (r s : InternalRecord) → scan_le r s ≡ true → scan_le (change r) (change s) ≡ true

filter_record-InOrder :
    (kf : KeyFilter) (tr : Option (ℤ × ℤ)) (now : ℤ) → InOrder (filter_record kf tr false now)
unfolding forget_seq scan_le
filter_record-InOrder kf tr now = record {
  change = forget_seq;
  keeps = filter_record-IfKept kf tr now;
  mono = λ r s h. ground arith;
}

full_record-InOrder : (now : ℤ) → InOrder (full_record now)
full_record-InOrder now = record {
  change = λ r. r;
  keeps = full_record-IfKept now;
  mono = λ r s h. h;
}

see_record-InOrder : (query : Query) (now : ℤ) → InOrder (see_record query now)
unfolding see_record
see_record-InOrder query now = elim (Bool-cases (is_full_scan query)) [
  | inl e ↦ rw e (full_record-InOrder now)
  | inr e ↦ rw e (filter_record-InOrder query.key_filter query.time_range now)
]

module _ (see : InternalRecord → Seen) (o : InOrder see) where
  All-kept :
      (a : InternalRecord) (rs : List InternalRecord)
      → All (λ r. scan_le a r ≡ true) rs
      → All (λ r. scan_le (o.change a) r ≡ true) (kept (map see rs))
  unfolding kept
  All-kept a [] h = tt
  All-kept a (r ∷ rs) h = kept_cons (see r) (o.keeps r) (All-kept a rs h.1)
    where
      kept_cons :
          (x : Seen)
          → IfKept (λ r'. r' ≡ o.change r) x
          → All (λ r'. scan_le (o.change a) r' ≡ true) (kept (map see rs))
          → All (λ r'. scan_le (o.change a) r' ≡ true) (kept (x ∷ map see rs))
      kept_cons skip k t = t
      kept_cons (tombstone s e) k t = t
      kept_cons (keep r') k t = (rw k (o.mono a r h.0), t)

  kept-Sorted : (rs : List InternalRecord) → Sorted scan_le rs → Sorted scan_le (kept (map see rs))
  unfolding kept
  kept-Sorted [] h = tt
  kept-Sorted (r ∷ rs) h = kept_cons (see r) (o.keeps r) (kept-Sorted rs h.1)
    where
      kept_cons :
          (x : Seen)
          → IfKept (λ r'. r' ≡ o.change r) x
          → Sorted scan_le (kept (map see rs))
          → Sorted scan_le (kept (x ∷ map see rs))
      kept_cons skip k t = t
      kept_cons (tombstone s e) k t = t
      kept_cons (keep r') k t = (rw k (All-kept r rs h.0), t)

-- A block that is read is in order.
abbrev pub BlockInOrder : Result (List InternalRecord) → Type 0
BlockInOrder (err e) = Unit
BlockInOrder (ok rs) = Sorted scan_le rs

-- The sources of the blocks are in order, and no more than the blocks.
pub load-Sorted :
    (query : Query) (now : ℤ) (blocks : List (Result (List InternalRecord)))
    → All BlockInOrder blocks
    → All (Sorted scan_le) (load (see_record query now) blocks).0
      × (length (load (see_record query now) blocks).0 ≤ length blocks)
unfolding load push_source
load-Sorted query now [] h = (tt, omega arith)
load-Sorted query now (err e ∷ blocks) h =
    let rest = load-Sorted query now blocks h.1 in (rest.0, omega (arith, rest.1))
load-Sorted query now (ok rs ∷ blocks) h =
    let rest = load-Sorted query now blocks h.1 in
    let this = kept-Sorted (see_record query now) (see_record-InOrder query now) rs h.0 in
    pushed (kept (map (see_record query now) rs)) (load (see_record query now) blocks).0 this rest.0
      rest.1
  where
    pushed :
        (src : List InternalRecord) (sources : List (List InternalRecord))
        → Sorted scan_le src
        → All (Sorted scan_le) sources
        → length sources ≤ length blocks
        → All (Sorted scan_le) (push_source src sources)
          × (length (push_source src sources) ≤ suc (length blocks))
    pushed [] sources s a b = (a, omega arith)
    pushed (x ∷ xs) sources s a b = ((s, a), omega arith)
