-- ===== src/Scan/Fast.antt =====
-- `next` until the end on the fast path: one source and no tombstones.
use flowdb.Base.{
  ℕ, zero, suc, ◌+◌, ◌<◌, ◌≡◌, true, refl, sym, ap, ◌∙◌, arith, length, Option, none, some, List,
  [], ◌∷◌, Bool-cases, inl, inr,
}
use flowdb.Base.Bytes.{Bytes, eq_bytes_iff}
use flowdb.Base.Int.{ℤ, eqb_ℤ_iff}
use flowdb.Record.{InternalRecord, Record, to_record}
use flowdb.Scan.{
  MergeEntry, MergeHeap, ScanIterator, is_tombstoned, is_deletion, is_last, fast_loop, fast_next,
  remaining, next, collect_loop, collect,
}
use flowdb.Scan.Visit.{visit}
use flowdb.Scan.Merge.{resume, resume_of, collect_loop-suc}

-- What `visit` shows first, and of what it goes on.
data Split (last : Option (Bytes × ℤ)) (src : List InternalRecord) : Type 0 where
  ends :
      (rest : List InternalRecord) (last' : Option (Bytes × ℤ))
      → fast_loop last src ≡ (none, (rest, last'))
      → visit [] last src ≡ []
      → Split last src
  gives :
      (o : Record) (rest : List InternalRecord) (last' : Option (Bytes × ℤ))
      → fast_loop last src ≡ (some o, (rest, last'))
      → visit [] last src ≡ o ∷ visit [] last' rest
      → length rest < length src
      → Split last src

-- Over a record that is not shown.
Split-skip :
    (last last' : Option (Bytes × ℤ)) (r : InternalRecord) (rs : List InternalRecord)
    → fast_loop last (r ∷ rs) ≡ fast_loop last' rs
    → visit [] last (r ∷ rs) ≡ visit [] last' rs
    → Split last' rs
    → Split last (r ∷ rs)
Split-skip last last' r rs f v (ends rest l e w) = ends rest l (f ∙ e) (v ∙ w)
Split-skip last last' r rs f v (gives o rest l e w h) = gives o rest l (f ∙ e) (v ∙ w) (omega arith)

is_last_slot :
    (last : Option (Bytes × ℤ)) (key : Bytes) (ts : ℤ)
    → is_last last key ts ≡ true
    → last ≡ some (key, ts)
unfolding is_last
is_last_slot none key ts h = cc
is_last_slot (some (k, t)) key ts h =
    let ek : k ≡ key = ground (arith, eq_bytes_iff k key) in
    let et : t ≡ ts = ground (arith, eqb_ℤ_iff t ts) in rw (ek, et)

split : (src : List InternalRecord) (last : Option (Bytes × ℤ)) → Split last src
unfolding fast_loop visit is_tombstoned
split [] last = ends [] last refl refl
split (r ∷ rs) last =
    let slot : Option (Bytes × ℤ) = some (r.key, r.ts) in
    elim (Bool-cases (is_deletion r)) [
      | inl d ↦ elim (Bool-cases (is_last last r.key r.ts)) [
        | inl l ↦
            Split-skip last slot r rs (rw d)
              (rw l (ap (λ k. visit [] k rs) (is_last_slot last r.key r.ts l))) (split rs slot)
        | inr l ↦ Split-skip last slot r rs (rw d) (rw (l, d)) (split rs slot)
      ]
      | inr d ↦ elim (Bool-cases (is_last last r.key r.ts)) [
        | inl l ↦ Split-skip last last r rs (rw (d, l)) (rw l) (split rs last)
        | inr l ↦ gives (to_record r) rs slot (rw (d, l)) (rw (l, d)) (omega arith)
      ]
    ]

fast_iterator : List MergeEntry → List InternalRecord → Option (Bytes × ℤ) → ScanIterator
fast_iterator heap src last = record {
  sources = src ∷ [];
  heap = heap;
  tombstones = [];
  last_dedup = last;
  fast_source = some 0;
}

module _ (max_heap : MergeHeap) (heap : List MergeEntry) where
  next_of :
      (src : List InternalRecord) (last : Option (Bytes × ℤ))
      → next max_heap (fast_iterator heap src last)
        ≡ some (
          (fast_loop last src).0,
          fast_iterator heap (fast_loop last src).1.0 (fast_loop last src).1.1,
        )
  unfolding next fast_next fast_iterator
  next_of src last = refl

  step :
      (n : ℕ) (src : List InternalRecord) (last : Option (Bytes × ℤ))
      (p : Option Record × (List InternalRecord × Option (Bytes × ℤ)))
      → fast_loop last src ≡ p
      → collect_loop max_heap (suc n) (fast_iterator heap src last)
        ≡ resume max_heap n (some (p.0, fast_iterator heap p.1.0 p.1.1))
  step n src last p e =
      collect_loop-suc max_heap n (fast_iterator heap src last)
      ∙ ap (resume max_heap n) (next_of src last)
      ∙ ap (λ q. resume max_heap n (some (q.0, fast_iterator heap q.1.0 q.1.1))) e

  collect_fast :
      (n : ℕ) (src : List InternalRecord) (last : Option (Bytes × ℤ))
      → length src < n
      → collect_loop max_heap n (fast_iterator heap src last) ≡ some (visit [] last src)
  unfolding resume
  collect_fast zero src last h = absurd (omega arith)
  collect_fast (suc n) src last h = elim (split src last) [
    | ends rest l e v ↦ step n src last _ e ∙ ap some (sym v)
    | gives o rest l e v k ↦
        step n src last _ e
        ∙ resume_of max_heap n o (fast_iterator heap rest l) _ (collect_fast n rest l (omega arith))
        ∙ ap some (sym v)
  ]

-- The fast path gives its source's records in their order.
pub collect-visit_fast :
    (max_heap : MergeHeap) (heap : List MergeEntry) (src : List InternalRecord)
    → collect max_heap (record {
      sources = src ∷ [];
      heap = heap;
      tombstones = [];
      last_dedup = none;
      fast_source = some 0;
    })
      ≡ some (visit [] none src)
unfolding collect remaining fast_iterator
collect-visit_fast max_heap heap src =
    collect_fast max_heap heap (suc (length src + 0)) src none (omega arith)
