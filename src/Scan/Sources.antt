-- ===== src/Scan/Sources.antt =====
-- The sources and the tombstones of a scan are the records that it is asked for and the deletions of
-- ranges.
use flowdb.Base.{
  Bool, true, ◌&&◌, ◌||◌, if◌then◌else◌, ◌≡◌, refl, sym, ap, ◌∙◌, arith, any, filter, filter-append,
  map, Bool-cases, Option, none, some, List, [], ◌∷◌, ◌++◌, inl, inr, ℕ,
}
use flowdb.Base.Bytes.{Bytes, lt_bytes_not_le}
use flowdb.Base.Sorts.{any-append}
use flowdb.Base.Int.{ℤ, ltb_ℤ}
use flowdb.Config.{Result, ok, err}
use flowdb.Record.{InternalRecord, Op, put, delete, delete_range, eq_op, to_u8}
use flowdb.Query.{KeyFilter, Query}
use flowdb.MemTables.{MemTables}
use flowdb.Scan.{is_tombstoned}
use flowdb.Scan.Ready.{pending}
use flowdb.Scan.Build.{
  Seen, kept, erased, push_source, load, mem_query, mem_tombstones, see_record, build, assemble,
}
use flowdb.Scan.Asked.{
  asks_all, asks, counts, bare, spans, erases, lasting_records, block_records, memory_records,
  mem_query-memory_records, Low, is_erased,
}
use flowdb.Scan.Seen.{entry, see_record-see_by, kept_by, erased_by}

pub pending-push_source :
    (src : List InternalRecord) (sources : List (List InternalRecord))
    → pending (push_source src sources) ≡ src ++ pending sources
unfolding pending push_source
pending-push_source [] sources = refl
pending-push_source (r ∷ rs) sources = refl

map-append :
    (f : InternalRecord → InternalRecord) (xs ys : List InternalRecord)
    → map f (xs ++ ys) ≡ map f xs ++ map f ys
map-append f [] ys = refl
map-append f (x ∷ xs) ys = ap (◌∷◌ (f x)) (map-append f xs ys)

is_tombstoned-append :
    (ts us : List (Bytes × Bytes)) (x : InternalRecord)
    → is_tombstoned (ts ++ us) x ≡ (is_tombstoned ts x || is_tombstoned us x)
unfolding is_tombstoned
is_tombstoned-append [] us x = refl
is_tombstoned-append (t ∷ ts) us x = ground (arith, is_tombstoned-append ts us x)

-- The tombstones of the memtables.
mem_tombstones-erases :
    (rs : List InternalRecord) (x : InternalRecord)
    → is_tombstoned (mem_tombstones rs) x ≡ any (erases x) rs
unfolding mem_tombstones is_tombstoned erases eq_op to_u8 spans
mem_tombstones-erases [] x = refl
mem_tombstones-erases (r ∷ rs) x =
    one r.seq r.key r.ts r.expire_at r.value r.op r.range_end (mem_tombstones-erases rs x)
  where
    one :
        (seq : ℕ) (key : Bytes) (ts expire_at : ℤ) (value : Bytes) (op : Op) (end : Option Bytes)
        → is_tombstoned (mem_tombstones rs) x ≡ any (erases x) rs
        → is_tombstoned (mem_tombstones (entry seq key ts expire_at value op end ∷ rs)) x
          ≡ any (erases x) (entry seq key ts expire_at value op end ∷ rs)
    one seq key ts expire_at value put e ih = ih
    one seq key ts expire_at value delete e ih = ih
    one seq key ts expire_at value delete_range none ih = ih
    one seq key ts expire_at value delete_range (some e) ih =
        ground (arith, lt_bytes_not_le x.key key, ih)

module _ (kf : KeyFilter) (times : Option (ℤ × ℤ)) (now_us : ℤ) where
  abbrev query : Query
  query = record { key_filter = kf; time_range = times }

  kept-records :
      (rs : List InternalRecord)
      → kept (map (see_record query now_us) rs)
        ≡ map (bare (asks_all kf times)) (
            filter
              (λ (r : InternalRecord). asks query r && counts (asks_all kf times) r.op)
              (filter (λ (r : InternalRecord). ltb_ℤ now_us r.expire_at) rs))
  unfolding kept
  kept-records [] = refl
  kept-records (r ∷ rs) =
      ap (λ (s : Seen). kept (s ∷ map (see_record query now_us) rs))
        (see_record-see_by kf times now_us r)
      ∙ kept_by (asks_all kf times) (ltb_ℤ now_us r.expire_at) (asks query r) r r.op r.range_end
          (map (see_record query now_us) rs)
      ∙ elim (Bool-cases (ltb_ℤ now_us r.expire_at)) [
        | inr e ↦ rw e (kept-records rs)
        | inl e ↦ elim (Bool-cases (asks query r && counts (asks_all kf times) r.op)) [
          | inl f ↦ rw (e, f) (ap (λ xs. bare (asks_all kf times) r ∷ xs) (kept-records rs))
          | inr f ↦ rw (e, f) (kept-records rs)
        ]
      ]

  erased-records :
      (rs : List InternalRecord) (x : InternalRecord)
      → is_tombstoned (erased (map (see_record query now_us) rs)) x
        ≡ any (erases x) (filter (λ (r : InternalRecord). ltb_ℤ now_us r.expire_at) rs)
  unfolding erased is_tombstoned erases
  erased-records [] x = refl
  erased-records (r ∷ rs) x =
      ap (λ (s : Seen). is_tombstoned (erased (s ∷ map (see_record query now_us) rs)) x)
        (see_record-see_by kf times now_us r)
      ∙ erased_by (asks_all kf times) (ltb_ℤ now_us r.expire_at) (asks query r) r r.op r.range_end
          (map (see_record query now_us) rs) x
      ∙ elim (Bool-cases (ltb_ℤ now_us r.expire_at)) [
        | inr e ↦ rw e (erased-records rs x)
        | inl e ↦ rw e (
            ap (λ (b : Bool). spans r.op r.key r.range_end x.key || b) (erased-records rs x)
            ∙ or_if (spans r.op r.key r.range_end x.key) _)
      ]
    where
      or_if : (a b : Bool) → (a || b) ≡ (if a then true else b)
      or_if a b = ground arith

  -- The sources of the blocks are the records of blocks that are asked for.
  pub load-block_records :
      (blocks : List (Result (List InternalRecord)))
      → pending (load (see_record query now_us) blocks).0 ≡ block_records query blocks now_us
  unfolding load block_records lasting_records pending
  load-block_records [] = refl
  load-block_records (err e ∷ blocks) = load-block_records blocks
  load-block_records (ok rs ∷ blocks) =
      let p : InternalRecord → Bool = λ r. asks query r && counts (asks_all kf times) r.op in
      let here = filter (λ (r : InternalRecord). ltb_ℤ now_us r.expire_at) rs in
      let later = lasting_records blocks now_us in
      let f = bare (asks_all kf times) in
      pending-push_source (kept (map (see_record query now_us) rs))
        (load (see_record query now_us) blocks).0
      ∙ ap (λ xs. xs ++ pending (load (see_record query now_us) blocks).0) (kept-records rs)
      ∙ ap (λ ys. map f (filter p here) ++ ys) (load-block_records blocks)
      ∙ sym (map-append f (filter p here) (filter p later))
      ∙ ap (map f) (sym (filter-append p here later))

  -- The tombstones of the blocks are their deletions of ranges that have not expired.
  load-erases :
      (blocks : List (Result (List InternalRecord))) (x : InternalRecord)
      → is_tombstoned (load (see_record query now_us) blocks).1 x
        ≡ any (erases x) (lasting_records blocks now_us)
  unfolding load lasting_records is_tombstoned
  load-erases [] x = refl
  load-erases (err e ∷ blocks) x = load-erases blocks x
  load-erases (ok rs ∷ blocks) x =
      let here = filter (λ (r : InternalRecord). ltb_ℤ now_us r.expire_at) rs in
      let later = lasting_records blocks now_us in
      is_tombstoned-append (erased (map (see_record query now_us) rs))
        (load (see_record query now_us) blocks).1 x
      ∙ ap (λ (b : Bool). b || is_tombstoned (load (see_record query now_us) blocks).1 x)
          (erased-records rs x)
      ∙ ap (λ (b : Bool). any (erases x) here || b) (load-erases blocks x)
      ∙ sym (any-append (erases x) here later)

  -- The tombstones of a scan are the deletions of ranges that it meets.
  pub tombstones-is_erased :
      (tables : MemTables) (blocks : List (Result (List InternalRecord))) (x : InternalRecord)
      → Low kf times tables
      → is_tombstoned (build query tables blocks now_us).tombstones x
        ≡ is_erased query tables blocks now_us x
  unfolding build assemble is_erased
  tombstones-is_erased tables blocks x low =
      let mem = mem_query tables kf times now_us in
      is_tombstoned-append (mem_tombstones mem) (load (see_record query now_us) blocks).1 x
      ∙ ap (λ (b : Bool). b || is_tombstoned (load (see_record query now_us) blocks).1 x)
          (mem_tombstones-erases mem x
            ∙ ap (any (erases x)) (mem_query-memory_records kf times tables now_us low))
      ∙ ap (λ (b : Bool). any (erases x) (memory_records query tables now_us) || b)
          (load-erases blocks x)
