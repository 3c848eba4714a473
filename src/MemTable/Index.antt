-- ===== src/MemTable/Index.antt =====
-- `get` through the index and `get` by a scan find the same record.
use flowdb.Base.{
  ℕ, ◌+◌, ◌≤◌, ◌≡◌, refl, arith, true, false, sym, ap, ◌∙◌, length, get_elem?, filter,
  filter-append, find, max_by, All, none, some, List, [], ◌∷◌, ◌++◌, append-nil, Bool-cases,
  Option-cases, inl, inr,
}
use mathlib.Core.Option.{none-ne-some, some-injective}
use flowdb.Base.Bytes.{Bytes}
use flowdb.Base.Int.{ℤ}
use flowdb.Base.Sorts.{
  IsGreatest, All-map, All-filter, max_by-snoc, max_by-IsGreatest, get_elem?-length,
  get_elem?-append,
}
use flowdb.Record.{InternalRecord, estimated_size}
use flowdb.MemTable.{MemTable, new, insert, is_entry, is_at, seq_at_most, get, sort}

-- The tables that the engine writes to: numbers never go down.
pub data Active : MemTable → Type 0 where
  created : Active new
  inserted :
      {t : MemTable} (rec : InternalRecord)
      → Active t
      → All (λ r. r.seq ≤ rec.seq) t.records
      → Active (insert t rec)

record IsIndexed (t : MemTable) : Type 0 where
  unlisted :
      (key : Bytes) (ts : ℤ)
      → find (is_entry key ts) t.point_index ≡ none
      → filter (is_at key ts) t.records ≡ []
  listed :
      (key : Bytes) (ts : ℤ) (e : (Bytes × ℤ) × ℕ)
      → find (is_entry key ts) t.point_index ≡ some e
      → (r : InternalRecord) × (get_elem? t.records e.1 ≡ some r)
        × (max_by seq_at_most (filter (is_at key ts) t.records) ≡ some r)

seq_at_most_of : (rec r : InternalRecord) → r.seq ≤ rec.seq → seq_at_most r rec ≡ true
unfolding seq_at_most
seq_at_most_of rec r h = ground arith

-- The record is the last one at its key and time.
insert_at :
    (t : MemTable) (rec : InternalRecord) (key : Bytes) (ts : ℤ)
    → is_at key ts rec ≡ true
    → All (λ r. r.seq ≤ rec.seq) t.records
    → max_by seq_at_most (filter (is_at key ts) (t.records ++ (rec ∷ []))) ≡ some rec
insert_at t rec key ts e h =
    rw (filter-append (is_at key ts) t.records (rec ∷ []), e)
      (max_by-snoc seq_at_most (filter (is_at key ts) t.records) rec
        (All-filter _ (is_at key ts) t.records (All-map t.records (seq_at_most_of rec) h)))

filter_past :
    (t : MemTable) (rec : InternalRecord) (key : Bytes) (ts : ℤ)
    → is_at key ts rec ≡ false
    → filter (is_at key ts) (t.records ++ (rec ∷ [])) ≡ filter (is_at key ts) t.records
filter_past t rec key ts e =
    rw (filter-append (is_at key ts) t.records (rec ∷ []), e) (append-nil _)

find_at :
    (t : MemTable) (rec : InternalRecord) (key : Bytes) (ts : ℤ)
    → is_at key ts rec ≡ true
    → find (is_entry key ts) (insert t rec).point_index ≡ some ((rec.key, rec.ts), length t.records)
unfolding insert is_entry is_at
find_at t rec key ts e = rw e

find_past :
    (t : MemTable) (rec : InternalRecord) (key : Bytes) (ts : ℤ)
    → is_at key ts rec ≡ false
    → find (is_entry key ts) (insert t rec).point_index ≡ find (is_entry key ts) t.point_index
unfolding insert is_entry is_at
find_past t rec key ts e = rw e

listed_at :
    (t : MemTable) (rec : InternalRecord) (key : Bytes) (ts : ℤ) (e : (Bytes × ℤ) × ℕ)
    → All (λ r. r.seq ≤ rec.seq) t.records
    → is_at key ts rec ≡ true
    → find (is_entry key ts) (insert t rec).point_index ≡ some e
    → (r : InternalRecord) × (get_elem? (t.records ++ (rec ∷ [])) e.1 ≡ some r)
      × (max_by seq_at_most (filter (is_at key ts) (t.records ++ (rec ∷ []))) ≡ some r)
listed_at t rec key ts e h q k =
    let same : ((rec.key, rec.ts), length t.records) ≡ e =
      some-injective _ _ (sym (find_at t rec key ts q) ∙ k) in
    (rec, rw (sym same) (get_elem?-length t.records rec), insert_at t rec key ts q h)

insert-IsIndexed :
    (t : MemTable) (rec : InternalRecord)
    → IsIndexed t
    → All (λ r. r.seq ≤ rec.seq) t.records
    → IsIndexed (insert t rec)
unfolding insert
insert-IsIndexed t rec i h = record {
  unlisted = λ key ts e. elim (Bool-cases (is_at key ts rec)) [
    | inl k ↦ absurd (none-ne-some _ (sym e ∙ find_at t rec key ts k))
    | inr k ↦ filter_past t rec key ts k ∙ i.unlisted key ts (sym (find_past t rec key ts k) ∙ e)
  ];
  listed = λ key ts e k. elim (Bool-cases (is_at key ts rec)) [
    | inl q ↦ listed_at t rec key ts e h q k
    | inr q ↦
        let (r, got, most) = i.listed key ts e (sym (find_past t rec key ts q) ∙ k) in
        (
          r,
          get_elem?-append t.records (rec ∷ []) e.1 r got,
          ap (max_by seq_at_most) (filter_past t rec key ts q) ∙ most,
        )
  ];
}

Active-IsIndexed : (t : MemTable) → Active t → IsIndexed t
unfolding new
Active-IsIndexed _ created = record { unlisted = λ key ts e. refl; listed = λ key ts e k. cc }
Active-IsIndexed _ (inserted {t = t} rec a h) = insert-IsIndexed t rec (Active-IsIndexed t a) h

seq_at_most_total : (a b : InternalRecord) → seq_at_most a b ≡ false → seq_at_most b a ≡ true
unfolding seq_at_most
seq_at_most_total a b h = ground arith

seq_at_most_trans :
    (a b c : InternalRecord)
    → seq_at_most a b ≡ true
    → seq_at_most b c ≡ true
    → seq_at_most a c ≡ true
unfolding seq_at_most
seq_at_most_trans a b c h k = ground arith

get-scan :
    (t : MemTable) (key : Bytes) (ts : ℤ)
    → IsIndexed t
    → get t key ts ≡ max_by seq_at_most (filter (is_at key ts) t.records)
unfolding get
get-scan t key ts i = elim (Option-cases (find (is_entry key ts) t.point_index)) [
  | inl e ↦ rw (get, e)
  | inr (e, p) ↦ let (r, got, most) = i.listed key ts e p in rw (get, p) (got ∙ sym most)
]

get-sort :
    (t : MemTable) (key : Bytes) (ts : ℤ)
    → get (sort t) key ts ≡ max_by seq_at_most (filter (is_at key ts) (sort t).records)
unfolding get sort
get-sort t key ts = refl

-- In a table that was filled in the order of the numbers, `get` by the index and, once the table is
-- sorted, `get` by a scan each find a record with the highest number of those at the key and time,
-- and find none only where there is none.
pub get-IsGreatest :
    (t : MemTable) (key : Bytes) (ts : ℤ)
    → Active t
    → IsGreatest seq_at_most (get t key ts) (filter (is_at key ts) t.records)
      × IsGreatest seq_at_most (get (sort t) key ts) (filter (is_at key ts) (sort t).records)
get-IsGreatest t key ts a = (
  rw (get-scan t key ts (Active-IsIndexed t a))
      (max_by-IsGreatest seq_at_most_total seq_at_most_trans (filter (is_at key ts) t.records)),
  rw (get-sort t key ts) (
      max_by-IsGreatest seq_at_most_total seq_at_most_trans
        (filter (is_at key ts) (sort t).records)),
)

abbrev pub total_size : List InternalRecord → ℕ
total_size [] = 0
total_size (r ∷ rs) = estimated_size r + total_size rs

total_size-snoc :
    (rs : List InternalRecord) (r : InternalRecord)
    → total_size (rs ++ (r ∷ [])) ≡ total_size rs + estimated_size r
total_size-snoc [] r = omega arith
total_size-snoc (x ∷ rs) r = omega (arith, total_size-snoc rs r)

-- The size of a table that the flush is decided by is the sum of the sizes of its records.
pub bytes-Active : (t : MemTable) → Active t → t.bytes ≡ total_size t.records
unfolding new insert
bytes-Active _ created = refl
bytes-Active _ (inserted {t = t} rec a h) =
    omega (arith, bytes-Active t a, total_size-snoc t.records rec)
