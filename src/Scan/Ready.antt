-- ===== src/Scan/Ready.antt =====
-- The heap of a scan: one entry for each source that is not used up, made of its first record.
use flowdb.Base.{
  ℕ, zero, suc, ◌<◌, ◌==◌, ◌≡◌, ◌≢◌, if◌then◌else◌, refl, sym, ap, ◌∙◌, arith, length, get_elem?,
  set, All, All-append, Option, none, some, List, [], ◌∷◌, ◌++◌, Bool-cases, inl, inr,
  length-append,
}
use mathlib.Core.List.{Permᴰ}
use mathlib.Core.List.Permᴰ
use mathlib.Core.Option.{none-ne-some, some-injective}
use flowdb.Base.Sorts.{Sorted}
use flowdb.Record.{InternalRecord}
use flowdb.Scan.{MergeEntry, entry_of, source_index, remaining}
use flowdb.Scan.Order.{scan_le}

module _ {ℓ} {A : Type ℓ} where
  pub get_elem?-set_self :
      (xs : List A) (i : ℕ) (x v : A) → get_elem? xs i ≡ some x → get_elem? (set xs i v) i ≡ some v
  get_elem?-set_self [] i x v h = absurd (none-ne-some _ h)
  get_elem?-set_self (y ∷ xs) zero x v h = refl
  get_elem?-set_self (y ∷ xs) (suc i) x v h = get_elem?-set_self xs i x v h

  pub get_elem?-set_other :
      (xs : List A) (i j : ℕ) (v : A) → i ≢ j → get_elem? (set xs i v) j ≡ get_elem? xs j
  get_elem?-set_other [] i j v h = refl
  get_elem?-set_other (y ∷ xs) zero zero v h = absurd (h refl)
  get_elem?-set_other (y ∷ xs) zero (suc j) v h = refl
  get_elem?-set_other (y ∷ xs) (suc i) zero v h = refl
  get_elem?-set_other (y ∷ xs) (suc i) (suc j) v h =
      get_elem?-set_other xs i j v (λ e. h (ap suc e))

  pub All-set {κ} :
      (P : A → Type κ) (xs : List A) (i : ℕ) (v : A) → P v → All P xs → All P (set xs i v)
  All-set P [] i v h k = tt
  All-set P (x ∷ xs) zero v h k = (h, k.1)
  All-set P (x ∷ xs) (suc i) v h k = (k.0, All-set P xs i v h k.1)

  pub All-get_elem? {κ} :
      (P : A → Type κ) (xs : List A) → ((i : ℕ) (x : A) → get_elem? xs i ≡ some x → P x) → All P xs
  All-get_elem? P [] h = tt
  All-get_elem? P (x ∷ xs) h = (h 0 x refl, All-get_elem? P xs (λ i. h (suc i)))

  pub get_elem?-All {κ} :
      (P : A → Type κ) (xs : List A) (i : ℕ) (x : A) → All P xs → get_elem? xs i ≡ some x → P x
  get_elem?-All P [] i x h e = absurd (none-ne-some _ e)
  get_elem?-All P (y ∷ xs) zero x h e = let s : y ≡ x = some-injective _ _ e in rw (sym s) h.0
  get_elem?-All P (y ∷ xs) (suc i) x h e = get_elem?-All P xs i x h.1 e

  pub All-Permᴰ {κ} : (P : A → Type κ) {xs ys : List A} → Permᴰ xs ys → All P xs → All P ys
  All-Permᴰ P Permᴰ.nil h = tt
  All-Permᴰ P (Permᴰ.cons e d) h = (rw (sym e) h.0, All-Permᴰ P d h.1)
  All-Permᴰ P (Permᴰ.swap e f) h = rw (sym e, sym f) (h.1.0, (h.0, h.1.1))
  All-Permᴰ P (Permᴰ.trans d e) h = All-Permᴰ P e (All-Permᴰ P d h)

-- How many entries of the heap are of the source `i`.
unfoldable pub count_source : ℕ → List MergeEntry → ℕ
count_source i [] = 0
count_source i (x ∷ xs) =
    if source_index x.source == i then suc (count_source i xs) else count_source i xs

pub count_source-Permᴰ :
    (i : ℕ) {xs ys : List MergeEntry} → Permᴰ xs ys → count_source i xs ≡ count_source i ys
unfolding count_source
count_source-Permᴰ i Permᴰ.nil = refl
count_source-Permᴰ i (Permᴰ.cons e d) = rw (e, count_source-Permᴰ i d)
count_source-Permᴰ i (Permᴰ.swap e f) = rw (e, f) (ground arith)
count_source-Permᴰ i (Permᴰ.trans d e) = count_source-Permᴰ i d ∙ count_source-Permᴰ i e

-- How many there should be.
unfoldable pub due : Option (List InternalRecord) → ℕ
due none = 0
due (some []) = 0
due (some (r ∷ rs)) = 1

-- An entry of the first record of its source.
pub record Points (sources : List (List InternalRecord)) (e : MergeEntry) : Type 0 where
  pub first : InternalRecord
  pub others : List InternalRecord
  pub there : get_elem? sources (source_index e.source) ≡ some (first ∷ others)
  pub made : e ≡ entry_of e.source first

pub record Ready (sources : List (List InternalRecord)) (heap : List MergeEntry) : Type 0 where
  pub points : All (Points sources) heap
  pub once : (i : ℕ) → count_source i heap ≡ due (get_elem? sources i)
  pub sorted : All (Sorted scan_le) sources

-- All records that the sources still hold.
unfoldable pub pending : List (List InternalRecord) → List InternalRecord
pending [] = []
pending (src ∷ sources) = src ++ pending sources

pub remaining-pending :
    (sources : List (List InternalRecord)) → remaining sources ≡ length (pending sources)
unfolding remaining pending
remaining-pending [] = refl
remaining-pending (src ∷ sources) =
    omega (arith, remaining-pending sources, length-append src (pending sources))

pub pending-set :
    (sources : List (List InternalRecord)) (i : ℕ) (r : InternalRecord) (rs : List InternalRecord)
    → get_elem? sources i ≡ some (r ∷ rs)
    → Permᴰ (pending sources) (r ∷ pending (set sources i rs))
unfolding pending
pending-set [] i r rs h = absurd (none-ne-some _ h)
pending-set (src ∷ sources) zero r rs h =
    let e : src ≡ r ∷ rs = some-injective _ _ h in rw e (Permᴰ.refl _)
pending-set (src ∷ sources) (suc i) r rs h =
    Permᴰ.trans (Permᴰ.append_left src (pending-set sources i r rs h))
      (Permᴰ.middle r src (pending (set sources i rs)))

pub pending-All {κ} :
    (P : InternalRecord → Type κ) (sources : List (List InternalRecord))
    → All (All P) sources
    → All P (pending sources)
unfolding pending
pending-All P [] h = tt
pending-All P (src ∷ sources) h = All-append P src (pending sources) h.0 (pending-All P sources h.1)

pub count_source-other :
    (i : ℕ) (xs : List MergeEntry) → count_source i xs ≡ 0 → All (λ x. source_index x.source ≢ i) xs
unfolding count_source
count_source-other i [] h = tt
count_source-other i (x ∷ xs) h = elim (Bool-cases (source_index x.source == i)) [
  | inl e ↦ absurd (ground (arith, e))
  | inr e ↦
      let n : source_index x.source ≢ i = λ q. absurd (ground (arith, e, q)) in
      (n, count_source-other i xs (ground (arith, e)))
]

pub count_source-found {κ} :
    (P : MergeEntry → Type κ) (i : ℕ) (xs : List MergeEntry)
    → All P xs
    → 0 < count_source i xs
    → (x : MergeEntry) × P x × (source_index x.source ≡ i)
unfolding count_source
count_source-found P i [] a h = absurd (omega arith)
count_source-found P i (x ∷ xs) a h = elim (Bool-cases (source_index x.source == i)) [
  | inl e ↦ (x, a.0, ground (arith, e))
  | inr e ↦ count_source-found P i xs a.1 (ground (arith, e))
]

-- Another entry still points where it did.
Points-set :
    (sources : List (List InternalRecord)) (i : ℕ) (rs : List InternalRecord) (x : MergeEntry)
    → source_index x.source ≢ i
    → Points sources x
    → Points (set sources i rs) x
Points-set sources i rs x n p = record {
  first = p.first;
  others = p.others;
  there = get_elem?-set_other sources i (source_index x.source) rs (λ e. n (sym e)) ∙ p.there;
  made = p.made;
}

pub All-Points-set :
    (sources : List (List InternalRecord)) (i : ℕ) (rs : List InternalRecord) (xs : List MergeEntry)
    → All (λ x. source_index x.source ≢ i) xs
    → All (Points sources) xs
    → All (Points (set sources i rs)) xs
All-Points-set sources i rs [] n p = tt
All-Points-set sources i rs (x ∷ xs) n p =
    (Points-set sources i rs x n.0 p.0, All-Points-set sources i rs xs n.1 p.1)

pub remaining-set :
    (sources : List (List InternalRecord)) (i : ℕ) (r : InternalRecord) (rs : List InternalRecord)
    → get_elem? sources i ≡ some (r ∷ rs)
    → remaining sources ≡ suc (remaining (set sources i rs))
unfolding remaining
remaining-set [] i r rs h = absurd (none-ne-some _ h)
remaining-set (src ∷ sources) zero r rs h =
    omega (arith, ap (length {A = InternalRecord}) (some-injective _ _ h))
remaining-set (src ∷ sources) (suc i) r rs h = omega (arith, remaining-set sources i r rs h)

-- With an empty heap all sources are used up.
pub Ready-nil : (sources : List (List InternalRecord)) → Ready sources [] → pending sources ≡ []
unfolding pending count_source due
Ready-nil sources ready = used_up sources ready.once
  where
    used_up :
        (sources : List (List InternalRecord))
        → ((i : ℕ) → count_source i [] ≡ due (get_elem? sources i))
        → pending sources ≡ []
    used_up [] once = refl
    used_up ([] ∷ sources) once = used_up sources (λ i. once (suc i))
    used_up ((r ∷ rs) ∷ sources) once = absurd (omega (arith, once 0))
