-- ===== src/Manifest/Maps.antt =====
-- The maps by file number and the list of active numbers: what each operation does to a lookup.
use flowdb.Base.{
  ℕ, ◌≡◌, ap, arith, Bool, true, false, not, ◌==◌, if◌then◌else◌, filter, any, All, none, some,
  List, [], ◌∷◌, ◌++◌, Bool-cases, inl, inr,
}
use flowdb.Base.Sorts.{All-filter}
use flowdb.Manifest.{Map, is_key, get, remove, insert, contains, push_new}

module _ {A : Type 0} where
  abbrev pub has : Map A → ℕ → Bool
  has m k = any (is_key k) m

  -- Every number stands in the map once.
  abbrev pub Distinct : Map A → Type 0
  Distinct [] = Unit {0}
  Distinct (e ∷ m) = (has m e.0 ≡ false) × Distinct m

  pub has-remove : (m : Map A) (k j : ℕ) → has (remove m k) j ≡ (if j == k then false else has m j)
  unfolding remove
  has-remove [] k j = ground arith
  has-remove (e ∷ m) k j = ground (arith, has-remove m k j)

  pub has-insert :
      (m : Map A) (k : ℕ) (v : A) (j : ℕ)
      → has (insert m k v) j ≡ (if j == k then true else has m j)
  unfolding insert
  has-insert m k v j = ground (arith, has-remove m k j)

  pub get-remove : (m : Map A) (k j : ℕ) → get (remove m k) j ≡ (if j == k then none else get m j)
  unfolding remove get
  get-remove [] k j = ground arith
  get-remove (e ∷ m) k j = ground (arith, get-remove m k j)

  pub get-insert :
      (m : Map A) (k : ℕ) (v : A) (j : ℕ)
      → get (insert m k v) j ≡ (if j == k then some v else get m j)
  unfolding insert get
  get-insert m k v j = ground (arith, get-remove m k j)

  pub remove-Distinct : (m : Map A) (k : ℕ) → Distinct m → Distinct (remove m k)
  unfolding remove
  remove-Distinct [] k h = tt
  remove-Distinct (e ∷ m) k h = elim (Bool-cases (is_key k e)) [
    | inl p ↦ rw p (remove-Distinct m k h.1)
    | inr p ↦ rw p (ground (arith, has-remove m k e.0), remove-Distinct m k h.1)
  ]

  pub insert-Distinct : (m : Map A) (k : ℕ) (v : A) → Distinct m → Distinct (insert m k v)
  unfolding insert
  insert-Distinct m k v h = (ground (arith, has-remove m k k), remove-Distinct m k h)

  pub All-remove {κ} : (P : ℕ × A → Type κ) (m : Map A) (k : ℕ) → All P m → All P (remove m k)
  unfolding remove
  All-remove P m k h = All-filter P _ m h

contains_same : (ids : List ℕ) (k j : ℕ) → j ≡ k → contains ids j ≡ contains ids k
contains_same ids k j e = ap (contains ids) e

contains-snoc :
    (ids : List ℕ) (k j : ℕ)
    → contains (ids ++ (k ∷ [])) j ≡ (if j == k then true else contains ids j)
unfolding contains
contains-snoc [] k j = ground arith
contains-snoc (i ∷ ids) k j = ground (arith, contains-snoc ids k j)

pub contains-push_new :
    (ids : List ℕ) (k j : ℕ)
    → contains (push_new ids k) j ≡ (if j == k then true else contains ids j)
unfolding push_new
contains-push_new ids k j = ground (arith, contains-snoc ids k j, contains_same ids k j)

pub contains-filter :
    (ids : List ℕ) (k j : ℕ)
    → contains (filter (λ i. not (i == k)) ids) j ≡ (if j == k then false else contains ids j)
unfolding contains
contains-filter [] k j = ground arith
contains-filter (i ∷ ids) k j = ground (arith, contains-filter ids k j)
