-- ===== src/Compaction/Merge/Rounds.antt =====
-- What the heap and the iterators have left, and that a push of the next record keeps it.
use flowdb.Base.{
  ℕ, zero, suc, ◌==◌, ◌≡◌, ◌≢◌, Bool, true, refl, sym, ap, ◌∙◌, arith, get_elem?, set, map, any,
  All, Option, none, some, List, [], ◌∷◌, ◌++◌, Bool-cases, ◌⊎◌, inl, inr,
}
use mathlib.Core.Option.{none-ne-some, some-injective}
use mathlib.Core.List.{Permᴰ}
use mathlib.Core.List.Permᴰ
use flowdb.Record.{InternalRecord}
use flowdb.Scan.Ready.{get_elem?-set_self, get_elem?-set_other}
use flowdb.Sst.Blocks.{Lz4}
use flowdb.Compaction.Merge.{SstBlockIterator, HeapEntry, Merging, push_next}
use flowdb.Compaction.Merge.Stream.{stream, Gives}

unfoldable pub streams : Lz4 → List SstBlockIterator → List InternalRecord
streams lz4 [] = []
streams lz4 (it ∷ its) = stream lz4 it ++ streams lz4 its

abbrev pub records_of : List HeapEntry → List InternalRecord
records_of = map (λ (e : HeapEntry). e.record_)

-- What is still to come off the heap.
unfoldable pub left : Lz4 → List HeapEntry → List SstBlockIterator → List InternalRecord
left lz4 heap its = records_of heap ++ streams lz4 its

abbrev pub of_source : ℕ → HeapEntry → Bool
of_source i e = e.source == i

-- The entries are of iterators that there are, and an iterator with records has an entry, as far as
-- `P` holds of its place.
pub record FedOn (lz4 : Lz4) (P : ℕ → Type 0) (heap : List HeapEntry) (its : List SstBlockIterator)
    : Type 0 where
  pub known : All (λ e. (it : SstBlockIterator) × (get_elem? its e.source ≡ some it)) heap
  pub served :
      (i : ℕ) (it : SstBlockIterator)
      → get_elem? its i ≡ some it
      → P i
      → (any (of_source i) heap ≡ true) ⊎ (stream lz4 it ≡ [])

abbrev pub Fed : Lz4 → List HeapEntry → List SstBlockIterator → Type 0
Fed lz4 = FedOn lz4 (λ i. Unit {0})

streams-set_some :
    (lz4 : Lz4) (its : List SstBlockIterator) (i : ℕ) (it it' : SstBlockIterator)
    (r : InternalRecord)
    → get_elem? its i ≡ some it
    → stream lz4 it ≡ r ∷ stream lz4 it'
    → Permᴰ (streams lz4 its) (r ∷ streams lz4 (set its i it'))
unfolding streams
streams-set_some lz4 [] i it it' r h e = absurd (none-ne-some _ h)
streams-set_some lz4 (x ∷ its) zero it it' r h e =
    let same : x ≡ it = some-injective _ _ h in rw (same, e) (Permᴰ.refl _)
streams-set_some lz4 (x ∷ its) (suc i) it it' r h e =
    Permᴰ.trans (Permᴰ.append_left (stream lz4 x) (streams-set_some lz4 its i it it' r h e))
      (Permᴰ.middle r (stream lz4 x) (streams lz4 (set its i it')))

streams-set_none :
    (lz4 : Lz4) (its : List SstBlockIterator) (i : ℕ) (it it' : SstBlockIterator)
    → get_elem? its i ≡ some it
    → stream lz4 it ≡ []
    → stream lz4 it' ≡ []
    → streams lz4 (set its i it') ≡ streams lz4 its
unfolding streams
streams-set_none lz4 [] i it it' h e f = absurd (none-ne-some _ h)
streams-set_none lz4 (x ∷ its) zero it it' h e f =
    let same : x ≡ it = some-injective _ _ h in rw (same, e, f)
streams-set_none lz4 (x ∷ its) (suc i) it it' h e f =
    ap (λ (xs : List InternalRecord). stream lz4 x ++ xs) (streams-set_none lz4 its i it it' h e f)

pub records_of-Permᴰ :
    {xs ys : List HeapEntry} → Permᴰ xs ys → Permᴰ (records_of xs) (records_of ys)
records_of-Permᴰ Permᴰ.nil = Permᴰ.nil
records_of-Permᴰ (Permᴰ.cons e d) =
    Permᴰ.cons (ap (λ (x : HeapEntry). x.record_) e) (records_of-Permᴰ d)
records_of-Permᴰ (Permᴰ.swap e f) =
    Permᴰ.swap (ap (λ (x : HeapEntry). x.record_) e) (ap (λ (x : HeapEntry). x.record_) f)
records_of-Permᴰ (Permᴰ.trans d e) = Permᴰ.trans (records_of-Permᴰ d) (records_of-Permᴰ e)

-- The iterators after one is replaced.
set_there :
    (its : List SstBlockIterator) (source j : ℕ) (it it' x : SstBlockIterator)
    → get_elem? its source ≡ some it
    → get_elem? its j ≡ some x
    → (y : SstBlockIterator) × (get_elem? (set its source it') j ≡ some y)
set_there its source j it it' x h k = elim (Bool-cases (source == j)) [
  | inl e ↦
      let same : source ≡ j = ground (arith, e) in
      (it', ap (get_elem? (set its source it')) (sym same) ∙ get_elem?-set_self its source it it' h)
  | inr e ↦
      let n : source ≢ j = λ q. absurd (ground (arith, e, q)) in
      (x, get_elem?-set_other its source j it' n ∙ k)
]

All-set_there :
    (its : List SstBlockIterator) (source : ℕ) (it it' : SstBlockIterator) (heap : List HeapEntry)
    → get_elem? its source ≡ some it
    → All (λ e. (x : SstBlockIterator) × (get_elem? its e.source ≡ some x)) heap
    → All (λ e. (x : SstBlockIterator) × (get_elem? (set its source it') e.source ≡ some x)) heap
All-set_there its source it it' [] h k = tt
All-set_there its source it it' (e ∷ heap) h k =
    (set_there its source e.source it it' k.0.0 h k.0.1, All-set_there its source it it' heap h k.1)

-- The iterators but one have an entry if they have records.
abbrev pub ServedBut : Lz4 → (ℕ → Type 0) → ℕ → List HeapEntry → List SstBlockIterator → Type 0
ServedBut lz4 P source heap its =
    (i : ℕ) (it : SstBlockIterator)
    → get_elem? its i ≡ some it
    → P i
    → source ≢ i
    → (any (of_source i) heap ≡ true) ⊎ (stream lz4 it ≡ [])

pub push_next-Fed :
    (lz4 : Lz4) (P : ℕ → Type 0) (m : Merging) (source : ℕ) (it : SstBlockIterator)
    (p : Option InternalRecord × SstBlockIterator)
    → get_elem? m.iterators source ≡ some it
    → All (λ e. (x : SstBlockIterator) × (get_elem? m.iterators e.source ≡ some x)) m.heap
    → ServedBut lz4 P source m.heap m.iterators
    → Gives lz4 (stream lz4 it) p
    → FedOn lz4 P (push_next source p m).heap (push_next source p m).iterators
      × Permᴰ
          (left lz4 m.heap m.iterators)
          (left lz4 (push_next source p m).heap (push_next source p m).iterators)
unfolding push_next left
push_next-Fed lz4 P m source it (none, it') there known served g = (
  record {
    known = All-set_there m.iterators source it it' m.heap there known;
    served = λ i x h k. elim (Bool-cases (source == i)) [
      | inl e ↦
          let same : source ≡ i = ground (arith, e) in
          let now : it' ≡ x = some-injective _ _ (
            sym (get_elem?-set_self m.iterators source it it' there)
            ∙ ap (get_elem? (set m.iterators source it')) same
            ∙ h) in
          inr (rw (sym now) g.1)
      | inr e ↦
          let n : source ≢ i = λ q. absurd (ground (arith, e, q)) in
          served i x (sym (get_elem?-set_other m.iterators source i it' n) ∙ h) k n
    ];
  },
  rw (streams-set_none lz4 m.iterators source it it' there g.0 g.1) (Permᴰ.refl _),
)
push_next-Fed lz4 P m source it (some r, it') there known served g = (
  record {
    known = (
      (it', get_elem?-set_self m.iterators source it it' there),
      All-set_there m.iterators source it it' m.heap there known,
    );
    served = λ i x h k. elim (Bool-cases (source == i)) [
      | inl e ↦ inl (rw e)
      | inr e ↦
          let n : source ≢ i = λ q. absurd (ground (arith, e, q)) in
          elim (served i x (sym (get_elem?-set_other m.iterators source i it' n) ∙ h) k n) [
            | inl a ↦ inl (rw (e, a))
            | inr a ↦ inr a
          ]
    ];
  },
  Permᴰ.trans
      (Permᴰ.append_left (records_of m.heap)
        (streams-set_some lz4 m.iterators source it it' r there g))
      (Permᴰ.middle r (records_of m.heap) (streams lz4 (set m.iterators source it'))),
)

-- With an empty heap nothing is left.
pub Fed-nil : (lz4 : Lz4) (its : List SstBlockIterator) → Fed lz4 [] its → streams lz4 its ≡ []
unfolding streams
Fed-nil lz4 its fed = empty its (λ i it h. fed.served i it h tt)
  where
    empty :
        (its : List SstBlockIterator)
        → ((i : ℕ) (it : SstBlockIterator)
            → get_elem? its i ≡ some it
            → (any (of_source i) [] ≡ true) ⊎ (stream lz4 it ≡ []))
        → streams lz4 its ≡ []
    empty [] h = refl
    empty (it ∷ its) h = elim (h 0 it refl) [
      | inl a ↦ cc
      | inr e ↦ rw e (empty its (λ i. h (suc i)))
    ]
