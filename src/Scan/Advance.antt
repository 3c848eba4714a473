-- ===== src/Scan/Advance.antt =====
-- A round of the merge takes a least record of all that are left, and keeps the heap ready.
use flowdb.Base.{
  ℕ, suc, ◌+◌, ◌==◌, ◌≡◌, ◌≢◌, true, if◌then◌else◌, refl, sym, ap, ◌∙◌, arith, get_elem?, set, All,
  some, List, [], ◌∷◌, Bool-cases, inl, inr,
}
use mathlib.Core.List.{Permᴰ}
use mathlib.Core.Option.{some-injective}
use flowdb.Base.Sorts.{Sorted, All-map}
use flowdb.Record.{InternalRecord}
use flowdb.Scan.{MergeEntry, entry_le, entry_of, source_index, push_peek}
use flowdb.Scan.Order.{scan_le, scan_le_total, scan_le_trans, entry_le-scan_le}
use flowdb.Scan.Ready.{
  get_elem?-set_self, get_elem?-set_other, All-set, All-get_elem?, get_elem?-All, All-Permᴰ,
  count_source, count_source-Permᴰ, due, Points, Ready, pending, pending-set, pending-All,
  count_source-other, count_source-found, All-Points-set,
}

abbrev LeastOf : InternalRecord → List (List InternalRecord) → Type 0
LeastOf r = All (All (λ s. scan_le r s ≡ true))

All-both {ℓ κ} :
    {A : Type ℓ} (P Q : A → Type κ) (xs : List A) → All P xs → All Q xs → All (λ x. P x × Q x) xs
All-both P Q [] h k = tt
All-both P Q (x ∷ xs) h k = ((h.0, k.0), All-both P Q xs h.1 k.1)

scan_le_self : (r : InternalRecord) → scan_le r r ≡ true
scan_le_self r = elim (Bool-cases (scan_le r r)) [ inl e ↦ e | inr e ↦ scan_le_total r r e ]

head_eq : (r s : InternalRecord) (rs ss : List InternalRecord) → r ∷ rs ≡ s ∷ ss → r ≡ s
head_eq r s rs ss e = some-injective _ _ (ap (λ xs. get_elem? xs 0) e)

-- The record that a greatest entry points to is a least one.
least :
    (sources : List (List InternalRecord)) (heap : List MergeEntry) (i : ℕ) (r : InternalRecord)
    → Ready sources heap
    → All (λ x. entry_le x (entry_of i r) ≡ true) heap
    → LeastOf r sources
unfolding due
least sources heap i r ready top = All-get_elem? (All (λ s. scan_le r s ≡ true)) sources per_source
  where
    per_source :
        (j : ℕ) (src : List InternalRecord)
        → get_elem? sources j ≡ some src
        → All (λ s. scan_le r s ≡ true) src
    per_source j [] e = tt
    per_source j (s ∷ ss) e =
        let Q : MergeEntry → Type 0 = λ x. Points sources x × (entry_le x (entry_of i r) ≡ true) in
        let n : count_source j heap ≡ 1 = ready.once j ∙ ap due e in
        let (x, q, at) =
          count_source-found Q j heap (All-both _ _ heap ready.points top) (omega (arith, n)) in
        let same : q.0.first ∷ q.0.others ≡ s ∷ ss =
          some-injective _ _ (sym q.0.there ∙ ap (get_elem? sources) at ∙ e) in
        let first : q.0.first ≡ s = head_eq q.0.first s q.0.others ss same in
        let le : scan_le r s ≡ true =
          sym (entry_le-scan_le s r x.source i) ∙ rw (sym first, sym q.0.made) q.1 in
        let in_order : Sorted scan_le (s ∷ ss) =
          get_elem?-All (Sorted scan_le) sources j (s ∷ ss) ready.sorted e in
        (le, All-map ss (λ t. scan_le_trans r s t le) in_order.0)

-- What a round does with the sources and the heap.
pub record Advanced (sources : List (List InternalRecord)) (e : MergeEntry) (rest : List MergeEntry)
    : Type 0 where
  pub record_ : InternalRecord
  pub others : List InternalRecord
  pub there : get_elem? sources (source_index e.source) ≡ some (record_ ∷ others)
  pub made : e ≡ entry_of e.source record_
  pub ready : Ready (set sources (source_index e.source) others) (push_peek e.source others rest)
  pub perm :
      Permᴰ (pending sources) (record_ ∷ pending (set sources (source_index e.source) others))
  pub least_ :
      All (λ s. scan_le record_ s ≡ true) (pending (set sources (source_index e.source) others))

count_source-entry :
    (i source : ℕ) (r : InternalRecord) (rest : List MergeEntry)
    → count_source i (entry_of source r ∷ rest)
      ≡ (if source_index source == i then suc (count_source i rest) else count_source i rest)
unfolding count_source entry_of
count_source-entry i source r rest = refl

pub count_source-push_peek :
    (i source : ℕ) (others : List InternalRecord) (rest : List MergeEntry)
    → count_source i (push_peek source others rest) ≡ (
        if source_index source == i
        then due (some others) + count_source i rest
        else count_source i rest)
unfolding push_peek due
count_source-push_peek i source [] rest = ground arith
count_source-push_peek i source (s ∷ ss) rest = count_source-entry i source s rest ∙ ground arith

-- The heap after the round counts right.
once_after :
    (sources : List (List InternalRecord)) (source : ℕ) (r : InternalRecord)
    (others : List InternalRecord) (rest : List MergeEntry)
    → get_elem? sources (source_index source) ≡ some (r ∷ others)
    → ((i : ℕ) → count_source i (entry_of source r ∷ rest) ≡ due (get_elem? sources i))
    → (i : ℕ)
    → count_source i (push_peek source others rest)
      ≡ due (get_elem? (set sources (source_index source) others) i)
once_after sources source r others rest there once i =
    elim (Bool-cases (source_index source == i)) [
      | inl e ↦
          let at : source_index source ≡ i = ground (arith, e) in
          let was : due (get_elem? sources i) ≡ 1 =
            ap (λ (k : ℕ). due (get_elem? sources k)) (sym at)
            ∙ ap due there
            ∙ unfold due in refl in
          let zero_left : count_source i rest ≡ 0 =
            ground (arith, e, was, once i, count_source-entry i source r rest) in
          let now : get_elem? (set sources (source_index source) others) i ≡ some others =
            ap (get_elem? (set sources (source_index source) others)) (sym at)
            ∙ get_elem?-set_self sources (source_index source) (r ∷ others) others there in
          rw (now, count_source-push_peek i source others rest, e) (omega (arith, zero_left))
      | inr e ↦
          let n : source_index source ≢ i = λ q. absurd (ground (arith, e, q)) in
          rw (
            get_elem?-set_other sources (source_index source) i others n,
            sym (once i),
            count_source-push_peek i source others rest,
            count_source-entry i source r rest,
            e,
          )
    ]

-- The heap has no other entry of the same source.
others_away :
    (sources : List (List InternalRecord)) (source : ℕ) (r : InternalRecord)
    (others : List InternalRecord) (rest : List MergeEntry)
    → get_elem? sources (source_index source) ≡ some (r ∷ others)
    → ((i : ℕ) → count_source i (entry_of source r ∷ rest) ≡ due (get_elem? sources i))
    → All (λ x. source_index x.source ≢ source_index source) rest
unfolding due
others_away sources source r others rest there once =
    let i = source_index source in
    let one : count_source i (entry_of source r ∷ rest) ≡ 1 = once i ∙ ap due there in
    count_source-other i rest (ground (arith, one, count_source-entry i source r rest))

Points-after :
    (sources : List (List InternalRecord)) (source : ℕ) (r : InternalRecord)
    (others : List InternalRecord) (rest : List MergeEntry)
    → get_elem? sources (source_index source) ≡ some (r ∷ others)
    → All (λ x. source_index x.source ≢ source_index source) rest
    → All (Points sources) rest
    → All (Points (set sources (source_index source) others)) (push_peek source others rest)
unfolding push_peek entry_of
Points-after sources source r [] rest there n p = All-Points-set sources _ [] rest n p
Points-after sources source r (s ∷ ss) rest there n p = (
  record {
    first = s;
    others = ss;
    there = get_elem?-set_self sources (source_index source) (r ∷ s ∷ ss) (s ∷ ss) there;
    made = refl;
  },
  All-Points-set sources _ (s ∷ ss) rest n p,
)

pub advance :
    (sources : List (List InternalRecord)) (heap : List MergeEntry) (e : MergeEntry)
    (rest : List MergeEntry)
    → Ready sources heap
    → Permᴰ heap (e ∷ rest)
    → All (λ x. entry_le x e ≡ true) heap
    → Advanced sources e rest
advance sources heap e rest ready perm top =
    let points = All-Permᴰ (Points sources) perm ready.points in
    let r = points.0.first in
    let others = points.0.others in
    let there = points.0.there in
    let made = points.0.made in
    let once : (i : ℕ) → count_source i (entry_of e.source r ∷ rest) ≡ due (get_elem? sources i) =
      λ i.
        ap (λ x. count_source i (x ∷ rest)) (sym made)
        ∙ sym (count_source-Permᴰ i perm)
        ∙ ready.once i in
    let away = others_away sources e.source r others rest there once in
    let top' : All (λ x. entry_le x (entry_of e.source r) ≡ true) heap =
      All-map heap (λ x h. ap (entry_le x) (sym made) ∙ h) top in
    let low = least sources heap e.source r ready top' in
    let here : All (λ s. scan_le r s ≡ true) (r ∷ others) =
      get_elem?-All (All (λ s. scan_le r s ≡ true)) sources (source_index e.source) (r ∷ others) low
        there in
    let in_order : Sorted scan_le (r ∷ others) =
      get_elem?-All (Sorted scan_le) sources (source_index e.source) (r ∷ others) ready.sorted
        there in
    record {
      record_ = r;
      others = others;
      there = there;
      made = made;
      ready = record {
        points = Points-after sources e.source r others rest there away points.1;
        once = once_after sources e.source r others rest there once;
        sorted = All-set (Sorted scan_le) sources _ others in_order.1 ready.sorted;
      };
      perm = pending-set sources (source_index e.source) r others there;
      least_ =
          pending-All _ _ (All-set (All (λ s. scan_le r s ≡ true)) sources _ others here.1 low);
    }
