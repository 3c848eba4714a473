-- ===== src/Base/Heap.antt =====
-- The std `BinaryHeap`: what it promises of `pop`, which one of several greatest elements it takes
-- being left open, and a list that keeps the promise.
use mathlib.Core.Path.{◌≡◌, refl, sym, ◌∙◌, subst}
use mathlib.Core.Logic.{inl, inr}
use mathlib.Core.Bool.{Bool, true, false}
use mathlib.Core.Option.{Option, none, some, none-ne-some, some-injective}
use mathlib.Core.List.{List, [], ◌∷◌, Permᴰ}
use mathlib.Core.List.Permᴰ
use flowdb.Base.Lists.{All}
use flowdb.Base.Sorts.{All-map}
use flowdb.Base.Tests.{if◌then◌else◌, Bool-cases, Option-cases}

-- `le a b` says that `a.cmp(b)` is not `Greater`.
pub record MaxHeap {E : Type 0} (le : E → E → Bool) : Type 0 where
  pub pop : List E → Option (E × List E)
  pub pop_none : (h : List E) → pop h ≡ none → h ≡ []
  pub pop_some :
      (h : List E) (e : E) (rest : List E)
      → pop h ≡ some (e, rest)
      → Permᴰ h (e ∷ rest) × All (λ x. le x e ≡ true) h

module _ {E : Type 0} (le : E → E → Bool) where
  unfoldable pub take_max : List E → Option (E × List E)
  take_max [] = none
  take_max (x ∷ xs) = elim (take_max xs) [
    | none ↦ some (x, [])
    | some (e, rest) ↦ if le x e then some (e, x ∷ rest) else some (x, e ∷ rest)
  ]

module _ {E : Type 0} (le : E → E → Bool) (total : (x y : E) → le x y ≡ false → le y x ≡ true)
    (transitive : (x y z : E) → le x y ≡ true → le y z ≡ true → le x z ≡ true) where
  le_self : (x : E) → le x x ≡ true
  le_self x = elim (Bool-cases (le x x)) [ inl e ↦ e | inr e ↦ total x x e ]

  pub take_max-none : (h : List E) → take_max le h ≡ none → h ≡ []
  unfolding take_max
  take_max-none [] h = refl
  take_max-none (x ∷ xs) h = elim (Option-cases (take_max le xs)) [
    | inl e ↦ absurd (none-ne-some (x, []) (sym h ∙ rw (take_max, e)))
    | inr ((e, rest), q) ↦ elim (Bool-cases (le x e)) [
      | inl l ↦ absurd (none-ne-some (e, x ∷ rest) (sym h ∙ rw (q, l)))
      | inr l ↦ absurd (none-ne-some (x, e ∷ rest) (sym h ∙ rw (q, l)))
    ]
  ]

  abbrev pub IsMax : List E → E × List E → Type 0
  IsMax h p = Permᴰ h (p.0 ∷ p.1) × All (λ x. le x p.0 ≡ true) h

  pub take_max-IsMax : (h : List E) (p : E × List E) → take_max le h ≡ some p → IsMax h p
  unfolding take_max
  take_max-IsMax [] p h = absurd (none-ne-some _ h)
  take_max-IsMax (x ∷ xs) p h = elim (Option-cases (take_max le xs)) [
    | inl e ↦
        let same : (x, []) ≡ p = some-injective _ _ (sym (rw e) ∙ h) in
        subst (IsMax (x ∷ xs)) same (rw (take_max-none xs e) (Permᴰ.refl (x ∷ []), (le_self x, tt)))
    | inr ((e, rest), q) ↦
        let ih = take_max-IsMax xs (e, rest) q in
        elim (Bool-cases (le x e)) [
          | inl l ↦
              let same : (e, x ∷ rest) ≡ p = some-injective _ _ (sym (rw (q, l)) ∙ h) in
              subst (IsMax (x ∷ xs)) same
                (Permᴰ.trans (Permᴰ.cons refl ih.0) (Permᴰ.swap refl refl), (l, ih.1))
          | inr l ↦
              let same : (x, e ∷ rest) ≡ p = some-injective _ _ (sym (rw (q, l)) ∙ h) in
              subst (IsMax (x ∷ xs)) same (
                Permᴰ.cons refl ih.0,
                (le_self x, All-map xs (λ y k. transitive y e x k (total x e l)) ih.1),
              )
        ]
  ]

  -- Such a heap, for a total order.
  abbrev pub list_heap : MaxHeap le
  list_heap = record {
    pop = take_max le;
    pop_none = take_max-none;
    pop_some = λ h e rest. take_max-IsMax h (e, rest);
  }
