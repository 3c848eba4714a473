-- ===== src/Base/Sorts.antt =====
-- `sort_by` and `max_by_key` against their descriptions.
use Prim.Native.Nat.{ℕ, zero, suc}
use mathlib.Core.Path.{◌≡◌, refl, sym, ◌∙◌}
use mathlib.Core.Logic.{inl, inr}
use mathlib.Core.Bool.{Bool, true, false, ◌||◌}
use mathlib.Core.Option.{Option, none, some}
use mathlib.Core.List.{
  List, [], ◌∷◌, ◌++◌, append_assoc, Mem, mem-cons_self, mem-cons_of_mem, Permᴰ, Perm,
}
use mathlib.Core.List.Permᴰ
use mathlib.Core.Logic.{∥∥₁_map}
use native.Mathlib.Omega.{arith}
use flowdb.Base.Lists.{
  All, get_elem?, length, flat_map, filter, any, take, drop, insert_sorted, sort_by, max_by,
}
use flowdb.Base.Tests.{if◌then◌else◌, Bool-cases}

module _ {ℓ} {A : Type ℓ} (le : A → A → Bool) where
  abbrev pub Sorted : List A → Type ℓ
  Sorted [] = Unit {ℓ}
  Sorted (x ∷ xs) = All (λ y. le x y ≡ true) xs × Sorted xs

  insert_sorted-Permᴰ : (x : A) (xs : List A) → Permᴰ (insert_sorted le x xs) (x ∷ xs)
  insert_sorted-Permᴰ x [] = Permᴰ.refl (x ∷ [])
  insert_sorted-Permᴰ x (y ∷ ys) = elim (Bool-cases (le x y)) [
    | inl e ↦ rw e (Permᴰ.refl (x ∷ y ∷ ys))
    | inr e ↦ rw e (Permᴰ.trans (Permᴰ.cons refl (insert_sorted-Permᴰ x ys)) (Permᴰ.swap refl refl))
  ]

  pub sort_by-Permᴰ : (xs : List A) → Permᴰ (sort_by le xs) xs
  sort_by-Permᴰ [] = Permᴰ.refl []
  sort_by-Permᴰ (x ∷ xs) =
      Permᴰ.trans (insert_sorted-Permᴰ x (sort_by le xs)) (Permᴰ.cons refl (sort_by-Permᴰ xs))

  pub sort_by-Perm : (xs : List A) → Perm (sort_by le xs) xs
  sort_by-Perm xs = ∣ sort_by-Permᴰ xs ∣₁

  -- An upper bound among the elements, or nothing where there are none.
  abbrev pub IsGreatest : Option A → List A → Type ℓ
  IsGreatest none xs = xs ≡ []
  IsGreatest (some r) xs = Mem r xs × All (λ x. le x r ≡ true) xs

module _ {ℓ} {A : Type ℓ} where
  pub All-map {κ μ} :
      {P : A → Type κ} {Q : A → Type μ} (xs : List A) → ((x : A) → P x → Q x) → All P xs → All Q xs
  All-map [] f h = tt
  All-map (x ∷ xs) f h = (f x h.0, All-map xs f h.1)

  pub All-filter {κ} :
      (P : A → Type κ) (p : A → Bool) (xs : List A) → All P xs → All P (filter p xs)
  All-filter P p [] h = tt
  All-filter P p (x ∷ xs) h = elim (Bool-cases (p x)) [
    | inl e ↦ rw e (h.0, All-filter P p xs h.1)
    | inr e ↦ rw e (All-filter P p xs h.1)
  ]

  pub max_by-snoc :
      (le : A → A → Bool) (xs : List A) (r : A)
      → All (λ x. le x r ≡ true) xs
      → max_by le (xs ++ (r ∷ [])) ≡ some r
  max_by-snoc le [] r h = refl
  max_by-snoc le (x ∷ xs) r h = rw (max_by-snoc le xs r h.1, h.0)

  pub flat_map-append {κ} :
      {B : Type κ} (f : A → List B) (xs ys : List A)
      → flat_map f (xs ++ ys) ≡ flat_map f xs ++ flat_map f ys
  flat_map-append f [] ys = refl
  flat_map-append f (x ∷ xs) ys =
      rw (flat_map-append f xs ys, append_assoc (f x) (flat_map f xs) (flat_map f ys))

  pub get_elem?-length : (xs : List A) (r : A) → get_elem? (xs ++ (r ∷ [])) (length xs) ≡ some r
  get_elem?-length [] r = refl
  get_elem?-length (x ∷ xs) r = get_elem?-length xs r

  pub get_elem?-append :
      (xs ys : List A) (i : ℕ) (r : A) → get_elem? xs i ≡ some r → get_elem? (xs ++ ys) i ≡ some r
  get_elem?-append [] ys i r h = cc
  get_elem?-append (x ∷ xs) ys zero r h = h
  get_elem?-append (x ∷ xs) ys (suc i) r h = get_elem?-append xs ys i r h

  pub filter_ext :
      {p q : A → Bool} → ((x : A) → p x ≡ q x) → (xs : List A) → filter p xs ≡ filter q xs
  filter_ext h [] = refl
  filter_ext h (x ∷ xs) = rw (h x, filter_ext h xs) refl

  pub filter_on {κ} :
      {p q : A → Bool} (P : A → Type κ)
      → ((x : A) → P x → p x ≡ q x)
      → (xs : List A) → All P xs
      → filter p xs ≡ filter q xs
  filter_on P h [] a = refl
  filter_on P h (x ∷ xs) a = rw (h x a.0, filter_on P h xs a.1) refl

  pub any-Permᴰ : (p : A → Bool) {xs ys : List A} → Permᴰ xs ys → any p xs ≡ any p ys
  any-Permᴰ p Permᴰ.nil = refl
  any-Permᴰ p (Permᴰ.cons e d) = rw (e, any-Permᴰ p d)
  any-Permᴰ p (Permᴰ.swap e f) = rw (e, f) (ground arith)
  any-Permᴰ p (Permᴰ.trans d e) = any-Permᴰ p d ∙ any-Permᴰ p e

  pub any-append : (p : A → Bool) (xs ys : List A) → any p (xs ++ ys) ≡ (any p xs || any p ys)
  any-append p [] ys = refl
  any-append p (x ∷ xs) ys = ground (arith, any-append p xs ys)

  pub All-Mem : (all' rs : List A) → ((r : A) → Mem r rs → Mem r all') → All (λ r. Mem r all') rs
  All-Mem all' [] h = tt
  All-Mem all' (r ∷ rs) h = (h r mem-cons_self, All-Mem all' rs (λ s m. h s (mem-cons_of_mem r m)))

  All-take {κ} : (P : A → Type κ) (n : ℕ) (xs : List A) → All P xs → All P (take n xs)
  All-take P zero xs h = tt
  All-take P (suc n) [] h = tt
  All-take P (suc n) (x ∷ xs) h = (h.0, All-take P n xs h.1)

  pub take-Sorted : (le : A → A → Bool) (n : ℕ) (xs : List A) → Sorted le xs → Sorted le (take n xs)
  take-Sorted le zero xs h = tt
  take-Sorted le (suc n) [] h = tt
  take-Sorted le (suc n) (x ∷ xs) h = (All-take _ n xs h.0, take-Sorted le n xs h.1)

  pub drop-Sorted : (le : A → A → Bool) (n : ℕ) (xs : List A) → Sorted le xs → Sorted le (drop n xs)
  drop-Sorted le zero xs h = h
  drop-Sorted le (suc n) [] h = tt
  drop-Sorted le (suc n) (x ∷ xs) h = drop-Sorted le n xs h.1

  pub filter-Sorted :
      (le : A → A → Bool) (p : A → Bool) (xs : List A) → Sorted le xs → Sorted le (filter p xs)
  filter-Sorted le p [] h = tt
  filter-Sorted le p (x ∷ xs) h = elim (Bool-cases (p x)) [
    | inl e ↦ rw e (All-filter _ p xs h.0, filter-Sorted le p xs h.1)
    | inr e ↦ rw e (filter-Sorted le p xs h.1)
  ]

  pub Sorted-weaken :
      (le le' : A → A → Bool)
      → ((a b : A) → le a b ≡ true → le' a b ≡ true)
      → (xs : List A) → Sorted le xs
      → Sorted le' xs
  Sorted-weaken le le' f [] h = tt
  Sorted-weaken le le' f (x ∷ xs) h = (All-map xs (λ y. f x y) h.0, Sorted-weaken le le' f xs h.1)

  filter-swap :
      (p : A → Bool) (a b : A) (l : List A) → Permᴰ (filter p (a ∷ b ∷ l)) (filter p (b ∷ a ∷ l))
  filter-swap p a b l = elim (Bool-cases (p a)) [
    | inl h ↦ elim (Bool-cases (p b)) [
      | inl k ↦ rw (h, k) (Permᴰ.swap refl refl)
      | inr k ↦ rw (h, k) (Permᴰ.refl _)
    ]
    | inr h ↦ elim (Bool-cases (p b)) [
      | inl k ↦ rw (h, k) (Permᴰ.refl _)
      | inr k ↦ rw (h, k) (Permᴰ.refl _)
    ]
  ]

  pub filter-Permᴰ :
      (p : A → Bool) {xs ys : List A} → Permᴰ xs ys → Permᴰ (filter p xs) (filter p ys)
  filter-Permᴰ p Permᴰ.nil = Permᴰ.nil
  filter-Permᴰ p (Permᴰ.cons {a = a} {b = b} e d) = rw e (elim (Bool-cases (p b)) [
    | inl k ↦ rw k (Permᴰ.cons refl (filter-Permᴰ p d))
    | inr k ↦ rw k (filter-Permᴰ p d)
  ])
  filter-Permᴰ p (Permᴰ.swap {a = a} {b = b} {l = l} e f) = rw (sym e, sym f) (filter-swap p a b l)
  filter-Permᴰ p (Permᴰ.trans d e) = Permᴰ.trans (filter-Permᴰ p d) (filter-Permᴰ p e)

  pub filter-Perm : (p : A → Bool) {xs ys : List A} → Perm xs ys → Perm (filter p xs) (filter p ys)
  filter-Perm p {xs} {ys} h = ∥∥₁_map {B = Permᴰ (filter p xs) (filter p ys)} h (filter-Permᴰ p)

module _ {ℓ} {A : Type ℓ} {le : A → A → Bool} (total : (x y : A) → le x y ≡ false → le y x ≡ true)
    (transitive : (x y z : A) → le x y ≡ true → le y z ≡ true → le x z ≡ true) where
  -- A total order is reflexive.
  le_self : (x : A) → le x x ≡ true
  le_self x = ground (arith, total x x)

  All-insert_sorted {κ} :
      (P : A → Type κ) (x : A) (xs : List A) → P x → All P xs → All P (insert_sorted le x xs)
  All-insert_sorted P x [] h hs = (h, hs)
  All-insert_sorted P x (y ∷ ys) h hs = elim (Bool-cases (le x y)) [
    | inl e ↦ rw e (h, hs)
    | inr e ↦ rw e (hs.0, All-insert_sorted P x ys h hs.1)
  ]

  insert_sorted-Sorted : (x : A) (xs : List A) → Sorted le xs → Sorted le (insert_sorted le x xs)
  insert_sorted-Sorted x [] h = (tt, tt)
  insert_sorted-Sorted x (y ∷ ys) h = elim (Bool-cases (le x y)) [
    | inl e ↦ rw e ((e, All-map ys (λ z. transitive x y z e) h.0), h)
    | inr e ↦ rw e (All-insert_sorted _ x ys (total x y e) h.0, insert_sorted-Sorted x ys h.1)
  ]

  pub sort_by-Sorted : (xs : List A) → Sorted le (sort_by le xs)
  sort_by-Sorted [] = tt
  sort_by-Sorted (x ∷ xs) = insert_sorted-Sorted x (sort_by le xs) (sort_by-Sorted xs)

  max_by-step :
      (x : A) (xs : List A) (o : Option A)
      → IsGreatest le o xs
      → IsGreatest le
          (elim o [ none ↦ some x | some y ↦ if le x y then some y else some x ])
          (x ∷ xs)
  max_by-step x xs none h = rw h (mem-cons_self, (le_self x, tt))
  max_by-step x xs (some y) h = elim (Bool-cases (le x y)) [
    | inl e ↦ rw e (mem-cons_of_mem x h.0, (e, h.1))
    | inr e ↦
        rw e (mem-cons_self, (le_self x, All-map xs (λ z k. transitive z y x k (total x y e)) h.1))
  ]

  pub max_by-IsGreatest : (xs : List A) → IsGreatest le (max_by le xs) xs
  max_by-IsGreatest [] = refl
  max_by-IsGreatest (x ∷ xs) = max_by-step x xs (max_by le xs) (max_by-IsGreatest xs)
