-- ===== src/Query/Prefix.antt =====
-- The successor of a prefix bounds exactly the keys that start with the prefix.
use flowdb.Base.{
  ◌+◌, ◌≡◌, refl, arith, true, ◌&&◌, none, some, [], ◌∷◌, ◌++◌, Option-cases, inl, inr, any, ltb,
  Bool-cases,
}
use flowdb.Base.Bytes.{Bytes, IsBytes, le_bytes, lt_bytes, starts_with}
use flowdb.Query.{bump, increment_prefix_bytes}

-- Nothing that starts a byte string can exceed bytes that are all 255.
starts_with_all_ff :
    (p k : Bytes) → IsBytes p → IsBytes k → bump p ≡ none → starts_with k p ≡ le_bytes p k
unfolding bump starts_with le_bytes
starts_with_all_ff [] k hp hk e = refl
starts_with_all_ff (x ∷ p) [] hp hk e = refl
starts_with_all_ff (x ∷ p) (z ∷ k) hp hk e = ground (arith, starts_with_all_ff p k hp.1 hk.1)

pub starts_with-bump :
    (p k e : Bytes)
    → IsBytes p
    → IsBytes k
    → bump p ≡ some e
    → starts_with k p ≡ (le_bytes p k && lt_bytes k e)
unfolding bump starts_with le_bytes lt_bytes
starts_with-bump [] k e hp hk b = cc
starts_with-bump (x ∷ p) [] e hp hk b = refl
starts_with-bump (x ∷ p) (z ∷ k) e hp hk b = elim (Option-cases (bump p)) [
  | inl q ↦ ground (arith, starts_with_all_ff p k hp.1 hk.1 q)
  | inr (e', q) ↦ ground (arith, starts_with-bump p k e' hp.1 hk.1 q)
]

-- Below the sentinel `p ++ [0]` and not below `p` stands only `p`.
sentinel_range : (p k : Bytes) → le_bytes p k ≡ true → lt_bytes k (p ++ (0 ∷ [])) ≡ true → k ≡ p
unfolding le_bytes lt_bytes
sentinel_range [] [] h l = refl
sentinel_range [] (z ∷ k) h l = ground arith
sentinel_range (x ∷ p) [] h l = cc
sentinel_range (x ∷ p) (z ∷ k) h l = ground (arith, sentinel_range p k)

pub starts_with_refl : (p : Bytes) → starts_with p p ≡ true
unfolding starts_with
starts_with_refl [] = refl
starts_with_refl (x ∷ p) = ground (arith, starts_with_refl p)

pub bump_below : (p : Bytes) → any (λ b. ltb b 255) p ≡ true → (e : Bytes) × (bump p ≡ some e)
unfolding bump
bump_below [] h = cc
bump_below (x ∷ p) h = elim (Option-cases (bump p)) [
  | inl q ↦ elim (Bool-cases (ltb x 255)) [
    | inl t ↦ ((x + 1) ∷ [], rw (q, t))
    | inr f ↦ let (e, r) = bump_below p (rw f at h) in absurd (cc (q, r))
  ]
  | inr (e, q) ↦ (x ∷ e, rw q)
]

-- For a prefix with a byte below 255 and every key of bytes, to start with the prefix is the same
-- as to lie in `[prefix, increment_prefix_bytes(prefix))`.
pub starts_with-increment_prefix_bytes :
    (p k : Bytes)
    → IsBytes p
    → IsBytes k
    → any (λ b. ltb b 255) p ≡ true
    → starts_with k p ≡ (le_bytes p k && lt_bytes k (increment_prefix_bytes p))
unfolding increment_prefix_bytes
starts_with-increment_prefix_bytes p k hp hk h =
    let (e, b) = bump_below p h in rw (b, increment_prefix_bytes) (starts_with-bump p k e hp hk b)

-- For every prefix, the keys of `[p, increment_prefix_bytes(p))` start with `p`.
pub increment_prefix_bytes_sound :
    (p k : Bytes)
    → IsBytes p
    → IsBytes k
    → le_bytes p k ≡ true
    → lt_bytes k (increment_prefix_bytes p) ≡ true
    → starts_with k p ≡ true
unfolding increment_prefix_bytes
increment_prefix_bytes_sound p k hp hk h l = elim (Option-cases (bump p)) [
  | inl q ↦
      let e : k ≡ p = sentinel_range p k h (rw (q, increment_prefix_bytes) at l) in
      rw e (starts_with_refl p)
  | inr (e, q) ↦ ground (arith, starts_with-bump p k e hp hk q)
]
