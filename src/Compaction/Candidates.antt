-- ===== src/Compaction/Candidates.antt =====
-- The candidates are the smallest files.
use flowdb.Base.{
  ℕ, ◌*◌, ◌%◌, ◌^◌, ◌≤◌, ◌≡◌, ◌⊎◌, inl, inr, refl, ap, arith, true, false, Bool-cases, max, leb,
  length, take, sort_by, All, List, [], ◌∷◌,
}
use mathlib.Core.Path.{subst}
use flowdb.Base.Sorts.{Sorted, sort_by-Sorted}
use flowdb.Manifest.{ManifestState}
use flowdb.Compaction.{
  sized_of, bytes_le, take_small, ids_of, pick_sized, pick_compaction_candidates,
}

take_small-take :
    (threshold : ℕ) (es : List (ℕ × ℕ))
    → (take_small threshold es ≡ take (length (take_small threshold es)) es)
      × (length (take_small threshold es) ≤ length es)
      × All (λ e. e.1 ≤ threshold) (take_small threshold es)
unfolding take_small
take_small-take threshold [] = (refl, omega arith, tt)
take_small-take threshold (e ∷ es) = elim (Bool-cases (leb e.1 threshold)) [
  | inl p ↦
      let (same, less, small) = take_small-take threshold es in
      rw p (ap (◌∷◌ e) same, omega arith, (ground arith, small))
  | inr p ↦ rw p (refl, omega arith, tt)
]

-- The first `n` files, at least two; more than two only where all are within the threshold.
pub record Smallest (es : List (ℕ × ℕ)) (threshold : ℕ) (ids : List ℕ) : Type 0 where
  pub count : ℕ
  pub two : 2 ≤ count
  pub there : count ≤ length es
  pub first : ids ≡ ids_of (take count es)
  pub small : (count ≡ 2) ⊎ All (λ e. e.1 ≤ threshold) (take count es)

-- Four times the smallest size.
abbrev pub threshold_of : List (ℕ × ℕ) → ℕ
threshold_of [] = 0
threshold_of (e ∷ es) = max e.1 1 * 4 % 2 ^ 64

pick_sized-Smallest :
    (es : List (ℕ × ℕ)) → 2 ≤ length es → Smallest es (threshold_of es) (pick_sized es)
unfolding pick_sized
pick_sized-Smallest [] h = absurd (omega arith)
pick_sized-Smallest (e ∷ []) h = absurd (omega arith)
pick_sized-Smallest (e ∷ f ∷ es) h =
    let limit = max e.1 1 * 4 % 2 ^ 64 in
    let (same, less, small) = take_small-take limit (e ∷ f ∷ es) in
    elim (Bool-cases (leb 2 (length (take_small limit (e ∷ f ∷ es))))) [
      | inl p ↦ record {
        count = length (take_small limit (e ∷ f ∷ es));
        two = ground arith;
        there = less;
        first = rw p (ap ids_of same);
        small = inr (subst (λ l. All (λ e. e.1 ≤ limit) l) same small);
      }
      | inr p ↦ record {
        count = 2;
        two = omega arith;
        there = omega arith;
        first = rw p;
        small = inl refl;
      }
    ]

bytes_le_total : (a b : ℕ × ℕ) → bytes_le a b ≡ false → bytes_le b a ≡ true
bytes_le_total a b h = ground arith

bytes_le_trans : (a b c : ℕ × ℕ) → bytes_le a b ≡ true → bytes_le b c ≡ true → bytes_le a c ≡ true
bytes_le_trans a b c h k = ground arith

-- The files in the order that the choice is made in.
abbrev pub by_size : ManifestState → List ℕ → List (ℕ × ℕ)
by_size state all_ids = sort_by bytes_le (sized_of state.sstables all_ids)

-- Of two or more files the candidates are at least two, namely the first ones in the order of the
-- sizes, and more than two only where all of them are within four times the smallest size.
pub pick_compaction_candidates-Smallest :
    (state : ManifestState) (all_ids : List ℕ)
    → 2 ≤ length (by_size state all_ids)
    → Sorted bytes_le (by_size state all_ids)
      × Smallest
          (by_size state all_ids)
          (threshold_of (by_size state all_ids))
          (pick_compaction_candidates state all_ids)
unfolding pick_compaction_candidates
pick_compaction_candidates-Smallest state all_ids h = (
  sort_by-Sorted bytes_le_total bytes_le_trans (sized_of state.sstables all_ids),
  pick_sized-Smallest (by_size state all_ids) h,
)
