-- ===== src/Sst/Write/Chunks.antt =====
-- The chunks of a list of records.
use flowdb.Base.{
  ℕ, zero, suc, ◌≤◌, ◌<◌, ◌≡◌, refl, ap, ◌∙◌, arith, length, take, drop, List, [], ◌∷◌, ◌++◌,
  length-drop, take-length_append, drop-length_append,
}
use flowdb.Record.{InternalRecord}
use flowdb.Sst.Write.{chunks_loop, chunks}

-- More fuel than records changes nothing.
chunks_loop-fuel :
    (fuel more size : ℕ) (rs : List InternalRecord)
    → 0 < size
    → length rs ≤ fuel
    → fuel ≤ more
    → chunks_loop more size rs ≡ chunks_loop fuel size rs
unfolding chunks_loop
chunks_loop-fuel fuel more size [] p h k = refl
chunks_loop-fuel zero more size (r ∷ rs) p h k = absurd (omega arith)
chunks_loop-fuel (suc fuel) zero size (r ∷ rs) p h k = absurd (omega arith)
chunks_loop-fuel (suc fuel) (suc more) size (r ∷ rs) p h k = ap (◌∷◌ (take size (r ∷ rs))) (
    chunks_loop-fuel fuel more size (drop size (r ∷ rs)) p
      (omega (arith, length-drop size (r ∷ rs))) (omega arith))

chunks-cons :
    (size : ℕ) (r : InternalRecord) (rs : List InternalRecord)
    → 0 < size
    → chunks size (r ∷ rs) ≡ take size (r ∷ rs) ∷ chunks size (drop size (r ∷ rs))
unfolding chunks chunks_loop
chunks-cons size r rs p = ap (◌∷◌ (take size (r ∷ rs))) (
    chunks_loop-fuel (length (drop size (r ∷ rs))) (length rs) size (drop size (r ∷ rs)) p
      (omega arith) (omega (arith, length-drop size (r ∷ rs))))

take-all : (n : ℕ) (xs : List InternalRecord) → length xs ≤ n → take n xs ≡ xs
take-all zero [] h = refl
take-all zero (x ∷ xs) h = absurd (omega arith)
take-all (suc n) [] h = refl
take-all (suc n) (x ∷ xs) h = ap (◌∷◌ x) (take-all n xs (omega arith))

drop-all : (n : ℕ) (xs : List InternalRecord) → length xs ≤ n → drop n xs ≡ []
drop-all zero [] h = refl
drop-all zero (x ∷ xs) h = absurd (omega arith)
drop-all (suc n) [] h = refl
drop-all (suc n) (x ∷ xs) h = drop-all n xs (omega arith)

-- A full chunk in front.
pub chunks-append :
    (cs rs : List InternalRecord)
    → 0 < length cs
    → chunks (length cs) (cs ++ rs) ≡ cs ∷ chunks (length cs) rs
chunks-append [] rs h = absurd (omega arith)
chunks-append (c ∷ cs) rs h = rw (
  chunks-cons (length (c ∷ cs)) c (cs ++ rs) h,
  take-length_append (c ∷ cs) rs,
  drop-length_append (c ∷ cs) rs,
)

-- A last chunk.
pub chunks_short :
    (size : ℕ) (r : InternalRecord) (rs : List InternalRecord)
    → length (r ∷ rs) ≤ size
    → chunks size (r ∷ rs) ≡ (r ∷ rs) ∷ []
unfolding chunks chunks_loop
chunks_short size r rs h =
    chunks-cons size r rs (omega arith) ∙ rw (take-all size (r ∷ rs) h, drop-all size (r ∷ rs) h)

pub chunks-nil : (size : ℕ) → chunks size [] ≡ []
unfolding chunks chunks_loop
chunks-nil size = refl
