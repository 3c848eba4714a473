-- ===== src/Compaction.antt =====
-- src/compaction.rs: `pick_compaction_candidates`, the choice of the files that are merged.
pub mod Candidates
pub mod Merge
mod Tests
use flowdb.Base.{
  ℕ, suc, ◌*◌, ◌%◌, ◌^◌, max, Bool, leb, if◌then◌else◌, length, take, map, sort_by, Option, none,
  some, List, [], ◌∷◌,
}
use flowdb.Manifest.{Map, SstInfo, ManifestState, get}

-- The files with their sizes; a number that is in no entry is left out.
unfoldable pub sized_of : Map SstInfo → List ℕ → List (ℕ × ℕ)
sized_of sstables [] = []
sized_of sstables (id ∷ ids) = elim (get sstables id) [
  | none ↦ sized_of sstables ids
  | some info ↦ (id, info.bytes) ∷ sized_of sstables ids
]

abbrev pub bytes_le : ℕ × ℕ → ℕ × ℕ → Bool
bytes_le a b = leb a.1 b.1

-- `take_while(|(_, bytes)| *bytes <= threshold)`
unfoldable pub take_small : ℕ → List (ℕ × ℕ) → List (ℕ × ℕ)
take_small threshold [] = []
take_small threshold (e ∷ es) =
    let rest = take_small threshold es in if leb e.1 threshold then e ∷ rest else []

abbrev pub ids_of : List (ℕ × ℕ) → List ℕ
ids_of = map (λ (e : ℕ × ℕ). e.0)

-- The choice among the files in the order of their sizes. The product is of `u64`.
unfoldable pub pick_sized : List (ℕ × ℕ) → List ℕ
pick_sized [] = []
pick_sized (e ∷ []) = e.0 ∷ []
pick_sized (e ∷ f ∷ es) =
    let candidates = take_small (max e.1 1 * 4 % 2 ^ 64) (e ∷ f ∷ es) in
    if leb 2 (length candidates) then ids_of candidates else ids_of (take 2 (e ∷ f ∷ es))

unfoldable pub pick_compaction_candidates : ManifestState → List ℕ → List ℕ
pick_compaction_candidates state all_ids =
    pick_sized (sort_by bytes_le (sized_of state.sstables all_ids))
