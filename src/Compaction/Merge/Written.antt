-- ===== src/Compaction/Merge/Written.antt =====
-- Which records the merge writes of those that come off the heap.
use flowdb.Base.{
  ◌≡◌, Bool, true, false, not, if◌then◌else◌, sym, ◌∙◌, arith, any, All, Option, none, some, List,
  [], ◌∷◌, Bool-cases, inl, inr,
}
use flowdb.Base.Bytes.{Bytes, eq_bytes_iff}
use flowdb.Base.Int.{ℤ, eqb_ℤ_iff}
use flowdb.Record.{InternalRecord}
use flowdb.Scan.{is_deletion, is_last}
use flowdb.Scan.Order.{same_slot}
use flowdb.Scan.Visit.{same_slot_comm, is_last-same_slot}

unfoldable pub written : Option (Bytes × ℤ) → List InternalRecord → List InternalRecord
written last [] = []
written last (r ∷ rs) =
    if is_last last r.key r.ts
    then written last rs
    else if is_deletion r
    then written (some (r.key, r.ts)) rs
    else r ∷ written (some (r.key, r.ts)) rs

-- What holds of all records holds of those that are written, and they are puts.
pub written-All {ℓ} :
    (P : InternalRecord → Type ℓ) (last : Option (Bytes × ℤ)) (rs : List InternalRecord)
    → All P rs
    → All (λ r. P r × (is_deletion r ≡ false)) (written last rs)
unfolding written
written-All P last [] h = tt
written-All P last (r ∷ rs) h = elim (Bool-cases (is_last last r.key r.ts)) [
  | inl e ↦ rw e (written-All P last rs h.1)
  | inr e ↦ elim (Bool-cases (is_deletion r)) [
    | inl d ↦ rw (e, d) (written-All P (some (r.key, r.ts)) rs h.1)
    | inr d ↦ rw (e, d) ((h.0, d), written-All P (some (r.key, r.ts)) rs h.1)
  ]
]

-- No deletion of the key and time of `r`.
unfoldable pub put_if_same : InternalRecord → InternalRecord → Bool
put_if_same r s = if same_slot r s then not (is_deletion s) else true

last_moves :
    (last : Option (Bytes × ℤ)) (r s : InternalRecord)
    → is_last last s.key s.ts ≡ true
    → is_last last r.key r.ts ≡ same_slot r s
unfolding is_last same_slot
last_moves none r s h = cc
last_moves (some (k, t)) r s h = ground (
  arith,
  eq_bytes_iff k s.key,
  eq_bytes_iff k r.key,
  eq_bytes_iff r.key s.key,
  eqb_ℤ_iff t s.ts,
  eqb_ℤ_iff t r.ts,
  eqb_ℤ_iff r.ts s.ts,
)

-- A key and time with no deletion is written, unless it is the last one.
pub written-same_slot :
    (r : InternalRecord) (last : Option (Bytes × ℤ)) (rs : List InternalRecord)
    → is_last last r.key r.ts ≡ false
    → All (λ s. put_if_same r s ≡ true) rs
    → any (same_slot r) rs ≡ true
    → any (same_slot r) (written last rs) ≡ true
unfolding written put_if_same
written-same_slot r last [] n p a = cc
written-same_slot r last (s ∷ rs) n p a = elim (Bool-cases (is_last last s.key s.ts)) [
  | inl e ↦
      let away : same_slot r s ≡ false = sym (last_moves last r s e) ∙ n in
      rw e (written-same_slot r last rs n p.1 (ground (arith, away, a)))
  | inr e ↦ elim (Bool-cases (same_slot r s)) [
    | inl w ↦ let live : is_deletion s ≡ false = ground (arith, w, p.0) in rw (e, live, w)
    | inr w ↦
        let next : is_last (some (s.key, s.ts)) r.key r.ts ≡ false =
          is_last-same_slot s r ∙ same_slot_comm s r ∙ w in
        let rest = written-same_slot r (some (s.key, s.ts)) rs next p.1 (ground (arith, w, a)) in
        elim (Bool-cases (is_deletion s)) [ inl d ↦ rw (e, d) rest | inr d ↦ rw (e, d, w) rest ]
  ]
]
