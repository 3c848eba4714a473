-- ===== src/Scan/Visit.antt =====
-- The records of a scan in their order: what is shown of them, and what is left out.
use flowdb.Base.{
  Bool, true, false, if◌then◌else◌, leb, ◌≡◌, refl, sym, ◌∙◌, arith, all, All, Option, none, some,
  List, [], ◌∷◌, Bool-cases, inl, inr,
}
use flowdb.Base.Bytes.{Bytes, eq_bytes, lt_bytes, eq_bytes_iff}
use flowdb.Base.Int.{ℤ, ltb_ℤ, eqb_ℤ_iff}
use flowdb.Record.{InternalRecord, Record, to_record}
use flowdb.Scan.{is_tombstoned, is_deletion, is_last}
use flowdb.Scan.Order.{scan_le, same_slot, scan_le-same_slot}

-- What both loops of `next` do with records that come in this order.
unfoldable pub visit : List (Bytes × Bytes) → Option (Bytes × ℤ) → List InternalRecord → List Record
visit tombstones last [] = []
visit tombstones last (r ∷ rs) =
    if is_last last r.key r.ts
    then visit tombstones last rs
    else if is_deletion r
    then visit tombstones (some (r.key, r.ts)) rs
    else if is_tombstoned tombstones r
    then visit tombstones (some (r.key, r.ts)) rs
    else to_record r ∷ visit tombstones (some (r.key, r.ts)) rs

-- No record of the same key and time is newer.
unfoldable pub is_newest : List InternalRecord → InternalRecord → Bool
is_newest rs r = all (λ (s : InternalRecord). if same_slot r s then leb s.seq r.seq else true) rs

-- Ascending by key and time, without repetition.
unfoldable pub record_lt : Record → Record → Bool
record_lt a b = if eq_bytes a.key b.key then ltb_ℤ a.ts b.ts else lt_bytes a.key b.key

-- A record that is shown, of which `P` holds.
pub record Shown {ℓ} (P : InternalRecord → Type ℓ) (tombstones : List (Bytes × Bytes))
    (last : Option (Bytes × ℤ)) (rs : List InternalRecord) (o : Record) : Type ℓ where
  pub shown : InternalRecord
  pub holds : P shown
  pub fresh : is_last last shown.key shown.ts ≡ false
  pub put : is_deletion shown ≡ false
  pub outside : is_tombstoned tombstones shown ≡ false
  pub newest : is_newest rs shown ≡ true
  pub same : o ≡ to_record shown

-- Where the list comes after the last record.
abbrev pub After : Option (Bytes × ℤ) → List InternalRecord → Type 0
After none rs = Unit
After (some (k, t)) rs =
    (p : InternalRecord) × (p.key ≡ k) × (p.ts ≡ t) × All (λ r. scan_le p r ≡ true) rs

pub After-tail :
    (last : Option (Bytes × ℤ)) (r : InternalRecord) (rs : List InternalRecord)
    → After last (r ∷ rs)
    → After last rs
After-tail none r rs h = tt
After-tail (some (k, t)) r rs (p, ek, et, h) = (p, ek, et, h.1)

pub After-here :
    (r : InternalRecord) (rs : List InternalRecord)
    → All (λ s. scan_le r s ≡ true) rs
    → After (some (r.key, r.ts)) rs
After-here r rs h = (r, refl, refl, h)

pub is_last-same_slot :
    (a b : InternalRecord) → is_last (some (a.key, a.ts)) b.key b.ts ≡ same_slot a b
unfolding is_last same_slot
is_last-same_slot a b = ground arith

pub same_slot_comm : (a b : InternalRecord) → same_slot a b ≡ same_slot b a
unfolding same_slot
same_slot_comm a b = ground (
  arith,
  eq_bytes_iff a.key b.key,
  eq_bytes_iff b.key a.key,
  eqb_ℤ_iff a.ts b.ts,
  eqb_ℤ_iff b.ts a.ts,
)

pub same_slot_self : (a : InternalRecord) → same_slot a a ≡ true
unfolding same_slot
same_slot_self a = ground (arith, eq_bytes_iff a.key a.key, eqb_ℤ_iff a.ts a.ts)

pub same_slot_trans :
    (a b c : InternalRecord) → same_slot a b ≡ true → same_slot b c ≡ true → same_slot a c ≡ true
unfolding same_slot
same_slot_trans a b c h k = ground (
  arith,
  eq_bytes_iff a.key b.key,
  eq_bytes_iff b.key c.key,
  eq_bytes_iff a.key c.key,
  eqb_ℤ_iff a.ts b.ts,
  eqb_ℤ_iff b.ts c.ts,
  eqb_ℤ_iff a.ts c.ts,
)

-- What comes after a record that is not the last one is not the last one either.
pub later :
    (last : Option (Bytes × ℤ)) (r s : InternalRecord) (rs : List InternalRecord)
    → After last (r ∷ rs)
    → scan_le r s ≡ true
    → is_last last r.key r.ts ≡ false
    → is_last last s.key s.ts ≡ false
unfolding is_last
later none r s rs a h k = refl
later (some (k, t)) r s rs (p, ek, et, a) h n =
    elim (Bool-cases (is_last (some (k, t)) s.key s.ts)) [
      | inr e ↦ e
      | inl e ↦
          let to_p : (x : InternalRecord) → is_last (some (k, t)) x.key x.ts ≡ same_slot p x =
            λ x. rw (sym ek, sym et) (is_last-same_slot p x) in
          let same = scan_le-same_slot p r s a.0 h (sym (to_p s) ∙ e) in cc (to_p r)
    ]
