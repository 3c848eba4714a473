-- ===== src/Scan/Visited.antt =====
-- What `visit` shows of records in their order.
use flowdb.Base.{
  Bool, true, false, not, ◌&&◌, if◌then◌else◌, leb, ◌≡◌, refl, sym, ◌∙◌, arith, any, All, Option,
  none, some, List, [], ◌∷◌, Bool-cases, inl, inr,
}
use flowdb.Base.Bytes.{Bytes, eq_bytes, eq_bytes_iff}
use flowdb.Base.Int.{ℤ, eqb_ℤ, eqb_ℤ_iff}
use flowdb.Base.Sorts.{Sorted, All-map}
use flowdb.Record.{InternalRecord, Record, to_record}
use flowdb.Scan.{is_tombstoned, is_deletion, is_last}
use flowdb.Scan.Order.{scan_le, same_slot, scan_le-seq}
use flowdb.Scan.Visit.{
  visit, is_newest, record_lt, Shown, After, After-tail, After-here, is_last-same_slot,
  same_slot_comm, same_slot_self, same_slot_trans, later,
}

-- Two records of which one is the last and the other is not.
last_slot :
    (last : Option (Bytes × ℤ)) (r s : InternalRecord)
    → is_last last r.key r.ts ≡ true
    → is_last last s.key s.ts ≡ false
    → same_slot s r ≡ false
unfolding is_last same_slot
last_slot none r s h k = cc
last_slot (some (k, t)) r s h n =
    ground (arith, eq_bytes_iff k r.key, eq_bytes_iff s.key r.key, eq_bytes_iff k s.key)

All-newest :
    (r : InternalRecord) (rs : List InternalRecord)
    → All (λ s. scan_le r s ≡ true) rs
    → is_newest rs r ≡ true
unfolding is_newest
All-newest r [] h = refl
All-newest r (s ∷ rs) h = ground (arith, scan_le-seq r s h.0, All-newest r rs h.1)

newest_here :
    (r : InternalRecord) (rs : List InternalRecord)
    → All (λ s. scan_le r s ≡ true) rs
    → is_newest (r ∷ rs) r ≡ true
unfolding is_newest
newest_here r rs h = ground (arith, All-newest r rs h, same_slot_self r)

newest_later :
    (r s : InternalRecord) (rs : List InternalRecord)
    → same_slot s r ≡ false
    → is_newest rs s ≡ true
    → is_newest (r ∷ rs) s ≡ true
unfolding is_newest
newest_later r s rs h k = rw (h, k)

module _ (tombstones : List (Bytes × Bytes)) where
  -- Past a record of the last key and time.
  Shown-skip {ℓ} :
      {P : InternalRecord → Type ℓ} (last : Option (Bytes × ℤ)) (r : InternalRecord)
      (rs : List InternalRecord) (o : Record)
      → is_last last r.key r.ts ≡ true
      → Shown P tombstones last rs o
      → Shown P tombstones last (r ∷ rs) o
  Shown-skip last r rs o h s = record {
    shown = s.shown;
    holds = s.holds;
    fresh = s.fresh;
    put = s.put;
    outside = s.outside;
    same = s.same;
    newest = newest_later r s.shown rs (last_slot last r s.shown h s.fresh) s.newest;
  }

  -- Past a record that becomes the last one.
  Shown-step {ℓ} :
      {P : InternalRecord → Type ℓ} (last : Option (Bytes × ℤ)) (r : InternalRecord)
      (rs : List InternalRecord) (o : Record)
      → is_last last r.key r.ts ≡ false
      → After last (r ∷ rs)
      → Shown (λ s. P s × (scan_le r s ≡ true)) tombstones (some (r.key, r.ts)) rs o
      → Shown P tombstones last (r ∷ rs) o
  Shown-step last r rs o h a s = record {
    shown = s.shown;
    holds = s.holds.0;
    fresh = later last r s.shown rs a s.holds.1 h;
    put = s.put;
    outside = s.outside;
    newest =
        newest_later r s.shown rs
          (same_slot_comm s.shown r ∙ sym (is_last-same_slot r s.shown) ∙ s.fresh) s.newest;
    same = s.same;
  }

  Shown-here {ℓ} :
      {P : InternalRecord → Type ℓ} (last : Option (Bytes × ℤ)) (r : InternalRecord)
      (rs : List InternalRecord)
      → is_last last r.key r.ts ≡ false
      → is_deletion r ≡ false
      → is_tombstoned tombstones r ≡ false
      → P r
      → All (λ s. scan_le r s ≡ true) rs
      → Shown P tombstones last (r ∷ rs) (to_record r)
  Shown-here last r rs f p t h least = record {
    shown = r;
    holds = h;
    fresh = f;
    put = p;
    outside = t;
    newest = newest_here r rs least;
    same = refl;
  }

  All-both {ℓ κ} :
      (P : InternalRecord → Type ℓ) (Q : InternalRecord → Type κ) (rs : List InternalRecord)
      → All P rs
      → All Q rs
      → All (λ s. P s × Q s) rs
  All-both P Q [] h k = tt
  All-both P Q (r ∷ rs) h k = ((h.0, k.0), All-both P Q rs h.1 k.1)

  pub visit-Shown {ℓ} :
      (rs : List InternalRecord) (P : InternalRecord → Type ℓ) (last : Option (Bytes × ℤ))
      → Sorted scan_le rs
      → After last rs
      → All P rs
      → All (Shown P tombstones last rs) (visit tombstones last rs)
  unfolding visit
  visit-Shown [] P last s a h = tt
  visit-Shown (r ∷ rs) P last s a h =
      let both = All-both P (λ s'. scan_le r s' ≡ true) rs h.1 s.0 in
      elim (Bool-cases (is_last last r.key r.ts)) [
        | inl e ↦ rw e (
            All-map (visit tombstones last rs) (λ o. Shown-skip last r rs o e)
              (visit-Shown rs P last s.1 (After-tail last r rs a) h.1))
        | inr e ↦
            let rest =
              All-map (visit tombstones (some (r.key, r.ts)) rs)
                (λ o. Shown-step {P = P} last r rs o e a)
                (visit-Shown rs (λ s'. P s' × (scan_le r s' ≡ true)) (some (r.key, r.ts)) s.1
                  (After-here r rs s.0) both) in
            elim (Bool-cases (is_deletion r)) [
              | inl d ↦ rw (e, d) rest
              | inr d ↦ elim (Bool-cases (is_tombstoned tombstones r)) [
                | inl t ↦ rw (e, d, t) rest
                | inr t ↦ rw (e, d, t) (Shown-here last r rs e d t h.0 s.0, rest)
              ]
            ]
      ]

  record_lt_of :
      (r s : InternalRecord)
      → scan_le r s ≡ true
      → is_last (some (r.key, r.ts)) s.key s.ts ≡ false
      → record_lt (to_record r) (to_record s) ≡ true
  unfolding scan_le record_lt to_record is_last
  record_lt_of r s h k = ground arith

  Shown-record_lt :
      (r : InternalRecord) (rs : List InternalRecord) (o : Record)
      → Shown (λ s. scan_le r s ≡ true) tombstones (some (r.key, r.ts)) rs o
      → record_lt (to_record r) o ≡ true
  Shown-record_lt r rs o s = rw s.same (record_lt_of r s.shown s.holds s.fresh)

  pub visit-Sorted :
      (rs : List InternalRecord) (last : Option (Bytes × ℤ))
      → Sorted scan_le rs
      → Sorted record_lt (visit tombstones last rs)
  unfolding visit
  visit-Sorted [] last s = tt
  visit-Sorted (r ∷ rs) last s = elim (Bool-cases (is_last last r.key r.ts)) [
    | inl e ↦ rw e (visit-Sorted rs last s.1)
    | inr e ↦
        let rest = visit-Sorted rs (some (r.key, r.ts)) s.1 in
        elim (Bool-cases (is_deletion r)) [
          | inl d ↦ rw (e, d) rest
          | inr d ↦ elim (Bool-cases (is_tombstoned tombstones r)) [
            | inl t ↦ rw (e, d, t) rest
            | inr t ↦
                rw (e, d, t)
                  (
                    All-map (visit tombstones (some (r.key, r.ts)) rs) (Shown-record_lt r rs) (
                        visit-Shown rs (λ s'. scan_le r s' ≡ true) (some (r.key, r.ts)) s.1
                          (After-here r rs s.0) s.0),
                    rest,
                  )
          ]
        ]
  ]

-- A record of the key and time of `r` that is not older than it.
unfoldable pub covers : InternalRecord → InternalRecord → Bool
covers r s = same_slot r s && leb r.seq s.seq

-- It is none of those, or a put.
unfoldable pub put_if_covers : InternalRecord → InternalRecord → Bool
put_if_covers r s = if covers r s then not (is_deletion s) else true

unfoldable pub has_slot : InternalRecord → Record → Bool
has_slot r o = eq_bytes o.key r.key && eqb_ℤ o.ts r.ts

covers_first :
    (r s : InternalRecord) (rs : List InternalRecord)
    → All (λ x. scan_le s x ≡ true) rs
    → same_slot r s ≡ true
    → any (covers r) (s ∷ rs) ≡ true
    → covers r s ≡ true
unfolding covers
covers_first r s [] h e k = ground arith
covers_first r s (x ∷ rs) h e k = ground (
  arith,
  scan_le-seq s x h.0,
  same_slot_trans s r x,
  same_slot_comm s r,
  covers_first r s rs h.1 e,
)

not_last :
    (r x : InternalRecord) → same_slot r x ≡ false → is_last (some (x.key, x.ts)) r.key r.ts ≡ false
not_last r x h = is_last-same_slot x r ∙ same_slot_comm x r ∙ h

covers_later :
    (r x : InternalRecord) (rs : List InternalRecord)
    → same_slot r x ≡ false
    → any (covers r) (x ∷ rs) ≡ true
    → any (covers r) rs ≡ true
unfolding covers
covers_later r x rs h k = ground arith

covers-put :
    (r x : InternalRecord) → covers r x ≡ true → put_if_covers r x ≡ true → is_deletion x ≡ false
unfolding put_if_covers
covers-put r x h k = ground arith

has_slot-to_record : (r x : InternalRecord) → same_slot r x ≡ true → has_slot r (to_record x) ≡ true
unfolding same_slot has_slot to_record
has_slot-to_record r x h = ground (
  arith,
  eq_bytes_iff r.key x.key,
  eq_bytes_iff x.key r.key,
  eqb_ℤ_iff r.ts x.ts,
  eqb_ℤ_iff x.ts r.ts,
)

module _ (tombstones : List (Bytes × Bytes)) where
  tombstoned_slot :
      (r s : InternalRecord)
      → same_slot r s ≡ true
      → is_tombstoned tombstones s ≡ is_tombstoned tombstones r
  unfolding same_slot is_tombstoned
  tombstoned_slot r s h = let e : r.key ≡ s.key = ground (arith, eq_bytes_iff r.key s.key) in rw e

  pub visit-has_slot :
      (rs : List InternalRecord) (last : Option (Bytes × ℤ)) (r : InternalRecord)
      → Sorted scan_le rs
      → is_last last r.key r.ts ≡ false
      → any (covers r) rs ≡ true
      → All (λ s. put_if_covers r s ≡ true) rs
      → is_tombstoned tombstones r ≡ false
      → any (has_slot r) (visit tombstones last rs) ≡ true
  unfolding visit
  visit-has_slot [] last r s n c p t = cc
  visit-has_slot (x ∷ rs) last r s n c p t = elim (Bool-cases (is_last last x.key x.ts)) [
    | inl e ↦
        rw e (visit-has_slot rs last r s.1 n (covers_later r x rs (last_slot last x r e n) c) p.1 t)
    | inr e ↦ elim (Bool-cases (same_slot r x)) [
      | inl w ↦ rw (
        e,
        covers-put r x (covers_first r x rs s.0 w c) p.0,
        tombstoned_slot r x w,
        t,
        has_slot-to_record r x w,
      )
      | inr w ↦
          let rest =
            visit-has_slot rs (some (x.key, x.ts)) r s.1 (not_last r x w) (covers_later r x rs w c)
              p.1 t in
          elim (Bool-cases (is_deletion x)) [
            | inl d ↦ rw (e, d) rest
            | inr d ↦ elim (Bool-cases (is_tombstoned tombstones x)) [
              | inl q ↦ rw (e, d, q) rest
              | inr q ↦ rw (e, d, q) (ground (arith, rest))
            ]
          ]
    ]
  ]
