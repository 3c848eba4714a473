-- ===== src/Wal/Operations.antt =====
-- Writing a batch, truncating the log, and opening it again, against the list of records.
use mathlib.Core.Path.{subst}
use flowdb.Base.{
  ℕ, ◌≤◌, ◌<◌, ◌≡◌, refl, sym, ◌∙◌, arith, leb, All, All-append, List, [], ◌∷◌, ◌++◌, append-nil,
  append_assoc, true, false, Bool-cases, inl, inr,
}
use flowdb.Base.Bytes.{Bytes}
use flowdb.Record.{InternalRecord}
use flowdb.Wal.{encode_batch}
use flowdb.Wal.Codec.{IsEncodable, encoding}
use flowdb.Wal.Replay.{encodings, encode_batch-encodings}
use flowdb.Wal.Log.{
  Part, Holds, Stores, IsWhole, records_of, empty_part, records_of-snoc, create_new_segment-IsWhole,
}
use flowdb.Wal.Segments.{
  Segment, Wal, create_new_segment, is_empty, ensure_segment, write_segment, write_last,
  last_written, roll, write_encoded,
}

-- The parts after `ensure_segment` and after `roll`.
abbrev pub with_segment : List Part → List Part
with_segment [] = empty_part ∷ []
with_segment (p ∷ ps) = p ∷ ps

pub records_of-with_segment : (ps : List Part) → records_of (with_segment ps) ≡ records_of ps
records_of-with_segment [] = refl
records_of-with_segment (p ∷ ps) = refl

-- The segments are empty exactly when the parts are.
with_segment_empty :
    (ss : List Segment) (ps : List Part)
    → Stores ss ps
    → is_empty ss ≡ true
    → ps ++ (empty_part ∷ []) ≡ with_segment ps
unfolding is_empty
with_segment_empty [] [] st e = refl
with_segment_empty [] (p ∷ ps) st e = absurd st
with_segment_empty (s ∷ ss) ps st e = cc

with_segment_same :
    (ss : List Segment) (ps : List Part) → Stores ss ps → is_empty ss ≡ false → ps ≡ with_segment ps
unfolding is_empty
with_segment_same [] ps st e = cc
with_segment_same (s ∷ ss) [] st e = absurd st
with_segment_same (s ∷ ss) (p ∷ ps) st e = refl

pub ensure_segment-IsWhole :
    (w : Wal) (ps : List Part) → IsWhole w ps → IsWhole (ensure_segment w) (with_segment ps)
unfolding ensure_segment
ensure_segment-IsWhole w ps h = elim (Bool-cases (is_empty w.segments)) [
  | inl t ↦
      rw (t, ensure_segment)
        (subst (IsWhole (create_new_segment w)) (with_segment_empty w.segments ps h.stores t)
          (create_new_segment-IsWhole w ps h))
  | inr f ↦
      rw (f, ensure_segment) (subst (IsWhole w) (with_segment_same w.segments ps h.stores f) h)
]

roll-IsWhole :
    (w : Wal) (ps : List Part)
    → IsWhole w ps
    → (qs : List Part) × IsWhole (roll w) qs × (records_of qs ≡ records_of ps)
unfolding roll
roll-IsWhole w ps h = elim (Bool-cases (leb w.max_segment_bytes (last_written w.segments))) [
  | inl t ↦ (
    ps ++ (empty_part ∷ []),
    rw (t, roll) (create_new_segment-IsWhole w ps h),
    records_of-snoc ps empty_part ∙ append-nil (records_of ps),
  )
  | inr f ↦ (ps, rw (f, roll) h, refl)
]

encodings-append :
    (rs qs : List InternalRecord) → encodings (rs ++ qs) ≡ encodings rs ++ encodings qs
encodings-append [] qs = refl
encodings-append (r ∷ rs) qs =
    rw (encodings-append rs qs) (sym (append_assoc (encoding r) (encodings rs) (encodings qs)))

All-le :
    (m k : ℕ) (rs : List InternalRecord) → m ≤ k → All (λ r. r.seq ≤ m) rs → All (λ r. r.seq ≤ k) rs
All-le m k [] l h = tt
All-le m k (r ∷ rs) l h = (omega arith, All-le m k rs l h.1)

abbrev add_records : List InternalRecord → Part → Part
add_records rs p = record { records = p.records ++ rs; torn = p.torn }

Holds-write_segment :
    (s : Segment) (p : Part) (rs : List InternalRecord) (m : ℕ)
    → Holds s p
    → p.torn ≡ []
    → All IsEncodable rs
    → All (λ r. r.seq ≤ m) rs
    → Holds (write_segment (encodings rs) m s) (add_records rs p)
unfolding write_segment
Holds-write_segment s p rs m h t fits le = record {
  contents = whole;
  no_record = h.no_record;
  fits = All-append IsEncodable p.records rs h.fits fits;
  bounded =
      All-append _ p.records rs (All-le s.max_seq _ p.records (ground arith) h.bounded)
        (All-le m _ rs (ground arith) le);
}
  where
    whole : s.contents ++ encodings rs ≡ encodings (p.records ++ rs) ++ p.torn
    whole = rw (
      h.contents,
      t,
      append-nil (encodings p.records),
      append-nil (encodings (p.records ++ rs)),
      encodings-append p.records rs,
    )

abbrev write_parts : List InternalRecord → List Part → List Part
write_parts rs [] = []
write_parts rs (p ∷ []) = add_records rs p ∷ []
write_parts rs (p ∷ q ∷ ps) = p ∷ write_parts rs (q ∷ ps)

records_of-write_parts :
    (rs : List InternalRecord) (p : Part) (ps : List Part)
    → records_of (write_parts rs (p ∷ ps)) ≡ records_of (p ∷ ps) ++ rs
records_of-write_parts rs p [] = simp append-nil
records_of-write_parts rs p (q ∷ ps) =
    rw (records_of-write_parts rs q ps) (sym (append_assoc p.records (records_of (q ∷ ps)) rs))

module _ (rs : List InternalRecord) (m : ℕ) (fits : All IsEncodable rs)
    (le : All (λ r. r.seq ≤ m) rs) where
  Stores-write_last :
      (ss : List Segment) (ps : List Part)
      → Stores ss ps
      → All (λ p. p.torn ≡ []) ps
      → Stores (write_last (encodings rs) m ss) (write_parts rs ps)
  unfolding write_last
  Stores-write_last [] [] st t = tt
  Stores-write_last [] (p ∷ ps) st t = absurd st
  Stores-write_last (s ∷ ss) [] st t = absurd st
  Stores-write_last (s ∷ []) (p ∷ []) st t = (Holds-write_segment s p rs m st.0 t.0 fits le, tt)
  Stores-write_last (s ∷ []) (p ∷ q ∷ ps) st t = absurd st.1
  Stores-write_last (s ∷ u ∷ ss) (p ∷ []) st t = absurd st.1
  Stores-write_last (s ∷ u ∷ ss) (p ∷ q ∷ ps) st t =
      (st.0, Stores-write_last (u ∷ ss) (q ∷ ps) st.1 t.1)

whole-write_parts :
    (rs : List InternalRecord) (ps : List Part)
    → All (λ p. p.torn ≡ []) ps
    → All (λ p. p.torn ≡ []) (write_parts rs ps)
whole-write_parts rs [] t = tt
whole-write_parts rs (p ∷ []) t = t
whole-write_parts rs (p ∷ q ∷ ps) t = (t.0, whole-write_parts rs (q ∷ ps) t.1)

fresh-write_last :
    (n m : ℕ) (buf : Bytes) (ss : List Segment)
    → All (λ s. s.id < n) ss
    → All (λ s. s.id < n) (write_last buf m ss)
unfolding write_last write_segment
fresh-write_last n m buf [] h = tt
fresh-write_last n m buf (s ∷ []) h = h
fresh-write_last n m buf (s ∷ u ∷ ss) h = (h.0, fresh-write_last n m buf (u ∷ ss) h.1)

-- Writing a batch appends its records to the log: if the log was never torn, every record of the
-- batch fits the format and none has a number above the batch's maximum, then the new log is whole
-- again, and holds the old records followed by the batch.
pub write_encoded-IsWhole :
    (w : Wal) (ps : List Part) (rs : List InternalRecord) (m : ℕ)
    → IsWhole w ps
    → All IsEncodable rs
    → All (λ r. r.seq ≤ m) rs
    → (qs : List Part) × IsWhole (write_encoded w (encode_batch rs).0 m) qs
      × (records_of qs ≡ records_of ps ++ rs)
unfolding write_encoded
write_encoded-IsWhole w ps rs m h fits le =
    let w' = ensure_segment w in
    let h' = ensure_segment-IsWhole w ps h in
    let written : IsWhole (record w' { segments = write_last (encodings rs) m w'.segments })
        (write_parts rs (with_segment ps)) =
      record {
        stores = Stores-write_last rs m fits le w'.segments (with_segment ps) h'.stores h'.whole;
        whole = whole-write_parts rs (with_segment ps) h'.whole;
        fresh = fresh-write_last w'.next_segment_id m (encodings rs) w'.segments h'.fresh;
      } in
    let (qs, q, e) = roll-IsWhole _ _ written in
    (qs, rw (encode_batch-encodings rs) q, e ∙ all_records ps)
  where
    all_records :
        (ps : List Part) → records_of (write_parts rs (with_segment ps)) ≡ records_of ps ++ rs
    all_records [] = records_of-write_parts rs empty_part []
    all_records (p ∷ ps) = records_of-write_parts rs p ps
