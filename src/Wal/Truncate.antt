-- ===== src/Wal/Truncate.antt =====
-- Truncating the log, and opening it again.
use flowdb.Base.{
  ℕ, ◌≤◌, ◌<◌, ◌≡◌, refl, sym, ap, ◌∙◌, arith, if◌then◌else◌, filter, filter-append, All, some,
  List, [], ◌∷◌, sort_by, Bool-cases, inl, inr,
}
use flowdb.Record.{InternalRecord}
use flowdb.Wal.Replay.{newer}
use flowdb.Wal.Operations.{with_segment, records_of-with_segment, ensure_segment-IsWhole}
use flowdb.Wal.Log.{Part, Stores, IsWhole, records_of, replay_from-Stores}
use flowdb.Wal.Segments.{Segment, Wal, replay_from, seq_le, keeps, truncate_before}

-- The parts of the segments that are kept.
kept_parts : ℕ → List Segment → List Part → List Part
kept_parts seq [] ps = []
kept_parts seq (s ∷ ss) [] = []
kept_parts seq (s ∷ ss) (p ∷ ps) =
    if keeps seq s then p ∷ kept_parts seq ss ps else kept_parts seq ss ps

newer_none :
    (seq m : ℕ) (rs : List InternalRecord)
    → m ≤ seq
    → All (λ r. r.seq ≤ m) rs
    → filter (newer seq) rs ≡ []
unfolding newer
newer_none seq m [] l h = refl
newer_none seq m (r ∷ rs) l h = ground (arith, newer_none seq m rs l h.1)

Stores-kept :
    (seq : ℕ) (ss : List Segment) (ps : List Part)
    → Stores ss ps
    → Stores (filter (keeps seq) ss) (kept_parts seq ss ps)
unfolding kept_parts
Stores-kept seq [] [] st = tt
Stores-kept seq [] (p ∷ ps) st = absurd st
Stores-kept seq (s ∷ ss) [] st = absurd st
Stores-kept seq (s ∷ ss) (p ∷ ps) st = elim (Bool-cases (keeps seq s)) [
  | inl t ↦ rw t (st.0, Stores-kept seq ss ps st.1)
  | inr f ↦ rw f (Stores-kept seq ss ps st.1)
]

whole-kept :
    (seq : ℕ) (ss : List Segment) (ps : List Part)
    → All (λ p. p.torn ≡ []) ps
    → All (λ p. p.torn ≡ []) (kept_parts seq ss ps)
unfolding kept_parts
whole-kept seq [] ps t = tt
whole-kept seq (s ∷ ss) [] t = tt
whole-kept seq (s ∷ ss) (p ∷ ps) t = elim (Bool-cases (keeps seq s)) [
  | inl k ↦ rw k (t.0, whole-kept seq ss ps t.1)
  | inr f ↦ rw f (whole-kept seq ss ps t.1)
]

fresh-kept :
    (seq n : ℕ) (ss : List Segment)
    → All (λ s. s.id < n) ss
    → All (λ s. s.id < n) (filter (keeps seq) ss)
fresh-kept seq n [] h = tt
fresh-kept seq n (s ∷ ss) h = elim (Bool-cases (keeps seq s)) [
  | inl k ↦ rw k (h.0, fresh-kept seq n ss h.1)
  | inr f ↦ rw f (fresh-kept seq n ss h.1)
]

newer-kept :
    (seq : ℕ) (ss : List Segment) (ps : List Part)
    → Stores ss ps
    → filter (newer seq) (records_of (kept_parts seq ss ps)) ≡ filter (newer seq) (records_of ps)
unfolding kept_parts
newer-kept seq [] [] st = refl
newer-kept seq [] (p ∷ ps) st = absurd st
newer-kept seq (s ∷ ss) [] st = absurd st
newer-kept seq (s ∷ ss) (p ∷ ps) st = elim (Bool-cases (keeps seq s)) [
  | inl k ↦ rw k (
      ground (
        arith,
        newer-kept seq ss ps st.1,
        filter-append (newer seq) p.records (records_of ps),
        filter-append (newer seq) p.records (records_of (kept_parts seq ss ps)),
      ))
  | inr f ↦
      let low : s.max_seq ≤ seq = unfold keeps in ground (arith, f) in
      rw f (
        ground (
          arith,
          newer-kept seq ss ps st.1,
          newer_none seq s.max_seq p.records low st.0.bounded,
          filter-append (newer seq) p.records (records_of ps),
        ))
]

-- Truncating the log before a number loses no record above it: a log that was never torn stays so,
-- and holds the same records above that number, in the same order.
pub truncate_before-IsWhole :
    (w : Wal) (ps : List Part) (seq : ℕ)
    → IsWhole w ps
    → (qs : List Part) × IsWhole (truncate_before w seq) qs
      × (filter (newer seq) (records_of qs) ≡ filter (newer seq) (records_of ps))
unfolding truncate_before
truncate_before-IsWhole w ps seq h =
    let kept = kept_parts seq w.segments ps in
    (
      with_segment kept,
      ensure_segment-IsWhole (record w { segments = filter (keeps seq) w.segments }) kept
          (record {
            stores = Stores-kept seq w.segments ps h.stores;
            whole = whole-kept seq w.segments ps h.whole;
            fresh = fresh-kept seq w.next_segment_id w.segments h.fresh;
          }),
      rw (records_of-with_segment kept) (newer-kept seq w.segments ps h.stores),
    )

-- Replay after a truncation at the same number returns what it returned before.
pub replay_from-truncate_before :
    (w : Wal) (ps : List Part) (seq : ℕ)
    → IsWhole w ps
    → replay_from (truncate_before w seq) seq ≡ replay_from w seq
replay_from-truncate_before w ps seq h =
    let (qs, q, e) = truncate_before-IsWhole w ps seq h in
    replay_from-Stores (truncate_before w seq) qs seq q.stores
    ∙ ap (λ (rs : List InternalRecord). some (sort_by seq_le rs)) e
    ∙ sym (replay_from-Stores w ps seq h.stores)
