-- ===== src/Wal/Recovery.antt =====
-- Opening the log of a directory again, after a clean stop or a crash.
use flowdb.Base.{
  ℕ, ◌+◌, ◌*◌, ◌≤◌, ◌<◌, ◌≡◌, refl, ap, ◌∙◌, arith, ltb, if◌then◌else◌, filter, All, All-append,
  none, some, List, [], ◌∷◌, ◌++◌, append-nil, sort_by, length, true, Bool-cases, inl, inr,
}
use flowdb.Base.Bytes.{Bytes}
use flowdb.Record.{InternalRecord}
use flowdb.Wal.{decode_record}
use flowdb.Wal.Codec.{IsEncodable}
use flowdb.Wal.Replay.{encodings, newer}
use flowdb.Wal.Skip.{find_max_loop-encodings}
use flowdb.Wal.Log.{
  Part, Stores, Stores-snoc, records_of, records_of-snoc, empty_part, Holds-new_segment,
  replay_from-Stores,
}
use flowdb.Wal.Segments.{
  Segment, Wal, replay_from, seq_le, is_empty, create_new_segment, ensure_segment, find_max_seq,
  max_seq_of, load_segments, max_id, max_seq_in, open_wal, id_le,
}

-- What the files of a directory hold.
pub record HoldsFile (f : ℕ × Bytes) (p : Part) : Type 0 where
  pub contents : f.1 ≡ encodings p.records ++ p.torn
  pub no_record : decode_record p.torn ≡ none
  pub fits : All IsEncodable p.records

abbrev pub Files : List (ℕ × Bytes) → List Part → Type 0
Files [] [] = Unit {0}
Files (f ∷ fs) (p ∷ ps) = HoldsFile f p × Files fs ps
Files _ _ = ⊥

max_seq_of-encodings :
    (rs : List InternalRecord) (torn : Bytes)
    → All IsEncodable rs
    → All (λ r. r.seq ≤ max_seq_of (encodings rs ++ torn)) rs
unfolding max_seq_of find_max_seq
max_seq_of-encodings rs torn h =
    let (k, e, _, a) =
      find_max_loop-encodings rs torn (length (encodings rs ++ torn)) 0 h (omega arith) in
    rw (e, max_seq_of, find_max_seq) a

pub load_segments-Stores :
    (fs : List (ℕ × Bytes)) (ps : List Part) → Files fs ps → Stores (load_segments fs) ps
unfolding load_segments
load_segments-Stores [] [] h = tt
load_segments-Stores [] (p ∷ ps) h = absurd h
load_segments-Stores (f ∷ fs) [] h = absurd h
load_segments-Stores ((id, bs) ∷ fs) (p ∷ ps) h = (
  record {
    contents = h.0.contents;
    no_record = h.0.no_record;
    fits = h.0.fits;
    bounded = rw (h.0.contents) (max_seq_of-encodings p.records p.torn h.0.fits);
  },
  load_segments-Stores fs ps h.1,
)

Stores-create :
    (w : Wal) (ps : List Part)
    → Stores w.segments ps
    → is_empty w.segments ≡ true
    → Stores (create_new_segment w).segments (ps ++ (empty_part ∷ []))
unfolding create_new_segment is_empty
Stores-create w ps st t =
    Stores-snoc w.segments ps _ empty_part st
      (Holds-new_segment w.next_segment_id w.segments (all_of_empty w.segments t))
  where
    all_of_empty : (ss : List Segment) → is_empty ss ≡ true → All (λ s. s.id < w.next_segment_id) ss
    all_of_empty [] e = tt
    all_of_empty (s ∷ ss) e = cc

next_seq-ensure_segment : (w : Wal) → (ensure_segment w).next_seq ≡ w.next_seq
unfolding ensure_segment create_new_segment
next_seq-ensure_segment w = ground arith

ensure_segment-Stores :
    (w : Wal) (ps : List Part)
    → Stores w.segments ps
    → (qs : List Part) × Stores (ensure_segment w).segments qs × (records_of qs ≡ records_of ps)
unfolding ensure_segment
ensure_segment-Stores w ps st = elim (Bool-cases (is_empty w.segments)) [
  | inl t ↦
      rw (t, ensure_segment)
        (
          ps ++ (empty_part ∷ []),
          Stores-create w ps st t,
          records_of-snoc ps empty_part ∙ append-nil (records_of ps),
        )
  | inr f ↦ rw (f, ensure_segment) (ps, st, refl)
]

All-seq-lt :
    (m k : ℕ) (rs : List InternalRecord) → m < k → All (λ r. r.seq ≤ m) rs → All (λ r. r.seq < k) rs
All-seq-lt m k [] l h = tt
All-seq-lt m k (r ∷ rs) l h = (omega arith, All-seq-lt m k rs l h.1)

records_of-below :
    (ss : List Segment) (ps : List Part) (k : ℕ)
    → Stores ss ps
    → max_seq_in ss < k
    → All (λ r. r.seq < k) (records_of ps)
unfolding max_seq_in
records_of-below [] [] k st l = tt
records_of-below [] (p ∷ ps) k st l = absurd st
records_of-below (s ∷ ss) [] k st l = absurd st
records_of-below (s ∷ ss) (p ∷ ps) k st l =
    All-append _ p.records (records_of ps)
      (All-seq-lt s.max_seq k p.records (omega arith) st.0.bounded)
      (records_of-below ss ps k st.1 (omega arith))

abbrev opened : List Segment → ℕ → Wal
opened ss mb = record {
  segments = ss;
  max_segment_bytes = mb * 1024 * 1024;
  next_seq = if ltb 0 (max_seq_in ss) then max_seq_in ss + 1 else 1;
  next_segment_id = max_id ss + 1;
}

-- Recovery: if the files of a directory, in the order of their numbers, hold whole records that fit
-- the format, with torn ends, then the log that opening them gives replays exactly those records,
-- and its next number is above all of theirs.
pub open_wal-replay_from :
    (fs : List (ℕ × Bytes)) (ps : List Part) (mb after_seq : ℕ)
    → Files (sort_by id_le fs) ps
    → (replay_from (open_wal fs mb) after_seq
        ≡ some (sort_by seq_le (filter (newer after_seq) (records_of ps))))
      × All (λ r. r.seq < (open_wal fs mb).next_seq) (records_of ps)
unfolding open_wal
open_wal-replay_from fs ps mb after_seq h =
    let ss = load_segments (sort_by id_le fs) in
    let st = load_segments-Stores (sort_by id_le fs) ps h in
    let (qs, q, e) = ensure_segment-Stores (opened ss mb) ps st in
    (
      replay_from-Stores _ qs after_seq q
          ∙ ap (λ (rs : List InternalRecord). some (sort_by seq_le (filter (newer after_seq) rs)))
              e,
      rw (next_seq-ensure_segment (opened ss mb)) (records_of-below ss ps _ st (ground arith)),
    )
