-- ===== src/Wal/Log.antt =====
-- The log as a list of records: what the segments hold, and what the operations keep of it.
use flowdb.Base.{
  ℕ, ◌+◌, ◌≤◌, ◌<◌, ◌≡◌, refl, sym, arith, length, filter, filter-append, All, All-append, none,
  some, List, [], ◌∷◌, ◌++◌, append-nil, append_assoc, sort_by,
}
use flowdb.Base.Bytes.{Bytes}
use flowdb.Record.{InternalRecord}
use flowdb.Wal.{decode_record}
use flowdb.Wal.Codec.{IsEncodable}
use flowdb.Wal.Replay.{encodings, replay_loop-encodings, newer, decode_record_nil}
use flowdb.Wal.Segments.{
  Segment, Wal, replay_segment, replay_segments, replay_from, seq_le, create_new_segment,
  new_segment, find_segment,
}

-- What a segment holds: whole records, and behind them bytes that are no record, the torn end that
-- a crash leaves.
pub record Part : Type 0 where
  pub records : List InternalRecord
  pub torn : Bytes

-- No number of a record is above the segment's `max_seq`.
pub record Holds (s : Segment) (p : Part) : Type 0 where
  pub contents : s.contents ≡ encodings p.records ++ p.torn
  pub no_record : decode_record p.torn ≡ none
  pub fits : All IsEncodable p.records
  pub bounded : All (λ r. r.seq ≤ s.max_seq) p.records

abbrev pub Stores : List Segment → List Part → Type 0
Stores [] [] = Unit {0}
Stores (s ∷ ss) (p ∷ ps) = Holds s p × Stores ss ps
Stores _ _ = ⊥

abbrev pub records_of : List Part → List InternalRecord
records_of [] = []
records_of (p ∷ ps) = p.records ++ records_of ps

replay_segment-Holds :
    (after_seq : ℕ) (s : Segment) (p : Part)
    → Holds s p
    → replay_segment after_seq s.contents ≡ some (filter (newer after_seq) p.records)
unfolding replay_segment
replay_segment-Holds after_seq s p h = rw h.contents (
    replay_loop-encodings p.records p.torn (length (encodings p.records ++ p.torn)) after_seq h.fits
      h.no_record (omega arith))

replay_segments-Stores :
    (after_seq : ℕ) (ss : List Segment) (ps : List Part)
    → Stores ss ps
    → replay_segments after_seq ss ≡ some (filter (newer after_seq) (records_of ps))
unfolding replay_segments
replay_segments-Stores after_seq [] [] st = refl
replay_segments-Stores after_seq [] (p ∷ ps) st = absurd st
replay_segments-Stores after_seq (s ∷ ss) [] st = absurd st
replay_segments-Stores after_seq (s ∷ ss) (p ∷ ps) (h, st) = ground (
  arith,
  replay_segment-Holds after_seq s p h,
  replay_segments-Stores after_seq ss ps st,
  filter-append (newer after_seq) p.records (records_of ps),
)

-- If the segments hold whole records with torn ends, replay returns, and it returns the records
-- whose number is above the given one, sorted by their numbers.
pub replay_from-Stores :
    (w : Wal) (ps : List Part) (after_seq : ℕ)
    → Stores w.segments ps
    → replay_from w after_seq ≡ some (sort_by seq_le (filter (newer after_seq) (records_of ps)))
unfolding replay_from
replay_from-Stores w ps after_seq st =
    rw (replay_segments-Stores after_seq w.segments ps st, replay_from)

-- A log that was never torn, whose next segment number is fresh.
pub record IsWhole (w : Wal) (ps : List Part) : Type 0 where
  pub stores : Stores w.segments ps
  pub whole : All (λ p. p.torn ≡ []) ps
  pub fresh : All (λ s. s.id < w.next_segment_id) w.segments

abbrev pub empty_part : Part
empty_part = record { records = []; torn = [] }

find_segment_fresh : (n : ℕ) (ss : List Segment) → All (λ s. s.id < n) ss → find_segment n ss ≡ none
unfolding find_segment
find_segment_fresh n [] h = refl
find_segment_fresh n (s ∷ ss) h = ground (arith, find_segment_fresh n ss h.1)

pub Holds-new_segment :
    (n : ℕ) (ss : List Segment) → All (λ s. s.id < n) ss → Holds (new_segment n ss) empty_part
unfolding new_segment
Holds-new_segment n ss h =
    rw (find_segment_fresh n ss h, new_segment)
      (record { contents = refl; no_record = decode_record_nil; fits = tt; bounded = tt })

id-new_segment : (n : ℕ) (ss : List Segment) → (new_segment n ss).id ≡ n
unfolding new_segment
id-new_segment n ss = ground arith

pub Stores-snoc :
    (ss : List Segment) (ps : List Part) (s : Segment) (p : Part)
    → Stores ss ps
    → Holds s p
    → Stores (ss ++ (s ∷ [])) (ps ++ (p ∷ []))
Stores-snoc [] [] s p st h = (h, tt)
Stores-snoc [] (q ∷ ps) s p st h = absurd st
Stores-snoc (t ∷ ss) [] s p st h = absurd st
Stores-snoc (t ∷ ss) (q ∷ ps) s p st h = (st.0, Stores-snoc ss ps s p st.1 h)

pub records_of-snoc :
    (ps : List Part) (p : Part) → records_of (ps ++ (p ∷ [])) ≡ records_of ps ++ p.records
records_of-snoc [] p = append-nil p.records
records_of-snoc (q ∷ ps) p =
    rw (records_of-snoc ps p) (sym (append_assoc q.records (records_of ps) p.records))

All-weaken : (n : ℕ) (ss : List Segment) → All (λ s. s.id < n) ss → All (λ s. s.id < n + 1) ss
All-weaken n [] h = tt
All-weaken n (s ∷ ss) h = (omega arith, All-weaken n ss h.1)

pub create_new_segment-IsWhole :
    (w : Wal) (ps : List Part)
    → IsWhole w ps
    → IsWhole (create_new_segment w) (ps ++ (empty_part ∷ []))
unfolding create_new_segment
create_new_segment-IsWhole w ps h = record {
  stores =
      Stores-snoc w.segments ps _ empty_part h.stores
        (Holds-new_segment w.next_segment_id w.segments h.fresh);
  whole = All-append _ ps (empty_part ∷ []) h.whole (refl, tt);
  fresh =
      All-append _ w.segments _ (All-weaken w.next_segment_id w.segments h.fresh)
        (omega (arith, id-new_segment w.next_segment_id w.segments), tt);
}
