-- ===== src/Wal/Segments.antt =====
-- src/wal.rs: `Wal` and its segments. A segment is a file: its number, what it holds, and the
-- counters that the code keeps for it. Writing, syncing and deleting succeed; a deleted file is gone
-- with its segment. A fresh segment number is above every number in use, so `create_new_segment`
-- meets an existing file only in a directory that something else wrote to: then the code opens it
-- once more, and so does the model.
use flowdb.Base.{
  ℕ, zero, suc, ◌+◌, ◌*◌, ◌==◌, ltb, leb, max, if◌then◌else◌, Bool, true, false, ◌||◌, length, drop,
  take, filter, Option, none, some, List, [], ◌∷◌, ◌++◌, sort_by,
}
use flowdb.Base.Bytes.{Bytes}
use flowdb.Base.Parse.{Reader, ◌>>=◌, pure, read_uint}
use flowdb.Base.Words.{from_be, split?}
use flowdb.Record.{InternalRecord}
use flowdb.Wal.{decode_record, checksum_len}

pub record Segment : Type 0 where
  pub id : ℕ
  pub contents : Bytes
  pub written_bytes : ℕ
  pub max_seq : ℕ

pub record Wal : Type 0 where
  pub segments : List Segment
  pub max_segment_bytes : ℕ
  pub next_seq : ℕ
  pub next_segment_id : ℕ

-- `pos += n`, with no check.
unfoldable pub advance : ℕ → Reader (Unit {0})
advance n bs = some (tt, drop n bs)

unfoldable pub skip_end : Reader ℕ
skip_end = do range_end_len ← read_uint 4; _ ← advance range_end_len; pure range_end_len

-- `skip_record`: the length of the record at the front, by its length fields alone.
unfoldable pub skip_fields : Reader ℕ
skip_fields = do
  _ ← advance 8
  _ ← advance 1
  key_len ← read_uint 2
  _ ← advance key_len
  _ ← split? 16
  range_end_len ← skip_end
  val_len ← read_uint 4
  _ ← advance val_len
  _ ← advance checksum_len
  pure (8 + 1 + (2 + key_len) + 16 + (4 + range_end_len) + (4 + val_len) + checksum_len)

unfoldable pub skip_record : Bytes → Option ℕ
skip_record bs = elim (skip_fields bs) [ none ↦ none | some (len, _) ↦ some len ]

-- The loop of `find_max_seq_in_segment` on what stands behind `pos`; `none` if the fuel runs out.
unfoldable pub find_max_loop : ℕ → ℕ → Bytes → Option ℕ
find_max_loop fuel max_seq [] = some max_seq
find_max_loop zero max_seq (b ∷ bs) = none
find_max_loop (suc fuel) max_seq (b ∷ bs) =
    let broken : Option ℕ = some max_seq in
    elim (ltb (length (b ∷ bs)) 8) [
      | true ↦ broken
      | false ↦ elim (skip_record (b ∷ bs)) [
        | none ↦ broken
        | some len ↦
            find_max_loop fuel (max max_seq (from_be (take 8 (b ∷ bs)))) (drop len (b ∷ bs))
      ]
    ]

unfoldable pub find_max_seq : Bytes → Option ℕ
find_max_seq bs = find_max_loop (length bs) 0 bs

-- The loop of `replay_from` on one segment; `none` if the fuel runs out.
unfoldable pub replay_loop : ℕ → ℕ → Bytes → Option (List InternalRecord)
replay_loop fuel after_seq [] = some []
replay_loop zero after_seq (b ∷ bs) = none
replay_loop (suc fuel) after_seq (b ∷ bs) = elim (decode_record (b ∷ bs)) [
  | none ↦ some []
  | some (r, n) ↦ elim (replay_loop fuel after_seq (drop n (b ∷ bs))) [
    | none ↦ none
    | some rs ↦ some (if ltb after_seq r.seq then r ∷ rs else rs)
  ]
]

unfoldable pub replay_segment : ℕ → Bytes → Option (List InternalRecord)
replay_segment after_seq bs = replay_loop (length bs) after_seq bs

unfoldable pub replay_segments : ℕ → List Segment → Option (List InternalRecord)
replay_segments after_seq [] = some []
replay_segments after_seq (s ∷ ss) = elim (replay_segment after_seq s.contents) [
  | none ↦ none
  | some rs ↦ elim (replay_segments after_seq ss) [ none ↦ none | some rest ↦ some (rs ++ rest) ]
]

abbrev pub seq_le : InternalRecord → InternalRecord → Bool
seq_le a b = leb a.seq b.seq

unfoldable pub replay_from : Wal → ℕ → Option (List InternalRecord)
replay_from w after_seq = elim (replay_segments after_seq w.segments) [
  | none ↦ none
  | some rs ↦ some (sort_by seq_le rs)
]

-- `find_max_seq` never lacks fuel, so the default is not taken.
unfoldable pub max_seq_of : Bytes → ℕ
max_seq_of bs = elim (find_max_seq bs) [ none ↦ 0 | some m ↦ m ]

unfoldable pub find_segment : ℕ → List Segment → Option Bytes
find_segment id [] = none
find_segment id (s ∷ ss) = if s.id == id then some s.contents else find_segment id ss

unfoldable pub new_segment : ℕ → List Segment → Segment
new_segment id ss = elim (find_segment id ss) [
  | none ↦ record { id = id; contents = []; written_bytes = 0; max_seq = 0 }
  | some bs ↦ record { id = id; contents = bs; written_bytes = 0; max_seq = max_seq_of bs }
]

-- `let id = self.next_segment_id; self.next_segment_id += 1; self.create_new_segment(id)`
unfoldable pub create_new_segment : Wal → Wal
create_new_segment w = record w {
  segments = w.segments ++ (new_segment w.next_segment_id w.segments ∷ []);
  next_segment_id = w.next_segment_id + 1;
}

unfoldable pub is_empty : List Segment → Bool
is_empty [] = true
is_empty (s ∷ ss) = false

unfoldable pub ensure_segment : Wal → Wal
ensure_segment w = if is_empty w.segments then create_new_segment w else w

unfoldable pub write_segment : Bytes → ℕ → Segment → Segment
write_segment buf batch_max_seq s = record s {
  contents = s.contents ++ buf;
  written_bytes = s.written_bytes + length buf;
  max_seq = if ltb s.max_seq batch_max_seq then batch_max_seq else s.max_seq;
}

unfoldable pub write_last : Bytes → ℕ → List Segment → List Segment
write_last buf batch_max_seq [] = []
write_last buf batch_max_seq (s ∷ []) = write_segment buf batch_max_seq s ∷ []
write_last buf batch_max_seq (s ∷ t ∷ ss) = s ∷ write_last buf batch_max_seq (t ∷ ss)

-- `written_bytes` of the last segment.
unfoldable pub last_written : List Segment → ℕ
last_written [] = 0
last_written (s ∷ []) = s.written_bytes
last_written (s ∷ t ∷ ss) = last_written (t ∷ ss)

unfoldable pub roll : Wal → Wal
roll w = if leb w.max_segment_bytes (last_written w.segments) then create_new_segment w else w

unfoldable pub write_encoded : Wal → Bytes → ℕ → Wal
write_encoded w buf batch_max_seq =
    let w' = ensure_segment w in
    roll (record w' { segments = write_last buf batch_max_seq w'.segments })

-- The segments that `truncate_before` keeps.
unfoldable pub keeps : ℕ → Segment → Bool
keeps seq s = (s.max_seq == 0) || ltb seq s.max_seq

unfoldable pub truncate_before : Wal → ℕ → Wal
truncate_before w seq = ensure_segment (record w { segments = filter (keeps seq) w.segments })

-- `load_existing` on the files of the directory, in the order of their numbers.
unfoldable pub load_segments : List (ℕ × Bytes) → List Segment
load_segments [] = []
load_segments ((id, bs) ∷ files) =
    record { id = id; contents = bs; written_bytes = 0; max_seq = max_seq_of bs }
    ∷ load_segments files

unfoldable pub max_id : List Segment → ℕ
max_id [] = 0
max_id (s ∷ ss) = max s.id (max_id ss)

unfoldable pub max_seq_in : List Segment → ℕ
max_seq_in [] = 0
max_seq_in (s ∷ ss) = max s.max_seq (max_seq_in ss)

abbrev pub id_le : ℕ × Bytes → ℕ × Bytes → Bool
id_le a b = leb a.0 b.0

unfoldable pub open_wal : List (ℕ × Bytes) → ℕ → Wal
open_wal files segment_size_mb =
    let ss = load_segments (sort_by id_le files) in
    ensure_segment (record {
      segments = ss;
      max_segment_bytes = segment_size_mb * 1024 * 1024;
      next_seq = if ltb 0 (max_seq_in ss) then max_seq_in ss + 1 else 1;
      next_segment_id = max_id ss + 1;
    })
