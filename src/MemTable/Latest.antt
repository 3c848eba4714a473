-- ===== src/MemTable/Latest.antt =====
-- `get_latest` finds a greatest record of the live ones.
use flowdb.Base.{◌≡◌, true, false, arith, filter}
use flowdb.Base.Bytes.{Bytes}
use flowdb.Base.Int.{ℤ}
use flowdb.Base.Sorts.{IsGreatest, max_by-IsGreatest}
use flowdb.Record.{InternalRecord}
use flowdb.MemTable.{MemTable, is_live, latest_at_most, get_latest}

pub latest_at_most_total :
    (a b : InternalRecord) → latest_at_most a b ≡ false → latest_at_most b a ≡ true
unfolding latest_at_most
latest_at_most_total a b h = ground arith

pub latest_at_most_trans :
    (a b c : InternalRecord)
    → latest_at_most a b ≡ true
    → latest_at_most b c ≡ true
    → latest_at_most a c ≡ true
unfolding latest_at_most
latest_at_most_trans a b c h k = ground arith

pub get_latest-IsGreatest :
    (t : MemTable) (key : Bytes) (now_us : ℤ)
    → IsGreatest latest_at_most (get_latest t key now_us) (filter (is_live key now_us) t.records)
unfolding get_latest
get_latest-IsGreatest t key now_us =
    max_by-IsGreatest latest_at_most_total latest_at_most_trans
      (filter (is_live key now_us) t.records)
