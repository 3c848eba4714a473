-- ===== src/Scan/Heap.antt =====
-- The order of the entries is total, so that a list can serve as the heap.
use flowdb.Base.{◌≡◌, true, false, sym, ◌∙◌, none, []}
use flowdb.Base.Heap.{list_heap}
use flowdb.Base.Int.{pos}
use flowdb.Record.{InternalRecord, put}
use flowdb.Scan.{MergeEntry, entry_le, entry_of, MergeHeap}
use flowdb.Scan.Order.{scan_le, scan_le_total, scan_le_trans, entry_le-scan_le}

-- A record with the entry's key, time and number.
stand_in : MergeEntry → InternalRecord
stand_in e = record {
  seq = e.seq;
  op = put;
  key = e.key;
  ts = e.ts;
  expire_at = pos 0;
  value = [];
  range_end = none;
}

entry_le_iff : (a b : MergeEntry) → entry_le a b ≡ scan_le (stand_in b) (stand_in a)
unfolding entry_of stand_in
entry_le_iff a b = entry_le-scan_le (stand_in a) (stand_in b) a.source b.source

pub entry_le_total : (a b : MergeEntry) → entry_le a b ≡ false → entry_le b a ≡ true
entry_le_total a b h =
    entry_le_iff b a ∙ scan_le_total (stand_in b) (stand_in a) (sym (entry_le_iff a b) ∙ h)

pub entry_le_trans :
    (a b c : MergeEntry) → entry_le a b ≡ true → entry_le b c ≡ true → entry_le a c ≡ true
entry_le_trans a b c h k =
    entry_le_iff a c
    ∙ scan_le_trans (stand_in c) (stand_in b) (stand_in a) (sym (entry_le_iff b c) ∙ k)
        (sym (entry_le_iff a b) ∙ h)

-- The heap of the examples.
abbrev pub entry_heap : MergeHeap
entry_heap = list_heap entry_le entry_le_total entry_le_trans
