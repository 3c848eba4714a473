-- ===== src/Scan/Order.antt =====
-- The order of a scan: by key, then by time, the newest record of a key and time first.
use flowdb.Base.{ℕ, Bool, true, false, if◌then◌else◌, leb, ◌≤◌, ◌≡◌, arith}
use flowdb.Base.Bytes.{
  Bytes, eq_bytes, lt_bytes, le_bytes, le_bytes_trans, le_bytes_antisymm, eq_bytes_iff,
  lt_bytes_not_le, le_of_lt_bytes,
}
use flowdb.Base.Int.{ltb_ℤ, eqb_ℤ}
use flowdb.Record.{InternalRecord}
use flowdb.Scan.{entry_le, entry_of}

-- The comparison of the memtables' results in `build`: `a.cmp(b)` is not `Greater`.
unfoldable pub scan_le : InternalRecord → InternalRecord → Bool
scan_le a b =
    if eq_bytes a.key b.key
    then if eqb_ℤ a.ts b.ts then leb b.seq a.seq else ltb_ℤ a.ts b.ts
    else lt_bytes a.key b.key

-- Records of the same key and time.
unfoldable pub same_slot : InternalRecord → InternalRecord → Bool
same_slot a b = if eq_bytes a.key b.key then eqb_ℤ a.ts b.ts else false

lt_bytes_iff : (a b : Bytes) → eq_bytes a b ≡ false → lt_bytes a b ≡ le_bytes a b
lt_bytes_iff a b h = ground (
  arith,
  lt_bytes_not_le a b,
  eq_bytes_iff a b,
  le_bytes_antisymm a b,
  le_of_lt_bytes b a,
  lt_bytes_not_le b a,
)

pub scan_le_total : (a b : InternalRecord) → scan_le a b ≡ false → scan_le b a ≡ true
unfolding scan_le
scan_le_total a b h = ground (
  arith,
  eq_bytes_iff a.key b.key,
  eq_bytes_iff b.key a.key,
  lt_bytes_not_le a.key b.key,
  lt_bytes_not_le b.key a.key,
  le_bytes_antisymm a.key b.key,
)

pub scan_le_trans :
    (a b c : InternalRecord) → scan_le a b ≡ true → scan_le b c ≡ true → scan_le a c ≡ true
unfolding scan_le
scan_le_trans a b c h k = ground (
  arith,
  eq_bytes_iff a.key b.key,
  eq_bytes_iff b.key c.key,
  eq_bytes_iff a.key c.key,
  lt_bytes_iff a.key b.key,
  lt_bytes_iff b.key c.key,
  lt_bytes_iff a.key c.key,
  le_bytes_trans a.key b.key c.key,
  le_bytes_antisymm a.key b.key,
)

-- The first of two records of a key and time is the newer one.
pub scan_le-seq : (a b : InternalRecord) → scan_le a b ≡ true → same_slot a b ≡ true → b.seq ≤ a.seq
unfolding scan_le same_slot
scan_le-seq a b h k = ground arith

-- What stands between two records of a key and time has the same key and time.
pub scan_le-same_slot :
    (a b c : InternalRecord)
    → scan_le a b ≡ true
    → scan_le b c ≡ true
    → same_slot a c ≡ true
    → same_slot a b ≡ true
unfolding scan_le same_slot
scan_le-same_slot a b c h k s = ground (
  arith,
  eq_bytes_iff a.key b.key,
  eq_bytes_iff b.key c.key,
  eq_bytes_iff a.key c.key,
  lt_bytes_iff a.key b.key,
  lt_bytes_iff b.key c.key,
  le_bytes_antisymm a.key b.key,
)

pub entry_le-scan_le :
    (a b : InternalRecord) (i j : ℕ) → entry_le (entry_of i a) (entry_of j b) ≡ scan_le b a
unfolding entry_le scan_le entry_of
entry_le-scan_le a b i j = ground (arith, eq_bytes_iff a.key b.key)
