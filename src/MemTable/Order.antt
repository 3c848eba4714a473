-- ===== src/MemTable/Order.antt =====
-- The order of `sort` is total and transitive.
use flowdb.Base.{◌≡◌, true, false, arith}
use flowdb.Base.Bytes.{
  le_bytes, le_bytes_trans, le_bytes_antisymm, eq_bytes_iff, lt_bytes_not_le, le_of_lt_bytes, Bytes,
}
use flowdb.Record.{InternalRecord}
use flowdb.MemTable.{record_le}

le_bytes_total : (a b : Bytes) → le_bytes a b ≡ false → le_bytes b a ≡ true
le_bytes_total a b h = ground (arith, lt_bytes_not_le b a, le_of_lt_bytes b a)

pub record_le_total : (a b : InternalRecord) → record_le a b ≡ false → record_le b a ≡ true
unfolding record_le
record_le_total a b h =
    ground (arith, eq_bytes_iff a.key b.key, eq_bytes_iff b.key a.key, le_bytes_total a.key b.key)

pub record_le_trans :
    (a b c : InternalRecord) → record_le a b ≡ true → record_le b c ≡ true → record_le a c ≡ true
unfolding record_le
record_le_trans a b c h k = ground (
  arith,
  eq_bytes_iff a.key b.key,
  eq_bytes_iff b.key c.key,
  eq_bytes_iff a.key c.key,
  le_bytes_trans a.key b.key c.key,
  le_bytes_antisymm a.key b.key,
)
