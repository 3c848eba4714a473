-- ===== src/Record.antt =====
-- src/record.rs: the operation codes and the records of the engine. A byte is a number, a key or a
-- value is a list of bytes, and an `i64` is an integer of `Base.Int`.
pub mod Codes
pub mod Kinds
use flowdb.Base.{ℕ, ◌+◌, ◌==◌, if◌then◌else◌, length, Bool, Option, none, some, []}
use flowdb.Base.Bytes.{Bytes}
use flowdb.Base.Int.{ℤ, pos, i64_max}

pub data Op : Type 0 where
  put delete delete_range : Op

unfoldable pub from_u8 : ℕ → Op
from_u8 v = if v == 1 then delete else if v == 2 then delete_range else put

unfoldable pub to_u8 : Op → ℕ
to_u8 put = 0
to_u8 delete = 1
to_u8 delete_range = 2

-- `==` of the derived `PartialEq`.
unfoldable pub eq_op : Op → Op → Bool
unfolding to_u8
eq_op a b = to_u8 a == to_u8 b

pub record Record : Type 0 where
  pub key : Bytes
  pub ts : ℤ
  pub expire_at : ℤ
  pub value : Bytes

unfoldable pub new_record : Bytes → ℤ → Bytes → Record
new_record key ts value = record { key = key; ts = ts; expire_at = i64_max; value = value }

pub record InternalRecord : Type 0 where
  pub seq : ℕ
  pub op : Op
  pub key : Bytes
  pub ts : ℤ
  pub expire_at : ℤ
  pub value : Bytes
  pub range_end : Option Bytes

unfoldable pub from_record : Record → ℕ → InternalRecord
from_record rec seq = record {
  seq = seq;
  op = put;
  key = rec.key;
  ts = rec.ts;
  expire_at = rec.expire_at;
  value = rec.value;
  range_end = none;
}

unfoldable pub delete_record : Bytes → ℤ → ℕ → InternalRecord
delete_record key ts seq = record {
  seq = seq;
  op = delete;
  key = key;
  ts = ts;
  expire_at = i64_max;
  value = [];
  range_end = none;
}

unfoldable pub delete_range_record : Bytes → Bytes → ℕ → InternalRecord
delete_range_record start_key end_key seq = record {
  seq = seq;
  op = delete_range;
  key = start_key;
  ts = pos 0;
  expire_at = i64_max;
  value = [];
  range_end = some end_key;
}

-- `to_record` and `into_record_owned`.
unfoldable pub to_record : InternalRecord → Record
to_record r = record { key = r.key; ts = r.ts; expire_at = r.expire_at; value = r.value }

unfoldable pub estimated_size : InternalRecord → ℕ
estimated_size r =
    let base = 8 + 1 + 2 + length r.key + 8 + 8 + 4 + length r.value in
    elim r.range_end [ none ↦ base | some re ↦ base + 2 + length re ]
