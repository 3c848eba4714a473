-- ===== src/Record/Codes.antt =====
-- The operation codes are read back.
use flowdb.Base.{◌≡◌, refl}
use flowdb.Record.{Op, put, delete, delete_range, to_u8, from_u8}

pub from_u8-to_u8 : (o : Op) → from_u8 (to_u8 o) ≡ o
unfolding from_u8 to_u8
from_u8-to_u8 put = refl
from_u8-to_u8 delete = refl
from_u8-to_u8 delete_range = refl
