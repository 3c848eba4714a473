-- ===== src/Record/Kinds.antt =====
-- The kinds of records, said apart from the comparisons of codes that the engine makes.
use flowdb.Base.{Bool, true, false}
use flowdb.Record.{Op, put, delete, delete_range}

unfoldable pub is_put : Op → Bool
is_put put = true
is_put delete = false
is_put delete_range = false
