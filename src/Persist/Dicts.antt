-- ===== src/Persist/Dicts.antt =====
-- `to_dict` and `from_dict` of python/nedb/log.py.
use aof_db.Prelude.{◌≡◌, some, lookup, string_eq, arith}
use aof_db.Log.{Op}
use aof_db.Persist.{to_dict, from_dict, field}

-- Every op reads back from its dict, with or without any of its optional fields.
pub from_dict-to_dict : {P F : Type 0} (o : Op P F) → from_dict (to_dict o) ≡ some o
unfolding from_dict to_dict field lookup
from_dict-to_dict o = ground arith
