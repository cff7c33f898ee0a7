-- ===== src/Resp.antt =====
-- python/nedb/resp2.py: the RESP2 encoding of bulk strings and arrays, and the reader of
-- commands. `str` and `int` of a number, `decode` of bytes and `upper` are of the language and are the
-- parameter `Texts`. The stream is the bytes that are still to be read.
pub mod Reader
pub mod RoundTrip
mod Tests
use aof_db.Prelude.{
  ℕ, zero, suc, ◌+◌, ◌-◌, Bool, true, false, Option, none, some, List, [], ◌∷◌, ◌++◌, length, take,
  if◌then◌else◌, nat_beq, ◌||◌,
}
use aof_db.Prelude.Int.{ℤ, pos, negsuc}
use aof_db.Hex.{Bytes}

-- A text is the list of its character codes.
pub record Texts : Type 0 where
  -- `str(n).encode()` and `int(b)`, where none is a ValueError
  pub print_int : ℕ → Bytes
  pub parse_int : Bytes → Option ℤ
  -- `t.encode()` and `b.decode(errors="replace")`
  pub encode : List ℕ → Bytes
  pub decode : Bytes → List ℕ
  -- `t.upper()`
  pub upper : List ℕ → List ℕ

abbrev pub crlf : Bytes
crlf = b'\r' ∷ b'\n' ∷ []

module _ (T : Texts) where
  -- `_bulk` of a text, and of None
  unfoldable pub bulk : Option (List ℕ) → Bytes
  bulk none = b'$' ∷ b'-' ∷ b'1' ∷ crlf
  bulk (some s) = b'$' ∷ (T.print_int (length (T.encode s)) ++ (crlf ++ (T.encode s ++ crlf)))

  abbrev pub join_items : List Bytes → Bytes
  join_items [] = []
  join_items (b ∷ bs) = b ++ join_items bs

  -- `_arr` of items that are encoded
  unfoldable pub arr : List Bytes → Bytes
  arr items = b'*' ∷ (T.print_int (length items) ++ (crlf ++ join_items items))
