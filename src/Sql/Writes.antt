-- ===== src/Sql/Writes.antt =====
-- `sql_exec` of python/nedb/sql.py and the statements that write, from the tokens of a statement.
use aof_db.Prelude.{
  ℕ, zero, suc, Bool, not, Option, none, some, List, [], ◌∷◌, Dict, lookup, insert, length,
  if◌then◌else◌, ◌&&◌, ◌||◌, or_default, nat_beq,
}
use aof_db.Prelude.Texts.{text_beq, text_eq, codes}
use aof_db.Sql.{
  Text, Value, ok, sql_error, unsupported, Parser, follow, ◌>>=◌, ◌>>◌, pure, lower, says, at_punct,
  at_kw, eat_kw, eat_ident, eat_punct, eat_equals, eat_value, Condition, Numbers, str_of, is_truthy,
  null, text, comma, lparen, rparen,
}
use aof_db.Sql.Where.{parse_where}
use aof_db.Sql.Select.{sql_to_nql}

abbrev pub Row : Type 0
Row = Dict Text Value

-- The call of the database that a statement makes.
pub data Call : Type 0 where
  query : Text → Call
  put : Text → Text → Row → Call
  delete : Text → Text → Call

-- `(x, …` up to the token after the last item, on fuel.
unfoldable pub idents_loop : ℕ → Parser (List Text)
idents_loop zero ts = sql_error
idents_loop (suc fuel) ts = follow (eat_ident ts) (λ c us.
    if at_punct comma us
    then (eat_punct comma >> idents_loop fuel >>= λ cs. pure (c ∷ cs)) us
    else ok (c ∷ []) us)

unfoldable pub values_loop : ℕ → Parser (List Value)
unfolding eat_value
values_loop zero ts = sql_error
values_loop (suc fuel) ts = follow (eat_value ts) (λ v us.
    if at_punct comma us
    then (eat_punct comma >> values_loop fuel >>= λ vs. pure (v ∷ vs)) us
    else ok (v ∷ []) us)

-- `dict(zip(columns, values))`
unfoldable pub zip_dict : List Text → List Value → Row → Row
zip_dict (c ∷ cs) (v ∷ vs) row = zip_dict cs vs (insert c v row)
zip_dict _ _ row = row

-- The assignments of UPDATE, on fuel.
unfoldable pub set_loop : ℕ → Row → Parser Row
unfolding eat_value eat_equals
set_loop zero updates ts = sql_error
set_loop (suc fuel) updates ts =
    (eat_ident >>= λ col. eat_equals >> eat_value >>= λ v. λ us.
        if at_punct comma us
        then (eat_punct comma >> set_loop fuel (insert col v updates)) us
        else ok (insert col v updates) us)
      ts

-- `f.lower() in ("id", "_id") and op == "="`
unfoldable pub is_id_condition : Condition → Bool
unfolding lower text_beq
is_id_condition c =
    (text_beq (lower c.field) (codes "id") || text_beq (lower c.field) (codes "_id"))
    && text_beq c.op (codes "=")

abbrev pub found_id : Option Text → Parser Text
found_id none ts = unsupported
found_id (some id) ts = ok id ts

-- `{**existing, **updates}`
unfoldable pub merge : Row → Row → Row
merge existing [] = existing
merge existing ((k, v) ∷ updates) = merge (insert k v existing) updates

abbrev as_query : Text → Parser Call
as_query nql = pure (query nql)

module _ (N : Numbers) where
  -- `a or b`, where none is None
  abbrev pub or_value : Option Value → Option Value → Option Value
  or_value none b = b
  or_value (some v) b = if is_truthy N v then some v else b

  -- `doc.get("id") or doc.get("_id") or doc.get("ID")`
  unfoldable pub row_id_of : Row → Option Value
  row_id_of row =
      or_value (lookup (codes "id") row)
        (or_value (lookup (codes "_id") row) (lookup (codes "ID") row))

  -- `if row_id is None`
  abbrev pub put_row : Text → Row → Option Value → Parser Call
  put_row table row none ts = sql_error
  put_row table row (some null) ts = sql_error
  put_row table row (some v) ts = ok (put table (str_of N v) row) ts

  abbrev pub insert_row : Text → List Text → List Value → Parser Call
  insert_row table cs vs ts =
      let row = zip_dict cs vs [] in
      if not (nat_beq (length cs) (length vs))
      then sql_error
      else put_row table row (row_id_of row) ts

  unfoldable pub exec_insert : Parser Call
  unfolding eat_kw idents_loop values_loop zip_dict row_id_of
  exec_insert ts =
      (do
        eat_kw "INSERT"
        eat_kw "INTO"
        table ← eat_ident
        eat_punct lparen
        cs ← idents_loop (length ts)
        eat_punct rparen
        eat_kw "VALUES"
        eat_punct lparen
        vs ← values_loop (length ts)
        eat_punct rparen
        insert_row table cs vs)
        ts

  unfoldable pub first_id : List Condition → Option Text
  unfolding is_id_condition
  first_id [] = none
  first_id (c ∷ cs) =
      let rest = first_id cs in if is_id_condition c then some (str_of N c.value) else rest

  -- The WHERE of UPDATE and DELETE, which must name an id.
  unfoldable pub where_id : Parser Text
  unfolding at_kw eat_kw parse_where first_id
  where_id ts =
      if at_kw "WHERE" ts
      then (eat_kw "WHERE" >> parse_where N >>= λ cs. found_id (first_id cs)) ts
      else sql_error

  -- `get` is `db.get(table, row_id)`.
  unfoldable pub exec_update : (Text → Text → Option Row) → Parser Call
  unfolding eat_kw set_loop where_id merge
  exec_update get ts =
      (do
        eat_kw "UPDATE"
        table ← eat_ident
        eat_kw "SET"
        updates ← set_loop (length ts) []
        id ← where_id
        pure (
            put table id
              (insert (codes "_id") (text id) (merge (or_default [] (get table id)) updates))))
        ts

  unfoldable pub exec_delete : Parser Call
  unfolding eat_kw where_id
  exec_delete = do
    eat_kw "DELETE"
    eat_kw "FROM"
    table ← eat_ident
    id ← where_id
    pure (delete table id)

  -- `sql_exec`: the statement's first word decides.
  unfoldable pub sql_exec : (Text → Text → Option Row) → Parser Call
  unfolding sql_to_nql exec_insert exec_update exec_delete says
  sql_exec get [] = sql_error
  sql_exec get (t ∷ ts) =
      if says "SELECT" t
      then (sql_to_nql N >>= as_query) (t ∷ ts)
      else if says "INSERT" t
      then exec_insert (t ∷ ts)
      else if says "UPDATE" t
      then exec_update get (t ∷ ts)
      else if says "DELETE" t
      then exec_delete (t ∷ ts)
      else unsupported
