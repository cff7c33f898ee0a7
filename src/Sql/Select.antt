-- ===== src/Sql/Select.antt =====
-- `sql_to_nql` of python/nedb/sql.py, from the tokens of a SELECT.
use aof_db.Prelude.{
  ℕ, zero, suc, Bool, false, Option, none, some, List, [], ◌∷◌, ◌++◌, length, if◌then◌else◌, ◌&&◌,
}
use aof_db.Prelude.Texts.{text_eq, codes}
use aof_db.Sql.{
  Text, Token, ok, sql_error, Parser, ◌>>=◌, ◌>>◌, pure, is_kw, says, at_punct, at_kw, eat_kw,
  eat_ident, eat_int, eat_punct, Numbers, comma, star,
}
use aof_db.Sql.Where.{parse_where, conditions_to_nql, join}

-- The column list of SELECT, up to FROM, on fuel; it is not used.
unfoldable pub columns_loop : ℕ → Parser (Unit {0})
unfolding at_kw
columns_loop zero ts = sql_error
columns_loop (suc fuel) ts =
    if at_kw "FROM" ts
    then ok tt ts
    else if at_punct comma ts
    then (eat_punct comma >> columns_loop fuel) ts
    else (eat_ident >> columns_loop fuel) ts

unfoldable pub columns : Parser (Unit {0})
unfolding columns_loop
columns ts =
    let many = columns_loop (suc (length ts)) ts in
    if at_punct star ts then eat_punct star ts else many

-- `p.peek_upper(1) == "OF"`
unfoldable pub then_of : List Token → Bool
unfolding says
then_of (t ∷ u ∷ ts) = says "OF" u
then_of _ = false

-- The clauses of `sql_to_nql`, each with the parts of the text that it adds.
unfoldable pub as_of_part : Parser (List Text)
unfolding at_kw eat_kw then_of
as_of_part ts =
    if at_kw "AS" ts && then_of ts
    then (eat_kw "AS" >> eat_kw "OF" >> eat_int >>= λ n. pure ((codes "AS OF " ++ n) ∷ [])) ts
    else ok [] ts

abbrev pub where_parts : Text → List Text
where_parts [] = []
where_parts (c ∷ cs) = (codes "WHERE " ++ c ∷ cs) ∷ []

-- `if search:`
abbrev pub search_parts : Option Text → List Text
search_parts none = []
search_parts (some []) = []
search_parts (some (c ∷ cs)) = (codes "SEARCH \"" ++ (c ∷ cs) ++ b'"' ∷ []) ∷ []

abbrev pub conditions_parts : Text × Option Text → List Text
conditions_parts (frag, search) = where_parts frag ++ search_parts search

unfoldable pub direction : Parser Text
unfolding is_kw
direction [] = ok (codes "ASC") []
direction (t ∷ ts) =
    if is_kw "ASC" t
    then ok (codes "ASC") ts
    else if is_kw "DESC" t
    then ok (codes "DESC") ts
    else ok (codes "ASC") (t ∷ ts)

unfoldable pub order_part : Parser (List Text)
unfolding at_kw eat_kw direction
order_part ts =
    if at_kw "ORDER" ts
    then (eat_kw "ORDER" >> eat_kw "BY" >> eat_ident >>= λ col.
          direction >>= λ d. pure ((codes "ORDER BY " ++ col ++ codes " " ++ d) ∷ []))
        ts
    else ok [] ts

unfoldable pub limit_part : Parser (List Text)
unfolding at_kw eat_kw
limit_part ts =
    if at_kw "LIMIT" ts
    then (eat_kw "LIMIT" >> eat_int >>= λ n. pure ((codes "LIMIT " ++ n) ∷ [])) ts
    else ok [] ts

module _ (N : Numbers) where
  unfoldable pub where_part : Parser (List Text)
  unfolding at_kw eat_kw parse_where conditions_to_nql
  where_part ts =
      if at_kw "WHERE" ts
      then (eat_kw "WHERE" >> parse_where N >>= λ cs.
            pure (conditions_parts (conditions_to_nql N cs)))
          ts
      else ok [] ts

  -- The tokens that are left over are not looked at.
  unfoldable pub sql_to_nql : Parser Text
  unfolding eat_kw columns as_of_part where_part order_part limit_part join
  sql_to_nql = do
    eat_kw "SELECT"
    columns
    eat_kw "FROM"
    table ← eat_ident
    as_of ← as_of_part
    conditions ← where_part
    order ← order_part
    limit ← limit_part
    pure (join (codes " ") ((codes "FROM " ++ table) ∷ as_of ++ conditions ++ order ++ limit))
