-- ===== src/Sql/Where.antt =====
-- `_parse_where`, `_quote` and `_conditions_to_nql` of python/nedb/sql.py.
use aof_db.Prelude.{
  ℕ, zero, suc, Bool, Option, none, some, List, [], ◌∷◌, ◌++◌, length, if◌then◌else◌, ◌&&◌, nat_beq,
}
use aof_db.Prelude.Texts.{text_beq, codes}
use aof_db.Sql.{
  Text, Value, ok, sql_error, unsupported, Parser, follow, ◌>>=◌, ◌>>◌, pure, raise_unsupported,
  at_kw, eat_kw, eat_ident, eat_op, eat_value, Condition, Numbers, str_of, null, bool, int, float,
  text,
}

-- `op = "<>" if …; if op == "<>": op = "!="`
unfoldable pub comparison : Text → Text
unfolding text_beq
comparison o = if text_beq o (codes "<>") then codes "!=" else o

unfoldable pub null_condition : Text → Parser Condition
unfolding eat_kw at_kw
null_condition field ts = follow (eat_kw "IS" ts) (λ _ us.
    if at_kw "NOT" us
    then (eat_kw "NOT"
          >> eat_kw "NULL"
          >> pure (record { field = field; op = codes "!="; value = null }))
        us
    else (eat_kw "NULL" >> pure (record { field = field; op = codes "="; value = null })) us)

-- NOT: the pattern of NOT LIKE is read before the refusal.
unfoldable pub not_condition : Text → Parser Condition
unfolding eat_kw at_kw eat_value
not_condition field ts = follow (eat_kw "NOT" ts) (λ _ us.
    if at_kw "LIKE" us then (eat_kw "LIKE" >> eat_value >> raise_unsupported) us else unsupported)

unfoldable pub comparison_condition : Text → Parser Condition
unfolding comparison eat_value
comparison_condition field = do
  o ← eat_op
  v ← eat_value
  pure (record { field = field; op = comparison o; value = v })

-- `re.sub(r"^%|%$", "", s)`; `$` also stands before a last line feed.
unfoldable pub drop_last_percent : Text → Text
drop_last_percent [] = []
drop_last_percent (c ∷ []) = if nat_beq c b'%' then [] else c ∷ []
drop_last_percent (c ∷ d ∷ []) =
    if nat_beq c b'%' && nat_beq d 10 then d ∷ [] else if nat_beq d b'%' then c ∷ [] else c ∷ d ∷ []
drop_last_percent (c ∷ d ∷ e ∷ cs) = c ∷ drop_last_percent (d ∷ e ∷ cs)

unfoldable pub like_term : Text → Text
unfolding drop_last_percent
like_term [] = []
like_term (c ∷ cs) = drop_last_percent (if nat_beq c b'%' then cs else c ∷ cs)

-- `f" AND ".join(parts)`
unfoldable pub join : Text → List Text → Text
join between [] = []
join between (t ∷ []) = t
join between (t ∷ u ∷ ts) = t ++ between ++ join between (u ∷ ts)

unfoldable pub is_like : Condition → Bool
unfolding text_beq
is_like c = text_beq c.op (codes "LIKE")

module _ (N : Numbers) where
  unfoldable pub like_condition : Text → Parser Condition
  unfolding eat_kw eat_value
  like_condition field = do
    eat_kw "LIKE"
    pattern ← eat_value
    pure (record { field = field; op = codes "LIKE"; value = text (str_of N pattern) })

  unfoldable pub condition : Text → Parser Condition
  unfolding like_condition null_condition not_condition comparison_condition at_kw
  condition field ts =
      if at_kw "LIKE" ts
      then like_condition field ts
      else if at_kw "IS" ts
      then null_condition field ts
      else if at_kw "NOT" ts
      then not_condition field ts
      else if at_kw "IN" ts
      then unsupported
      else comparison_condition field ts

  -- The loop of `_parse_where`, on fuel.
  unfoldable pub where_loop : ℕ → Parser (List Condition)
  unfolding condition at_kw eat_kw
  where_loop zero ts = sql_error
  where_loop (suc fuel) ts =
      if at_kw "OR" ts
      then unsupported
      else follow (eat_ident ts) (λ field us. follow (condition field us) (λ c vs.
        if at_kw "OR" vs
        then unsupported
        else if at_kw "AND" vs
        then (eat_kw "AND" >> where_loop fuel >>= λ cs. pure (c ∷ cs)) vs
        else ok (c ∷ []) vs))

  -- `_parse_where`: each round takes a token, so the tokens are fuel enough.
  unfoldable pub parse_where : Parser (List Condition)
  unfolding where_loop
  parse_where ts = where_loop (suc (length ts)) ts

  -- `_quote`
  unfoldable pub quote : Value → Text
  quote null = codes "null"
  quote (bool b) = if b then codes "true" else codes "false"
  quote (int t) = N.int_text t
  quote (float t) = N.float_text t
  quote (text t) = b'"' ∷ t ++ b'"' ∷ []

  abbrev pub fragment : Condition → Text
  fragment c = c.field ++ codes " " ++ c.op ++ codes " " ++ quote c.value

  unfoldable pub fragments : List Condition → List Text
  unfolding is_like quote
  fragments [] = []
  fragments (c ∷ cs) = let rest = fragments cs in if is_like c then rest else fragment c ∷ rest

  -- The last LIKE gives the search term.
  unfoldable pub search_of : List Condition → Option Text → Option Text
  unfolding is_like like_term
  search_of [] search = search
  search_of (c ∷ cs) search =
      search_of cs (if is_like c then some (like_term (str_of N c.value)) else search)

  -- `_conditions_to_nql`
  unfoldable pub conditions_to_nql : List Condition → Text × Option Text
  unfolding join fragments search_of
  conditions_to_nql cs = (join (codes " AND ") (fragments cs), search_of cs none)
