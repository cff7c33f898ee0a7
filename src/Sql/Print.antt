-- ===== src/Sql/Print.antt =====
-- The tokens of a WHERE clause and of assignments, and that the parser of python/nedb/sql.py reads them
-- back.
use aof_db.Prelude.{ℕ, zero, suc, ◌≡◌, ◌<◌, refl, false, List, [], ◌∷◌, map, length, arith}
use aof_db.Prelude.Texts.{text_beq, text_eq, codes}
use aof_db.Sql.{
  Text, Token, Value, ok, upper, is_kw, at_kw, eat_kw, eat_value, Condition, Numbers, word, kw, op,
}
use aof_db.Sql.Where.{comparison, condition, comparison_condition, where_loop, parse_where}

-- A value and a token that stands for it.
pub record Literal : Type 0 where
  pub value : Value
  pub token : Token
  pub reads : (ts : List Token) → eat_value (token ∷ ts) ≡ ok value ts

-- A comparison `field op value`.
pub record Clause : Type 0 where
  pub field : Text
  pub op : Text
  pub literal : Literal

abbrev pub condition_of : Clause → Condition
unfolding comparison
condition_of c = record { field = c.field; op = comparison c.op; value = c.literal.value }

-- `c AND c AND …`, followed by `rest`
unfoldable pub where_tokens : Clause → List Clause → List Token → List Token
where_tokens c [] rest = word c.field ∷ op c.op ∷ c.literal.token ∷ rest
where_tokens c (d ∷ ds) rest =
    word c.field ∷ op c.op ∷ c.literal.token ∷ kw (codes "AND") ∷ where_tokens d ds rest

-- The rest does not go on with the condition.
pub record Ends (rest : List Token) : Type 0 where
  pub no_or : at_kw "OR" rest ≡ false
  pub no_and : at_kw "AND" rest ≡ false

module _ (N : Numbers) where
  where_loop-where_tokens :
      (fuel : ℕ) (c : Clause) (cs : List Clause) (rest : List Token)
      → length cs < fuel
      → Ends rest
      → where_loop N fuel (where_tokens c cs rest) ≡ ok (condition_of c ∷ map condition_of cs) rest
  unfolding where_loop where_tokens condition comparison_condition at_kw is_kw upper text_beq eat_kw
  where_loop-where_tokens zero c cs rest l h = absurd (omega arith)
  where_loop-where_tokens (suc fuel) c [] rest l h =
      rw (c.literal.reads rest) (rw (h.no_or, h.no_and) refl)
  where_loop-where_tokens (suc fuel) c (d ∷ ds) rest l h =
      rw (c.literal.reads (kw (codes "AND") ∷ where_tokens d ds rest))
        (rw (where_loop-where_tokens fuel d ds rest (omega arith) h) refl)

  length-where_tokens :
      (c : Clause) (cs : List Clause) (rest : List Token)
      → length cs < length (where_tokens c cs rest)
  unfolding where_tokens
  length-where_tokens c [] rest = omega arith
  length-where_tokens c (d ∷ ds) rest = omega (arith, length-where_tokens d ds rest)

  pub parse_where-where_tokens :
      (c : Clause) (cs : List Clause) (rest : List Token)
      → Ends rest
      → parse_where N (where_tokens c cs rest) ≡ ok (condition_of c ∷ map condition_of cs) rest
  unfolding parse_where
  parse_where-where_tokens c cs rest h =
      where_loop-where_tokens (suc (length (where_tokens c cs rest))) c cs rest
        (omega (arith, length-where_tokens c cs rest)) h
