-- ===== src/Sql/Inserts.antt =====
-- What `sql_exec` of python/nedb/sql.py makes of the tokens of an INSERT: the call of `put`, or SQLError.
use aof_db.Prelude.{
  ℕ, zero, suc, ◌≡◌, ◌<◌, refl, true, false, Option, none, some, List, [], ◌∷◌, map, length, arith,
  ◌+◌, ◌∙◌, ap, lookup, insert, lookup-insert, if◌then◌else◌, Bool-cases, inl, inr, nat_beq,
  length-map,
}
use aof_db.Prelude.Texts.{text_beq, text_eq, codes}
use aof_db.Sql.{
  Text, Token, Value, ok, sql_error, upper, is_kw, says, eat_kw, at_punct, Numbers, text, word, kw,
  comma, lparen, rparen, str_of, is_truthy, null, bool, int, float,
}
use aof_db.Sql.Writes.{
  Row, put, idents_loop, values_loop, zip_dict, row_id_of, put_row, insert_row, exec_insert,
  sql_exec,
}
use aof_db.Sql.Print.{Literal}

-- `c, c, …`, followed by `rest`
unfoldable pub column_tokens : Text → List Text → List Token → List Token
column_tokens c [] rest = word c ∷ rest
column_tokens c (d ∷ cs) rest = word c ∷ comma ∷ column_tokens d cs rest

unfoldable pub value_tokens : Literal → List Literal → List Token → List Token
value_tokens v [] rest = v.token ∷ rest
value_tokens v (w ∷ vs) rest = v.token ∷ comma ∷ value_tokens w vs rest

abbrev pub insert_tokens :
    Text → Text → List Text → Literal → List Literal → List Token → List Token
insert_tokens table c cs v vs rest =
    kw (codes "INSERT")
    ∷ kw (codes "INTO")
    ∷ word table
    ∷ lparen
    ∷ column_tokens c cs (rparen ∷ kw (codes "VALUES") ∷ lparen ∷ value_tokens v vs (rparen ∷ rest))

abbrev pub value_of : Literal → Value
value_of v = v.value

-- The value that `zip` gives a column last, or else `old`.
unfoldable pub paired : Text → List Text → List Value → Option Value → Option Value
unfolding text_beq
paired f (c ∷ cs) (v ∷ vs) old = paired f cs vs (if text_beq c f then some v else old)
paired f _ _ old = old

lookup-zip_dict :
    (f : Text) (cs : List Text) (vs : List Value) (row : Row)
    → lookup f (zip_dict cs vs row) ≡ paired f cs vs (lookup f row)
unfolding zip_dict paired
lookup-zip_dict f [] vs row = refl
lookup-zip_dict f (c ∷ cs) [] row = refl
lookup-zip_dict f (c ∷ cs) (v ∷ vs) row =
    lookup-zip_dict f cs vs (insert c v row) ∙ ap (paired f cs vs) (lookup-insert c f v row)

idents_loop-column_tokens :
    (fuel : ℕ) (c : Text) (cs : List Text) (rest : List Token)
    → length cs < fuel
    → at_punct comma rest ≡ false
    → idents_loop fuel (column_tokens c cs rest) ≡ ok (c ∷ cs) rest
unfolding idents_loop column_tokens
idents_loop-column_tokens zero c cs rest l h = absurd (omega arith)
idents_loop-column_tokens (suc fuel) c [] rest l h = rw h refl
idents_loop-column_tokens (suc fuel) c (d ∷ cs) rest l h =
    rw (idents_loop-column_tokens fuel d cs rest (omega arith) h) refl

values_loop-value_tokens :
    (fuel : ℕ) (v : Literal) (vs : List Literal) (rest : List Token)
    → length vs < fuel
    → at_punct comma rest ≡ false
    → values_loop fuel (value_tokens v vs rest) ≡ ok (v.value ∷ map value_of vs) rest
unfolding values_loop value_tokens
values_loop-value_tokens zero v vs rest l h = absurd (omega arith)
values_loop-value_tokens (suc fuel) v [] rest l h = rw (v.reads rest) (rw h refl)
values_loop-value_tokens (suc fuel) v (w ∷ vs) rest l h =
    rw (v.reads (comma ∷ value_tokens w vs rest))
      (rw (values_loop-value_tokens fuel w vs rest (omega arith) h) refl)

length-column_tokens :
    (c : Text) (cs : List Text) (rest : List Token)
    → length cs + length rest < length (column_tokens c cs rest)
unfolding column_tokens
length-column_tokens c [] rest = omega arith
length-column_tokens c (d ∷ cs) rest = omega (arith, length-column_tokens d cs rest)

length-value_tokens :
    (v : Literal) (vs : List Literal) (rest : List Token)
    → length vs + length rest < length (value_tokens v vs rest)
unfolding value_tokens
length-value_tokens v [] rest = omega arith
length-value_tokens v (w ∷ vs) rest = omega (arith, length-value_tokens w vs rest)

same_suc : (m n : ℕ) → nat_beq (suc m) (suc n) ≡ nat_beq m n
same_suc m n = ground arith

module _ (N : Numbers) where
  exec_insert-insert_tokens :
      (get : Text → Text → Option Row) (table c : Text) (cs : List Text) (v : Literal)
      (vs : List Literal) (rest : List Token)
      → sql_exec N get (insert_tokens table c cs v vs rest)
        ≡ insert_row N table (c ∷ cs) (v.value ∷ map value_of vs) rest
  unfolding sql_exec says upper text_beq exec_insert eat_kw is_kw
  exec_insert-insert_tokens get table c cs v vs rest =
      let last = rparen ∷ rest in
      let middle = rparen ∷ kw (codes "VALUES") ∷ lparen ∷ value_tokens v vs last in
      let n = suc (suc (suc (suc (length (column_tokens c cs middle))))) in
      let b₁ = length-column_tokens c cs middle in
      let b₂ = length-value_tokens v vs last in
      rw (idents_loop-column_tokens n c cs middle (omega (arith, b₁)) refl)
        (rw (values_loop-value_tokens n v vs last (omega (arith, b₁, b₂)) refl) refl)

  row_id_of-id :
      (row : Row) (w : Value)
      → lookup (codes "id") row ≡ some w
      → is_truthy N w ≡ true
      → row_id_of N row ≡ some w
  unfolding row_id_of
  row_id_of-id row w found h = rw found (rw h refl)

  put_row_truthy :
      (table : Text) (row : Row) (w : Value) (rest : List Token)
      → is_truthy N w ≡ true
      → put_row N table row (some w) rest ≡ ok (put table (str_of N w) row) rest
  put_row_truthy table row null rest h = cc
  put_row_truthy table row (bool b) rest h = refl
  put_row_truthy table row (int t) rest h = refl
  put_row_truthy table row (float t) rest h = refl
  put_row_truthy table row (text t) rest h = refl

  insert_row_truthy :
      (table : Text) (cs : List Text) (vs : List Value) (w : Value) (rest : List Token)
      → lookup (codes "id") (zip_dict cs vs []) ≡ some w
      → is_truthy N w ≡ true
      → insert_row N table cs vs rest ≡ (
          if nat_beq (length cs) (length vs)
          then ok (put table (str_of N w) (zip_dict cs vs [])) rest
          else sql_error)
  insert_row_truthy table cs vs w rest found h = rw (row_id_of-id (zip_dict cs vs []) w found h) (
      rw (put_row_truthy table (zip_dict cs vs []) w rest h)
        (elim (Bool-cases (nat_beq (length cs) (length vs))) [
          | inl same ↦ rw same refl
          | inr other ↦ rw other refl
        ]))

  -- An INSERT whose column `id` has a truthy value, with as many columns as values, is one `put`
  -- under the text of that value, of a row in which each column has the last value beside it. With
  -- another number of values it is an SQLError. What follows the statement is not read.
  pub sql_exec-insert_tokens :
      (get : Text → Text → Option Row) (table c : Text) (cs : List Text) (v : Literal)
      (vs : List Literal) (w : Value) (rest : List Token)
      → paired (codes "id") (c ∷ cs) (v.value ∷ map value_of vs) none ≡ some w
      → is_truthy N w ≡ true
      → (row : Row) × (sql_exec N get (insert_tokens table c cs v vs rest) ≡ (
          if nat_beq (length cs) (length vs)
          then ok (put table (str_of N w) row) rest
          else sql_error))
        × ((f : Text) → lookup f row ≡ paired f (c ∷ cs) (v.value ∷ map value_of vs) none)
  unfolding lookup
  sql_exec-insert_tokens get table c cs v vs w rest named h =
      let columns = c ∷ cs in
      let values = v.value ∷ map value_of vs in
      let row = zip_dict columns values [] in
      (
        row,
        exec_insert-insert_tokens get table c cs v vs rest
            ∙ insert_row_truthy table columns values w rest
                (lookup-zip_dict (codes "id") columns values [] ∙ named) h
            ∙ ap
                (λ n.
                  if nat_beq (suc (length cs)) (suc n)
                  then ok (put table (str_of N w) row) rest
                  else sql_error)
                (length-map value_of vs)
            ∙ ap (λ b. if b then ok (put table (str_of N w) row) rest else sql_error)
                (same_suc (length cs) (length vs)),
        λ f. lookup-zip_dict f columns values [],
      )
