-- ===== src/Sql/Updates.antt =====
-- What `sql_exec` of python/nedb/sql.py makes of the tokens of an UPDATE: the call of `put`.
use aof_db.Prelude.{
  ℕ, zero, suc, ◌≡◌, ◌<◌, refl, false, Option, none, some, List, [], ◌∷◌, map, length, arith, ◌∙◌,
  ap, lookup, insert, lookup-insert, or_default, if◌then◌else◌, ◌==◌, Bool-cases, inl, inr,
}
use aof_db.Prelude.Texts.{text_beq, text_eq, codes}
use aof_db.Sql.{
  Text, Token, Value, ok, upper, is_kw, says, at_kw, eat_kw, eat_equals, at_punct, Numbers, text,
  word, kw, op, comma,
}
use aof_db.Sql.Writes.{Row, put, set_loop, merge, where_id, first_id, exec_update, sql_exec}
use aof_db.Sql.Merge.{or_else, Distinct, insert-Distinct, lookup-merge}
use aof_db.Sql.Print.{Literal, Clause, condition_of, where_tokens, Ends, parse_where-where_tokens}

-- An assignment `column = literal`.
pub record Assignment : Type 0 where
  pub column : Text
  pub literal : Literal

-- `a, a, …`, followed by `rest`
unfoldable pub set_tokens : Assignment → List Assignment → List Token → List Token
set_tokens a [] rest = word a.column ∷ op (codes "=") ∷ a.literal.token ∷ rest
set_tokens a (b ∷ bs) rest =
    word a.column ∷ op (codes "=") ∷ a.literal.token ∷ comma ∷ set_tokens b bs rest

-- The statement that sets the assignments in the row that the clauses name.
abbrev pub update_tokens :
    Text → Assignment → List Assignment → Clause → List Clause → List Token → List Token
update_tokens table a more c cs rest =
    kw (codes "UPDATE")
    ∷ word table
    ∷ kw (codes "SET")
    ∷ set_tokens a more (kw (codes "WHERE") ∷ where_tokens c cs rest)

-- The value that the last assignment to a column gives it, or else `old`.
unfoldable pub assigned : Text → List Assignment → Option Value → Option Value
unfolding text_beq
assigned f [] old = old
assigned f (a ∷ more) old =
    assigned f more (if text_beq a.column f then some a.literal.value else old)

abbrev written : List Assignment → Row → Row
written [] row = row
written (a ∷ more) row = written more (insert a.column a.literal.value row)

lookup-written :
    (f : Text) (more : List Assignment) (row : Row)
    → lookup f (written more row) ≡ assigned f more (lookup f row)
unfolding assigned
lookup-written f [] row = refl
lookup-written f (a ∷ more) row =
    lookup-written f more (insert a.column a.literal.value row)
    ∙ ap (assigned f more) (lookup-insert a.column f a.literal.value row)

set_loop-set_tokens :
    (fuel : ℕ) (a : Assignment) (more : List Assignment) (row : Row) (rest : List Token)
    → length more < fuel
    → at_punct comma rest ≡ false
    → set_loop fuel row (set_tokens a more rest) ≡ ok (written (a ∷ more) row) rest
unfolding set_loop set_tokens eat_equals text_beq
set_loop-set_tokens zero a more row rest l h = absurd (omega arith)
set_loop-set_tokens (suc fuel) a [] row rest l h = rw (a.literal.reads rest) (rw h refl)
set_loop-set_tokens (suc fuel) a (b ∷ bs) row rest l h =
    rw (a.literal.reads (comma ∷ set_tokens b bs rest))
      (set_loop-set_tokens fuel b bs (insert a.column a.literal.value row) rest (omega arith) h)

length-set_tokens :
    (a : Assignment) (more : List Assignment) (rest : List Token)
    → length more < length (set_tokens a more rest)
unfolding set_tokens
length-set_tokens a [] rest = omega arith
length-set_tokens a (b ∷ bs) rest = omega (arith, length-set_tokens b bs rest)

module _ (N : Numbers) where
  where_id-where_tokens :
      (c : Clause) (cs : List Clause) (rest : List Token) (id : Text)
      → Ends rest
      → first_id N (condition_of c ∷ map condition_of cs) ≡ some id
      → where_id N (kw (codes "WHERE") ∷ where_tokens c cs rest) ≡ ok id rest
  unfolding where_id at_kw eat_kw is_kw upper text_beq
  where_id-where_tokens c cs rest id h e = rw (parse_where-where_tokens N c cs rest h) (rw e refl)

or_else-assigned :
    (f : Text) (more : List Assignment) (held old : Option Value)
    → or_else (assigned f more held) old ≡ assigned f more (or_else held old)
unfolding assigned
or_else-assigned f [] held old = refl
or_else-assigned f (a ∷ more) held old = elim (Bool-cases (text_beq a.column f)) [
  | inl same ↦ rw same (or_else-assigned f more (some a.literal.value) old)
  | inr other ↦ rw other (or_else-assigned f more held old)
]

written-Distinct : (more : List Assignment) (row : Row) → Distinct row → Distinct (written more row)
written-Distinct [] row d = d
written-Distinct (a ∷ more) row d =
    written-Distinct more (insert a.column a.literal.value row)
      (insert-Distinct a.column a.literal.value row d)

lookup-updated :
    (f id : Text) (more : List Assignment) (row : Row)
    → lookup f (insert (codes "_id") (text id) (merge row (written more [])))
      ≡ (if codes "_id" == f then some (text id) else assigned f more (lookup f row))
unfolding lookup
lookup-updated f id more row =
    lookup-insert (codes "_id") f (text id) (merge row (written more []))
    ∙ ap (λ found. if codes "_id" == f then some (text id) else found)
        (lookup-merge f row (written more []) (written-Distinct more [] tt)
          ∙ ap (λ found. or_else found (lookup f row)) (lookup-written f more [])
          ∙ or_else-assigned f more none (lookup f row))

module _ (N : Numbers) where
  exec_update-update_tokens :
      (get : Text → Text → Option Row) (table id : Text) (a : Assignment) (more : List Assignment)
      (c : Clause) (cs : List Clause) (rest : List Token)
      → Ends rest
      → first_id N (condition_of c ∷ map condition_of cs) ≡ some id
      → sql_exec N get (update_tokens table a more c cs rest)
        ≡ ok
            (put table id (
              insert
                (codes "_id")
                (text id)
                (merge (or_default [] (get table id)) (written (a ∷ more) []))))
            rest
  unfolding sql_exec says upper text_beq exec_update eat_kw is_kw at_kw
  exec_update-update_tokens get table id a more c cs rest h e =
      let tail = kw (codes "WHERE") ∷ where_tokens c cs rest in
      rw
        (set_loop-set_tokens (suc (suc (suc (length (set_tokens a more tail))))) a more [] tail
          (omega (arith, length-set_tokens a more tail)) refl)
        (rw (where_id-where_tokens N c cs rest id h e) refl)

  -- The UPDATE of assignments in the row that an id condition names is one `put` of that row. In
  -- the new row `_id` is the id, and any other column has the value of the last assignment to it,
  -- or, with none, what the row had before. The other conditions of the WHERE have no effect: the row is
  -- put whether they hold of it or not. What follows the statement is not read.
  pub sql_exec-update_tokens :
      (get : Text → Text → Option Row) (table id : Text) (a : Assignment) (more : List Assignment)
      (c : Clause) (cs : List Clause) (rest : List Token)
      → Ends rest
      → first_id N (condition_of c ∷ map condition_of cs) ≡ some id
      → (row : Row) × (sql_exec N get (update_tokens table a more c cs rest)
          ≡ ok (put table id row) rest)
        × ((f : Text)
            → lookup f row ≡ (
                if codes "_id" == f
                then some (text id)
                else assigned f (a ∷ more) (lookup f (or_default [] (get table id)))))
  sql_exec-update_tokens get table id a more c cs rest h e = (
    _,
    exec_update-update_tokens get table id a more c cs rest h e,
    λ f. lookup-updated f id (a ∷ more) (or_default [] (get table id)),
  )
