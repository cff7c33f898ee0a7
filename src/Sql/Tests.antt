-- ===== src/Sql/Tests.antt =====
-- Concrete statements, of numbers that keep their lexeme.
use aof_db.Prelude.{
  ◌≡◌, refl, true, Option, none, some, List, [], ◌∷◌, lookup, or_default, if◌then◌else◌, ◌==◌,
}
use aof_db.Prelude.Texts.{text_beq, text_eq, codes}
use aof_db.Sql.{
  Text, Token, Value, ok, eat_value, inside, but_last, unescape, Numbers, Condition, text, word, kw,
  op, at_kw, eat_kw, upper, lower, is_kw, token_text,
}
use aof_db.Sql.Where.{parse_where, where_loop, condition, comparison_condition, comparison}
use aof_db.Sql.Writes.{Row, put, delete, first_id, is_id_condition, where_id, exec_delete, sql_exec}
use aof_db.Sql.Print.{Literal, Clause, condition_of, Ends}
use aof_db.Sql.Updates.{Assignment, update_tokens, assigned, sql_exec-update_tokens}
use aof_db.Sql.Inserts.{insert_tokens, paired, sql_exec-insert_tokens}
use aof_db.Sql.Deletes.{Names, exec_delete-ok}

abbrev numbers : Numbers
unfolding text_beq
numbers = record {
  int_text = λ t. t;
  float_text = λ t. t;
  int_is_zero = λ t. text_beq t (codes "0");
  float_is_zero = λ t. text_beq t (codes "0.0");
}

abbrev u1 : Literal
unfolding eat_value inside but_last unescape
u1 = record { value = text (codes "u1"); token = Token.string (codes "'u1'"); reads = λ ts. refl }

abbrev thirty : Literal
unfolding eat_value
thirty = record {
  value = Value.int (codes "30");
  token = Token.int (codes "30");
  reads = λ ts. refl;
}

abbrev no_rows : Text → Text → Option Row
no_rows table id = none

abbrev id_is_u1 : Clause
id_is_u1 = record { field = codes "id"; op = codes "="; literal = u1 }

abbrev set_age : Assignment
set_age = record { column = codes "age"; literal = thirty }

Ends-nil : Ends []
unfolding at_kw
Ends-nil = record { no_or = refl; no_and = refl }

id_found : first_id numbers (condition_of id_is_u1 ∷ []) ≡ some (codes "u1")
unfolding first_id is_id_condition lower text_beq comparison u1
id_found = refl

sql_exec-update_tokens_example :
    (row : Row) × (sql_exec numbers no_rows
        (update_tokens (codes "users") set_age [] id_is_u1 [] [])
      ≡ ok (put (codes "users") (codes "u1") row) [])
    × ((f : Text)
        → lookup f row ≡ (
            if codes "_id" == f
            then some (text (codes "u1"))
            else assigned f
                (set_age ∷ [])
                (lookup f (or_default [] (no_rows (codes "users") (codes "u1"))))))
sql_exec-update_tokens_example =
    sql_exec-update_tokens numbers no_rows (codes "users") (codes "u1") set_age [] id_is_u1 [] []
      Ends-nil id_found

sql_exec-insert_tokens_example :
    (row : Row) × (sql_exec numbers no_rows
        (insert_tokens (codes "users") (codes "id") (codes "age" ∷ []) u1 (thirty ∷ []) [])
      ≡ ok (put (codes "users") (codes "u1") row) [])
    × ((f : Text)
        → lookup f row
          ≡ paired f (codes "id" ∷ codes "age" ∷ []) (u1.value ∷ thirty.value ∷ []) none)
unfolding paired text_beq u1
sql_exec-insert_tokens_example =
    sql_exec-insert_tokens numbers no_rows (codes "users") (codes "id") (codes "age" ∷ []) u1
      (thirty ∷ []) (text (codes "u1")) [] refl refl

abbrev delete_u1 : List Token
delete_u1 =
    kw (codes "delete")
    ∷ kw (codes "FROM")
    ∷ word (codes "users")
    ∷ kw (codes "where")
    ∷ word (codes "ID")
    ∷ op (codes "=")
    ∷ u1.token
    ∷ []

delete_run : exec_delete numbers delete_u1 ≡ ok (delete (codes "users") (codes "u1")) []
unfolding exec_delete where_id parse_where where_loop condition comparison_condition comparison
    eat_value inside but_last unescape at_kw eat_kw is_kw upper lower text_beq first_id
    is_id_condition
delete_run = refl

exec_delete-ok_example :
    (t u v w : Token) × (us : List Token) × (cs : List Condition) × (id : Text) × (delete_u1
      ≡ t ∷ u ∷ v ∷ w ∷ us)
    × ((is_kw "DELETE" t ≡ true) × (is_kw "FROM" u ≡ true) × (is_kw "WHERE" w ≡ true))
    × (parse_where numbers us ≡ ok cs [])
    × Names numbers id cs
    × (delete (codes "users") (codes "u1") ≡ delete (token_text v) id)
exec_delete-ok_example =
    exec_delete-ok numbers delete_u1 [] (delete (codes "users") (codes "u1")) delete_run
