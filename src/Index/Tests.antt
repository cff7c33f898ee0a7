-- ===== src/Index/Tests.antt =====
-- Concrete runs of the indexes of python/nedb/index.py.
use aof_db.Prelude.{
  ℕ, ◌+◌, ◌≡◌, refl, true, none, some, [], ◌∷◌, nat_eq, ltb, lookup, insert, lookup_list, contains,
  string_eq, has_key,
}
use aof_db.Index.{Values, Doc, Indexes, add, remove, tokenize}
use aof_db.Prelude.Texts.{codes}

abbrev values : Values ℕ
values = record {
  Value = ℕ;
  equal = nat_eq;
  hashable = λ v. ltb v 1000;
  text_of = λ v. none;
  sortable = λ v. true;
  insort = λ x l. some (x ∷ l);
  of_seq = λ q. q;
  of_text = λ t. 1;
  of_seqs = λ l. 2;
  of_float = λ x. x;
  plus = λ x y. x + y;
}

abbrev indexes : Indexes values
indexes = record {
  eq = ("users.age", (30, "users:1" ∷ []) ∷ []) ∷ [];
  ordered = [];
  inv = [];
  config = [];
}

abbrev doc : Doc values
doc = ("age", 30) ∷ []

abbrev added : Indexes values
added = record indexes { eq = ("users.age", (30, "users:1" ∷ "users:2" ∷ []) ∷ []) ∷ [] }

add_run : add values "users" "users:2" doc indexes ≡ some added
unfolding add lookup insert lookup_list contains
add_run = refl

remove_run : remove values "users" "users:2" doc added ≡ some indexes
unfolding remove lookup insert lookup_list contains has_key
remove_run = refl

tokens_run : tokenize (codes ", Ann!") ≡ codes "ann" ∷ []
unfolding tokenize contains
tokens_run = refl
