-- ===== src/Execute/Tests.antt =====
-- A concrete run of `execute` of python/nedb/engine.py: a database with one document, read through
-- an equality index.
use aof_db.Prelude.{
  ℕ, String, List, true, Option, append_to, ◌+◌, ◌≡◌, refl, false, none, some, [], ◌∷◌, nat_eq, ltb,
  leb, lookup, insert, lookup_list, append_to, contains, ◌&&◌, has_key, string_eq, All, Bool-cases,
  inl, inr, ◌==◌,
}
use text.Mathlib.Text.{starts_with}
use aof_db.Store as Store
use aof_db.Index as Index
use aof_db.Index.{Values, Doc, Indexes, eq_lookup, held_ids, has_eq, search_fields, index_key}
use aof_db.Log.{append}
use aof_db.Engine.{Nedb, done, opened, apply_op, apply_payload, commit, next, note_causes}
use aof_db.Engine.Mutations.{perform, put, put_request, stored_doc, embed_ttl}
use aof_db.Engine.Sample.{values, codec, by_age, after, put₁}
use aof_db.Engine.Recovery.{Reaches, start, call}
use aof_db.Execute.{
  Comparisons, Plan, Rows, found_rows, prefix_of, matches, candidates, by_search, by_equality, scan,
  load_rows, accepts, cmp,
}
use aof_db.Query.{Fn}
use aof_db.Execute.Groups.{
  Arithmetic, Aggregated, taken_of, Groups, grouped, group_entries, having, IsGrouping,
  grouped-having,
}
use aof_db.Execute.Listing.{IsName}
use aof_db.Execute.Reach.{NamedOp, HasNoEntry}
use aof_db.Execute.Scan.{row_keys, passes}
use aof_db.Execute.Found.{contains-found_rows}

-- 0 is None.
abbrev comparisons : Comparisons values
comparisons = record {
  null = 0;
  lt = λ a b. some (ltb a b);
  le = λ a b. some (leb a b);
  gt = λ a b. some (ltb b a);
  ge = λ a b. some (leb b a);
  text_has = λ doc t. false;
  sort = λ field desc rows. rows;
  causes_of = λ doc. [];
  text_of_id = λ v. "1";
}

abbrev db₁ : Nedb values
unfolding perform
db₁ = after (perform values codec put₁ 100 100 (opened values by_age))

abbrev total : List ℕ → ℕ
total [] = 0
total (n ∷ ns) = n + total ns

abbrev aged_30 : Plan comparisons
aged_30 = record {
  coll = "users";
  as_of = none;
  conditions = record { field = "age"; op = "="; value = 30 } ∷ [];
  search = none;
  order_by = none;
  traverse = none;
  trace = none;
  trace_reverse = false;
  limit = none;
  valid_as_of = none;
}

no_entry : HasNoEntry values by_age
unfolding held_ids lookup_list lookup contains
no_entry coll field key v = elim (Bool-cases ("users.age" == index_key coll field)) [
  | inl same ↦ rw same refl
  | inr other ↦ rw other refl
]

step₁ : perform values codec put₁ 100 100 (opened values by_age) ≡ done db₁
unfolding perform put commit append apply_op apply_payload stored_doc embed_ttl put_request next
    note_causes Store.get Store.put Index.add Index.remove lookup insert lookup_list
step₁ = refl

users_plain : IsName "users"
users_plain =
    ((refl, (refl, (refl, (refl, (refl, tt))))), (refl, (refl, (refl, (refl, (refl, tt))))))

named₁ : All (NamedOp values) db₁.log.ops
unfolding perform append lookup Store.get lookup_list Index.add insert
named₁ = ((refl, users_plain), tt)

read_by_index :
    found_rows comparisons db₁.state aged_30
    ≡ some (("users:1", ("age", 30) ∷ ("_id", 1) ∷ ("_seq", 0) ∷ []) ∷ [])
unfolding found_rows candidates by_search by_equality scan load_rows accepts matches cmp eq_lookup
    held_ids has_eq search_fields lookup_list lookup perform append Store.get Index.add insert
    Store.put append_to Index.remove has_key contains
read_by_index = refl

reaches₁ : Reaches values codec by_age db₁
reaches₁ = call put₁ 100 100 start step₁

contains-found_rows_example :
    (rows : Rows comparisons) × (found_rows comparisons db₁.state aged_30 ≡ some rows)
    × ((key : String)
        → contains (row_keys comparisons rows) key ≡ (
            starts_with key (prefix_of "users")
            && passes comparisons
                (matches comparisons aged_30.conditions)
                (Store.get key none db₁.state.store)))
contains-found_rows_example =
    contains-found_rows comparisons codec by_age db₁ aged_30 no_entry named₁ reaches₁ users_plain
      refl (refl, tt) (refl, tt)

abbrev arithmetic : Arithmetic values
arithmetic = record {
  is_number = λ v. true;
  of_count = λ n. n;
  sum_of = total;
  mean_of = λ l. 0;
  least_of = λ l. 0;
  greatest_of = λ l. 0;
}

abbrev three : List (Doc values)
three =
    (("age", 30) ∷ ("pay", 5) ∷ [])
    ∷ (("age", 31) ∷ ("pay", 1) ∷ [])
    ∷ (("age", 30) ∷ ("pay", 2) ∷ [])
    ∷ []

abbrev by_pay : Option Aggregated
by_pay = some (taken_of Fn.sum "pay")

abbrev sums : List (Doc values)
sums =
    (("age", 30) ∷ ("count", 2) ∷ ("sum_pay", 7) ∷ [])
    ∷ (("age", 31) ∷ ("count", 1) ∷ ("sum_pay", 1) ∷ [])
    ∷ []

grouped_run : grouped comparisons arithmetic "age" by_pay three ≡ some sums
unfolding grouped append_to lookup_list lookup insert
grouped_run = refl

grouped-having_example :
    (groups : Groups comparisons arithmetic) × (sums
      ≡ group_entries comparisons arithmetic "age" by_pay groups)
    × IsGrouping comparisons arithmetic groups
    × ((v : ℕ) → lookup_list v groups ≡ having comparisons arithmetic "age" v three)
grouped-having_example = grouped-having comparisons arithmetic "age" by_pay three sums grouped_run
