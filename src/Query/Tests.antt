-- ===== src/Query/Tests.antt =====
-- Concrete runs of the parser and of the builder of python/nedb/query.py.
use aof_db.Prelude.{◌≡◌, true, none, some, List, [], ◌∷◌}
use aof_db.Prelude.Texts.{codes}
use aof_db.Prelude.Int.{pos, negsuc}
use aof_db.Query.{Plan, Value, empty_plan, int, over, sum, parse}
use aof_db.Query.Print.{print}
use aof_db.Query.RoundTrip.{IsPlan, parse-print}
use aof_db.Query.Builder.{Call, described, where_is, limit, build, parse-build}

abbrev plan : Plan
plan = record {
  coll = codes "users";
  as_of = some (pos 7);
  conditions =
      record { field = codes "age"; op = codes ">"; value = Value.num (int (pos 30)) } ∷ [];
  search = none;
  order_by = some (record { field = codes "age"; desc = true });
  traverse = none;
  limit = some (pos 5);
  group_by = some (codes "city");
  aggregate = some (over sum (codes "age"));
  trace = some (codes "caused_by");
  trace_reverse = true;
  valid_as_of = some (codes "2024-01-01");
}

plan-IsPlan : IsPlan plan
plan-IsPlan = record { traced = λ e. cc; grouped = λ e. cc }

parse-print_example : parse (print plan) ≡ some plan
parse-print_example = parse-print plan plan-IsPlan

abbrev calls : List Call
calls =
    limit (pos 3)
    ∷ where_is (codes "age") (codes "<") Value.null
    ∷ where_is (codes "pay") (codes "=") Value.null
    ∷ limit (negsuc 0)
    ∷ []

parse-build_example :
    (build (codes "users") calls ≡ described calls (empty_plan (codes "users")))
    × (parse (print (build (codes "users") calls))
        ≡ some (described calls (empty_plan (codes "users"))))
parse-build_example = parse-build (codes "users") calls
