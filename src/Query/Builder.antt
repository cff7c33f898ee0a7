-- ===== src/Query/Builder.antt =====
-- The fluent builder `Query` of python/nedb/query.py: each method updates the plan and returns the
-- builder.
use aof_db.Prelude.{
  ◌≡◌, refl, ap, sym, ◌∙◌, Bool, Option, none, some, List, [], ◌∷◌, ◌++◌, append-nil, append_assoc,
}
use aof_db.Prelude.Int.{ℤ}
use aof_db.Query.{Text, Value, Condition, OrderBy, Plan, empty_plan, parse}
use aof_db.Query.Print.{print}
use aof_db.Query.RoundTrip.{IsPlan, parse-print}

-- A call of a method, with its arguments.
pub data Call : Type 0 where
  as_of : ℤ → Call
  where_is : Text → Text → Value → Call
  search : Text → Call
  order_by : Text → Bool → Call
  traverse : Text → Call
  limit : ℤ → Call

pub call : Call → Plan → Plan
call (as_of seq) p = record p { as_of = some seq }
call (where_is f o v) p = record p {
  conditions = p.conditions ++ record { field = f; op = o; value = v } ∷ [];
}
call (search text) p = record p { search = some text }
call (order_by f d) p = record p { order_by = some (record { field = f; desc = d }) }
call (traverse rel) p = record p { traverse = some rel }
call (limit n) p = record p { limit = some n }

pub run_calls : List Call → Plan → Plan
run_calls [] p = p
run_calls (c ∷ cs) p = run_calls cs (call c p)

unfoldable pub build : Text → List Call → Plan
unfolding run_calls call empty_plan
build coll cs = run_calls cs (empty_plan coll)

call-IsPlan : (c : Call) (p : Plan) → IsPlan p → IsPlan (call c p)
unfolding call
call-IsPlan (as_of seq) p h = record { traced = h.traced; grouped = h.grouped }
call-IsPlan (where_is f o v) p h = record { traced = h.traced; grouped = h.grouped }
call-IsPlan (search text) p h = record { traced = h.traced; grouped = h.grouped }
call-IsPlan (order_by f d) p h = record { traced = h.traced; grouped = h.grouped }
call-IsPlan (traverse rel) p h = record { traced = h.traced; grouped = h.grouped }
call-IsPlan (limit n) p h = record { traced = h.traced; grouped = h.grouped }

run_calls-IsPlan : (cs : List Call) (p : Plan) → IsPlan p → IsPlan (run_calls cs p)
unfolding run_calls
run_calls-IsPlan [] p h = h
run_calls-IsPlan (c ∷ cs) p h = run_calls-IsPlan cs (call c p) (call-IsPlan c p h)

abbrev or_else : {A : Type 0} → Option A → Option A → Option A
or_else (some a) old = some a
or_else none old = old

-- What the last call of a method was given, if it was called; else what there was before.
abbrev pub newest : {A : Type 0} → (Call → Option A) → List Call → Option A → Option A
newest given [] old = old
newest given (c ∷ cs) old = newest given cs (or_else (given c) old)

abbrev pub given_seq : Call → Option ℤ
given_seq (as_of seq) = some seq
given_seq _ = none

abbrev pub given_text : Call → Option Text
given_text (search text) = some text
given_text _ = none

abbrev pub given_order : Call → Option OrderBy
given_order (order_by f d) = some (record { field = f; desc = d })
given_order _ = none

abbrev pub given_relation : Call → Option Text
given_relation (traverse rel) = some rel
given_relation _ = none

abbrev pub given_limit : Call → Option ℤ
given_limit (limit n) = some n
given_limit _ = none

-- The conditions of the calls of `where`, in their order.
abbrev pub conditions_of : List Call → List Condition
conditions_of [] = []
conditions_of (where_is f o v ∷ cs) = record { field = f; op = o; value = v } ∷ conditions_of cs
conditions_of (_ ∷ cs) = conditions_of cs

-- A plan with what the calls say of it, entry by entry.
abbrev pub described : List Call → Plan → Plan
described cs p = record p {
  as_of = newest given_seq cs p.as_of;
  conditions = p.conditions ++ conditions_of cs;
  search = newest given_text cs p.search;
  order_by = newest given_order cs p.order_by;
  traverse = newest given_relation cs p.traverse;
  limit = newest given_limit cs p.limit;
}

run_calls_lem : (cs : List Call) (p : Plan) → run_calls cs p ≡ described cs p
unfolding run_calls call
run_calls_lem [] p = ap (λ l. record p { conditions = l }) (sym (append-nil p.conditions))
run_calls_lem (as_of seq ∷ cs) p = run_calls_lem cs (call (as_of seq) p)
run_calls_lem (where_is f o v ∷ cs) p =
    let c : Condition = record { field = f; op = o; value = v } in
    run_calls_lem cs (call (where_is f o v) p)
    ∙ ap (λ l. record (described cs p) { conditions = l })
        (append_assoc p.conditions (c ∷ []) (conditions_of cs))
run_calls_lem (search text ∷ cs) p = run_calls_lem cs (call (search text) p)
run_calls_lem (order_by f d ∷ cs) p = run_calls_lem cs (call (order_by f d) p)
run_calls_lem (traverse rel ∷ cs) p = run_calls_lem cs (call (traverse rel) p)
run_calls_lem (limit n ∷ cs) p = run_calls_lem cs (call (limit n) p)

-- Whatever methods are called, the plan that the builder makes has the conditions of all calls of
-- `where` in their order, and for each other method what its last call was given, and nothing where
-- there was none; and the canonical tokens of that plan parse to the same plan.
pub parse-build :
    (coll : Text) (cs : List Call)
    → (build coll cs ≡ described cs (empty_plan coll))
      × (parse (print (build coll cs)) ≡ some (described cs (empty_plan coll)))
unfolding build
parse-build coll cs = (
  run_calls_lem cs (empty_plan coll),
  parse-print (build coll cs)
        (run_calls-IsPlan cs (empty_plan coll) (record { traced = λ e. refl; grouped = λ e. refl }))
      ∙ ap some (run_calls_lem cs (empty_plan coll)),
)
