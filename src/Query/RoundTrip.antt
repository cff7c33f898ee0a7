-- ===== src/Query/RoundTrip.antt =====
-- The parser of python/nedb/query.py reads back the plan that canonical tokens print.
use aof_db.Prelude.{◌≡◌, refl, Bool, true, false, Option, none, some, List, [], ◌∷◌, arith}
use aof_db.Prelude.Int.{ℤ}
use aof_db.Query.{
  Text, Tokens, Condition, Aggregate, OrderBy, Plan, count, over, sum, avg, min, max, is_kw,
  conditions_loop, as_of_clause, valid_clause, where_clause, valid_again, search_clause,
  order_clause, traverse_clause, trace_clause, limit_clause, group_clause, clauses, parse,
  empty_plan,
}
use aof_db.Query.Print.{
  print_conditions, print_group, print_limit, print_trace, print_traverse, print_order,
  print_search, print_where, print_valid, print_as_of, from_limit, from_trace, from_traverse,
  from_order, from_search, from_where, from_valid, print, starts_kw, accept_kw-miss,
  value_of-print_value,
}

conditions_loop-print :
    (c : Condition) (cs : List Condition) (rest : Tokens)
    → starts_kw "and" rest ≡ false
    → conditions_loop (print_conditions c cs rest) ≡ some (c ∷ cs, rest)
unfolding conditions_loop starts_kw
conditions_loop-print c [] [] h = rw value_of-print_value
conditions_loop-print c [] (t ∷ ts) h = rw (h, value_of-print_value)
conditions_loop-print c (d ∷ cs) rest h =
    rw (conditions_loop-print d cs rest h, value_of-print_value)

module _ (p : Plan) (rest : Tokens) where
  as_of_lem :
      (o : Option ℤ)
      → p.as_of ≡ none
      → starts_kw "as" rest ≡ false
      → as_of_clause p (print_as_of o rest) ≡ some (record p { as_of = o }, rest)
  unfolding as_of_clause
  as_of_lem none e h = rw (accept_kw-miss "as" rest h) (λ i. some (record p { as_of = e i }, rest))
  as_of_lem (some n) e h = refl

  valid_lem :
      (o : Option Text)
      → p.valid_as_of ≡ none
      → starts_kw "valid" rest ≡ false
      → valid_clause p (print_valid o rest) ≡ some (record p { valid_as_of = o }, rest)
  unfolding valid_clause
  valid_lem none e h =
      rw (accept_kw-miss "valid" rest h) (λ i. some (record p { valid_as_of = e i }, rest))
  valid_lem (some d) e h = refl

  where_lem :
      (cs : List Condition)
      → p.conditions ≡ []
      → starts_kw "where" rest ≡ false
      → starts_kw "and" rest ≡ false
      → where_clause p (print_where cs rest) ≡ some (record p { conditions = cs }, rest)
  unfolding where_clause
  where_lem [] e h g =
      rw (accept_kw-miss "where" rest h) (λ i. some (record p { conditions = e i }, rest))
  where_lem (c ∷ cs) e h g = rw (conditions_loop-print c cs rest g, e)

  valid_again_lem :
      (o : Option Text) → starts_kw "valid" rest ≡ false → valid_again o p rest ≡ some (p, rest)
  unfolding valid_again
  valid_again_lem (some d) h = refl
  valid_again_lem none h = rw (accept_kw-miss "valid" rest h)

  search_lem :
      (o : Option Text)
      → p.search ≡ none
      → starts_kw "search" rest ≡ false
      → search_clause p (print_search o rest) ≡ some (record p { search = o }, rest)
  unfolding search_clause
  search_lem none e h =
      rw (accept_kw-miss "search" rest h) (λ i. some (record p { search = e i }, rest))
  search_lem (some t) e h = refl

  order_lem :
      (o : Option OrderBy)
      → p.order_by ≡ none
      → starts_kw "order" rest ≡ false
      → order_clause p (print_order o rest) ≡ some (record p { order_by = o }, rest)
  unfolding order_clause
  order_lem none e h =
      rw (accept_kw-miss "order" rest h) (λ i. some (record p { order_by = e i }, rest))
  order_lem (some o) e h = ground arith

  traverse_lem :
      (o : Option Text)
      → p.traverse ≡ none
      → starts_kw "traverse" rest ≡ false
      → traverse_clause p (print_traverse o rest) ≡ some (record p { traverse = o }, rest)
  unfolding traverse_clause
  traverse_lem none e h =
      rw (accept_kw-miss "traverse" rest h) (λ i. some (record p { traverse = e i }, rest))
  traverse_lem (some r) e h = refl

  trace_lem :
      (o : Option Text) (back : Bool)
      → p.trace ≡ none
      → p.trace_reverse ≡ false
      → (o ≡ none → back ≡ false)
      → starts_kw "trace" rest ≡ false
      → starts_kw "reverse" rest ≡ false
      → trace_clause p (print_trace o back rest)
        ≡ some (record p { trace = o; trace_reverse = back }, rest)
  unfolding trace_clause
  trace_lem none back e f c h g =
      rw (accept_kw-miss "trace" rest h, c refl)
        (λ i. some (record p { trace = e i; trace_reverse = f i }, rest))
  trace_lem (some t) true e f c h g = refl
  trace_lem (some t) false e f c h g =
      rw (accept_kw-miss "reverse" rest g)
        (λ i. some (record p { trace = some t; trace_reverse = f i }, rest))

  limit_lem :
      (o : Option ℤ)
      → p.limit ≡ none
      → starts_kw "limit" rest ≡ false
      → limit_clause p (print_limit o rest) ≡ some (record p { limit = o }, rest)
  unfolding limit_clause
  limit_lem none e h =
      rw (accept_kw-miss "limit" rest h) (λ i. some (record p { limit = e i }, rest))
  limit_lem (some n) e h = refl

group_lem :
    (p : Plan) (o : Option Text) (a : Option Aggregate)
    → p.group_by ≡ none
    → p.aggregate ≡ none
    → (o ≡ none → a ≡ none)
    → group_clause p (print_group o a) ≡ some (record p { group_by = o; aggregate = a }, [])
unfolding group_clause
group_lem p none a e f c =
    rw (c refl) (λ i. some (record p { group_by = e i; aggregate = f i }, []))
group_lem p (some g) none e f c = refl
group_lem p (some g) (some count) e f c = refl
group_lem p (some g) (some (over sum t)) e f c = refl
group_lem p (some g) (some (over avg t)) e f c = refl
group_lem p (some g) (some (over min t)) e f c = refl
group_lem p (some g) (some (over max t)) e f c = refl

-- A plan that `parse_nql` can give: REVERSE only after TRACE, and an aggregate only in GROUP BY.
pub record IsPlan (p : Plan) : Type 0 where
  pub traced : p.trace ≡ none → p.trace_reverse ≡ false
  pub grouped : p.group_by ≡ none → p.aggregate ≡ none

-- No clause's keyword stands at the head of the clauses after it.
module _ (p : Plan) where
  limit_free : starts_kw "limit" (print_group p.group_by p.aggregate) ≡ false
  unfolding starts_kw is_kw
  limit_free = ground arith

  trace_free : starts_kw "trace" (from_limit p) ≡ false
  unfolding starts_kw is_kw
  trace_free = ground arith

  reverse_free : starts_kw "reverse" (from_limit p) ≡ false
  unfolding starts_kw is_kw
  reverse_free = ground arith

  traverse_free : starts_kw "traverse" (from_trace p) ≡ false
  unfolding starts_kw is_kw
  traverse_free = ground arith

  order_free : starts_kw "order" (from_traverse p) ≡ false
  unfolding starts_kw is_kw
  order_free = ground arith

  search_free : starts_kw "search" (from_order p) ≡ false
  unfolding starts_kw is_kw
  search_free = ground arith

  where_free : starts_kw "where" (from_search p) ≡ false
  unfolding starts_kw is_kw
  where_free = ground arith

  and_free : starts_kw "and" (from_search p) ≡ false
  unfolding starts_kw is_kw
  and_free = ground arith

  valid_free : starts_kw "valid" (from_where p) ≡ false
  unfolding starts_kw is_kw
  valid_free = ground arith

  valid_again_free : starts_kw "valid" (from_search p) ≡ false
  unfolding starts_kw is_kw
  valid_again_free = ground arith

  as_free : starts_kw "as" (from_valid p) ≡ false
  unfolding starts_kw is_kw
  as_free = ground arith

-- Parsing the canonical tokens of a plan gives back that plan, for every plan in which REVERSE
-- comes with TRACE and an aggregate with GROUP BY.
pub parse-print : (p : Plan) → IsPlan p → parse (print p) ≡ some p
unfolding parse print clauses empty_plan
parse-print p h =
    let p₀ = empty_plan p.coll in
    let p₁ = record p₀ { as_of = p.as_of } in
    let p₂ = record p₁ { valid_as_of = p.valid_as_of } in
    let p₃ = record p₂ { conditions = p.conditions } in
    let p₄ = record p₃ { search = p.search } in
    let p₅ = record p₄ { order_by = p.order_by } in
    let p₆ = record p₅ { traverse = p.traverse } in
    let p₇ = record p₆ { trace = p.trace; trace_reverse = p.trace_reverse } in
    let p₈ = record p₇ { limit = p.limit } in
    rw (
      as_of_lem p₀ (from_valid p) p.as_of refl (as_free p),
      valid_lem p₁ (from_where p) p.valid_as_of refl (valid_free p),
      where_lem p₂ (from_search p) p.conditions refl (where_free p) (and_free p),
      valid_again_lem p₃ (from_search p) p.valid_as_of (valid_again_free p),
      search_lem p₃ (from_order p) p.search refl (search_free p),
      order_lem p₄ (from_traverse p) p.order_by refl (order_free p),
      traverse_lem p₅ (from_trace p) p.traverse refl (traverse_free p),
      trace_lem p₆ (from_limit p) p.trace p.trace_reverse refl refl h.traced (trace_free p)
          (reverse_free p),
      limit_lem p₇ (print_group p.group_by p.aggregate) p.limit refl (limit_free p),
      group_lem p₈ p.group_by p.aggregate refl refl h.grouped,
    )
