-- ===== src/Query/Print.antt =====
-- The canonical tokens of a plan of python/nedb/query.py.
use aof_db.Prelude.{
  ◌≡◌, refl, Bool, true, false, Option, none, some, List, [], ◌∷◌, String, if◌then◌else◌,
}
use aof_db.Prelude.Texts.{text_beq_iff, codes}
use aof_db.Prelude.Int.{ℤ}
use aof_db.Query.{
  Text, int, Value, Token, Tokens, kw, word, op, Condition, Fn, Aggregate, OrderBy, Plan, count,
  over, sum, avg, min, max, is_kw, accept_kw, value_of,
}

abbrev pub keyword : String → Token
keyword k = kw (codes k)

abbrev pub print_value : Value → Token
print_value (Value.num n) = Token.num n
print_value (Value.str s) = Token.str s
print_value (Value.bool true) = keyword "true"
print_value (Value.bool false) = keyword "false"
print_value Value.null = keyword "null"

abbrev pub print_conditions : Condition → List Condition → Tokens → Tokens
print_conditions c [] rest = word c.field ∷ op c.op ∷ print_value c.value ∷ rest
print_conditions c (d ∷ cs) rest =
    word c.field ∷ op c.op ∷ print_value c.value ∷ keyword "and" ∷ print_conditions d cs rest

abbrev pub print_fn : Fn → Token
print_fn sum = keyword "sum"
print_fn avg = keyword "avg"
print_fn min = keyword "min"
print_fn max = keyword "max"

abbrev pub print_aggregate : Option Aggregate → Tokens
print_aggregate none = []
print_aggregate (some count) = keyword "count" ∷ []
print_aggregate (some (over fn f)) = print_fn fn ∷ word f ∷ []

-- Each clause, in front of what follows it.
abbrev pub print_group : Option Text → Option Aggregate → Tokens
print_group none a = []
print_group (some f) a = keyword "group" ∷ keyword "by" ∷ word f ∷ print_aggregate a

abbrev pub print_limit : Option ℤ → Tokens → Tokens
print_limit none rest = rest
print_limit (some n) rest = keyword "limit" ∷ Token.num (int n) ∷ rest

abbrev pub print_trace : Option Text → Bool → Tokens → Tokens
print_trace none back rest = rest
print_trace (some f) false rest = keyword "trace" ∷ word f ∷ rest
print_trace (some f) true rest = keyword "trace" ∷ word f ∷ keyword "reverse" ∷ rest

abbrev pub print_traverse : Option Text → Tokens → Tokens
print_traverse none rest = rest
print_traverse (some rel) rest = keyword "traverse" ∷ word rel ∷ rest

abbrev pub print_order : Option OrderBy → Tokens → Tokens
print_order none rest = rest
print_order (some o) rest =
    keyword "order"
    ∷ keyword "by"
    ∷ word o.field
    ∷ (if o.desc then keyword "desc" else keyword "asc")
    ∷ rest

abbrev pub print_search : Option Text → Tokens → Tokens
print_search none rest = rest
print_search (some t) rest = keyword "search" ∷ Token.str t ∷ rest

abbrev pub print_where : List Condition → Tokens → Tokens
print_where [] rest = rest
print_where (c ∷ cs) rest = keyword "where" ∷ print_conditions c cs rest

abbrev pub print_valid : Option Text → Tokens → Tokens
print_valid none rest = rest
print_valid (some d) rest = keyword "valid" ∷ keyword "as" ∷ keyword "of" ∷ Token.str d ∷ rest

abbrev pub print_as_of : Option ℤ → Tokens → Tokens
print_as_of none rest = rest
print_as_of (some n) rest = keyword "as" ∷ keyword "of" ∷ Token.num (int n) ∷ rest

-- The tokens from each clause on.
abbrev pub from_limit : Plan → Tokens
from_limit p = print_limit p.limit (print_group p.group_by p.aggregate)

abbrev pub from_trace : Plan → Tokens
from_trace p = print_trace p.trace p.trace_reverse (from_limit p)

abbrev pub from_traverse : Plan → Tokens
from_traverse p = print_traverse p.traverse (from_trace p)

abbrev pub from_order : Plan → Tokens
from_order p = print_order p.order_by (from_traverse p)

abbrev pub from_search : Plan → Tokens
from_search p = print_search p.search (from_order p)

abbrev pub from_where : Plan → Tokens
from_where p = print_where p.conditions (from_search p)

abbrev pub from_valid : Plan → Tokens
from_valid p = print_valid p.valid_as_of (from_where p)

unfoldable pub print : Plan → Tokens
print p = keyword "from" ∷ word p.coll ∷ print_as_of p.as_of (from_valid p)

-- Is the first token the keyword?
unfoldable pub starts_kw : String → Tokens → Bool
unfolding is_kw
starts_kw k [] = false
starts_kw k (t ∷ ts) = is_kw k t

pub is_kw-keyword : (k : String) → is_kw k (keyword k) ≡ true
unfolding is_kw
is_kw-keyword k = (text_beq_iff (codes k) (codes k)).1 refl

pub accept_kw-hit : (k : String) (ts : Tokens) → accept_kw k (keyword k ∷ ts) ≡ some (true, ts)
unfolding accept_kw
accept_kw-hit k ts = rw ((text_beq_iff (codes k) (codes k)).1 refl)

pub accept_kw-miss :
    (k : String) (ts : Tokens) → starts_kw k ts ≡ false → accept_kw k ts ≡ some (false, ts)
unfolding accept_kw starts_kw
accept_kw-miss k [] h = refl
accept_kw-miss k (t ∷ ts) h = rw h

pub value_of-print_value : (v : Value) → value_of (print_value v) ≡ some v
unfolding value_of
value_of-print_value (Value.num n) = refl
value_of-print_value (Value.str s) = refl
value_of-print_value (Value.bool true) = refl
value_of-print_value (Value.bool false) = refl
value_of-print_value Value.null = refl
