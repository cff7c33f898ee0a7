-- ===== src/Query.antt =====
-- python/nedb/query.py: the plans of NQL, the parser from tokens to a plan, and the fluent builder.
-- A text is a list of character codes; none is a SyntaxError. The dict of a plan is a record.
pub mod Print
pub mod RoundTrip
pub mod Builder
mod Tests
use aof_db.Prelude.{
  ℕ, zero, suc, ◌+◌, Bool, true, false, not, Option, none, some, List, [], ◌∷◌, ◌++◌, if◌then◌else◌,
  ◌&&◌, ◌||◌, String,
}
use aof_db.Prelude.Texts.{text_beq, codes}
use aof_db.Prelude.Int.{ℤ, pos, negsuc}

abbrev pub Text : Type 0
Text = List ℕ

-- An `int`, or a `float` by its sign, its whole part and the digits after the point.
pub data Number : Type 0 where
  int : ℤ → Number
  float : Bool → ℕ → List ℕ → Number

pub data Value : Type 0 where
  num : Number → Value
  str : Text → Value
  bool : Bool → Value
  null : Value

pub data Token : Type 0 where
  num : Number → Token
  str : Text → Token
  op : Text → Token
  kw : Text → Token
  word : Text → Token

abbrev pub Tokens : Type 0
Tokens = List Token

pub record Condition : Type 0 where
  pub field : Text
  pub op : Text
  pub value : Value

pub data Fn : Type 0 where
  sum avg min max : Fn

-- `("count", None)`, or a function with the field that it is taken of
pub data Aggregate : Type 0 where
  count : Aggregate
  over : Fn → Text → Aggregate

pub record OrderBy : Type 0 where
  pub field : Text
  pub desc : Bool

pub record Plan : Type 0 where
  pub coll : Text
  pub as_of : Option ℤ
  pub conditions : List Condition
  pub search : Option Text
  pub order_by : Option OrderBy
  pub traverse : Option Text
  pub limit : Option ℤ
  pub group_by : Option Text
  pub aggregate : Option Aggregate
  pub trace : Option Text
  pub trace_reverse : Bool
  pub valid_as_of : Option Text

unfoldable pub empty_plan : Text → Plan
empty_plan coll = record {
  coll = coll;
  as_of = none;
  conditions = [];
  search = none;
  order_by = none;
  traverse = none;
  limit = none;
  group_by = none;
  aggregate = none;
  trace = none;
  trace_reverse = false;
  valid_as_of = none;
}

-- `int(v)`: it drops what stands after the point.
abbrev pub int_of : Number → ℤ
int_of (int z) = z
int_of (float false n digits) = pos n
int_of (float true zero digits) = pos 0
int_of (float true (suc n) digits) = negsuc n

-- A step of the parser: it reads from the tokens left and gives those that it leaves.
abbrev pub Parser {ℓ} : Type ℓ → Type ℓ
Parser A = Tokens → Option (A × Tokens)

module _ {ℓ κ} {A : Type ℓ} {B : Type κ} where
  abbrev pub follow : Option (A × Tokens) → (A → Parser B) → Option (B × Tokens)
  follow none f = none
  follow (some (a, ts)) f = f a ts

  infixl 1 ◌>>=◌ ◌>>◌
  abbrev pub ◌>>=◌ : Parser A → (A → Parser B) → Parser B
  (p >>= f) ts = follow (p ts) f

  abbrev pub ◌>>◌ : Parser A → Parser B → Parser B
  p >> q = p >>= λ _. q

abbrev pub pure {ℓ} : {A : Type ℓ} → A → Parser A
pure a ts = some (a, ts)

-- `t == "kw" and v == kw`
unfoldable pub is_kw : String → Token → Bool
unfolding text_beq
is_kw k (kw v) = text_beq v (codes k)
is_kw k _ = false

-- the payload of a token, whatever its kind: `v` in `t, v = peek()`, where it is a text
abbrev pub payload_is : String → Token → Bool
payload_is k (kw v) = text_beq v (codes k)
payload_is k (word v) = text_beq v (codes k)
payload_is k (str v) = text_beq v (codes k)
payload_is k (op v) = text_beq v (codes k)
payload_is k (num n) = false

unfoldable pub expect_kw : String → Parser (Unit {0})
unfolding is_kw
expect_kw k [] = none
expect_kw k (t ∷ ts) = if is_kw k t then some (tt, ts) else none

-- `if peek() == ("kw", k): i += 1`, with the answer of the test
unfoldable pub accept_kw : String → Parser Bool
unfolding is_kw
accept_kw k [] = some (false, [])
accept_kw k (t ∷ ts) = if is_kw k t then some (true, ts) else some (false, t ∷ ts)

-- `if peek()[1] == k: i += 1`
unfoldable pub accept_payload : String → Parser Bool
accept_payload k [] = some (false, [])
accept_payload k (t ∷ ts) = if payload_is k t then some (true, ts) else some (false, t ∷ ts)

-- One token that the reader takes, or a SyntaxError.
abbrev pub take_one {ℓ} : {A : Type ℓ} → (Token → Option A) → Parser A
take_one read [] = none
take_one read (t ∷ ts) = elim (read t) [ none ↦ none | some a ↦ some (a, ts) ]

-- `t in ("word", "kw")`
abbrev pub name_of : Token → Option Text
name_of (word v) = some v
name_of (kw v) = some v
name_of _ = none

abbrev pub quoted_of : Token → Option Text
quoted_of (str v) = some v
quoted_of _ = none

abbrev pub integer_of : Token → Option ℤ
integer_of (num n) = some (int_of n)
integer_of _ = none

abbrev pub op_of : Token → Option Text
op_of (op v) = some v
op_of _ = none

-- `value()`
unfoldable pub value_of : Token → Option Value
unfolding text_beq
value_of (num n) = some (num n)
value_of (str v) = some (str v)
value_of (kw v) =
    if text_beq v (codes "true")
    then some (bool true)
    else if text_beq v (codes "false")
    then some (bool false)
    else if text_beq v (codes "null")
    then some null
    else none
value_of (word v) = some (str v)
value_of (op v) = none

abbrev pub make_condition : Option Text → Option Text → Option Value → Option Condition
make_condition (some f) (some o) (some v) = some (record { field = f; op = o; value = v })
make_condition _ _ _ = none

abbrev pub last_condition : Option Condition → Tokens → Option (List Condition × Tokens)
last_condition none ts = none
last_condition (some c) ts = some (c ∷ [], ts)

abbrev pub cons_condition :
    Option Condition → Option (List Condition × Tokens) → Option (List Condition × Tokens)
cons_condition none more = none
cons_condition (some c) none = none
cons_condition (some c) (some (cs, ts)) = some (c ∷ cs, ts)

-- `while True` of the WHERE clause.
unfoldable pub conditions_loop : Parser (List Condition)
unfolding is_kw value_of
conditions_loop (f ∷ o ∷ v ∷ []) =
    last_condition (make_condition (name_of f) (op_of o) (value_of v)) []
conditions_loop (f ∷ o ∷ v ∷ a ∷ rest) =
    let more = conditions_loop rest in
    let c = make_condition (name_of f) (op_of o) (value_of v) in
    if is_kw "and" a then cons_condition c more else last_condition c (a ∷ rest)
conditions_loop _ = none

-- The clauses of `parse_nql`, in its order. Each reads its clause if the keyword is there.
unfoldable pub as_of_clause : Plan → Parser Plan
unfolding accept_kw expect_kw
as_of_clause p = do
  hit ← accept_kw "as"
  if hit
      then (do expect_kw "of"; n ← take_one integer_of; pure (record p { as_of = some n }))
      else pure p

unfoldable pub valid_clause : Plan → Parser Plan
unfolding accept_kw
valid_clause p = do
  hit ← accept_kw "valid"
  if hit
      then (do
        accept_kw "as"
        accept_kw "of"
        d ← take_one quoted_of
        pure (record p { valid_as_of = some d }))
      else pure p

unfoldable pub where_clause : Plan → Parser Plan
unfolding accept_kw conditions_loop
where_clause p = do
  hit ← accept_kw "where"
  if hit
      then (do cs ← conditions_loop; pure (record p { conditions = p.conditions ++ cs }))
      else pure p

-- The second place of VALID AS OF, read only if the first was not.
unfoldable pub valid_again : Option Text → Plan → Parser Plan
unfolding accept_kw accept_payload
valid_again (some d) p = pure p
valid_again none p = do
  hit ← accept_kw "valid"
  if hit
      then (do
        accept_payload "as"
        accept_payload "of"
        d ← take_one quoted_of
        pure (record p { valid_as_of = some d }))
      else pure p

unfoldable pub search_clause : Plan → Parser Plan
unfolding accept_kw
search_clause p = do
  hit ← accept_kw "search"
  if hit then (do t ← take_one quoted_of; pure (record p { search = some t })) else pure p

-- `ASC`, `DESC` or neither
unfoldable pub direction : Parser Bool
unfolding accept_kw
direction = do asc ← accept_kw "asc"; if asc then pure false else accept_kw "desc"

unfoldable pub order_clause : Plan → Parser Plan
unfolding accept_kw expect_kw direction
order_clause p = do
  hit ← accept_kw "order"
  if hit
      then (do
        expect_kw "by"
        f ← take_one name_of
        d ← direction
        pure (record p { order_by = some (record { field = f; desc = d }) }))
      else pure p

unfoldable pub traverse_clause : Plan → Parser Plan
unfolding accept_kw
traverse_clause p = do
  hit ← accept_kw "traverse"
  if hit then (do rel ← take_one name_of; pure (record p { traverse = some rel })) else pure p

unfoldable pub trace_clause : Plan → Parser Plan
unfolding accept_kw
trace_clause p = do
  hit ← accept_kw "trace"
  if hit
      then (do
        f ← take_one name_of
        back ← accept_kw "reverse"
        pure (
            if back
            then record p { trace = some f; trace_reverse = true }
            else record p { trace = some f }))
      else pure p

unfoldable pub limit_clause : Plan → Parser Plan
unfolding accept_kw
limit_clause p = do
  hit ← accept_kw "limit"
  if hit then (do n ← take_one integer_of; pure (record p { limit = some n })) else pure p

-- `agg in ("count", "sum", "avg", "min", "max")`, for a keyword
unfoldable pub fn_of : Text → Option Fn
unfolding text_beq
fn_of v =
    if text_beq v (codes "sum")
    then some sum
    else if text_beq v (codes "avg")
    then some avg
    else if text_beq v (codes "min")
    then some min
    else if text_beq v (codes "max")
    then some max
    else none

abbrev over_field : Option Fn → Token → Tokens → Option (Option Aggregate × Tokens)
over_field none t ts = some (none, t ∷ ts)
over_field (some fn) t ts = (do f ← take_one name_of; pure (some (over fn f))) ts

unfoldable pub aggregate : Parser (Option Aggregate)
unfolding fn_of
aggregate (kw v ∷ ts) =
    if text_beq v (codes "count") then some (some count, ts) else over_field (fn_of v) (kw v) ts
aggregate ts = some (none, ts)

unfoldable pub group_clause : Plan → Parser Plan
unfolding accept_kw expect_kw aggregate
group_clause p = do
  hit ← accept_kw "group"
  if hit
      then (do
        expect_kw "by"
        f ← take_one name_of
        a ← aggregate
        pure (record p { group_by = some f; aggregate = a }))
      else pure p

-- `if i != len(toks)`
abbrev pub at_end : Option (Plan × Tokens) → Option Plan
at_end none = none
at_end (some (p, [])) = some p
at_end (some (p, t ∷ ts)) = none

unfoldable pub clauses : Plan → Parser Plan
clauses p₀ = do
  p₁ ← as_of_clause p₀
  p₂ ← valid_clause p₁
  p₃ ← where_clause p₂
  p₄ ← valid_again p₃.valid_as_of p₃
  p₅ ← search_clause p₄
  p₆ ← order_clause p₅
  p₇ ← traverse_clause p₆
  p₈ ← trace_clause p₇
  p₉ ← limit_clause p₈
  group_clause p₉

-- `parse_nql`, from the tokens of the text.
unfoldable pub parse : Tokens → Option Plan
unfolding expect_kw clauses empty_plan
parse ts = at_end ((do expect_kw "from"; coll ← take_one name_of; clauses (empty_plan coll)) ts)
