-- ===== src/Sql.antt =====
-- python/nedb/sql.py: the SQL front end, from the tokens of a statement to the NQL text or to the call
-- of the database that it stands for. A text is a list of character codes, and texts are ASCII. The
-- value of a number keeps its lexeme; what `int`, `float` and `str` make of it is a parameter.
pub mod Where
pub mod Select
pub mod Writes
pub mod Print
pub mod Merge
pub mod Inserts
pub mod Updates
pub mod Deletes
mod Tests
use aof_db.Prelude.{
  ℕ, zero, suc, ◌+◌, ◌-◌, String, Bool, true, false, not, Option, none, some, List, [], ◌∷◌, ◌++◌,
  Dict, lookup, insert, length, leb, nat_beq, if◌then◌else◌, ◌&&◌, ◌||◌, or_default,
}
use aof_db.Prelude.Texts.{text_beq, text_eq, codes}

abbrev pub Text : Type 0
Text = List ℕ

-- A token of `_lex`, with its text; a string keeps its quotes and escapes.
pub data Token : Type 0 where
  string : Text → Token
  float : Text → Token
  int : Text → Token
  op : Text → Token
  star : Token
  comma : Token
  lparen : Token
  rparen : Token
  semi : Token
  word : Text → Token
  kw : Text → Token

pub data Value : Type 0 where
  null : Value
  bool : Bool → Value
  int : Text → Value
  float : Text → Value
  text : Text → Value

-- What a step of the parser does: it returns a value and the tokens left, or it raises SQLError,
-- SQLUnsupportedError, or the IndexError of `eat` at the end of the tokens.
pub data Parsed {ℓ} (A : Type ℓ) : Type ℓ where
  ok : A → List Token → Parsed A
  sql_error : Parsed A
  unsupported : Parsed A
  index_error : Parsed A

abbrev pub Parser {ℓ} : Type ℓ → Type ℓ
Parser A = List Token → Parsed A

module _ {ℓ κ} {A : Type ℓ} {B : Type κ} where
  abbrev pub follow : Parsed A → (A → Parser B) → Parsed B
  follow (ok a ts) f = f a ts
  follow sql_error f = sql_error
  follow unsupported f = unsupported
  follow index_error f = index_error

  infixl 1 ◌>>=◌ ◌>>◌
  abbrev pub ◌>>=◌ : Parser A → (A → Parser B) → Parser B
  (p >>= f) ts = follow (p ts) f

  abbrev pub ◌>>◌ : Parser A → Parser B → Parser B
  p >> q = p >>= λ _. q

abbrev pub pure {ℓ} : {A : Type ℓ} → A → Parser A
pure a ts = ok a ts

abbrev pub raise {ℓ} : {A : Type ℓ} → Parser A
raise ts = sql_error

abbrev pub raise_unsupported {ℓ} : {A : Type ℓ} → Parser A
raise_unsupported ts = unsupported

-- `str.upper` and `str.lower`
abbrev pub upper_code : ℕ → ℕ
upper_code c = if leb 97 c && leb c 122 then c - 32 else c

abbrev pub lower_code : ℕ → ℕ
lower_code c = if leb 65 c && leb c 90 then c + 32 else c

unfoldable pub upper : Text → Text
upper [] = []
upper (c ∷ cs) = upper_code c ∷ upper cs

unfoldable pub lower : Text → Text
lower [] = []
lower (c ∷ cs) = lower_code c ∷ lower cs

-- `kind == "KW" and val.upper() == k`
unfoldable pub is_kw : String → Token → Bool
unfolding upper text_beq
is_kw k (kw v) = text_beq (upper v) (codes k)
is_kw k _ = false

-- The text of a token, `tok[1]`
abbrev pub token_text : Token → Text
token_text (string v) = v
token_text (float v) = v
token_text (int v) = v
token_text (op v) = v
token_text star = codes "*"
token_text comma = codes ","
token_text lparen = codes "("
token_text rparen = codes ")"
token_text semi = codes ";"
token_text (word v) = v
token_text (kw v) = v

-- `tok[1].upper() == k`, whatever the token's kind
unfoldable pub says : String → Token → Bool
unfolding upper text_beq
says k t = text_beq (upper (token_text t)) (codes k)

-- `p.kw(k)`
unfoldable pub at_kw : String → List Token → Bool
unfolding is_kw
at_kw k [] = false
at_kw k (t ∷ ts) = is_kw k t

-- `p.eat_kw(k)`
unfoldable pub eat_kw : String → Parser (Unit {0})
unfolding is_kw
eat_kw k [] = index_error
eat_kw k (t ∷ ts) = if is_kw k t then ok tt ts else sql_error

abbrev pub is_punct : Token → Token → Bool
is_punct comma comma = true
is_punct lparen lparen = true
is_punct rparen rparen = true
is_punct star star = true
is_punct _ _ = false

-- `p.peek() and p.peek()[0] == kind`
abbrev pub at_punct : Token → List Token → Bool
at_punct p [] = false
at_punct p (t ∷ ts) = is_punct p t

-- `p.eat(kind)` of a kind with one token
abbrev pub eat_punct : Token → Parser (Unit {0})
eat_punct p [] = index_error
eat_punct p (t ∷ ts) = if is_punct p t then ok tt ts else sql_error

-- `p.eat("OP")`, `p.eat("OP", "=")` and `p.eat("INT")`
abbrev pub eat_op : Parser Text
eat_op [] = index_error
eat_op (op v ∷ ts) = ok v ts
eat_op (_ ∷ ts) = sql_error

unfoldable pub eat_equals : Parser (Unit {0})
unfolding text_beq
eat_equals [] = index_error
eat_equals (op v ∷ ts) = if text_beq v (codes "=") then ok tt ts else sql_error
eat_equals (_ ∷ ts) = sql_error

abbrev pub eat_int : Parser Text
eat_int [] = index_error
eat_int (int v ∷ ts) = ok v ts
eat_int (_ ∷ ts) = sql_error

-- `p.eat_ident()`
abbrev pub eat_ident : Parser Text
eat_ident (word v ∷ ts) = ok v ts
eat_ident (kw v ∷ ts) = ok v ts
eat_ident _ = sql_error

-- `v[1:-1]`
unfoldable pub but_last : Text → Text
but_last [] = []
but_last (c ∷ []) = []
but_last (c ∷ d ∷ cs) = c ∷ but_last (d ∷ cs)

abbrev pub inside : Text → Text
unfolding but_last
inside [] = []
inside (c ∷ cs) = but_last cs

-- `s.replace("\\" + q, q)` for a quote `q`
unfoldable pub unescape : ℕ → Text → Text
unescape q [] = []
unescape q (c ∷ []) = c ∷ []
unescape q (c ∷ d ∷ cs) =
    let skipped = unescape q cs in
    let rest = unescape q (d ∷ cs) in
    if nat_beq c b'\\' && nat_beq d q then q ∷ skipped else c ∷ rest

-- `p.eat_value()` of a keyword
unfoldable pub keyword_value : Text → Option Value
unfolding upper text_beq
keyword_value v =
    if text_beq (upper v) (codes "NULL")
    then some null
    else if text_beq (upper v) (codes "TRUE")
    then some (bool true)
    else if text_beq (upper v) (codes "FALSE")
    then some (bool false)
    else none

abbrev pub returned : Option Value → Parser Value
returned none ts = sql_error
returned (some v) ts = ok v ts

unfoldable pub eat_value : Parser Value
unfolding keyword_value inside unescape
eat_value (string v ∷ ts) = ok (text (unescape b'"' (unescape b'\'' (inside v)))) ts
eat_value (float v ∷ ts) = ok (float v) ts
eat_value (int v ∷ ts) = ok (int v) ts
eat_value (kw v ∷ ts) = returned (keyword_value v) ts
eat_value (word v ∷ ts) = ok (text v) ts
eat_value _ = sql_error

-- A condition of WHERE: a comparison, or LIKE with its pattern.
pub record Condition : Type 0 where
  pub field : Text
  pub op : Text
  pub value : Value

-- `int`, `float` and `str` of the lexeme of a number.
pub record Numbers : Type 0 where
  pub int_text : Text → Text
  pub float_text : Text → Text
  pub int_is_zero : Text → Bool
  pub float_is_zero : Text → Bool

module _ (N : Numbers) where
  -- `str(v)`
  abbrev pub str_of : Value → Text
  str_of null = codes "None"
  str_of (bool b) = if b then codes "True" else codes "False"
  str_of (int t) = N.int_text t
  str_of (float t) = N.float_text t
  str_of (text t) = t

  -- The test of a value by `or`.
  abbrev pub is_truthy : Value → Bool
  is_truthy null = false
  is_truthy (bool b) = b
  is_truthy (int t) = not (N.int_is_zero t)
  is_truthy (float t) = not (N.float_is_zero t)
  is_truthy (text []) = false
  is_truthy (text (c ∷ cs)) = true
