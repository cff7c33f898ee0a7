-- ===== src/Execute.antt =====
-- `execute` of python/nedb/engine.py, from a plan to the rows. A set is a list
-- without repeats, and is iterated in the order of the list. A read of the past is as of a seq that
-- is not negative. none is a TypeError.
pub mod Trace
pub mod Traverse
pub mod Groups
pub mod Listing
pub mod Reach
pub mod Scan
pub mod Found
mod Tests
use Prim.Native.String.{◌++◌ as joined}
use aof_db.Prelude.{
  ℕ, zero, suc, ◌-◌, String, Bool, true, false, not, Option, none, some, List, [], ◌∷◌, ◌++◌,
  lookup, or_default, if◌then◌else◌, ◌==◌, ◌&&◌, string_eq, contains, length,
}
use aof_db.Prelude.Int.{ℤ, pos, negsuc}
use aof_db.Store as Store
use aof_db.Store.{MvccStore, keys_of}
use aof_db.Index.{
  Values, Doc, Indexes, set_add, tokenize, eq_lookup, has_eq, search_lookup, search_fields,
}
use aof_db.Engine.{State}

-- What `execute` does with the values of documents, beside what an index does: None, `<`, `<=`, `>`
-- and `>=`, of which none is a TypeError, the text of a document, and `rows.sort` by a field.
pub record Comparisons {F : Type 0} (V : Values F) : Type 0 where
  pub null : V.Value
  pub lt : V.Value → V.Value → Option Bool
  pub le : V.Value → V.Value → Option Bool
  pub gt : V.Value → V.Value → Option Bool
  pub ge : V.Value → V.Value → Option Bool
  -- `t in " ".join(str(x) for x in doc.values()).lower()`
  pub text_has : Doc V → List ℕ → Bool
  pub sort : String → Bool → List (String × Doc V) → List (String × Doc V)
  -- `doc.get("_caused_by") or []`
  pub causes_of : Doc V → List ℕ
  -- `f"{v}"`
  pub text_of_id : V.Value → String

abbrev or_false : Option Bool → Bool
or_false none = false
or_false (some b) = b

-- `s |= ids`
unfoldable pub add_all : List String → List String → List String
unfolding set_add
add_all [] s = s
add_all (x ∷ ids) s = add_all ids (set_add x s)

unfoldable pub intersect : List String → List String → List String
intersect [] t = []
intersect (x ∷ s) t = let rest = intersect s t in if contains t x then x ∷ rest else rest

-- `if search:`
abbrev pub search_text : Option (List ℕ) → List ℕ
search_text none = []
search_text (some t) = t

-- `coll + ":"`
abbrev pub prefix_of : String → String
prefix_of coll = joined coll ":"

abbrev pub head_only : Option ℕ → Option (Option (List String)) → Option (Option (List String))
head_only none found = found
head_only (some n) found = none

abbrev pub first_of :
    Option (List String) → Option (Option (List String)) → List String → Option (List String)
first_of (some found) rest last = some found
first_of none (some looked) last = looked
first_of none none last = some last

module _ {F : Type 0} {V : Values F} (K : Comparisons V) where
  pub record Condition : Type 0 where
    pub field : String
    pub op : String
    pub value : V.Value

  -- The entries of a plan that `execute` reads before GROUP BY.
  pub record Plan : Type 0 where
    pub coll : String
    pub as_of : Option ℕ
    pub conditions : List Condition
    pub search : Option (List ℕ)
    pub order_by : Option (String × Bool)
    pub traverse : Option String
    pub trace : Option String
    pub trace_reverse : Bool
    pub limit : Option ℤ
    pub valid_as_of : Option String

  -- `doc.get(f)`
  abbrev pub value_at : String → Doc V → V.Value
  value_at f doc = or_default K.null (lookup f doc)

  abbrev is_null : V.Value → Bool
  is_null v = V.equal.same v K.null

  unfoldable pub cmp : V.Value → String → V.Value → Bool
  cmp a op b =
      if op == "="
      then V.equal.same a b
      else if op == "!="
      then not (V.equal.same a b)
      else if is_null a
      then false
      else if op == "<"
      then or_false (K.lt a b)
      else if op == "<="
      then or_false (K.le a b)
      else if op == ">"
      then or_false (K.gt a b)
      else if op == ">="
      then or_false (K.ge a b)
      else false

  -- `all(cmp(doc.get(f), op, v) for (f, op, v) in where)`
  unfoldable pub matches : List Condition → Doc V → Bool
  unfolding cmp
  matches [] doc = true
  matches (c ∷ cs) doc = cmp (value_at c.field doc) c.op c.value && matches cs doc

  -- The keys that have a term in one of the fields.
  unfoldable pub with_term : Indexes V → String → List ℕ → List String → List String → List String
  unfolding add_all
  with_term ix coll term [] s = s
  with_term ix coll term (f ∷ fields) s =
      with_term ix coll term fields (add_all (search_lookup V coll f term ix) s)

  -- `set.intersection(*per_term) if per_term else set()`
  unfoldable pub with_terms : Indexes V → String → List String → List (List ℕ) → List String
  unfolding with_term intersect
  with_terms ix coll fields [] = []
  with_terms ix coll fields (t ∷ []) = with_term ix coll t fields []
  with_terms ix coll fields (t ∷ u ∷ ts) =
      intersect (with_term ix coll t fields []) (with_terms ix coll fields (u ∷ ts))

  abbrev searched : Indexes V → String → List String → List ℕ → Option (List String)
  searched ix coll fields [] = none
  searched ix coll [] (c ∷ cs) = none
  searched ix coll (f ∷ fields) (c ∷ cs) =
      some (with_terms ix coll (f ∷ fields) (tokenize (c ∷ cs)))

  -- 1) full-text search
  unfoldable pub by_search : Indexes V → Plan → Option (List String)
  unfolding with_terms
  by_search ix p = searched ix p.coll (search_fields V p.coll ix) (search_text p.search)

  -- 2) the first equality with an index, if there is one: what it finds, or none for the TypeError of
  -- a value that cannot be hashed
  unfoldable pub by_equality : Indexes V → String → List Condition → Option (Option (List String))
  unfolding eq_lookup
  by_equality ix coll [] = none
  by_equality ix coll (c ∷ cs) =
      let rest = by_equality ix coll cs in
      if c.op == "=" && has_eq V coll c.field ix
      then some (eq_lookup V coll c.field c.value ix)
      else rest

  -- 3) the scan of the collection
  unfoldable pub scan : MvccStore (Doc V) → Plan → List String
  scan s p = keys_of (prefix_of p.coll) p.as_of s

  unfoldable pub candidates : State V → Plan → Option (List String)
  unfolding by_search by_equality scan
  candidates s p =
      first_of (by_search s.indexes p)
        (head_only p.as_of (by_equality s.indexes p.coll p.conditions)) (scan s.store p)

  unfoldable pub has_terms : Doc V → List (List ℕ) → Bool
  has_terms doc [] = true
  has_terms doc (t ∷ ts) = K.text_has doc t && has_terms doc ts

  -- The test of the text where no field has a full-text index.
  abbrev pub unsearched : List ℕ → List String → Doc V → Bool
  unsearched [] fields doc = true
  unsearched (c ∷ cs) [] doc = has_terms doc (tokenize (c ∷ cs))
  unsearched (c ∷ cs) (f ∷ fields) doc = true

  unfoldable pub accepts : Indexes V → Plan → Doc V → Bool
  unfolding matches has_terms
  accepts ix p doc =
      matches p.conditions doc && unsearched (search_text p.search) (search_fields V p.coll ix) doc

  abbrev pub Rows : Type 0
  Rows = List (String × Doc V)

  abbrev pub row_if : (Doc V → Bool) → String → Option (Doc V) → Rows → Rows
  row_if test key none rest = rest
  row_if test key (some doc) rest = if test doc then (key, doc) ∷ rest else rest

  -- The loop that loads the candidates and tests them.
  unfoldable pub load_rows : (Doc V → Bool) → Option ℕ → MvccStore (Doc V) → List String → Rows
  load_rows test as_of s [] = []
  load_rows test as_of s (key ∷ keys) =
      row_if test key (Store.get key as_of s) (load_rows test as_of s keys)

  abbrev pub loaded :
      (Doc V → Bool) → Option ℕ → MvccStore (Doc V) → Option (List String) → Option Rows
  loaded test as_of s none = none
  loaded test as_of s (some ids) = some (load_rows test as_of s ids)

  unfoldable pub found_rows : State V → Plan → Option Rows
  unfolding candidates accepts load_rows
  found_rows s p = loaded (accepts s.indexes p) p.as_of s.store (candidates s p)
