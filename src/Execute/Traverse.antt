-- ===== src/Execute/Traverse.antt =====
-- The rest of `execute` of python/nedb/engine.py: ORDER BY, TRAVERSE, LIMIT and VALID AS OF.
use aof_db.Prelude.{
  ℕ, suc, ◌-◌, String, Bool, true, false, Option, none, some, List, [], ◌∷◌, ◌++◌, if◌then◌else◌,
  string_eq, contains, length, take,
}
use aof_db.Prelude.Int.{ℤ, pos, negsuc}
use aof_db.Store as Store
use aof_db.Relations.{neighbors}
use aof_db.Index.{Values, Doc}
use aof_db.Engine.{State, Nedb}
use aof_db.Execute.Trace.{traced, trace_back, trace_forward}
use aof_db.Execute.{Comparisons, Plan, Rows, value_at, found_rows}

module _ {ℓ} {A : Type ℓ} where
  -- `rows[:limit]`
  unfoldable pub slice : ℤ → List A → List A
  slice (pos n) xs = take n xs
  slice (negsuc n) xs = take (length xs - suc n) xs

module _ {F : Type 0} {V : Values F} (K : Comparisons V) where
  abbrev pub in_order : Option (String × Bool) → Rows K → Rows K
  in_order none rows = rows
  in_order (some (field, desc)) rows = K.sort field desc rows

  abbrev cons_row : String → Option (Doc V) → Rows K → Rows K
  cons_row key none rest = rest
  cons_row key (some doc) rest = (key, doc) ∷ rest

  -- The neighbours of a row that are not seen before, with the keys seen after them.
  unfoldable pub visit : State V → Option ℕ → List String → List String → Rows K × List String
  visit s as_of [] seen = ([], seen)
  visit s as_of (nb ∷ nbs) seen =
      let skipped = visit s as_of nbs seen in
      let (rest, after) = visit s as_of nbs (nb ∷ seen) in
      if contains seen nb then skipped else (cons_row nb (Store.get nb as_of s.store) rest, after)

  unfoldable pub traverse_loop : State V → Option ℕ → String → Rows K → List String → Rows K
  unfolding visit
  traverse_loop s as_of rel [] seen = []
  traverse_loop s as_of rel ((key, doc) ∷ rows) seen =
      let (found, after) = visit s as_of (neighbors key rel as_of s.relations) seen in
      found ++ traverse_loop s as_of rel rows after

  abbrev pub traversed : State V → Option ℕ → Option String → Rows K → Rows K
  traversed s as_of none rows = rows
  traversed s as_of (some rel) rows = traverse_loop s as_of rel rows []

  abbrev pub limited : Option ℤ → Rows K → Rows K
  limited none rows = rows
  limited (some n) rows = slice n rows

  -- `_valid_at`; none is a TypeError of a comparison.
  abbrev after_from : Option Bool → Option Bool → Option Bool
  after_from none upto = none
  after_from (some true) upto = some false
  after_from (some false) none = none
  after_from (some false) (some true) = some false
  after_from (some false) (some false) = some true

  abbrev unless_null : V.Value → Option Bool → Option Bool
  unless_null v found = if V.equal.same v K.null then some false else found

  unfoldable pub valid_at : Doc V → String → Option Bool
  valid_at doc date =
      let vf = value_at K "_valid_from" doc in
      let vt = value_at K "_valid_to" doc in
      after_from (unless_null vf (K.lt (V.of_text date) vf))
        (unless_null vt (K.gt (V.of_text date) vt))

  abbrev keep_valid : String × Doc V → Option Bool → Option (Rows K) → Option (Rows K)
  keep_valid row none rest = none
  keep_valid row (some b) none = none
  keep_valid row (some b) (some rest) = some (if b then row ∷ rest else rest)

  unfoldable pub valid_rows : String → Rows K → Option (Rows K)
  unfolding valid_at
  valid_rows date [] = some []
  valid_rows date ((key, doc) ∷ rows) =
      keep_valid (key, doc) (valid_at doc date) (valid_rows date rows)

  -- `if valid_date:`
  abbrev pub validated : Option String → Rows K → Option (Rows K)
  validated none rows = some rows
  validated (some String.[]) rows = some rows
  validated (some (String.◌∷◌ c s)) rows = valid_rows (String.◌∷◌ c s) rows

  -- What `execute` does with the rows that it found.
  unfoldable pub after_found : Nedb V → Plan K → Option (Rows K) → Option (Rows K)
  unfolding traverse_loop trace_back trace_forward slice valid_rows
  after_found db p none = none
  after_found db p (some rows) =
      let s = db.state in
      let found = in_order p.order_by rows in
      let walked = traversed s p.as_of p.traverse found in
      let followed = traced K s db.log.ops p.coll p.as_of p.trace p.trace_reverse walked in
      validated p.valid_as_of (limited p.limit followed)

  -- The rows of a plan, before GROUP BY.
  unfoldable pub execute : Nedb V → Plan K → Option (Rows K)
  unfolding found_rows after_found
  execute db p = after_found db p (found_rows K db.state p)
