-- ===== src/Relations.antt =====
-- python/nedb/relations.py: the graph of relations, as two adjacency dicts, forward and reverse.
-- The source keeps an edge as the list `[node, added_seq, removed_seq|None]`, one list object in
-- each dict, which it closes in place. The proofs stand in the modules below.
pub mod Spans
pub mod History
pub mod Writes
mod Tests
use aof_db.Prelude.{
  ℕ, String, Bool, true, false, Option, none, some, List, [], ◌∷◌, Dict, lookup, insert,
  lookup_list, append_to, map, leb, ltb, if◌then◌else◌, ◌==◌, ◌&&◌, ◌||◌, string_eq, pair_eq,
}

pub record Edge : Type 0 where
  pub node : String
  pub added : ℕ
  pub removed : Option ℕ

-- `e[2] is None`
abbrev pub is_open : Option ℕ → Bool
is_open none = true
is_open (some q) = false

pub record Relations : Type 0 where
  pub adj : Dict (String × String) (List Edge)
  pub radj : Dict (String × String) (List Edge)

abbrev pub empty : Relations
empty = record { adj = []; radj = [] }

-- The loop of `link`: is there an open edge to the node?
unfoldable pub has_open : String → List Edge → Bool
has_open to [] = false
has_open to (e ∷ es) = e.node == to && is_open e.removed || has_open to es

unfoldable pub link : String → String → String → ℕ → Relations → Relations
unfolding has_open
link frm rel to seq r = if has_open to (lookup_list (frm, rel) r.adj) then r else record {
  adj = append_to (frm, rel) (record { node = to; added = seq; removed = none }) r.adj;
  radj = append_to (to, rel) (record { node = frm; added = seq; removed = none }) r.radj;
}

-- `if e[0] == to and e[2] is None: e[2] = seq`
pub close_edge : String → ℕ → Edge → Edge
close_edge to seq e =
    if e.node == to && is_open e.removed then record e { removed = some seq } else e

-- One loop of `unlink`: the edges of the key's list are written in place.
unfoldable pub close_in :
    String × String
    → String
    → ℕ
    → Dict (String × String) (List Edge)
    → Dict (String × String) (List Edge)
unfolding close_edge
close_in key node seq m = elim (lookup key m) [
  | none ↦ m
  | some es ↦ insert key (map (close_edge node seq) es) m
]

unfoldable pub unlink : String → String → String → ℕ → Relations → Relations
unfolding close_in
unlink frm rel to seq r = record {
  adj = close_in (frm, rel) to seq r.adj;
  radj = close_in (to, rel) frm seq r.radj;
}

-- `removed is None or removed > as_of`
abbrev pub outlives : Option ℕ → ℕ → Bool
outlives none n = true
outlives (some q) n = ltb n q

abbrev pub is_live : Option ℕ → ℕ → Option ℕ → Bool
is_live none added removed = is_open removed
is_live (some n) added removed = leb added n && outlives removed n

-- `_live`
unfoldable pub live : Option ℕ → List Edge → List String
live as_of [] = []
live as_of (e ∷ es) =
    let rest = live as_of es in if is_live as_of e.added e.removed then e.node ∷ rest else rest

unfoldable pub neighbors : String → String → Option ℕ → Relations → List String
unfolding live
neighbors frm rel as_of r = live as_of (lookup_list (frm, rel) r.adj)

unfoldable pub inbound : String → String → Option ℕ → Relations → List String
unfolding live
inbound to rel as_of r = live as_of (lookup_list (to, rel) r.radj)
