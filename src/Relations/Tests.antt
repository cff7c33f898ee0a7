-- ===== src/Relations/Tests.antt =====
-- Concrete runs of the graph of python/nedb/relations.py.
use aof_db.Prelude.{◌≡◌, some, arith, contains, string_eq}
use aof_db.Relations.{Relations, empty, link, unlink, neighbors, inbound}
use aof_db.Relations.Writes.{Built, start, linked, unlinked, neighbors-inbound}

abbrev graph : Relations
graph = unlink "ana" "knows" "ben" 5 (link "ana" "knows" "ben" 2 empty)

graph-Built : Built 6 graph
graph-Built =
    unlinked "ana" "knows" "ben" 5 (omega arith) (linked "ana" "knows" "ben" 2 (omega arith) start)

neighbors-inbound_example :
    contains (neighbors "ana" "knows" (some 2) graph) "ben"
    ≡ contains (inbound "ben" "knows" (some 2) graph) "ana"
neighbors-inbound_example = neighbors-inbound 6 graph graph-Built "ana" "knows" "ben" (some 2)
