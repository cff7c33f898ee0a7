-- ===== src/Relations/History.antt =====
-- What the reads of python/nedb/relations.py say after any write, at the head and in the past.
use aof_db.Prelude.{
  ℕ, ◌≡◌, sym, String, Bool, true, Option, none, List, [], ◌∷◌, ◌++◌, if◌then◌else◌, ◌==◌, ◌&&◌,
  string_eq, pair_eq, arith, lookup_list, contains, Bool-cases, inl, inr, All, append-nil, lookup,
  eq_iff,
}
use aof_db.Relations.{Relations, empty, link, unlink, neighbors, inbound}
use aof_db.Relations.Spans.{
  Span, spans, any_open, any_live, close_all, has_open-eq, contains-live, spans-close_in,
  spans-append_to, spans-nil, SpanBefore,
}

-- The spans of the edge, as the forward and as the reverse dict have them.
abbrev pub out_spans : String → String → String → Relations → List Span
out_spans frm rel to r = spans to (lookup_list (frm, rel) r.adj)

abbrev pub in_spans : String → String → String → Relations → List Span
in_spans frm rel to r = spans frm (lookup_list (to, rel) r.radj)

-- The two dicts tell the same history, and all of it is before the seq `m`.
pub record IsValid (m : ℕ) (r : Relations) : Type 0 where
  pub mirror : (frm rel to : String) → out_spans frm rel to r ≡ in_spans frm rel to r
  pub before : (frm rel to : String) → All (SpanBefore m) (out_spans frm rel to r)

pub IsValid-empty : IsValid 0 empty
unfolding lookup_list lookup
IsValid-empty = record {
  mirror = λ frm rel to. rw (spans-nil to, spans-nil frm);
  before = λ frm rel to. rw spans-nil tt;
}

pub neighbors_lem :
    (frm rel to : String) (as_of : Option ℕ) (r : Relations)
    → contains (neighbors frm rel as_of r) to ≡ any_live as_of (out_spans frm rel to r)
unfolding neighbors
neighbors_lem frm rel to as_of r = contains-live as_of to (lookup_list (frm, rel) r.adj)

pub inbound_lem :
    (frm rel to : String) (as_of : Option ℕ) (r : Relations)
    → contains (inbound to rel as_of r) frm ≡ any_live as_of (in_spans frm rel to r)
unfolding inbound
inbound_lem frm rel to as_of r = contains-live as_of frm (lookup_list (to, rel) r.radj)

-- Is the edge that is written the edge that is read?
abbrev pub same_edge : String × String × String → String × String × String → Bool
same_edge e d = (e.0 == d.0 && e.1 == d.1) && e.2 == d.2

pub same_edge_eq :
    (f r t f' r' t' : String)
    → same_edge (f, r, t) (f', r', t') ≡ true
    → (f ≡ f') × (r ≡ r') × (t ≡ t')
same_edge_eq f r t f' r' t' h = ground (arith, eq_iff f f', eq_iff r r', eq_iff t t')

module _ (frm rel to : String) (q : ℕ) (r : Relations) where
  pub out_spans-unlink :
      (f l t : String)
      → out_spans f l t (unlink frm rel to q r) ≡ (
          if same_edge (frm, rel, to) (f, l, t)
          then close_all q (out_spans f l t r)
          else out_spans f l t r)
  unfolding unlink
  out_spans-unlink f l t = spans-close_in (frm, rel) (f, l) t to q r.adj

  pub in_spans-unlink :
      (f l t : String)
      → in_spans f l t (unlink frm rel to q r) ≡ (
          if same_edge (frm, rel, to) (f, l, t)
          then close_all q (in_spans f l t r)
          else in_spans f l t r)
  unfolding unlink
  in_spans-unlink f l t = ground (arith, spans-close_in (to, rel) (t, l) f frm q r.radj)

  -- the spans that `link` adds to those of the edge `(f, l, t)`
  abbrev pub new_spans : String → String → String → List Span
  new_spans f l t =
      if any_open (out_spans frm rel to r)
      then []
      else if same_edge (frm, rel, to) (f, l, t)
      then (q, none) ∷ []
      else []

  pub out_spans-link :
      (f l t : String)
      → out_spans f l t (link frm rel to q r) ≡ out_spans f l t r ++ new_spans f l t
  unfolding link
  out_spans-link f l t = elim (Bool-cases (any_open (out_spans frm rel to r))) [
    | inl old ↦ rw (has_open-eq, old) (sym (append-nil (out_spans f l t r)))
    | inr new ↦
        rw (has_open-eq, new)
          (spans-append_to (frm, rel) (f, l) t (record { node = to; added = q; removed = none })
            r.adj)
  ]

  pub in_spans-link :
      (f l t : String) → in_spans f l t (link frm rel to q r) ≡ in_spans f l t r ++ new_spans f l t
  unfolding link
  in_spans-link f l t = elim (Bool-cases (any_open (out_spans frm rel to r))) [
    | inl old ↦ rw (has_open-eq, old) (sym (append-nil (in_spans f l t r)))
    | inr new ↦
        rw (has_open-eq, new)
          (ground (
            arith,
            spans-append_to (to, rel) (t, l) f (record { node = frm; added = q; removed = none })
                r.radj,
          ))
  ]
