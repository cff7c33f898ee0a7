-- ===== src/Snapshot/Edges.antt =====
-- The relations of a snapshot of python/nedb/snapshot.py: what is saved of a graph and loaded again.
use Prim.Native.String.{◌++◌ as joined}
use text.Mathlib.TextLemmas.{cons-append, nil-append}
use aof_db.Prelude.{
  ℕ, ◌≡◌, refl, ap, sym, subst, ◌∙◌, String, true, false, Option, none, List, [], ◌∷◌, ◌++◌, Dict,
  lookup, insert, lookup_list, keys, contains, lookup_absent, All, arith, string_eq, pair_eq,
  Equality, ◌==◌, ◌&&◌, ◌||◌, append_assoc, append-nil, if◌then◌else◌, Bool-cases, ◌⊎◌, inl, inr,
  eq_iff, pair_beq_iff,
}
use aof_db.Index.Lookup.{Lacks}
use aof_db.Relations.{Relations, Edge, empty, neighbors}
use aof_db.Relations.Spans.{Span, spans, spans-append_to, any_live}
use aof_db.Relations.History.{IsValid, out_spans, in_spans, neighbors_lem}
use aof_db.Snapshot.{
  edge_key, before_bar, after_bar, save_relations, restore_edge, restore_edges, load_relations,
}
use aof_db.Snapshot.Dicts.{IsDistinct}

-- Each key is there once, and no node has a bar in its name.
pub record IsDict (r : Relations) : Type 0 where
  pub distinct : IsDistinct r.adj
  pub plain : All (λ e. Lacks 124 e.0.0) r.adj

bar_first : (t : String) → joined "|" t ≡ String.◌∷◌ "|" t
bar_first t = cons-append "|" String.[] t ∙ ap (λ s. String.◌∷◌ "|" s) (nil-append t)

before_bar-edge_key : (f l : String) → Lacks 124 f → before_bar (edge_key f l) ≡ f
unfolding before_bar
before_bar-edge_key String.[] l h = rw (nil-append (joined "|" l)) (ap before_bar (bar_first l))
before_bar-edge_key (String.◌∷◌ c s) l h =
    rw (cons-append c s (joined "|" l), h.0)
      (ap (λ t. String.◌∷◌ c t) (before_bar-edge_key s l h.1))

after_bar-edge_key : (f l : String) → Lacks 124 f → after_bar (edge_key f l) ≡ l
unfolding after_bar
after_bar-edge_key String.[] l h = rw (nil-append (joined "|" l)) (ap after_bar (bar_first l))
after_bar-edge_key (String.◌∷◌ c s) l h =
    rw (cons-append c s (joined "|" l), h.0) (after_bar-edge_key s l h.1)

-- Two keys without bars are written as different texts.
edge_key_ne :
    (f l f' l' : String)
    → Lacks 124 f
    → Lacks 124 f'
    → (f' == f && l' == l) ≡ false
    → (edge_key f l == edge_key f' l') ≡ false
edge_key_ne f l f' l' h h' ne = elim (Bool-cases (edge_key f l == edge_key f' l')) [
  | inr other ↦ other
  | inl same ↦
      let e = (eq_iff (edge_key f l) (edge_key f' l')).0 same in
      let ef : f ≡ f' =
        sym (before_bar-edge_key f l h) ∙ ap before_bar e ∙ before_bar-edge_key f' l' h' in
      let el : l ≡ l' =
        sym (after_bar-edge_key f l h) ∙ ap after_bar e ∙ after_bar-edge_key f' l' h' in
      ground (arith, eq_iff f' f, eq_iff l' l)
]

module _ {K V : Type 0} ⦃e : Equality K⦄ where
  insert-new :
      (k : K) (v : V) (m : Dict K V) → contains (keys m) k ≡ false → insert k v m ≡ m ++ (k, v) ∷ []
  unfolding insert contains
  insert-new k v [] h = refl
  insert-new k v ((j, w) ∷ m) h = ground (arith, insert-new k v m)

  contains-keys_append :
      (k j : K) (v : V) (m : Dict K V)
      → contains (keys (m ++ (k, v) ∷ [])) j ≡ (contains (keys m) j || k == j)
  unfolding contains
  contains-keys_append k j v [] = ground arith
  contains-keys_append k j v ((i, w) ∷ m) = ground (arith, contains-keys_append k j v m)

-- The dict with each key written as a text.
abbrev renamed : Dict (String × String) (List Edge) → Dict String (List Edge)
renamed [] = []
renamed (((f, l), es) ∷ m) = (edge_key f l, es) ∷ renamed m

save_relations_lem :
    (m : Dict (String × String) (List Edge)) (d : Dict String (List Edge))
    → IsDistinct m
    → All (λ e. Lacks 124 e.0.0) m
    → All (λ e. contains (keys d) (edge_key e.0.0 e.0.1) ≡ false) m
    → save_relations m d ≡ d ++ renamed m
unfolding save_relations contains
save_relations_lem [] d h p a = sym (append-nil d)
save_relations_lem (((f, l), es) ∷ m) d (new, h) (p, ps) (a, as_) =
    rw (insert-new (edge_key f l) es d a) (
      save_relations_lem m (d ++ (edge_key f l, es) ∷ []) h ps (apart m new ps as_)
      ∙ append_assoc d ((edge_key f l, es) ∷ []) (renamed m))
  where
    apart :
        (m : Dict (String × String) (List Edge))
        → contains (keys m) (f, l) ≡ false
        → All (λ e. Lacks 124 e.0.0) m
        → All (λ e. contains (keys d) (edge_key e.0.0 e.0.1) ≡ false) m
        → All (λ e. contains (keys (d ++ (edge_key f l, es) ∷ [])) (edge_key e.0.0 e.0.1) ≡ false) m
    apart [] n q b = tt
    apart (((f', l'), es') ∷ m) n (q, qs) (b, bs) =
        let (other, rest) = parts n in
        (
          contains-keys_append (edge_key f l) (edge_key f' l') es d
              ∙ rw (b, edge_key_ne f l f' l' p q other) refl,
          apart m rest qs bs,
        )
      where
        parts :
            (f' == f && l' == l || contains (keys m) (f, l)) ≡ false
            → ((f' == f && l' == l) ≡ false) × (contains (keys m) (f, l) ≡ false)
        parts e = ground arith

restore_all : Dict (String × String) (List Edge) → Relations → Relations
restore_all [] r = r
restore_all (((f, l), es) ∷ m) r = restore_all m (restore_edges f l es r)

load_relations-renamed :
    (m : Dict (String × String) (List Edge)) (r : Relations)
    → All (λ e. Lacks 124 e.0.0) m
    → load_relations (renamed m) r ≡ restore_all m r
unfolding load_relations restore_all
load_relations-renamed [] r p = refl
load_relations-renamed (((f, l), es) ∷ m) r (p, ps) =
    ap (λ a. load_relations (renamed m) (restore_edges a (after_bar (edge_key f l)) es r))
      (before_bar-edge_key f l p)
    ∙ ap (λ b. load_relations (renamed m) (restore_edges f b es r)) (after_bar-edge_key f l p)
    ∙ load_relations-renamed m (restore_edges f l es r) ps

module _ (f l t : String) where
  -- the spans that a list of edges under a key adds to those of the edge `(f, l, t)`
  abbrev added_spans : String × String → List Edge → List Span
  added_spans key es = if key == (f, l) then spans t es else []

  out_spans-restore_edge :
      (frm rel : String) (e : Edge) (r : Relations)
      → out_spans f l t (restore_edge frm rel e r)
        ≡ out_spans f l t r ++ added_spans (frm, rel) (e ∷ [])
  out_spans-restore_edge frm rel e r =
      spans-append_to (frm, rel) (f, l) t e r.adj
      ∙ ap (λ x. out_spans f l t r ++ x) (unfold spans in ground arith)

  in_spans-restore_edge :
      (frm rel : String) (e : Edge) (r : Relations)
      → in_spans f l t (restore_edge frm rel e r)
        ≡ in_spans f l t r ++ added_spans (frm, rel) (e ∷ [])
  in_spans-restore_edge frm rel e r =
      spans-append_to (e.node, rel) (t, l) f
        (record { node = frm; added = e.added; removed = e.removed }) r.radj
      ∙ ap (λ x. in_spans f l t r ++ x) (unfold spans in ground arith)

  added_spans-cons :
      (key : String × String) (e : Edge) (es : List Edge)
      → added_spans key (e ∷ []) ++ added_spans key es ≡ added_spans key (e ∷ es)
  unfolding spans
  added_spans-cons key e es = ground arith

  added_spans-nil : (key : String × String) → added_spans key [] ≡ []
  unfolding spans
  added_spans-nil key = ground arith

  -- What holds of the spans in either dict.
  module _ (held : Relations → List Span)
      (step : (frm rel : String) (e : Edge) (r : Relations)
        → held (restore_edge frm rel e r) ≡ held r ++ added_spans (frm, rel) (e ∷ [])) where
    held-restore_edges :
        (frm rel : String) (es : List Edge) (r : Relations)
        → held (restore_edges frm rel es r) ≡ held r ++ added_spans (frm, rel) es
    unfolding restore_edges spans
    held-restore_edges frm rel [] r =
        sym (ap (λ x. held r ++ x) (added_spans-nil (frm, rel)) ∙ append-nil (held r))
    held-restore_edges frm rel (e ∷ es) r =
        held-restore_edges frm rel es (restore_edge frm rel e r)
        ∙ ap (λ x. x ++ added_spans (frm, rel) es) (step frm rel e r)
        ∙ append_assoc (held r) (added_spans (frm, rel) (e ∷ [])) (added_spans (frm, rel) es)
        ∙ ap (λ x. held r ++ x) (added_spans-cons (frm, rel) e es)

    held-restore_all :
        (m : Dict (String × String) (List Edge)) (r : Relations)
        → IsDistinct m
        → held (restore_all m r) ≡ held r ++ spans t (lookup_list (f, l) m)
    unfolding restore_all lookup_list lookup spans
    held-restore_all [] r h = sym (append-nil (held r))
    held-restore_all ((key, es) ∷ m) r (new, h) =
        held-restore_all m (restore_edges key.0 key.1 es r) h
        ∙ ap (λ x. x ++ spans t (lookup_list (f, l) m)) (held-restore_edges key.0 key.1 es r)
        ∙ append_assoc (held r) (added_spans key es) (spans t (lookup_list (f, l) m))
        ∙ ap (λ x. held r ++ x) (last (Bool-cases (key == (f, l))))
      where
        last :
            (key == (f, l) ≡ true) ⊎ (key == (f, l) ≡ false)
            → added_spans key es ++ spans t (lookup_list (f, l) m)
              ≡ spans t (lookup_list (f, l) ((key, es) ∷ m))
        last (inl same) =
            let gone : lookup (f, l) m ≡ none =
              lookup_absent (f, l) m
                (subst (λ i. contains (keys m) i ≡ false)
                  ((pair_beq_iff string_eq string_eq key (f, l)).0 same) new) in
            rw (same, gone) (append-nil (spans t es))
        last (inr other) = rw other refl

no_out_spans : (f l t : String) → out_spans f l t empty ≡ []
unfolding lookup_list lookup spans
no_out_spans f l t = refl

no_in_spans : (f l t : String) → in_spans f l t empty ≡ []
unfolding lookup_list lookup spans
no_in_spans f l t = refl

module _ (r : Relations) (w : IsDict r) where
  -- The graph that is loaded is the one that is restored edge by edge.
  loaded_lem : load_relations (save_relations r.adj []) empty ≡ restore_all r.adj empty
  loaded_lem =
      ap (λ d. load_relations d empty)
        (save_relations_lem r.adj [] w.distinct w.plain (unfold contains in all_new r.adj))
      ∙ load_relations-renamed r.adj empty w.plain
    where
      all_new : (m : Dict (String × String) (List Edge)) → All (λ e. false ≡ false) m
      all_new [] = tt
      all_new (e ∷ m) = (refl, all_new m)

  out_spans-load_relations :
      (f l t : String)
      → out_spans f l t (load_relations (save_relations r.adj []) empty) ≡ out_spans f l t r
  out_spans-load_relations f l t =
      ap (out_spans f l t) loaded_lem
      ∙ held-restore_all f l t (out_spans f l t) (out_spans-restore_edge f l t) r.adj empty
          w.distinct
      ∙ ap (λ x. x ++ out_spans f l t r) (no_out_spans f l t)

  in_spans-load_relations :
      (f l t : String)
      → in_spans f l t (load_relations (save_relations r.adj []) empty) ≡ out_spans f l t r
  in_spans-load_relations f l t =
      ap (in_spans f l t) loaded_lem
      ∙ held-restore_all f l t (in_spans f l t) (in_spans-restore_edge f l t) r.adj empty w.distinct
      ∙ ap (λ x. x ++ out_spans f l t r) (no_in_spans f l t)

  pub load_relations-IsValid :
      (n : ℕ) → IsValid n r → IsValid n (load_relations (save_relations r.adj []) empty)
  load_relations-IsValid n v = record {
    mirror = λ f l t. out_spans-load_relations f l t ∙ sym (in_spans-load_relations f l t);
    before = λ f l t. rw (out_spans-load_relations f l t) (v.before f l t);
  }

  -- Every read of the graph is as it was, of the past too.
  pub neighbors-load_relations :
      (f l t : String) (as_of : Option ℕ)
      → contains (neighbors f l as_of (load_relations (save_relations r.adj []) empty)) t
        ≡ contains (neighbors f l as_of r) t
  neighbors-load_relations f l t as_of =
      neighbors_lem f l t as_of (load_relations (save_relations r.adj []) empty)
      ∙ ap (any_live as_of) (out_spans-load_relations f l t)
      ∙ sym (neighbors_lem f l t as_of r)
