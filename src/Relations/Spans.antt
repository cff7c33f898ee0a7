-- ===== src/Relations/Spans.antt =====
-- The edges of python/nedb/relations.py between two nodes, as the list of the spans of seqs over
-- which they were in force.
use aof_db.Prelude.{
  ℕ, String, ◌≡◌, refl, Bool, true, false, Option, none, some, List, [], ◌∷◌, ◌++◌, map,
  if◌then◌else◌, ◌==◌, ◌&&◌, ◌||◌, string_eq, pair_eq, arith, Dict, lookup, insert, lookup_list,
  lookup-insert, append_to, lookup_list-append_to, contains, Option-cases, eq_iff, pair_beq_iff,
  append-nil, sym, All, sees, suc, ◌<◌, ◌≤◌, Bool-cases, inl, inr,
}
use aof_db.Relations.{Edge, is_open, has_open, close_edge, close_in, is_live, live}

abbrev pub Span : Type 0
Span = ℕ × Option ℕ

unfoldable pub spans : String → List Edge → List Span
spans t [] = []
spans t (e ∷ es) =
    let rest = spans t es in if e.node == t then (e.added, e.removed) ∷ rest else rest

pub any_open : List Span → Bool
any_open [] = false
any_open ((a, r) ∷ l) = is_open r || any_open l

pub any_live : Option ℕ → List Span → Bool
any_live as_of [] = false
any_live as_of ((a, r) ∷ l) = is_live as_of a r || any_live as_of l

abbrev close_span : ℕ → Span → Span
close_span q (a, none) = (a, some q)
close_span q (a, some r) = (a, some r)

pub close_all : ℕ → List Span → List Span
close_all q [] = []
close_all q (p ∷ l) = close_span q p ∷ close_all q l

pub has_open-eq : (t : String) (es : List Edge) → has_open t es ≡ any_open (spans t es)
unfolding has_open spans any_open
has_open-eq t [] = refl
has_open-eq t (e ∷ es) = ground (arith, has_open-eq t es)

pub contains-live :
    (as_of : Option ℕ) (t : String) (es : List Edge)
    → contains (live as_of es) t ≡ any_live as_of (spans t es)
unfolding live contains spans any_live
contains-live as_of t [] = refl
contains-live as_of t (e ∷ es) = elim (Bool-cases (is_live as_of e.added e.removed)) [
  | inl on ↦ rw on (ground (arith, contains-live as_of t es))
  | inr off ↦ rw off (ground (arith, contains-live as_of t es))
]

pub spans-append :
    (t : String) (es : List Edge) (e : Edge)
    → spans t (es ++ e ∷ []) ≡ spans t es ++ (if e.node == t then (e.added, e.removed) ∷ [] else [])
unfolding spans
spans-append t [] e = ground arith
spans-append t (d ∷ es) e = ground (arith, spans-append t es e)

pub spans-close :
    (t u : String) (q : ℕ) (es : List Edge)
    → spans t (map (close_edge u q) es) ≡ (if u == t then close_all q (spans t es) else spans t es)
unfolding spans close_edge close_all
spans-close t u q [] = ground arith
spans-close t u q (e ∷ es) =
    ground (arith, spans-close t u q es, eq_iff u t, eq_iff e.node u, eq_iff e.node t)

module _ (key : String × String) (u : String) (q : ℕ) (m : Dict (String × String) (List Edge)) where
  close_in-none : lookup key m ≡ none → close_in key u q m ≡ m
  unfolding close_in
  close_in-none h = rw (h, close_in)

  close_in-some :
      (es : List Edge)
      → lookup key m ≡ some es
      → close_in key u q m ≡ insert key (map (close_edge u q) es) m
  unfolding close_in
  close_in-some es h = rw (h, close_in)

lookup_list-close_in :
    (key j : String × String) (u : String) (q : ℕ) (m : Dict (String × String) (List Edge))
    → lookup_list j (close_in key u q m)
      ≡ (if key == j then map (close_edge u q) (lookup_list j m) else lookup_list j m)
unfolding lookup_list
lookup_list-close_in key j u q m = elim (Option-cases (lookup key m)) [
  | inl absent ↦
      rw (close_in-none key u q m absent)
        (ground (arith, absent, pair_beq_iff string_eq string_eq key j))
  | inr (es, found) ↦
      rw (close_in-some key u q m es found, lookup-insert)
        (ground (arith, found, pair_beq_iff string_eq string_eq key j))
]

pub spans-close_in :
    (key j : String × String) (t u : String) (q : ℕ) (m : Dict (String × String) (List Edge))
    → spans t (lookup_list j (close_in key u q m)) ≡ (
        if key == j && u == t
        then close_all q (spans t (lookup_list j m))
        else spans t (lookup_list j m))
spans-close_in key j t u q m = elim (Bool-cases (key == j)) [
  | inl same ↦ rw (lookup_list-close_in, same) (spans-close t u q (lookup_list j m))
  | inr other ↦ rw (lookup_list-close_in, other)
]

pub spans-append_to :
    (key j : String × String) (t : String) (e : Edge) (m : Dict (String × String) (List Edge))
    → spans t (lookup_list j (append_to key e m))
      ≡ spans t (lookup_list j m)
        ++ (if key == j && e.node == t then (e.added, e.removed) ∷ [] else [])
spans-append_to key j t e m = elim (Bool-cases (key == j)) [
  | inl same ↦
      let k : key ≡ j = (pair_beq_iff string_eq string_eq key j).0 same in
      rw (lookup_list-append_to, same, k) (spans-append t (lookup_list j m) e)
  | inr other ↦ rw (lookup_list-append_to, other) (sym (append-nil (spans t (lookup_list j m))))
]

abbrev pub ClosedBefore : ℕ → Option ℕ → Type 0
ClosedBefore m none = Unit
ClosedBefore m (some q) = q < m

abbrev pub SpanBefore : ℕ → Span → Type 0
SpanBefore m (a, r) = (a < m) × ClosedBefore m r

pub any_live-append :
    (as_of : Option ℕ) (q : ℕ) (l : List Span)
    → any_live as_of (l ++ (q, none) ∷ []) ≡ (any_live as_of l || sees as_of q)
unfolding any_live
any_live-append none q [] = refl
any_live-append (some n) q [] = ground arith
any_live-append as_of q (p ∷ l) = ground (arith, any_live-append as_of q l)

pub any_live-close_all :
    (as_of : Option ℕ) (q : ℕ) (l : List Span)
    → All (SpanBefore q) l
    → any_live as_of (close_all q l) ≡ (if sees as_of q then false else any_live as_of l)
unfolding any_live close_all
any_live-close_all none q [] h = refl
any_live-close_all (some n) q [] h = ground arith
any_live-close_all none q ((a, r) ∷ l) h = ground (arith, any_live-close_all none q l h.1)
any_live-close_all (some n) q ((a, none) ∷ l) h =
    ground (arith, any_live-close_all (some n) q l h.1)
any_live-close_all (some n) q ((a, some b) ∷ l) h =
    ground (arith, any_live-close_all (some n) q l h.1)

pub any_live_of_open :
    (as_of : Option ℕ) (q : ℕ) (l : List Span)
    → All (SpanBefore q) l
    → any_open l ≡ true
    → sees as_of q ≡ true
    → any_live as_of l ≡ true
unfolding any_live any_open
any_live_of_open as_of q [] h o s = cc
any_live_of_open none q ((a, r) ∷ l) h o s = ground (arith, any_live_of_open none q l h.1)
any_live_of_open (some n) q ((a, none) ∷ l) h o s = ground (arith)
any_live_of_open (some n) q ((a, some b) ∷ l) h o s =
    ground (arith, any_live_of_open (some n) q l h.1)

pub All-close_all :
    (q : ℕ) (l : List Span) → All (SpanBefore q) l → All (SpanBefore (suc q)) (close_all q l)
unfolding close_all
All-close_all q [] h = tt
All-close_all q ((a, none) ∷ l) h = ((omega arith, omega arith), All-close_all q l h.1)
All-close_all q ((a, some b) ∷ l) h = ((omega arith, omega arith), All-close_all q l h.1)

pub SpanBefore-mono : (m n : ℕ) → m ≤ n → (p : Span) → SpanBefore m p → SpanBefore n p
SpanBefore-mono m n h (a, none) k = (omega arith, tt)
SpanBefore-mono m n h (a, some b) k = (omega arith, omega arith)

pub spans-nil : (t : String) → spans t [] ≡ []
unfolding spans
spans-nil t = refl
