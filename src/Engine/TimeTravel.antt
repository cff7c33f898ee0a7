-- ===== src/Engine/TimeTravel.antt =====
-- Time travel of python/nedb/engine.py: the state as of a seq is the log truncated there.
use aof_db.Prelude.{
  ℕ, suc, ◌≡◌, ◌≤◌, ◌<◌, refl, ap, subst, String, Bool, true, false, Option, none, some, All-weaken,
  insert, lookup_list, some-eq, arith, sees, ◌==◌, ◌&&◌, string_eq, if◌then◌else◌, contains,
}
use aof_db.Store as Store
use aof_db.Store.{MvccStore}
use aof_db.Store.Invariant as Stored
use aof_db.Store.TimeTravel.{get-put, get-delete}
use aof_db.Relations.{Relations, neighbors}
use aof_db.Relations as Graph
use aof_db.Relations.History as Edges
use aof_db.Relations.History.{same_edge}
use aof_db.Relations.Spans.{SpanBefore, SpanBefore-mono}
use aof_db.Relations.Writes.{neighbors-link, neighbors-unlink, link-IsValid, unlink-IsValid}
use aof_db.Index.{Values, Doc, Indexes}
use aof_db.Engine.{Payload, put, delete, link, unlink, put_file, State, apply_payload, with_indexes}

pub store_mono :
    {D : Type 0} (m n : ℕ) (s : MvccStore D) → m ≤ n → Stored.IsValid m s → Stored.IsValid n s
store_mono m n s h v = record {
  parallel = v.parallel;
  sorted = v.sorted;
  bounded = λ k. All-weaken (λ q. q < m) (lookup_list k s.seqs) (λ q l. omega arith) (v.bounded k);
}

pub graph_mono : (m n : ℕ) (r : Relations) → m ≤ n → Edges.IsValid m r → Edges.IsValid n r
graph_mono m n r h v = record {
  mirror = v.mirror;
  before = λ f l t. All-weaken (SpanBefore m) _ (SpanBefore-mono m n h) (v.before f l t);
}

-- A step at seq `q` keeps a part of the state well formed, and its reads before `q`, and where a
-- read of the old state as of a later seq is the one at the head, so it is of the new.
pub record Steps {S R A : Type 0} (valid : ℕ → S → Type 0) (look : R → Option ℕ → S → A) (q : ℕ)
    (s t : S) : Type 0 where
  pub keeps : valid (suc q) t
  pub past : (k : R) (n : ℕ) → n < q → look k (some n) t ≡ look k (some n) s
  pub present :
      (n : ℕ)
      → q ≤ n
      → ((k : R) → look k (some n) s ≡ look k none s)
      → (k : R) → look k (some n) t ≡ look k none t

-- A step whose reads of some keys from `q` on are one value.
Steps-of :
    {S R A : Type 0} (valid : ℕ → S → Type 0) (look : R → Option ℕ → S → A) (q : ℕ) (s t : S)
    (touched : R → Bool) (a : A)
    → valid (suc q) t
    → ((k : R) (as_of : Option ℕ)
        → look k as_of t ≡ (if touched k && sees as_of q then a else look k as_of s))
    → Steps valid look q s t
Steps-of valid look q s t touched a v e = record {
  keeps = v;
  past = λ k n h. rw (e k (some n)) (ground arith);
  present = λ n h old k. rw (e k (some n), e k none) (ground (arith, old k));
}

abbrev edge_read : String × String × String → Option ℕ → Relations → Bool
edge_read e as_of r = contains (neighbors e.0 e.1 as_of r) e.2

module _ {F : Type 0} (V : Values F) where
  abbrev doc_read : String → Option ℕ → MvccStore (Doc V) → Option (Doc V)
  doc_read k as_of s = Store.get k as_of s

  abbrev StoreSteps : ℕ → MvccStore (Doc V) → MvccStore (Doc V) → Type 0
  StoreSteps q s t = Steps Stored.IsValid doc_read q s t

  abbrev GraphSteps : ℕ → Relations → Relations → Type 0
  GraphSteps q r r' = Steps Edges.IsValid edge_read q r r'

  store_still : (q : ℕ) (s : MvccStore (Doc V)) → Stored.IsValid q s → StoreSteps q s s
  store_still q s v =
      Steps-of Stored.IsValid doc_read q s s (λ k. false) none
        (store_mono q (suc q) s (omega arith) v) (λ k n. refl)

  graph_still : (q : ℕ) (r : Relations) → Edges.IsValid q r → GraphSteps q r r
  graph_still q r v =
      Steps-of Edges.IsValid edge_read q r r (λ k. false) false
        (graph_mono q (suc q) r (omega arith) v) (λ k n. refl)

  put-steps :
      (q : ℕ) (key : String) (doc : Doc V) (s : MvccStore (Doc V))
      → Stored.IsValid q s
      → StoreSteps q s (Store.put key doc q s)
  put-steps q key doc s v =
      Steps-of Stored.IsValid doc_read q s (Store.put key doc q s) (λ k. key == k) (some doc)
        (unfold Store.put in
          Stored.write-IsValid key (Store.live doc) q q (suc q) s (omega arith) (omega arith) v)
        (λ k n. get-put s q q v (omega arith) key k doc n)

  delete-steps :
      (q : ℕ) (key : String) (s : MvccStore (Doc V))
      → Stored.IsValid q s
      → StoreSteps q s (Store.delete key q s)
  delete-steps q key s v =
      Steps-of Stored.IsValid doc_read q s (Store.delete key q s) (λ k. key == k) none
        (unfold Store.delete in
          Stored.write-IsValid key Store.tomb q q (suc q) s (omega arith) (omega arith) v)
        (λ k n. get-delete s q q v (omega arith) key k n)

  link-steps :
      (q : ℕ) (frm rel to : String) (r : Relations)
      → Edges.IsValid q r
      → GraphSteps q r (Graph.link frm rel to q r)
  link-steps q frm rel to r v =
      Steps-of Edges.IsValid edge_read q r (Graph.link frm rel to q r) (same_edge (frm, rel, to))
        true (link-IsValid frm rel to q q r v (omega arith))
        (λ (f, l, t) n. neighbors-link frm rel to q q r v (omega arith) f l t n)

  unlink-steps :
      (q : ℕ) (frm rel to : String) (r : Relations)
      → Edges.IsValid q r
      → GraphSteps q r (Graph.unlink frm rel to q r)
  unlink-steps q frm rel to r v =
      Steps-of Edges.IsValid edge_read q r (Graph.unlink frm rel to q r) (same_edge (frm, rel, to))
        false (unlink-IsValid frm rel to q q r v (omega arith))
        (λ (f, l, t) n. neighbors-unlink frm rel to q q r v (omega arith) f l t n)

  pub record OpSteps (q : ℕ) (s t : State V) : Type 0 where
    pub docs : StoreSteps q s.store t.store
    pub edges : GraphSteps q s.relations t.relations

  pub with_indexes_inv :
      (ix : Option (Indexes V)) (s t : State V)
      → with_indexes V ix s ≡ some t
      → (s.store ≡ t.store) × (s.relations ≡ t.relations)
  with_indexes_inv none s t e = cc e
  with_indexes_inv (some ix) s t e =
      let same : record s { indexes = ix } ≡ t = cc e in
      (ap (λ u. u.store) same, ap (λ u. u.relations) same)

  pub apply_payload-steps :
      (p : Payload V) (q : ℕ) (s t : State V)
      → Stored.IsValid q s.store
      → Edges.IsValid q s.relations
      → apply_payload V p q s ≡ some t
      → OpSteps q s t
  unfolding apply_payload
  apply_payload-steps (put key coll id doc) q s t v g e =
      let (es, er) = with_indexes_inv _ _ t e in
      record {
        docs =
            subst (StoreSteps q s.store) es
              (put-steps q key (insert "_seq" (V.of_seq q) doc) s.store v);
        edges = subst (GraphSteps q s.relations) er (graph_still q s.relations g);
      }
  apply_payload-steps (delete key coll id) q s t v g e =
      let (es, er) = with_indexes_inv _ _ t e in
      record {
        docs = subst (StoreSteps q s.store) es (delete-steps q key s.store v);
        edges = subst (GraphSteps q s.relations) er (graph_still q s.relations g);
      }
  apply_payload-steps (link frm rel to) q s t v g e =
      subst (OpSteps q s) (some-eq e)
        (record { docs = store_still q s.store v; edges = link-steps q frm rel to s.relations g })
  apply_payload-steps (unlink frm rel to) q s t v g e =
      subst (OpSteps q s) (some-eq e)
        (record { docs = store_still q s.store v; edges = unlink-steps q frm rel to s.relations g })
  apply_payload-steps (put_file name tier version root) q s t v g e =
      subst (OpSteps q s) (some-eq e)
        (record { docs = store_still q s.store v; edges = graph_still q s.relations g })
