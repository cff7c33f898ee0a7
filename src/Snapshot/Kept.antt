-- ===== src/Snapshot/Kept.antt =====
-- The dicts of the store and of the graph of python/nedb/snapshot.py: each key is there once, every
-- chain of versions has a last one, and no node with a bar in its name has edges. Every op keeps that.
use aof_db.Prelude.{
  ℕ, ◌≡◌, subst, String, some, List, [], ◌∷◌, ◌++◌, Dict, lookup, insert, lookup_list, append_to,
  get_last?-append, All, string_eq, pair_eq, ◌==◌, Option-cases, Bool-cases, inl, inr, pair_beq_iff,
  some-eq,
}
use aof_db.Index.{Values, Indexes}
use aof_db.Index.Lookup.{Lacks}
use aof_db.Store.{MvccStore, Version, write}
use aof_db.Store as Store
use aof_db.Relations.{Relations, Edge, link, unlink, has_open, close_in}
use aof_db.Relations as Graph
use aof_db.Log.{Op}
use aof_db.Engine.{Payload, State, apply_payload, apply_op, replay, fresh}
use aof_db.Engine as Engine
use aof_db.Engine.TimeTravel.{with_indexes_inv}
use aof_db.Engine.Recovery.{replay-none}
use aof_db.Snapshot.Dicts.{insert-IsDistinct, insert-All}
use aof_db.Snapshot.Documents.{HasLast}
use aof_db.Snapshot.Documents as Documents
use aof_db.Snapshot.Edges as Edges

module _ {ℓ} {D : Type ℓ} where
  pub documents_empty : Documents.IsDict (Store.empty {V = D})
  documents_empty = record { distinct = tt; written = tt }

  pub write-IsDict :
      (k : String) (v : Version D) (q : ℕ) (s : MvccStore D)
      → Documents.IsDict s
      → Documents.IsDict (write k v q s)
  unfolding write append_to
  write-IsDict k v q s w =
      let c = lookup_list k s.versions ++ (q, v) ∷ [] in
      record {
        distinct = insert-IsDistinct k c s.versions w.distinct;
        written =
            insert-All (λ e. HasLast e.1) k c s.versions
              ((q, v), get_last?-append (lookup_list k s.versions) (q, v)) w.written;
      }

pub edges_empty : Edges.IsDict Graph.empty
edges_empty = record { distinct = tt; plain = tt }

insert-IsDict :
    (f l : String) (es : List Edge) (r : Relations) (m : Dict (String × String) (List Edge))
    → Lacks 124 f
    → Edges.IsDict r
    → Edges.IsDict (record { adj = insert (f, l) es r.adj; radj = m })
insert-IsDict f l es r m p w = record {
  distinct = insert-IsDistinct (f, l) es r.adj w.distinct;
  plain = insert-All (λ e. Lacks 124 e.0.0) (f, l) es r.adj p w.plain;
}

pub link-IsDict :
    (frm rel to : String) (q : ℕ) (r : Relations)
    → Lacks 124 frm
    → Edges.IsDict r
    → Edges.IsDict (link frm rel to q r)
unfolding link append_to
link-IsDict frm rel to q r p w = elim (Bool-cases (has_open to (lookup_list (frm, rel) r.adj))) [
  | inl old ↦ rw old w
  | inr new ↦ rw new (insert-IsDict frm rel _ r _ p w)
]

-- The key of a dict without bars has none.
lookup-plain :
    (f l : String) (es : List Edge) (m : Dict (String × String) (List Edge))
    → All (λ e. Lacks 124 e.0.0) m
    → lookup (f, l) m ≡ some es
    → Lacks 124 f
unfolding lookup
lookup-plain f l es [] p e = cc e
lookup-plain f l es ((key, es') ∷ m) (p, ps) e = elim (Bool-cases (key == (f, l))) [
  | inl same ↦ subst (λ k. Lacks 124 k.0) ((pair_beq_iff string_eq string_eq key (f, l)).0 same) p
  | inr other ↦ lookup-plain f l es m ps (rw other at e)
]

pub unlink-IsDict :
    (frm rel to : String) (q : ℕ) (r : Relations)
    → Edges.IsDict r
    → Edges.IsDict (unlink frm rel to q r)
unfolding unlink close_in
unlink-IsDict frm rel to q r w = elim (Option-cases (lookup (frm, rel) r.adj)) [
  | inl absent ↦ rw (unlink, close_in, absent) (record { distinct = w.distinct; plain = w.plain })
  | inr (es, there) ↦
      rw (unlink, close_in, there)
        (insert-IsDict frm rel _ r _ (lookup-plain frm rel es r.adj w.plain there) w)
]

module _ {F : Type 0} (V : Values F) where
  pub record IsKept (s : State V) : Type 0 where
    pub documents : Documents.IsDict s.store
    pub edges : Edges.IsDict s.relations

  -- An op that links no node with a bar in its name.
  abbrev pub IsPlainPayload : Payload V → Type 0
  IsPlainPayload (Engine.put key coll id doc) = Unit
  IsPlainPayload (Engine.delete key coll id) = Unit
  IsPlainPayload (Engine.link frm rel to) = Lacks 124 frm
  IsPlainPayload (Engine.unlink frm rel to) = Unit
  IsPlainPayload (Engine.put_file name tier version root) = Unit

  apply_payload-IsKept :
      (p : Payload V) (q : ℕ) (s t : State V)
      → IsPlainPayload p
      → IsKept s
      → apply_payload V p q s ≡ some t
      → IsKept t
  unfolding apply_payload Store.put Store.delete
  apply_payload-IsKept (Engine.put key coll id doc) q s t p k e =
      let (es, er) = with_indexes_inv V _ _ t e in
      record {
        documents = subst Documents.IsDict es (write-IsDict key _ q s.store k.documents);
        edges = subst Edges.IsDict er k.edges;
      }
  apply_payload-IsKept (Engine.delete key coll id) q s t p k e =
      let (es, er) = with_indexes_inv V _ _ t e in
      record {
        documents = subst Documents.IsDict es (write-IsDict key _ q s.store k.documents);
        edges = subst Edges.IsDict er k.edges;
      }
  apply_payload-IsKept (Engine.link frm rel to) q s t p k e =
      subst IsKept (some-eq e)
        (record { documents = k.documents; edges = link-IsDict frm rel to q s.relations p k.edges })
  apply_payload-IsKept (Engine.unlink frm rel to) q s t p k e =
      subst IsKept (some-eq e)
        (record { documents = k.documents; edges = unlink-IsDict frm rel to q s.relations k.edges })
  apply_payload-IsKept (Engine.put_file name tier version root) q s t p k e =
      subst IsKept (some-eq e) (record { documents = k.documents; edges = k.edges })

  apply_op-IsKept :
      (o : Op (Payload V) F) (s t : State V)
      → IsPlainPayload o.payload
      → IsKept s
      → apply_op V o s ≡ some t
      → IsKept t
  unfolding apply_op
  apply_op-IsKept o s t p k e = elim (Option-cases (apply_payload V o.payload o.seq s)) [
    | inl raised ↦ cc (rw raised at e)
    | inr (u, good) ↦
        let kept = apply_payload-IsKept o.payload o.seq s u p k good in
        subst IsKept (some-eq (rw good at e))
          (record { documents = kept.documents; edges = kept.edges })
  ]

  pub replay-IsKept :
      (ops : List (Op (Payload V) F)) (s t : State V)
      → All (λ o. IsPlainPayload o.payload) ops
      → IsKept s
      → replay V ops (some s) ≡ some t
      → IsKept t
  unfolding replay
  replay-IsKept [] s t p k e = subst IsKept (some-eq e) k
  replay-IsKept (o ∷ ops) s t (p, ps) k e = elim (Option-cases (apply_op V o s)) [
    | inl raised ↦ cc (rw (replay, raised) at e, replay-none V ops)
    | inr (u, step) ↦
        replay-IsKept ops u t ps (apply_op-IsKept o s u p k step) (rw (replay, step) at e)
  ]

  pub IsKept-fresh : (ix : Indexes V) → IsKept (fresh V ix)
  IsKept-fresh ix = record { documents = documents_empty; edges = edges_empty }
