-- ===== src/Engine/AsOf.antt =====
-- The reads as of a seq of python/nedb/engine.py, over the fold of a whole log.
use aof_db.Prelude.{
  ℕ, suc, ◌≡◌, ◌≤◌, ◌<◌, refl, ◌∙◌, String, lookup, lookup_list, Option, none, some, List, [], ◌∷◌,
  Option-cases, Bool-cases, inl, inr, some-eq, arith, leb, contains, subst, string_eq,
}
use aof_db.Store as Store
use aof_db.Store.Invariant as Stored
use aof_db.Relations.{neighbors}
use aof_db.Relations as Graph
use aof_db.Relations.History as Edges
use aof_db.Index.{Values, Indexes}
use aof_db.Log.{Op, Codec, slice_until}
use aof_db.Log.Slice.{NumberedFrom, NumberedFrom-tail, slice_until_none}
use aof_db.Engine.{Payload, Nedb, State, replay, apply_op, apply_payload, fresh}
use aof_db.Engine.TimeTravel.{OpSteps, apply_payload-steps}
use aof_db.Engine.Recovery.{IsFold, Reaches, Reaches-IsFold, replay-none}

module _ {F : Type 0} (V : Values F) where
  -- Every read of a document or of an edge, as of `n` in one state and as of `m` in the other, is the
  -- same.
  pub record Agree (n : Option ℕ) (s : State V) (m : Option ℕ) (t : State V) : Type 0 where
    pub docs : (key : String) → Store.get key n s.store ≡ Store.get key m t.store
    pub edges :
        (frm rel to : String)
        → contains (neighbors frm rel n s.relations) to
          ≡ contains (neighbors frm rel m t.relations) to

  Agree-trans : {n m k : Option ℕ} {s t u : State V} → Agree n s m t → Agree m t k u → Agree n s k u
  Agree-trans a b = record {
    docs = λ key. a.docs key ∙ b.docs key;
    edges = λ f l t. a.edges f l t ∙ b.edges f l t;
  }

  pub record IsValid (q : ℕ) (s : State V) : Type 0 where
    pub stored : Stored.IsValid q s.store
    pub linked : Edges.IsValid q s.relations

  pub apply_op-steps :
      (o : Op (Payload V) F) (q : ℕ) (s t : State V)
      → o.seq ≡ q
      → IsValid q s
      → apply_op V o s ≡ some t
      → OpSteps V q s t
  unfolding apply_op
  apply_op-steps o q s t n v e = elim (Option-cases (apply_payload V o.payload o.seq s)) [
    | inl raised ↦ cc (rw raised at e)
    | inr (u, good) ↦
        let at_q = subst (λ k. apply_payload V o.payload k s ≡ some u) n good in
        let steps = apply_payload-steps V o.payload q s u v.stored v.linked at_q in
        subst (OpSteps V q s) (some-eq (rw good at e))
          (record { docs = steps.docs; edges = steps.edges })
  ]

  module _ (q : ℕ) (s t : State V) (h : OpSteps V q s t) where
    pub OpSteps-IsValid : IsValid (suc q) t
    OpSteps-IsValid = record { stored = h.docs.keeps; linked = h.edges.keeps }

    OpSteps-past : (n : ℕ) → n < q → Agree (some n) t (some n) s
    OpSteps-past n l = record {
      docs = λ k. h.docs.past k n l;
      edges = λ f r e. h.edges.past (f, r, e) n l;
    }

    OpSteps-present : (n : ℕ) → q ≤ n → Agree (some n) s none s → Agree (some n) t none t
    OpSteps-present n l a = record {
      docs = λ k. h.docs.present n l a.docs k;
      edges = λ f r e. h.edges.present n l (λ (f, r, e). a.edges f r e) (f, r, e);
    }

  -- Ops after `n` change no read as of `n`.
  replay-past :
      (ops : List (Op (Payload V) F)) (q n : ℕ) (s t : State V)
      → n < q
      → IsValid q s
      → NumberedFrom q ops
      → replay V ops (some s) ≡ some t
      → Agree (some n) t (some n) s
  unfolding replay
  replay-past [] q n s t l v h e =
      rw (← some-eq e) (record { docs = λ k. refl; edges = λ f r e. refl })
  replay-past (o ∷ ops) q n s t l v h e = elim (Option-cases (apply_op V o s)) [
    | inl raised ↦ cc (rw (replay, raised) at e, replay-none V ops)
    | inr (u, step) ↦
        let steps = apply_op-steps o q s u (omega (arith, h 0 o refl)) v step in
        Agree-trans
          (replay-past ops (suc q) n u t (omega arith) (OpSteps-IsValid q s u steps)
            (NumberedFrom-tail q o ops h) (rw (replay, step) at e))
          (OpSteps-past q s u steps n l)
  ]

  replay-as_of :
      (ops : List (Op (Payload V) F)) (q n : ℕ) (s t : State V)
      → IsValid q s
      → NumberedFrom q ops
      → Agree (some n) s none s
      → replay V ops (some s) ≡ some t
      → (u : State V) × (replay V (slice_until n ops) (some s) ≡ some u) × Agree (some n) t none u
  unfolding replay slice_until
  replay-as_of [] q n s t v h a e = (s, refl, rw (← some-eq e) a)
  replay-as_of (o ∷ ops) q n s t v h a e = elim (Option-cases (apply_op V o s)) [
    | inl raised ↦ cc (rw (replay, raised) at e, replay-none V ops)
    | inr (m, step) ↦
        let steps = apply_op-steps o q s m (omega (arith, h 0 o refl)) v step in
        elim (Bool-cases (leb o.seq n)) [
          | inl seen ↦
              let (u, folded, agree) =
                replay-as_of ops (suc q) n m t (OpSteps-IsValid q s m steps)
                  (NumberedFrom-tail q o ops h)
                  (OpSteps-present q s m steps n (ground (arith, h 0 o refl)) a)
                  (rw (replay, step) at e) in
              (u, rw seen (rw (replay, step) folded), agree)
          | inr later ↦ (
            s,
            rw later (
                rw
                  (slice_until_none (suc q) n ops (ground (arith, h 0 o refl))
                    (NumberedFrom-tail q o ops h))
                  refl),
            Agree-trans (replay-past (o ∷ ops) q n s t (ground (arith, h 0 o refl)) v h e) a,
          )
        ]
  ]

  pub IsValid-fresh : (ix : Indexes V) → IsValid 0 (fresh V ix)
  IsValid-fresh ix = record { stored = Stored.IsValid-empty; linked = Edges.IsValid-empty }

  Agree-fresh : (n : ℕ) (ix : Indexes V) → Agree (some n) (fresh V ix) none (fresh V ix)
  unfolding Store.get neighbors Graph.live lookup_list lookup
  Agree-fresh n ix = record { docs = λ k. refl; edges = λ f r e. refl }

  pub reads_as_of-IsFold :
      (C : Codec (Payload V) F) (ix : Indexes V) (db : Nedb V) (n : ℕ)
      → IsFold V C ix db
      → (past : State V) × (replay V (slice_until n db.log.ops) (some (fresh V ix)) ≡ some past)
        × Agree (some n) db.state none past
  reads_as_of-IsFold C ix db n h =
      replay-as_of db.log.ops 0 n (fresh V ix) db.state (IsValid-fresh ix)
        (λ i o e. omega (arith, h.log_valid.numbered i o e)) (Agree-fresh n ix) h.folds

  -- Time travel: in a database that calls have built from an empty one, every read of a document or
  -- of an edge as of a seq is the same read at the head of the state that the log truncated at that
  -- seq folds into, and that fold succeeds.
  pub reads_as_of-Reaches :
      (C : Codec (Payload V) F) (ix : Indexes V) (db : Nedb V) (n : ℕ)
      → Reaches V C ix db
      → (past : State V) × (replay V (slice_until n db.log.ops) (some (fresh V ix)) ≡ some past)
        × Agree (some n) db.state none past
  reads_as_of-Reaches C ix db n s = reads_as_of-IsFold C ix db n (Reaches-IsFold V C ix s)
