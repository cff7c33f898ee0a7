-- ===== src/Execute/Reach.antt =====
-- That a database of python/nedb/engine.py that calls have built lists its documents.
use aof_db.Prelude.{
  ℕ, suc, ◌≡◌, refl, subst, String, false, some, List, [], ◌∷◌, contains, Option-cases, inl, inr,
  some-eq, arith, All, lookup, lookup_list, string_eq,
}
use aof_db.Store as Store
use aof_db.Index.{Values, Indexes, held_ids}
use aof_db.Log.{Op, Codec}
use aof_db.Log.Slice.{NumberedFrom, NumberedFrom-tail}
use aof_db.Engine.{Payload, State, Nedb, apply_op, apply_payload, replay, fresh}
use aof_db.Engine.AsOf as AsOf
use aof_db.Engine.AsOf.{apply_op-steps, OpSteps-IsValid, IsValid-fresh}
use aof_db.Engine.Recovery.{Reaches, Reaches-IsFold, replay-none}
use aof_db.Execute.Listing.{Named, Listed, same_state, apply_payload-Listed}

module _ {F : Type 0} (V : Values F) where
  abbrev pub NamedOp : Op (Payload V) F → Type 0
  NamedOp o = Named V o.payload

  -- The indexes are declared and have no entry.
  abbrev pub HasNoEntry : Indexes V → Type 0
  HasNoEntry ix =
      (coll field key : String) (v : V.Value) → contains (held_ids V coll field v ix) key ≡ false

  apply_op-Listed :
      (o : Op (Payload V) F) (q : ℕ) (s t : State V)
      → o.seq ≡ q
      → NamedOp o
      → AsOf.IsValid V q s
      → Listed V s
      → apply_op V o s ≡ some t
      → Listed V t
  unfolding apply_op
  apply_op-Listed o q s t at n v h e = elim (Option-cases (apply_payload V o.payload o.seq s)) [
    | inl raised ↦ cc (rw raised at e)
    | inr (u, good) ↦
        let step = subst (λ k. apply_payload V o.payload k s ≡ some u) at good in
        let after = apply_payload-Listed V o.payload q s u n v.stored h step in
        subst (Listed V) (some-eq (rw good at e)) (same_state V u _ after refl refl)
  ]

  replay-Listed :
      (ops : List (Op (Payload V) F)) (q : ℕ) (s t : State V)
      → All NamedOp ops
      → AsOf.IsValid V q s
      → NumberedFrom q ops
      → Listed V s
      → replay V ops (some s) ≡ some t
      → Listed V t
  unfolding replay
  replay-Listed [] q s t n v k h e = subst (Listed V) (some-eq e) h
  replay-Listed (o ∷ ops) q s t n v k h e = elim (Option-cases (apply_op V o s)) [
    | inl raised ↦ cc (rw (replay, raised) at e, replay-none V ops)
    | inr (u, step) ↦
        let at : o.seq ≡ q = omega (arith, k 0 o refl) in
        let steps = apply_op-steps V o q s u at v step in
        replay-Listed ops (suc q) u t n.1 (OpSteps-IsValid V q s u steps)
          (NumberedFrom-tail q o ops k) (apply_op-Listed o q s u at n.0 v h step)
          (rw (replay, step) at e)
  ]

  Listed-fresh : (ix : Indexes V) → HasNoEntry ix → Listed V (fresh V ix)
  unfolding Store.get lookup_list lookup
  Listed-fresh ix h = record {
    complete = λ c j f d w m p k g at. cc g;
    within = λ c j f w m k held. cc (held, h c f j w);
  }

  pub Listed-Reaches :
      (C : Codec (Payload V) F) (ix : Indexes V) (db : Nedb V)
      → HasNoEntry ix
      → All NamedOp db.log.ops
      → Reaches V C ix db
      → Listed V db.state
  Listed-Reaches C ix db none_yet n s =
      let h = Reaches-IsFold V C ix s in
      replay-Listed db.log.ops 0 (fresh V ix) db.state n (IsValid-fresh V ix)
        (λ i o e. omega (arith, h.log_valid.numbered i o e)) (Listed-fresh ix none_yet) h.folds
