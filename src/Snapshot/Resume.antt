-- ===== src/Snapshot/Resume.antt =====
-- A database that is opened from a snapshot of python/nedb/snapshot.py, and goes on with the ops of the
-- log after the checkpoint.
use aof_db.Prelude.{
  ℕ, suc, ◌+◌, ◌≡◌, ◌≤◌, refl, ap, true, false, Option, none, some, List, [], ◌∷◌, ◌++◌, length,
  Option-cases, inl, inr, some-eq, arith, ltb, insert, string_eq,
}
use aof_db.Store as Store
use aof_db.Store.TimeTravel.{get-put, get-delete}
use aof_db.Relations.{neighbors}
use aof_db.Relations as Graph
use aof_db.Relations.Writes.{neighbors-link, neighbors-unlink}
use aof_db.Index.{Values, Indexes}
use aof_db.Log.{Op}
use aof_db.Log.Slice.{NumberedFrom, NumberedFrom-tail}
use aof_db.Engine.{
  Payload, put, delete, link, unlink, put_file, State, apply_payload, apply_op, replay,
}
use aof_db.Engine.Recovery.{replay-none}
use aof_db.Engine.TimeTravel.{with_indexes_inv}
use aof_db.Engine.AsOf.{Agree, IsValid, apply_op-steps, OpSteps-IsValid}
use aof_db.Snapshot.{Snapshot, load_store, load_relations, loaded_state, replay_after}

module _ {F : Type 0} (V : Values F) where
  Agree-eq :
      (n : Option ℕ) (s s' t t' : State V)
      → (s.store ≡ s'.store) × (s.relations ≡ s'.relations)
      → (t.store ≡ t'.store) × (t.relations ≡ t'.relations)
      → Agree V n s n t
      → Agree V n s' n t'
  Agree-eq n s s' t t' (a, b) (c, d) h = record {
    docs = λ k. rw (← a, ← c) (h.docs k);
    edges = λ f l e. rw (← b, ← d) (h.edges f l e);
  }

  -- One op on two states that agree on every read as of `n`.
  apply_payload-Agree :
      (p : Payload V) (q : ℕ) (n : Option ℕ) (s s' t t' : State V)
      → IsValid V q s
      → IsValid V q t
      → Agree V n s n t
      → apply_payload V p q s ≡ some s'
      → apply_payload V p q t ≡ some t'
      → Agree V n s' n t'
  unfolding apply_payload
  apply_payload-Agree (put key coll id doc) q n s s' t t' v w h e f =
      let d = insert "_seq" (V.of_seq q) doc in
      Agree-eq n (record s { store = Store.put key d q s.store }) s'
        (record t { store = Store.put key d q t.store }) t' (with_indexes_inv V _ _ s' e)
        (with_indexes_inv V _ _ t' f)
        (record {
          docs = λ k.
              rw
                (
                  get-put s.store q q v.stored (omega arith) key k d n,
                  get-put t.store q q w.stored (omega arith) key k d n,
                  h.docs k,
                )
                refl;
          edges = h.edges;
        })
  apply_payload-Agree (delete key coll id) q n s s' t t' v w h e f =
      Agree-eq n (record s { store = Store.delete key q s.store }) s'
        (record t { store = Store.delete key q t.store }) t' (with_indexes_inv V _ _ s' e)
        (with_indexes_inv V _ _ t' f)
        (record {
          docs = λ k.
              rw
                (
                  get-delete s.store q q v.stored (omega arith) key k n,
                  get-delete t.store q q w.stored (omega arith) key k n,
                  h.docs k,
                )
                refl;
          edges = h.edges;
        })
  apply_payload-Agree (link frm rel to) q n s s' t t' v w h e f =
      rw (← some-eq e, ← some-eq f)
        (record {
          docs = h.docs;
          edges = λ a l b.
              rw
                (
                  neighbors-link frm rel to q q s.relations v.linked (omega arith) a l b n,
                  neighbors-link frm rel to q q t.relations w.linked (omega arith) a l b n,
                  h.edges a l b,
                )
                refl;
        })
  apply_payload-Agree (unlink frm rel to) q n s s' t t' v w h e f =
      rw (← some-eq e, ← some-eq f)
        (record {
          docs = h.docs;
          edges = λ a l b.
              rw
                (
                  neighbors-unlink frm rel to q q s.relations v.linked (omega arith) a l b n,
                  neighbors-unlink frm rel to q q t.relations w.linked (omega arith) a l b n,
                  h.edges a l b,
                )
                refl;
        })
  apply_payload-Agree (put_file name tier version root) q n s s' t t' v w h e f =
      rw (← some-eq e, ← some-eq f) h

  apply_op-Agree :
      (o : Op (Payload V) F) (n : Option ℕ) (s s' t t' : State V)
      → IsValid V o.seq s
      → IsValid V o.seq t
      → Agree V n s n t
      → apply_op V o s ≡ some s'
      → apply_op V o t ≡ some t'
      → Agree V n s' n t'
  unfolding apply_op
  apply_op-Agree o n s s' t t' v w h e f = elim (Option-cases (apply_payload V o.payload o.seq s)) [
    | inl raised ↦ cc (rw raised at e)
    | inr (a, good) ↦ elim (Option-cases (apply_payload V o.payload o.seq t)) [
      | inl raised ↦ cc (rw raised at f)
      | inr (b, fine) ↦
          let both = apply_payload-Agree o.payload o.seq n s a t b v w h good fine in
          rw (← some-eq (rw good at e), ← some-eq (rw fine at f))
            (record { docs = both.docs; edges = both.edges })
    ]
  ]

  pub replay-Agree :
      (ops : List (Op (Payload V) F)) (q : ℕ) (n : Option ℕ) (s s' t t' : State V)
      → NumberedFrom q ops
      → IsValid V q s
      → IsValid V q t
      → Agree V n s n t
      → replay V ops (some s) ≡ some s'
      → replay V ops (some t) ≡ some t'
      → Agree V n s' n t'
  unfolding replay
  replay-Agree [] q n s s' t t' num v w h e f = rw (← some-eq e, ← some-eq f) h
  replay-Agree (o ∷ ops) q n s s' t t' num v w h e f = elim (Option-cases (apply_op V o s)) [
    | inl raised ↦ cc (rw (replay, raised) at e, replay-none V ops)
    | inr (a, step) ↦ elim (Option-cases (apply_op V o t)) [
      | inl raised ↦ cc (rw (replay, raised) at f, replay-none V ops)
      | inr (b, other) ↦
          let at_q : o.seq ≡ q = omega (arith, num 0 o refl) in
          let a_steps = apply_op-steps V o q s a at_q v step in
          let b_steps = apply_op-steps V o q t b at_q w other in
          replay-Agree ops (suc q) n a s' b t' (NumberedFrom-tail q o ops num)
            (OpSteps-IsValid V q s a a_steps) (OpSteps-IsValid V q t b b_steps)
            (apply_op-Agree o n s a t b (rw at_q v) (rw at_q w) h step other)
            (rw (replay, step) at e) (rw (replay, other) at f)
    ]
  ]

  -- The ops up to the checkpoint are passed over.
  pub replay_after-past :
      (ops rest : List (Op (Payload V) F)) (k q : ℕ) (t : State V)
      → NumberedFrom k (ops ++ rest)
      → k + length ops ≤ suc q
      → replay_after V q (ops ++ rest) (some t) ≡ replay_after V q rest (some t)
  unfolding replay_after
  replay_after-past [] rest k q t num h = refl
  replay_after-past (o ∷ ops) rest k q t num h =
      let old : ltb q o.seq ≡ false = ground (arith, num 0 o refl) in
      rw (replay_after, old)
        (replay_after-past ops rest (suc k) q t (NumberedFrom-tail k o (ops ++ rest) num)
          (omega arith))

  pub replay_after-later :
      (ops : List (Op (Payload V) F)) (k q : ℕ) (t : Option (State V))
      → NumberedFrom k ops
      → suc q ≤ k
      → replay_after V q ops t ≡ replay V ops t
  unfolding replay_after replay
  replay_after-later [] k q t num h = refl
  replay_after-later (o ∷ ops) k q none num h = refl
  replay_after-later (o ∷ ops) k q (some t) num h =
      let new : ltb q o.seq ≡ true = ground (arith, num 0 o refl) in
      rw (replay_after, new)
        (replay_after-later ops (suc k) q (apply_op V o t) (NumberedFrom-tail k o ops num)
          (omega arith))

  pub loaded_state_inv :
      (snap : Snapshot V) (ix : Option (Indexes V)) (t : State V)
      → loaded_state V snap ix ≡ some t
      → (load_store snap.store Store.empty ≡ t.store)
        × (load_relations snap.relations Graph.empty ≡ t.relations)
  loaded_state_inv snap none t e = cc e
  loaded_state_inv snap (some ix) t e =
      (ap (λ u. u.store) (some-eq e), ap (λ u. u.relations) (some-eq e))
